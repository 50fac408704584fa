-- ===== src/Policy/Checked.antt =====
-- The policies that are valid.
use ottv.Prelude.{
  ℕ, ◌≤◌, ◌≡◌, ◌↔◌, ◌⊎◌, refl, ap, ◌∙◌, Bool, true, false, some, List, pos, negsuc, arith, inl, inr,
}
use ottv.Policy.{
  Field, missing, integer, otherwise, Version, arena_policy_v1, bot_cup_policy_v1, other_version,
  strict_less_than_budget, other_boundary, referee_monotonic, other_source, Policy,
  bot_cup_match_policy, PolicyError, ClockSource, Boundary, common_errors,
  unsupported_first_move_grace, unsupported_max_plies, is_number, is_missing, is_positive_integer,
  unless, is_strict, is_monotonic, policy_errors, version_errors, plies_errors, no_errors,
  validate_match_policy,
}

-- A policy of the arena: 400 plies, no grace for the first move, and positive times of any length.
pub record IsArenaPolicy (p : Policy) : Type 0 where
  version : p.match_policy_version ≡ arena_policy_v1
  plies : p.max_plies ≡ integer (pos 400)
  initial_time : (n : ℕ) × (1 ≤ n) × (p.initial_time_ms ≡ integer (pos n))
  turn_time : (n : ℕ) × (1 ≤ n) × (p.turn_time_limit_ms ≡ integer (pos n))
  grace : p.first_move_grace_ms ≡ missing
  boundary : p.clock_boundary ≡ strict_less_than_budget
  source : p.clock_source ≡ referee_monotonic

number_iff : (f : Field) (n : ℕ) → (is_number f n ≡ true) ↔ (f ≡ integer (pos n))
number_iff missing n = (λ h. absurd (cc), λ h. absurd (cc))
number_iff otherwise n = (λ h. absurd (cc), λ h. absurd (cc))
number_iff (integer (pos m)) n = (
  λ h. let e : m ≡ n = ground arith in ap (λ (k : ℕ). integer (pos k)) e,
  λ h. let e : m ≡ n = cc in ground arith,
)
number_iff (integer (negsuc m)) n = (λ h. absurd (cc), λ h. absurd (cc))

positive_iff :
    (f : Field) → (is_positive_integer f ≡ true) ↔ ((n : ℕ) × (1 ≤ n) × (f ≡ integer (pos n)))
positive_iff missing = (λ h. absurd (cc), λ (n, m, h). absurd (cc))
positive_iff otherwise = (λ h. absurd (cc), λ (n, m, h). absurd (cc))
positive_iff (integer (pos n)) =
    (λ h. (n, ground arith, refl), λ (k, m, h). let e : n ≡ k = cc in ground arith)
positive_iff (integer (negsuc m)) = (λ h. absurd (cc), λ (n, l, h). absurd (cc))

-- A test before other errors.
no_errors-next :
    (b : Bool) (e : PolicyError) (es : List PolicyError)
    → (no_errors (unless b e es) ≡ true) ↔ ((b ≡ true) × (no_errors es ≡ true))
no_errors-next true e es = (λ h. (refl, h), λ (h, k). k)
no_errors-next false e es = (λ h. absurd (cc), λ (h, k). absurd (cc))

strict_iff : (b : Boundary) → (is_strict b ≡ true) ↔ (b ≡ strict_less_than_budget)
strict_iff strict_less_than_budget = (λ h. refl, λ h. refl)
strict_iff other_boundary = (λ h. absurd (cc), λ h. absurd (cc))

monotonic_iff : (c : ClockSource) → (is_monotonic c ≡ true) ↔ (c ≡ referee_monotonic)
monotonic_iff referee_monotonic = (λ h. refl, λ h. refl)
monotonic_iff other_source = (λ h. absurd (cc), λ h. absurd (cc))

missing_iff : (f : Field) → (is_missing f ≡ true) ↔ (f ≡ missing)
missing_iff missing = (λ h. refl, λ h. refl)
missing_iff (integer i) = (λ h. absurd (cc), λ h. absurd (cc))
missing_iff otherwise = (λ h. absurd (cc), λ h. absurd (cc))

-- What every version asks for.
record IsTimed (p : Policy) : Type 0 where
  initial_time : (n : ℕ) × (1 ≤ n) × (p.initial_time_ms ≡ integer (pos n))
  turn_time : (n : ℕ) × (1 ≤ n) × (p.turn_time_limit_ms ≡ integer (pos n))
  boundary : p.clock_boundary ≡ strict_less_than_budget
  source : p.clock_source ≡ referee_monotonic

common_iff : (p : Policy) → (no_errors (common_errors p) ≡ true) ↔ IsTimed p
common_iff p = (there, back)
  where
    there : no_errors (common_errors p) ≡ true → IsTimed p
    there h =
        let (a, h₁) = (no_errors-next (is_positive_integer p.initial_time_ms) _ _).0 h in
        let (b, h₂) = (no_errors-next (is_positive_integer p.turn_time_limit_ms) _ _).0 h₁ in
        let (c, h₃) = (no_errors-next (is_strict p.clock_boundary) _ _).0 h₂ in
        record {
          initial_time = (positive_iff p.initial_time_ms).0 a;
          turn_time = (positive_iff p.turn_time_limit_ms).0 b;
          boundary = (strict_iff p.clock_boundary).0 c;
          source =
              (monotonic_iff p.clock_source).0
                (((no_errors-next (is_monotonic p.clock_source) _ _).0 h₃).0);
        }

    back : IsTimed p → no_errors (common_errors p) ≡ true
    back t = (no_errors-next (is_positive_integer p.initial_time_ms) _ _).1 (
      (positive_iff p.initial_time_ms).1 t.initial_time,
      (no_errors-next (is_positive_integer p.turn_time_limit_ms) _ _).1 (
        (positive_iff p.turn_time_limit_ms).1 t.turn_time,
        (no_errors-next (is_strict p.clock_boundary) _ _).1 (
          (strict_iff p.clock_boundary).1 t.boundary,
          (no_errors-next (is_monotonic p.clock_source) _ _).1
              ((monotonic_iff p.clock_source).1 t.source, refl),
        ),
      ),
    )

-- The errors of the arena's version, of the cup's, and of any other.
arena_iff :
    (p : Policy)
    → p.match_policy_version ≡ arena_policy_v1
    → (no_errors
          (version_errors arena_policy_v1 p (plies_errors arena_policy_v1 p (common_errors p)))
        ≡ true)
      ↔ IsArenaPolicy p
unfolding version_errors plies_errors
arena_iff p v = (there, back)
  where
    there :
        no_errors
            (version_errors arena_policy_v1 p (plies_errors arena_policy_v1 p (common_errors p)))
          ≡ true
        → IsArenaPolicy p
    there h =
        let (a, h₁) =
          (no_errors-next (is_missing p.first_move_grace_ms) unsupported_first_move_grace _).0 h in
        let (b, h₂) = (no_errors-next (is_number p.max_plies 400) unsupported_max_plies _).0 h₁ in
        let t = (common_iff p).0 h₂ in
        record {
          version = v;
          plies = (number_iff p.max_plies 400).0 b;
          initial_time = t.initial_time;
          turn_time = t.turn_time;
          grace = (missing_iff p.first_move_grace_ms).0 a;
          boundary = t.boundary;
          source = t.source;
        }

    back :
        IsArenaPolicy p
        → no_errors
            (version_errors arena_policy_v1 p (plies_errors arena_policy_v1 p (common_errors p)))
          ≡ true
    back q = (no_errors-next (is_missing p.first_move_grace_ms) unsupported_first_move_grace _).1 (
      (missing_iff p.first_move_grace_ms).1 q.grace,
      (no_errors-next (is_number p.max_plies 400) unsupported_max_plies _).1 (
        (number_iff p.max_plies 400).1 q.plies,
        (common_iff p).1 (record {
          initial_time = q.initial_time;
          turn_time = q.turn_time;
          boundary = q.boundary;
          source = q.source;
        }),
      ),
    )

policy_eq :
    (v v' : Version) (m m' i i' t t' g g' : Field) (b b' : Boundary) (c c' : ClockSource)
    → v ≡ v'
    → m ≡ m'
    → i ≡ i'
    → t ≡ t'
    → g ≡ g'
    → b ≡ b'
    → c ≡ c'
    → ◌≡◌ {A = Policy}
        (record {
          match_policy_version = v;
          max_plies = m;
          initial_time_ms = i;
          turn_time_limit_ms = t;
          first_move_grace_ms = g;
          clock_boundary = b;
          clock_source = c;
        })
        (record {
          match_policy_version = v';
          max_plies = m';
          initial_time_ms = i';
          turn_time_limit_ms = t';
          first_move_grace_ms = g';
          clock_boundary = b';
          clock_source = c';
        })
policy_eq v v' m m' i i' t t' g g' b b' c c' e f h k l n o = rw (e, f, h, k, l, n, o) refl

cup_valid :
    (p : Policy)
    → p.match_policy_version ≡ bot_cup_policy_v1
    → no_errors
        (version_errors bot_cup_policy_v1 p (plies_errors bot_cup_policy_v1 p (common_errors p)))
      ≡ true
    → p ≡ bot_cup_match_policy
unfolding version_errors plies_errors
cup_valid p v h =
    let (a, h₁) = (no_errors-next (is_number p.max_plies 300) _ _).0 h in
    let (b, h₂) = (no_errors-next (is_number p.initial_time_ms 30000) _ _).0 h₁ in
    let (c, h₃) = (no_errors-next (is_number p.turn_time_limit_ms 500) _ _).0 h₂ in
    let (d, h₄) = (no_errors-next (is_number p.first_move_grace_ms 5000) _ _).0 h₃ in
    let (_, h₅) = (no_errors-next (is_positive_integer p.max_plies) _ _).0 h₄ in
    let t = (common_iff p).0 h₅ in
    policy_eq _ _ _ _ _ _ _ _ _ _ _ _ _ _ v ((number_iff p.max_plies 300).0 a)
      ((number_iff p.initial_time_ms 30000).0 b) ((number_iff p.turn_time_limit_ms 500).0 c)
      ((number_iff p.first_move_grace_ms 5000).0 d) t.boundary t.source

-- A policy is valid exactly when it is one of the arena, with 400 plies, positive times, no grace for
-- the first move, the strict boundary and the monotonic clock, or the policy of the cup itself.
pub validate_match_policy_iff :
    (p : Policy)
    → ((validate_match_policy (some p)).ok ≡ true) ↔ (IsArenaPolicy p ⊎ (p ≡ bot_cup_match_policy))
unfolding validate_match_policy policy_errors
validate_match_policy_iff p = (there p.match_policy_version refl, back)
  where
    errors_at : Version → Bool
    errors_at v = no_errors (version_errors v p (plies_errors v p (common_errors p)))

    there :
        (v : Version)
        → p.match_policy_version ≡ v
        → errors_at v ≡ true
        → IsArenaPolicy p ⊎ (p ≡ bot_cup_match_policy)
    there arena_policy_v1 e h = inl ((arena_iff p e).0 h)
    there bot_cup_policy_v1 e h = inr (cup_valid p e h)
    there other_version e h = absurd (cc)

    back : IsArenaPolicy p ⊎ (p ≡ bot_cup_match_policy) → (validate_match_policy (some p)).ok ≡ true
    back (inl q) = ap errors_at q.version ∙ (arena_iff p q.version).1 q
    back (inr e) = ap (λ (q : Policy). (validate_match_policy (some q)).ok) e
