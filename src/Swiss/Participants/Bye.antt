-- ===== src/Swiss/Participants/Bye.antt =====
-- The bye of a round: who gets it, and the pool that is left.
use Prim.Native.Nat.{Ordering, ◌%◌}
use mathlib.Core.Path.{subst}
use ottv.Prelude.{
  ℕ, ◌+◌, ◌≤◌, ◌≡◌, refl, sym, ap, ◌∙◌, ◌⊎◌, Bool, true, false, Option, none, some, List, [], ◌∷◌,
  ◌==◌, leb, All, All-map_of, All-zip, All-filter, count, count-sort_by, filter, filter-holds,
  length, length-sort_by, is_gt, Heads, Heads-sort_by, All-sort_by, arith, inl, inr, Bool-cases,
  none_of_count, count_of_none, All-filter_of, ltb,
}
use ottv.Names.{Text}
use ottv.Swiss.Types.{Participant, same_text, same_text_refl}
use ottv.Swiss.Participants.{
  min_bye_count, is_odd, weakest_first, bye_candidates, without, without_head, select_fair_bye,
}
use ottv.Swiss.Matching.Distinct.{Apart, Distinct, one, same_text_comm}

without-none :
    (v : Participant) (ps : List Participant) → All (Apart v) ps → without ps v.bot_id ≡ ps
without-none v [] a = refl
without-none v (p ∷ ps) (x, a) = rw x (ap (λ (qs : List Participant). p ∷ qs) (without-none v ps a))

-- `v` is the only one that goes.
abbrev pub Leaves : List Participant → Participant → Type 0
Leaves ps v = (p : Participant → Bool) → count p (without ps v.bot_id) + one p v ≡ count p ps

Distinct-Leaves : (ps : List Participant) → Distinct ps → All (Leaves ps) ps
Distinct-Leaves [] d = tt
Distinct-Leaves (c ∷ cs) (a, d) = (
  λ p. rw (same_text_refl c.bot_id, without-none c cs a) (omega arith),
  All-zip (Apart c) (Leaves cs) (Leaves (c ∷ cs)) cs
      (λ v y r p.
        let z : same_text c.bot_id v.bot_id ≡ false = same_text_comm c.bot_id v.bot_id ∙ y in
        rw z (omega (arith, r p)))
      a (Distinct-Leaves cs d),
)

pub length-count {ℓ} : {A : Type ℓ} (xs : List A) → length xs ≡ count (λ _. true) xs
length-count [] = refl
length-count (x ∷ xs) = omega (arith, length-count xs)

abbrev Fewest : ℕ → Participant → Type 0
Fewest n q = n ≤ q.bye_count

-- The minimum is that of the first or that of the rest.
min_bye_count_cases :
    (p q : Participant) (qs : List Participant)
    → ((min_bye_count p (q ∷ qs) ≡ p.bye_count) × (p.bye_count ≤ min_bye_count q qs))
      ⊎ ((min_bye_count p (q ∷ qs) ≡ min_bye_count q qs) × (min_bye_count q qs ≤ p.bye_count))
unfolding min_bye_count
min_bye_count_cases p q qs = elim (Bool-cases (leb p.bye_count (min_bye_count q qs))) [
  | inl e ↦ inl (rw e refl, ground arith)
  | inr e ↦ inr (rw e refl, ground arith)
]

min_bye_count-le :
    (p : Participant) (ps : List Participant) → All (Fewest (min_bye_count p ps)) (p ∷ ps)
unfolding min_bye_count
min_bye_count-le p [] = (omega arith, tt)
min_bye_count-le p (q ∷ qs) = elim (min_bye_count_cases p q qs) [
  | inl (e, h) ↦
      subst (λ (n : ℕ). All (Fewest n) (p ∷ q ∷ qs)) (sym e)
        (
          omega arith,
          All-map_of _ (Fewest p.bye_count) (λ x k. omega arith) (q ∷ qs) (min_bye_count-le q qs),
        )
  | inr (e, h) ↦ subst (λ (n : ℕ). All (Fewest n) (p ∷ q ∷ qs)) (sym e) (h, min_bye_count-le q qs)
]

-- Somebody has as few byes as the minimum.
min_bye_count_some :
    (p : Participant) (ps : List Participant)
    → 1 ≤ count (λ (q : Participant). q.bye_count == min_bye_count p ps) (p ∷ ps)
unfolding min_bye_count
min_bye_count_some p [] = ground arith
min_bye_count_some p (q ∷ qs) = elim (min_bye_count_cases p q qs) [
  | inl (e, h) ↦
      subst (λ (n : ℕ). 1 ≤ count (λ (x : Participant). x.bye_count == n) (p ∷ q ∷ qs)) (sym e)
        (ground arith)
  | inr (e, h) ↦
      subst (λ (n : ℕ). 1 ≤ count (λ (x : Participant). x.bye_count == n) (p ∷ q ∷ qs)) (sym e)
        (omega (arith, min_bye_count_some q qs))
]

length-filter {ℓ} : {A : Type ℓ} (f : A → Bool) (xs : List A) → length (filter f xs) ≡ count f xs
length-filter f [] = refl
length-filter f (x ∷ xs) = ground (arith, length-filter f xs)

-- Whoever gets the bye `b`: nobody has had fewer, and of those with as few nobody has fewer points.
pub record IsFair (ps : List Participant) (b : Participant) : Type 0 where
  pub fewest : All (Fewest b.bye_count) ps
  pub weakest : All (λ (q : Participant). q.bye_count ≡ b.bye_count → b.points ≤ q.points) ps
  pub leaves : Leaves ps b

module _ (locale_compare : Text → Text → Ordering) where
  Poorer : Participant → Participant → Type 0
  Poorer p q = p.points ≤ q.points

  below : (x y : Participant) → is_gt (weakest_first locale_compare x y) ≡ false → Poorer x y
  unfolding Poorer
  below x y h = ground arith

  above : (x y : Participant) → is_gt (weakest_first locale_compare x y) ≡ true → Poorer y x
  unfolding Poorer
  above x y h = ground arith

  Poorer-trans : (x y z : Participant) → Poorer x y → Poorer y z → Poorer x z
  unfolding Poorer
  Poorer-trans x y z h k = omega arith

  Poorer-none :
      (b : Participant) (qs : List Participant)
      → All (Poorer b) qs
      → All (λ (q : Participant). ltb q.points b.points ≡ false) (b ∷ qs)
  unfolding Poorer
  Poorer-none b qs a = (ground arith, All-map_of _ _ (λ q h. ground arith) qs a)

  -- A head of the candidates gets a fair bye.
  head-IsFair :
      (p : Participant) (ps : List Participant) (b : Participant) (bs : List Participant)
      → Distinct (p ∷ ps)
      → bye_candidates locale_compare (p ∷ ps) ≡ b ∷ bs
      → IsFair (p ∷ ps) b
  unfolding bye_candidates
  head-IsFair p ps b bs d e = record {
    fewest =
        subst (λ (n : ℕ). All (Fewest n) (p ∷ ps)) (sym (exact b chosen.0)) (min_bye_count-le p ps);
    weakest =
        All-map_of _ _ (λ q h same. ground (arith, h (same_count q same))) (p ∷ ps)
          (All-filter_of is_least is_poorer (p ∷ ps) (
            none_of_count is_poorer (filter is_least (p ∷ ps)) (
              sym (count-sort_by is_poorer cmp (filter is_least (p ∷ ps)))
              ∙ ap (count is_poorer) e
              ∙ count_of_none is_poorer (b ∷ bs) (Poorer-none b bs heads))));
    leaves = leaving.0;
  }
    where
      cmp : Participant → Participant → Ordering
      cmp = weakest_first locale_compare

      is_least : Participant → Bool
      is_least q = q.bye_count == min_bye_count p ps

      is_poorer : Participant → Bool
      is_poorer q = ltb q.points b.points

      exact : (q : Participant) → is_least q ≡ true → q.bye_count ≡ min_bye_count p ps
      exact q h = ground arith

      chosen : All (λ q. is_least q ≡ true) (b ∷ bs)
      chosen =
          subst (All (λ q. is_least q ≡ true)) e
            (All-sort_by _ cmp (filter is_least (p ∷ ps)) (filter-holds is_least (p ∷ ps)))

      leaving : All (Leaves (p ∷ ps)) (b ∷ bs)
      leaving = subst (All (Leaves (p ∷ ps))) e (
          All-sort_by _ cmp (filter is_least (p ∷ ps))
            (All-filter _ is_least (p ∷ ps) (Distinct-Leaves (p ∷ ps) d)))

      heads : All (Poorer b) bs
      heads =
          subst (Heads Poorer cmp below above Poorer-trans) e
            (Heads-sort_by Poorer cmp below above Poorer-trans (filter is_least (p ∷ ps)))

      same_count : (q : Participant) → q.bye_count ≡ b.bye_count → is_least q ≡ true
      same_count q h = let k = exact b chosen.0 in ground arith

  -- What the choice of a bye gives: none for an even number, and the pool is everybody; a fair one for
  -- an odd number, and the pool is the others.
  pub data Selection (ps : List Participant) (r : Option Participant × List Participant)
      : Type 0 where
    nobody : (length ps % 2 ≡ 0) → r ≡ (none, ps) → Selection ps r
    somebody :
        (b : Participant)
        → (length ps % 2 ≡ 1)
        → r ≡ (some b, without ps b.bot_id)
        → IsFair ps b
        → Selection ps r

  some_candidate :
      (p : Participant) (ps : List Participant)
      → 1 ≤ length (bye_candidates locale_compare (p ∷ ps))
  unfolding bye_candidates
  some_candidate p ps =
      let f : Participant → Bool = λ q. q.bye_count == min_bye_count p ps in
      omega (
        arith,
        length-sort_by (weakest_first locale_compare) (filter f (p ∷ ps)),
        length-filter f (p ∷ ps),
        min_bye_count_some p ps,
      )

  -- Among one or more participants with distinct identifiers, an even number gives no bye and leaves
  -- everybody in the pool; an odd number gives a bye to a participant who has had the fewest byes, and
  -- of those with as few has the fewest points, and the pool is everybody else.
  pub select_fair_bye-Selection :
      (p : Participant) (ps : List Participant)
      → Distinct (p ∷ ps)
      → Selection (p ∷ ps) (select_fair_bye locale_compare (p ∷ ps))
  unfolding select_fair_bye
  select_fair_bye-Selection p ps d = elim (Bool-cases (is_odd (length (p ∷ ps)))) [
    | inr even ↦ rw even (nobody (ground arith) refl)
    | inl odd ↦
        rw odd
          (pick (bye_candidates locale_compare (p ∷ ps)) (some_candidate p ps) refl (ground arith))
  ]
    where
      pick :
          (cs : List Participant)
          → 1 ≤ length cs
          → bye_candidates locale_compare (p ∷ ps) ≡ cs
          → length (p ∷ ps) % 2 ≡ 1
          → Selection (p ∷ ps) (without_head (p ∷ ps) cs)
      pick [] h e o = absurd (omega arith)
      pick (b ∷ bs) h e o = somebody b o refl (head-IsFair p ps b bs d e)
