-- ===== src/Swiss/Matching/Bounded.antt =====
-- The search without a rematch ends: enough fuel gives its result, and its steps are bounded.
use Prim.Native.Nat.{Ordering}
use mathlib.Core.Path.{subst, fun_ext}
use ottv.Prelude.{
  ℕ, zero, suc, ◌≤◌, ◌<◌, ◌≡◌, refl, sym, ap, Bool, true, false, List, [], ◌∷◌, leb, length,
  length-filter-le, arith, inl, inr, Bool-cases, Option-cases, if◌then◌else◌,
}
use ottv.Names.{Text}
use ottv.Swiss.Types.{HistoryMatch, Participant}
use ottv.Swiss.Matching.{
  Budget, Found, max_search_steps, leave_out, try_each, unplayed, find_rematch_free_matching,
}
use ottv.Swiss.Matching.Distinct.{leave_out_first}
use ottv.Swiss.Matching.Search.{if_false}

try_each-eq :
    (f g : Participant → Budget → Found) (u : Participant) (vs : List Participant) (budget : Budget)
    → ((v : Participant) (b : Budget) → f v b ≡ g v b)
    → try_each f u vs budget ≡ try_each g u vs budget
try_each-eq f g u vs budget h =
    ap (λ (k : Participant → Budget → Found). try_each k u vs budget)
      (fun_ext (λ v. fun_ext (λ b. h v b)))

if_true {ℓ} : {A : Type ℓ} (b : Bool) (x y : A) → b ≡ true → (if b then x else y) ≡ x
if_true true x y e = refl
if_true false x y e = absurd (cc)

-- The budget between two searches: it is exhausted, or has steps left.
abbrev pub Within : Budget → Type 0
Within b = (b.steps ≤ max_search_steps) × (b.exhausted ≡ false → b.steps < max_search_steps)

try_each-Within :
    (look : Participant → Budget → Found) (u : Participant) (vs : List Participant)
    (budget : Budget)
    → ((v : Participant) (b : Budget)
        → b.exhausted ≡ false
        → b.steps < max_search_steps
        → Within (look v b).1)
    → budget.exhausted ≡ false
    → budget.steps < max_search_steps
    → Within (try_each look u vs budget).1
unfolding try_each
try_each-Within look u [] budget h fresh left = (omega arith, λ _. left)
try_each-Within look u (v ∷ vs) budget h fresh left = elim (Option-cases (look v budget).0) [
  | inr (qs, e) ↦ rw (e, try_each) first
  | inl e ↦
      rw (e, try_each)
        (elim (Bool-cases (look v budget).1.exhausted) [
          | inl x ↦ subst (λ (r : Found). Within r.1) (sym (if_true _ _ _ x)) first
          | inr x ↦
              subst (λ (r : Found). Within r.1) (sym (if_false _ _ _ x))
                (try_each-Within look u vs (look v budget).1 h x (first.1 x))
        ])
]
  where
    first : Within (look v budget).1
    first = h v budget fresh left

module _ (locale_compare : Text → Text → Ordering) (matches : List HistoryMatch) where
  length-leave_out :
      (u v : Participant) (ps : List Participant) → length (leave_out u v (u ∷ ps)) ≤ length ps
  length-leave_out u v ps = rw (leave_out_first u v ps) (length-filter-le _ ps)

  -- The search gives the same pairs and the same budget on every fuel that is at least the size of the
  -- pool.
  pub find-fuel :
      (f g : ℕ) (pool : List Participant) (budget : Budget)
      → length pool ≤ f
      → length pool ≤ g
      → find_rematch_free_matching locale_compare matches f pool budget
        ≡ find_rematch_free_matching locale_compare matches g pool budget
  unfolding find_rematch_free_matching
  find-fuel f g [] budget h k = refl
  find-fuel zero g (u ∷ us) budget h k = absurd (omega arith)
  find-fuel (suc f) zero (u ∷ us) budget h k = absurd (omega arith)
  find-fuel (suc f) (suc g) (u ∷ us) budget h k =
      elim (Bool-cases (leb max_search_steps (suc budget.steps))) [
        | inl e ↦ rw e refl
        | inr e ↦ rw e (
            try_each-eq _ _ u _ _ (λ v b.
              find-fuel f g (leave_out u v (u ∷ us)) b (omega (arith, length-leave_out u v us))
                (omega (arith, length-leave_out u v us))))
      ]

  -- A search that starts below 5000 steps and is not exhausted ends at 5000 steps at most, and below
  -- 5000 unless it says that they are exhausted.
  pub find-Within :
      (fuel : ℕ) (pool : List Participant) (budget : Budget)
      → budget.exhausted ≡ false
      → budget.steps < max_search_steps
      → Within (find_rematch_free_matching locale_compare matches fuel pool budget).1
  unfolding find_rematch_free_matching
  find-Within fuel [] budget fresh left = (omega arith, λ _. left)
  find-Within zero (u ∷ us) budget fresh left = (omega arith, λ _. left)
  find-Within (suc fuel) (u ∷ us) budget fresh left =
      elim (Bool-cases (leb max_search_steps (suc budget.steps))) [
        | inl e ↦ rw e (ground arith, λ h. absurd (cc))
        | inr e ↦ rw e (
            try_each-Within
              (λ v. find_rematch_free_matching locale_compare matches fuel (leave_out u v (u ∷ us)))
              u (unplayed locale_compare matches u us) (record budget { steps = suc budget.steps })
              (λ v b f l. find-Within fuel (leave_out u v (u ∷ us)) b f l) fresh (ground arith))
      ]
