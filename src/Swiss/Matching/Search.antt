-- ===== src/Swiss/Matching/Search.antt =====
-- The pairs that the search without a rematch finds.
use Prim.Native.Nat.{Ordering}
use ottv.Prelude.{
  ℕ, zero, suc, ◌≡◌, refl, sym, ap, ◌∙◌, Bool, true, false, none, some, List, [], ◌∷◌, ◌==◌, leb,
  All, All-zip, All-filter, All-sort_by, filter, filter-holds, count, arith, inl, inr, Bool-cases,
  Option-cases, if◌then◌else◌,
}
use ottv.Names.{Text}
use ottv.Swiss.Types.{HistoryMatch, Participant, Pair}
use ottv.Swiss.Matching.{
  Budget, Found, rematches, max_search_steps, leave_out, try_each, closest_first, unplayed,
  find_rematch_free_matching,
}
use ottv.Swiss.Matching.Distinct.{
  Distinct, Distinct-filter, Removable, Distinct-Removable, leave_out_first, flat,
}

pub if_false {ℓ} : {A : Type ℓ} (b : Bool) (x y : A) → b ≡ false → (if b then x else y) ≡ y
if_false true x y h = absurd (cc)
if_false false x y h = refl

-- What a loop over opponents finds is a pair with one of them and what the search finds for it.
try_each-some {κ} :
    (S : Participant → List Pair → Type κ) (look : Participant → Budget → Found) (u : Participant)
    (vs : List Participant) (budget : Budget) (pairs : List Pair)
    → All (λ v. (b : Budget) (qs : List Pair) → (look v b).0 ≡ some qs → S v qs) vs
    → (try_each look u vs budget).0 ≡ some pairs
    → (v : Participant) × (qs : List Pair) × (pairs ≡ record { u = u; v = v } ∷ qs) × S v qs
unfolding try_each
try_each-some S look u [] budget pairs a h = absurd (cc)
try_each-some S look u (v ∷ vs) budget pairs (x, a) h = elim (Option-cases (look v budget).0) [
  | inr (qs, e) ↦
      let w : some (record { u = u; v = v } ∷ qs) ≡ some pairs = rw (e, try_each) at h in
      (v, qs, cc, x budget qs e)
  | inl e ↦
      let w = rw (e, try_each) at h in
      elim (Bool-cases (look v budget).1.exhausted) [
        | inl f ↦ let n : none ≡ some pairs = rw f at w in absurd (cc)
        | inr f ↦
            try_each-some S look u vs (look v budget).1 pairs a
              (ap (λ (r : Found). r.0) (sym (if_false _ _ _ f)) ∙ w)
      ]
]

module _ (locale_compare : Text → Text → Ordering) (matches : List HistoryMatch) where
  -- The pairs hold every participant of the pool once, and nobody meets an old opponent.
  pub record IsMatching (pool : List Participant) (pairs : List Pair) : Type 0 where
    pub covers : (p : Participant → Bool) → count p (flat pairs) ≡ count p pool
    pub fresh : All (λ (q : Pair). rematches matches q.u q.v ≡ 0) pairs

  abbrev search_of : ℕ → Participant → List Participant → Participant → Budget → Found
  search_of fuel u candidates v =
      find_rematch_free_matching locale_compare matches fuel (leave_out u v (u ∷ candidates))

  -- What a search for the rest gives, with the opponent of `u`.
  record Rest (u : Participant) (candidates : List Participant) (v : Participant) (qs : List Pair)
      : Type 0 where
    opponent : Removable u candidates v
    new : rematches matches u v ≡ 0
    rest : IsMatching (leave_out u v candidates) qs

  zero_of : (n : ℕ) → (n == 0) ≡ true → n ≡ 0
  zero_of n h = ground arith

  Rest-IsMatching :
      (u : Participant) (candidates : List Participant) (v : Participant) (qs : List Pair)
      → Rest u candidates v qs
      → IsMatching (u ∷ candidates) (record { u = u; v = v } ∷ qs)
  Rest-IsMatching u candidates v qs r = record {
    covers = λ p. omega (arith, r.opponent p, r.rest.covers p);
    fresh = (r.new, r.rest.fresh);
  }

  -- When the search of a pool of participants with distinct identifiers gives pairs, on any fuel and
  -- with any budget, these hold every participant of the pool once and nobody else, and no two of a
  -- pair have met before.
  pub find-IsMatching :
      (fuel : ℕ) (pool : List Participant) (budget : Budget) (pairs : List Pair)
      → Distinct pool
      → (find_rematch_free_matching locale_compare matches fuel pool budget).0 ≡ some pairs
      → IsMatching pool pairs
  unfolding find_rematch_free_matching unplayed
  find-IsMatching fuel [] budget pairs d h =
      let e : [] ≡ pairs = cc in rw (← e) (record { covers = λ p. refl; fresh = tt })
  find-IsMatching zero (u ∷ candidates) budget pairs d h = absurd (cc)
  find-IsMatching (suc fuel) (u ∷ candidates) budget pairs (a, d) h =
      elim (Bool-cases (leb max_search_steps (suc budget.steps))) [
        | inl e ↦ let n : none ≡ some pairs = rw e at h in absurd (cc)
        | inr e ↦
            let (v, qs, same, r) =
              try_each-some (Rest u candidates) (search_of fuel u candidates) u _ _ pairs
                (each (λ ps b qs k e'. find-IsMatching fuel ps b qs k e')) (rw e at h) in
            rw same (Rest-IsMatching u candidates v qs r)
      ]
    where
      is_new : Participant → Bool
      is_new v = rematches matches u v == 0

      each :
          ((ps : List Participant) (b : Budget) (qs : List Pair)
            → Distinct ps
            → (find_rematch_free_matching locale_compare matches fuel ps b).0 ≡ some qs
            → IsMatching ps qs)
          → All
              (λ v.
                (b : Budget) (qs : List Pair)
                → (search_of fuel u candidates v b).0 ≡ some qs
                → Rest u candidates v qs)
              (unplayed locale_compare matches u candidates)
      each ih = All-sort_by _ (closest_first locale_compare matches u) (filter is_new candidates) (
          All-zip _ _ _ (filter is_new candidates)
            (λ v r n b qs e. record {
              opponent = r;
              new = zero_of _ n;
              rest =
                  ih (leave_out u v candidates) b qs (Distinct-filter _ candidates d)
                    (rw (← leave_out_first u v candidates) e);
            })
            (All-filter _ is_new candidates (Distinct-Removable u candidates a d))
            (filter-holds is_new candidates))
