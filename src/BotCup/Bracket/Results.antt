-- ===== src/BotCup/Bracket/Results.antt =====
-- The results that the slots of a round have: what `bySlot` holds.
use ottv.Prelude.{
  ℕ, zero, suc, ◌+◌, ◌≤◌, ◌≡◌, ◌≢◌, refl, ap, true, false, none, some, List, [], ◌∷◌, ◌++◌, All,
  length, arith, inl, inr, Bool-cases, Option-cases, if◌then◌else◌,
}
use ottv.BotCup.Bracket.{
  Slot, round_of_16, quarter, semi, final, third, KnockoutResult, same_slot, result_at, pairs_of,
}

-- The last of the results of a slot.
pub record IsLast (results : List KnockoutResult) (slot : Slot) (r : KnockoutResult) : Type 0 where
  before : List KnockoutResult
  after : List KnockoutResult
  split : results ≡ before ++ r ∷ after
  own_slot : r.slot ≡ slot
  none_after : All (λ (q : KnockoutResult). q.slot ≢ slot) after

-- The results of the `n` slots from `i + 1` on, one for each.
abbrev pub ResultsOf : List KnockoutResult → (ℕ → Slot) → ℕ → ℕ → List KnockoutResult → Type 0
ResultsOf results slot i zero [] = Unit
ResultsOf results slot i (suc n) (r ∷ rs) =
    IsLast results (slot (suc i)) r × ResultsOf results slot (suc i) n rs
ResultsOf results slot i _ _ = ⊥

-- One of the slots 1 to `n` has no result.
pub record Missing (results : List KnockoutResult) (slot : ℕ → Slot) (n : ℕ) : Type 0 where
  pub number : ℕ
  pub from_one : 1 ≤ number
  pub up_to : number ≤ n
  pub without_result : All (λ (q : KnockoutResult). q.slot ≢ slot number) results

same_slot_eq : (s t : Slot) → same_slot s t ≡ true → s ≡ t
same_slot_eq (round_of_16 m) (round_of_16 n) h = let e : m ≡ n = ground arith in ap round_of_16 e
same_slot_eq (quarter m) (quarter n) h = let e : m ≡ n = ground arith in ap quarter e
same_slot_eq (semi m) (semi n) h = let e : m ≡ n = ground arith in ap semi e
same_slot_eq final final h = refl
same_slot_eq third third h = refl
same_slot_eq s t h = absurd (cc)

same_slot_self : (s : Slot) → same_slot s s ≡ true
same_slot_self (round_of_16 n) = ground arith
same_slot_self (quarter n) = ground arith
same_slot_self (semi n) = ground arith
same_slot_self final = refl
same_slot_self third = refl

same_slot_ne : (s t : Slot) → same_slot s t ≡ false → s ≢ t
same_slot_ne s t h e =
    let same : same_slot s s ≡ true = same_slot_self s in
    let other : same_slot s s ≡ false = rw (← e) at h in absurd (cc)

result_at-none :
    (results : List KnockoutResult) (slot : Slot)
    → result_at results slot ≡ none
    → All (λ (q : KnockoutResult). q.slot ≢ slot) results
unfolding result_at
result_at-none [] slot h = tt
result_at-none (r ∷ rs) slot h = elim (Option-cases (result_at rs slot)) [
  | inr (s, e) ↦ let h' : some s ≡ none = rw e at h in absurd (cc)
  | inl e ↦
      let h' : (if same_slot r.slot slot then some r else none) ≡ none = rw e at h in
      elim (Bool-cases (same_slot r.slot slot)) [
        | inl f ↦ let h'' : some r ≡ none = rw f at h' in absurd (cc)
        | inr f ↦ (same_slot_ne r.slot slot f, result_at-none rs slot e)
      ]
]

result_at-IsLast :
    (results : List KnockoutResult) (slot : Slot) (q : KnockoutResult)
    → result_at results slot ≡ some q
    → IsLast results slot q
unfolding result_at
result_at-IsLast [] slot q h = absurd (cc)
result_at-IsLast (r ∷ rs) slot q h = elim (Option-cases (result_at rs slot)) [
  | inr (s, e) ↦
      let h' : some s ≡ some q = rw e at h in
      let same : s ≡ q = cc in
      let l = result_at-IsLast rs slot q (rw same at e) in
      record {
        before = r ∷ l.before;
        after = l.after;
        split = ap (λ (t : List KnockoutResult). r ∷ t) l.split;
        own_slot = l.own_slot;
        none_after = l.none_after;
      }
  | inl e ↦
      let h' : (if same_slot r.slot slot then some r else none) ≡ some q = rw e at h in
      elim (Bool-cases (same_slot r.slot slot)) [
        | inr f ↦ let h'' : none ≡ some q = rw f at h' in absurd (cc)
        | inl f ↦
            let h'' : some r ≡ some q = rw f at h' in
            let same : r ≡ q = cc in
            record {
              before = [];
              after = rs;
              split = ap (λ (t : KnockoutResult). t ∷ rs) same;
              own_slot = rw (← same) (same_slot_eq r.slot slot f);
              none_after = result_at-none rs slot e;
            }
      ]
]

pub pairs_of-ResultsOf :
    (results : List KnockoutResult) (slot : ℕ → Slot) (i n : ℕ) (rs : List KnockoutResult)
    → pairs_of results slot i n ≡ some rs
    → (length rs ≡ n) × ResultsOf results slot i n rs
unfolding pairs_of
pairs_of-ResultsOf results slot i zero rs h = let e : [] ≡ rs = cc in rw (← e) (refl, tt)
pairs_of-ResultsOf results slot i (suc n) rs h =
    elim (Option-cases (result_at results (slot (suc i)))) [
      | inl e ↦ let h' : none ≡ some rs = rw e at h in absurd (cc)
      | inr (r, e) ↦ elim (Option-cases (pairs_of results slot (suc i) n)) [
        | inl f ↦ let h' : none ≡ some rs = rw (e, f) at h in absurd (cc)
        | inr (qs, f) ↦
            let h' : some (r ∷ qs) ≡ some rs = rw (e, f) at h in
            let same : r ∷ qs ≡ rs = cc in
            let (len, all) = pairs_of-ResultsOf results slot (suc i) n qs f in
            rw (← same) (omega arith, (result_at-IsLast results (slot (suc i)) r e, all))
      ]
    ]

pub pairs_of-Missing :
    (results : List KnockoutResult) (slot : ℕ → Slot) (i n : ℕ)
    → pairs_of results slot i n ≡ none
    → Missing results slot (i + n)
unfolding pairs_of
pairs_of-Missing results slot i zero h = absurd (cc)
pairs_of-Missing results slot i (suc n) h = elim (Option-cases (result_at results (slot (suc i)))) [
  | inl e ↦ record {
    number = suc i;
    from_one = omega arith;
    up_to = omega arith;
    without_result = result_at-none results (slot (suc i)) e;
  }
  | inr (r, e) ↦ elim (Option-cases (pairs_of results slot (suc i) n)) [
    | inl f ↦
        let m = pairs_of-Missing results slot (suc i) n f in
        record {
          number = m.number;
          from_one = m.from_one;
          up_to = omega (arith, m.up_to);
          without_result = m.without_result;
        }
    | inr (qs, f) ↦ let h' : some (r ∷ qs) ≡ none = rw (e, f) at h in absurd (cc)
  ]
]
