-- ===== src/BotCup/Bracket/Rounds.antt =====
-- The rounds of the knockout.
use ottv.Prelude.{
  ℕ, suc, ◌-◌, ◌*◌, ◌≤◌, ◌<◌, ◌≡◌, ◌≢◌, ◌⊎◌, refl, Bool, true, false, Option, none, some, List, [],
  ◌∷◌, All, leb, length, arith, inl, inr, Bool-cases, Option-cases,
}
use ottv.BotCup.Bracket.{
  ◌>>=◌, Slot, round_of_16, quarter, semi, final, third, Fixture, Seeded, KnockoutResult, pairs_of,
  seed_order, fixture, pair_up, winners, last_pairings, some_slot, is_round_of_16, is_quarter,
  is_semi, next_knockout_pairings,
}
use ottv.BotCup.Bracket.Results.{ResultsOf, Missing, pairs_of-ResultsOf, pairs_of-Missing}

-- A pairing of two teams: the one with the better seed is the high side, and the first if they have
-- the same seed.
abbrev pub Plays : Seeded → Seeded → Fixture → Type 0
Plays high low f =
    (f.high ≡ some high.team)
    × (f.high_seed ≡ high.seed)
    × (f.low ≡ some low.team)
    × (f.low_seed ≡ low.seed)

abbrev pub Meets : Seeded → Seeded → Fixture → Type 0
Meets x y f = ((x.seed ≤ y.seed) × Plays x y f) ⊎ ((y.seed < x.seed) × Plays y x f)

-- The winners of two results after one another meet in the slot of the next round whose number is
-- that of their pair, counted from `i + 1`.
abbrev pub WinnersMeet : (ℕ → Slot) → ℕ → List KnockoutResult → List Fixture → Type 0
WinnersMeet slot i [] [] = Unit
WinnersMeet slot i (r ∷ q ∷ rs) (f ∷ fs) =
    (f.slot ≡ slot (suc i)) × Meets r.winner_entry q.winner_entry f × WinnersMeet slot (suc i) rs fs
WinnersMeet slot i _ _ = ⊥

seed_order-Meets : (slot : Slot) (x y : Seeded) → Meets x y (fixture slot (seed_order x y))
seed_order-Meets slot x y = elim (Bool-cases (leb x.seed y.seed)) [
  | inl e ↦ rw e (inl (ground arith, (refl, refl, refl, refl)))
  | inr e ↦ rw e (inr (ground arith, (refl, refl, refl, refl)))
]

pair_up-WinnersMeet :
    (slot : ℕ → Slot) (i n : ℕ) (rs : List KnockoutResult)
    → length rs ≡ 2 * n
    → (fs : List Fixture) × (pair_up slot i (winners rs) ≡ some fs) × WinnersMeet slot i rs fs
unfolding pair_up
pair_up-WinnersMeet slot i n [] h = ([], refl, tt)
pair_up-WinnersMeet slot i n (r ∷ []) h = absurd (omega arith)
pair_up-WinnersMeet slot i n (r ∷ q ∷ rs) h =
    let (fs, e, w) = pair_up-WinnersMeet slot (suc i) (n - 1) rs (omega arith) in
    let f = fixture (slot (suc i)) (seed_order r.winner_entry q.winner_entry) in
    (f ∷ fs, rw e refl, (refl, seed_order-Meets (slot (suc i)) r.winner_entry q.winner_entry, w))

-- A result of a round.
abbrev pub IsOf : (ℕ → Slot) → KnockoutResult → Type 0
IsOf round r = (n : ℕ) × (r.slot ≡ round n)

-- The results have one of a round, and have none.
abbrev pub HasRound : List KnockoutResult → (ℕ → Slot) → Type 0
HasRound [] round = ⊥
HasRound (r ∷ rs) round = IsOf round r ⊎ HasRound rs round

abbrev pub NoRound : List KnockoutResult → (ℕ → Slot) → Type 0
NoRound results round = (n : ℕ) → All (λ (r : KnockoutResult). r.slot ≢ round n) results

-- A round after another: with all its results the winners meet, without one there is no next round.
pub data Follows (results : List KnockoutResult) (from to : ℕ → Slot) (n : ℕ)
    (next : Option (List Fixture)) : Type 0 where
  follows :
      (rs : List KnockoutResult) (fs : List Fixture)
      → ResultsOf results from 0 n rs
      → next ≡ some fs
      → WinnersMeet to 0 rs fs
      → Follows results from to n next
  lacks : Missing results from n → next ≡ none → Follows results from to n next

-- After the semi-finals `s` and `t` come the final of their winners and the match of their losers.
pub data Finals (results : List KnockoutResult) (next : Option (List Fixture)) : Type 0 where
  finals :
      (s t : KnockoutResult) (f g : Fixture)
      → ResultsOf results semi 0 2 (s ∷ t ∷ [])
      → next ≡ some (f ∷ g ∷ [])
      → f.slot ≡ final
      → Meets s.winner_entry t.winner_entry f
      → g.slot ≡ third
      → Meets s.loser_entry t.loser_entry g
      → Finals results next
  lacks : Missing results semi 2 → next ≡ none → Finals results next

-- What comes after a list of results: the first round of the knockout that has a result counts.
pub data Stage (results : List KnockoutResult) (next : Option (List Fixture)) : Type 0 where
  after_round_of_16 :
      HasRound results round_of_16 → Follows results round_of_16 quarter 8 next → Stage results next
  after_quarters :
      NoRound results round_of_16
      → HasRound results quarter
      → Follows results quarter semi 4 next
      → Stage results next
  after_semis :
      NoRound results round_of_16
      → NoRound results quarter
      → HasRound results semi
      → Finals results next
      → Stage results next
  nothing_left :
      NoRound results round_of_16
      → NoRound results quarter
      → NoRound results semi
      → next ≡ some []
      → Stage results next

-- A test of slots that is that of a round.
abbrev pub Tests : (Slot → Bool) → (ℕ → Slot) → Type 0
Tests test round =
    ((s : Slot) → test s ≡ true → (n : ℕ) × (s ≡ round n)) × ((n : ℕ) → test (round n) ≡ true)

is_round_of_16-Tests : Tests is_round_of_16 round_of_16
is_round_of_16-Tests = (only, λ n. refl)
  where
    only : (s : Slot) → is_round_of_16 s ≡ true → (n : ℕ) × (s ≡ round_of_16 n)
    only (round_of_16 n) h = (n, refl)
    only s h = absurd (cc)

is_quarter-Tests : Tests is_quarter quarter
is_quarter-Tests = (only, λ n. refl)
  where
    only : (s : Slot) → is_quarter s ≡ true → (n : ℕ) × (s ≡ quarter n)
    only (quarter n) h = (n, refl)
    only s h = absurd (cc)

is_semi-Tests : Tests is_semi semi
is_semi-Tests = (only, λ n. refl)
  where
    only : (s : Slot) → is_semi s ≡ true → (n : ℕ) × (s ≡ semi n)
    only (semi n) h = (n, refl)
    only s h = absurd (cc)

some_slot-HasRound :
    (test : Slot → Bool) (round : ℕ → Slot) (results : List KnockoutResult)
    → Tests test round
    → some_slot test results ≡ true
    → HasRound results round
some_slot-HasRound test round [] t h = absurd (cc)
some_slot-HasRound test round (r ∷ rs) t h = elim (Bool-cases (test r.slot)) [
  | inl e ↦ inl (t.0 r.slot e)
  | inr e ↦ inr (some_slot-HasRound test round rs t (rw e at h))
]

some_slot-NoRound :
    (test : Slot → Bool) (round : ℕ → Slot) (results : List KnockoutResult)
    → Tests test round
    → some_slot test results ≡ false
    → NoRound results round
some_slot-NoRound test round [] t h n = tt
some_slot-NoRound test round (r ∷ rs) t h n = elim (Bool-cases (test r.slot)) [
  | inl e ↦ let h' : true ≡ false = rw e at h in absurd (cc)
  | inr e ↦ (
    λ (same : r.slot ≡ round n). let yes : test r.slot ≡ true = rw same (t.1 n) in absurd (cc),
    some_slot-NoRound test round rs t (rw e at h) n,
  )
]

round-Follows :
    (results : List KnockoutResult) (from to : ℕ → Slot) (n : ℕ)
    → Follows results from to
        (2 * n)
        (pairs_of results from 0 (2 * n) >>= λ rs. pair_up to 0 (winners rs))
round-Follows results from to n = elim (Option-cases (pairs_of results from 0 (2 * n))) [
  | inl e ↦
      let m = pairs_of-Missing results from 0 (2 * n) e in
      lacks
        record {
          number = m.number;
          from_one = m.from_one;
          up_to = omega (arith, m.up_to);
          without_result = m.without_result;
        }
        (rw e refl)
  | inr (rs, e) ↦
      let (len, all) = pairs_of-ResultsOf results from 0 (2 * n) rs e in
      let (fs, f, w) = pair_up-WinnersMeet to 0 n rs len in follows rs fs all (rw (e, f) refl) w
]

two_results-Finals :
    (results rs : List KnockoutResult)
    → length rs ≡ 2
    → ResultsOf results semi 0 2 rs
    → Finals results (last_pairings rs)
two_results-Finals results [] h all = absurd (omega arith)
two_results-Finals results (s ∷ []) h all = absurd (omega arith)
two_results-Finals results (s ∷ t ∷ []) h all =
    finals s t (fixture final (seed_order s.winner_entry t.winner_entry))
      (fixture third (seed_order s.loser_entry t.loser_entry)) all refl refl
      (seed_order-Meets final s.winner_entry t.winner_entry) refl
      (seed_order-Meets third s.loser_entry t.loser_entry)
two_results-Finals results (s ∷ t ∷ r ∷ rs) h all = absurd (omega arith)

semis-Finals :
    (results : List KnockoutResult) → Finals results (pairs_of results semi 0 2 >>= last_pairings)
semis-Finals results = elim (Option-cases (pairs_of results semi 0 2)) [
  | inl e ↦ lacks (pairs_of-Missing results semi 0 2 e) (rw e refl)
  | inr (rs, e) ↦
      let (len, all) = pairs_of-ResultsOf results semi 0 2 rs e in
      rw e (two_results-Finals results rs len all)
]

-- The earliest of the round of 16, the quarter-finals and the semi-finals that has a result decides.
-- When every slot of that round has one, the last result of each counts: after the round of 16 and the
-- quarter-finals the winners of the slots 2k - 1 and 2k meet in the slot k of the next round, after the
-- semi-finals the two winners meet in the final and the two losers in the match for the third place,
-- each time with the team of the better seed on the high side, the first of the two if the seeds are
-- the same. When a slot of that round has no result the function fails, and when none of the three
-- rounds has one there is no further pairing.
pub next_knockout_pairings-Stage :
    (results : List KnockoutResult) → Stage results (next_knockout_pairings results)
unfolding next_knockout_pairings
next_knockout_pairings-Stage results = elim (Bool-cases (some_slot is_round_of_16 results)) [
  | inl e ↦ rw e (
      after_round_of_16 (some_slot-HasRound _ _ results is_round_of_16-Tests e)
        (round-Follows results round_of_16 quarter 4))
  | inr e ↦
      let no_16 = some_slot-NoRound _ _ results is_round_of_16-Tests e in
      rw e (elim (Bool-cases (some_slot is_quarter results)) [
        | inl f ↦ rw f (
            after_quarters no_16 (some_slot-HasRound _ _ results is_quarter-Tests f)
              (round-Follows results quarter semi 2))
        | inr f ↦
            let no_quarter = some_slot-NoRound _ _ results is_quarter-Tests f in
            rw f (elim (Bool-cases (some_slot is_semi results)) [
              | inl g ↦ rw g (
                  after_semis no_16 no_quarter (some_slot-HasRound _ _ results is_semi-Tests g)
                    (semis-Finals results))
              | inr g ↦ rw g (
                  nothing_left no_16 no_quarter (some_slot-NoRound _ _ results is_semi-Tests g)
                    refl)
            ])
      ])
]
