-- ===== src/RoundRobin/Once.antt =====
-- Nobody plays twice in a round.
use Prim.Native.Nat.{◌/◌}
use mathlib.Core.Path.{subst}
use ottv.Prelude.{
  ℕ, zero, suc, ◌+◌, ◌-◌, ◌≤◌, ◌<◌, ◌≡◌, ◌≢◌, refl, sym, ap, Bool, true, false, none, some, List,
  [], ◌∷◌, ◌++◌, ◌==◌, map, count, length, ltb, arith, inl, inr, Bool-cases, if◌then◌else◌,
}
use ottv.Names.{Text}
use ottv.Swiss.Types.{RawEntry}
use ottv.RoundRobin.{
  Match, Place, place_at, is_even, table_match, round_matches, rotate, leg_one, reversed, Scheduled,
  schedule_from, circle_of, schedule_of,
}
use ottv.RoundRobin.Places.{weight, circle_sum, span, back, tables-sum, rotate-sum, somes-sum}

abbrev pub one : (Text → Bool) → Text → ℕ
one p id = if p id then 1 else 0

-- How many seats of a round the bots that pass a test have.
abbrev pub seats_in : (Text → Bool) → ℕ → List Match → ℕ
seats_in p k [] = 0
seats_in p k (m ∷ ms) =
    (if m.round == k then one p m.bot_a_id + one p m.bot_b_id else 0) + seats_in p k ms

abbrev pub games_of : List Scheduled → List Match
games_of [] = []
games_of (s ∷ ss) = s.game ∷ games_of ss

module _ (p : Text → Bool) (k : ℕ) (raws : List RawEntry) where
  pub seats_in-append :
      (ms ns : List Match) → seats_in p k (ms ++ ns) ≡ seats_in p k ms + seats_in p k ns
  seats_in-append [] ns = omega arith
  seats_in-append (m ∷ ms) ns = omega (arith, seats_in-append ms ns)

  table-seats :
      (r i : ℕ) (x y : Place) → seats_in p k (table_match raws r i x y) ≤ weight p x + weight p y
  table-seats r i none y = omega arith
  table-seats r i (some a) none = omega arith
  table-seats r i (some a) (some b) = elim (Bool-cases (is_even (i + r))) [
    | inl e ↦ rw e (ground arith)
    | inr e ↦ rw e (ground arith)
  ]

  table-other : (r i : ℕ) (x y : Place) → suc r ≢ k → seats_in p k (table_match raws r i x y) ≡ 0
  table-other r i none y ne = refl
  table-other r i (some a) none ne = refl
  table-other r i (some a) (some b) ne = elim (Bool-cases (is_even (i + r))) [
    | inl e ↦ rw e (ground arith)
    | inr e ↦ rw e (ground arith)
  ]

  round-seats :
      (r : ℕ) (c : List Place) (i n : ℕ)
      → seats_in p k (round_matches raws r c i n) ≤ span p c i n + back p c i n
  unfolding round_matches
  round-seats r c i zero = omega arith
  round-seats r c i (suc n) =
      let table = table_match raws r i (place_at c i) (place_at c (length c - 1 - i)) in
      omega (
        arith,
        seats_in-append table (round_matches raws r c (suc i) n),
        table-seats r i (place_at c i) (place_at c (length c - 1 - i)),
        round-seats r c (suc i) n,
      )

  pub round-other :
      (r : ℕ) (c : List Place) (i n : ℕ) → suc r ≢ k → seats_in p k (round_matches raws r c i n) ≡ 0
  unfolding round_matches
  round-other r c i zero ne = refl
  round-other r c i (suc n) ne =
      let table = table_match raws r i (place_at c i) (place_at c (length c - 1 - i)) in
      omega (
        arith,
        seats_in-append table (round_matches raws r c (suc i) n),
        table-other r i (place_at c i) (place_at c (length c - 1 - i)) ne,
        round-other r c (suc i) n ne,
      )

  -- The first leg plays its rounds one after the other.
  pub leg_one-before : (r n : ℕ) (c : List Place) → k ≤ r → seats_in p k (leg_one raws r n c) ≡ 0
  unfolding leg_one
  leg_one-before r zero c h = refl
  leg_one-before r (suc n) c h = omega (
    arith,
    seats_in-append (round_matches raws r c 0 (length c / 2)) (leg_one raws (suc r) n (rotate c)),
    round-other r c 0 (length c / 2) (λ e. absurd (omega arith)),
    leg_one-before (suc r) n (rotate c) (omega arith),
  )

  pub leg_one-after : (r n : ℕ) (c : List Place) → r + n < k → seats_in p k (leg_one raws r n c) ≡ 0
  unfolding leg_one
  leg_one-after r zero c h = refl
  leg_one-after r (suc n) c h = omega (
    arith,
    seats_in-append (round_matches raws r c 0 (length c / 2)) (leg_one raws (suc r) n (rotate c)),
    round-other r c 0 (length c / 2) (λ e. absurd (omega arith)),
    leg_one-after (suc r) n (rotate c) (omega arith),
  )

  leg_one-seats : (r n : ℕ) (c : List Place) → seats_in p k (leg_one raws r n c) ≤ circle_sum p c
  unfolding leg_one
  leg_one-seats r zero c = omega arith
  leg_one-seats r (suc n) c = elim (Bool-cases (suc r == k)) [
    | inl e ↦
        let same : suc r ≡ k = ground arith in
        omega (
          arith,
          seats_in-append (round_matches raws r c 0 (length c / 2))
              (leg_one raws (suc r) n (rotate c)),
          round-seats r c 0 (length c / 2),
          tables-sum p c (length c / 2) (omega arith),
          leg_one-before (suc r) n (rotate c) (omega arith),
        )
    | inr e ↦ omega (
      arith,
      seats_in-append (round_matches raws r c 0 (length c / 2)) (leg_one raws (suc r) n (rotate c)),
      round-other r c 0 (length c / 2) (λ f. absurd (ground arith)),
      rotate-sum p c,
      leg_one-seats (suc r) n (rotate c),
    )
  ]

pub reversed-seats :
    (p : Text → Bool) (rounds k : ℕ) (ms : List Match)
    → seats_in p (rounds + k) (map (reversed rounds) ms) ≡ seats_in p k ms
reversed-seats p rounds k [] = refl
reversed-seats p rounds k (m ∷ ms) = elim (Bool-cases (m.round == k)) [
  | inl e ↦
      let f : (m.round + rounds == rounds + k) ≡ true = ground arith in
      rw (e, f) (omega (arith, reversed-seats p rounds k ms))
  | inr e ↦
      let f : (m.round + rounds == rounds + k) ≡ false = ground arith in
      rw (e, f) (omega (arith, reversed-seats p rounds k ms))
]

pub reversed-early :
    (p : Text → Bool) (rounds k : ℕ) (ms : List Match)
    → k < rounds
    → seats_in p k (map (reversed rounds) ms) ≡ 0
reversed-early p rounds k [] h = refl
reversed-early p rounds k (m ∷ ms) h =
    let f : (m.round + rounds == k) ≡ false = ground arith in
    rw f (omega (arith, reversed-early p rounds k ms h))

pub games_of-schedule_from : (i : ℕ) (ms : List Match) → games_of (schedule_from i ms) ≡ ms
games_of-schedule_from i [] = refl
games_of-schedule_from i (m ∷ ms) =
    ap (λ (rest : List Match). m ∷ rest) (games_of-schedule_from (suc i) ms)

pub circle_of-sum : (p : Text → Bool) (ids : List Text) → circle_sum p (circle_of ids) ≡ count p ids
circle_of-sum p ids = elim (Bool-cases (is_even (length ids))) [
  | inl e ↦ rw e (omega (arith, somes-sum p ids []))
  | inr e ↦ rw e (omega (arith, somes-sum p ids (none ∷ [])))
]

-- The two legs of a schedule, in a round of the first leg and of the second.
module _ (p : Text → Bool) (raws : List RawEntry) (circle : List Place) (rounds : ℕ) where
  abbrev first : List Match
  first = leg_one raws 0 rounds circle

  abbrev second : List Match
  second = map (reversed rounds) first

  early-seats : (k : ℕ) → k < rounds → seats_in p k (first ++ second) ≤ circle_sum p circle
  early-seats k h = omega (
    arith,
    seats_in-append p k raws first second,
    leg_one-seats p k raws 0 rounds circle,
    reversed-early p rounds k first h,
  )

  late-seats : (d : ℕ) → seats_in p (rounds + d) (first ++ second) ≤ circle_sum p circle
  late-seats zero = omega (
    arith,
    seats_in-append p (rounds + 0) raws first second,
    leg_one-seats p (rounds + 0) raws 0 rounds circle,
    leg_one-before p 0 raws 0 rounds circle (omega arith),
    reversed-seats p rounds 0 first,
  )
  late-seats (suc d) = omega (
    arith,
    seats_in-append p (rounds + suc d) raws first second,
    leg_one-after p (rounds + suc d) raws 0 rounds circle (omega arith),
    leg_one-seats p (suc d) raws 0 rounds circle,
    reversed-seats p rounds (suc d) first,
  )

  legs-seats : (k : ℕ) → seats_in p k (first ++ second) ≤ circle_sum p circle
  legs-seats k = elim (Bool-cases (ltb k rounds)) [
    | inl e ↦ early-seats k (ground arith)
    | inr e ↦
        let same : k ≡ rounds + (k - rounds) = ground arith in
        subst (λ n. seats_in p n (first ++ second) ≤ circle_sum p circle) (sym same)
          (late-seats (k - rounds))
  ]

-- In the schedule of any identifiers, in every round, the bots that pass any test have at most as many
-- seats as there are such bots: a bot that is entered once plays at most once in a round.
pub schedule_of-seats_in :
    (raws : List RawEntry) (ids : List Text) (p : Text → Bool) (k : ℕ)
    → seats_in p k (games_of (schedule_of raws ids)) ≤ count p ids
unfolding schedule_of
schedule_of-seats_in raws ids p k =
    let circle = circle_of ids in
    let rounds = length circle - 1 in
    let first = leg_one raws 0 rounds circle in
    rw (games_of-schedule_from 0 (first ++ map (reversed rounds) first))
      (omega (arith, legs-seats p raws circle rounds k, circle_of-sum p ids))
