-- ===== src/RoundRobin/Full.antt =====
-- With an even number of bots everybody plays in every round.
use Prim.Native.Nat.{◌/◌}
use mathlib.Core.Path.{subst}
use ottv.Prelude.{
  ℕ, zero, suc, ◌+◌, ◌-◌, ◌*◌, ◌≤◌, ◌<◌, ◌≡◌, ◌∙◌, refl, sym, ap, Bool, true, none, some, List, [],
  ◌++◌, ◌==◌, map, count, length, ltb, arith, inl, inr, Bool-cases,
}
use ottv.Names.{Text}
use ottv.Swiss.Types.{RawEntry}
use ottv.RoundRobin.{
  Place, place_at, is_even, table_match, round_matches, rotate, leg_one, reversed, circle_of,
  schedule_of,
}
use ottv.RoundRobin.Places.{
  weight, circle_sum, span, back, tables-all, rotate-sum, is_bot, AllBots, place_at-is_bot,
  length-rotate, rotate-AllBots, somes-AllBots, length-somes,
}
use ottv.RoundRobin.Once.{
  seats_in, games_of, seats_in-append, round-other, leg_one-before, leg_one-after, reversed-seats,
  reversed-early, games_of-schedule_from, circle_of-sum,
}

module _ (p : Text → Bool) (raws : List RawEntry) where
  table-all :
      (r i : ℕ) (x y : Place)
      → is_bot x ≡ true
      → is_bot y ≡ true
      → seats_in p (suc r) (table_match raws r i x y) ≡ weight p x + weight p y
  table-all r i none y b c = absurd (cc)
  table-all r i (some a) none b c = absurd (cc)
  table-all r i (some a) (some b') b c = elim (Bool-cases (is_even (i + r))) [
    | inl e ↦ rw e (ground arith)
    | inr e ↦ rw e (ground arith)
  ]

  round-all :
      (r : ℕ) (c : List Place) (i n : ℕ)
      → AllBots c
      → i + n + n ≤ length c
      → seats_in p (suc r) (round_matches raws r c i n) ≡ span p c i n + back p c i n
  unfolding round_matches
  round-all r c i zero a h = refl
  round-all r c i (suc n) a h =
      let table = table_match raws r i (place_at c i) (place_at c (length c - 1 - i)) in
      omega (
        arith,
        seats_in-append p (suc r) raws table (round_matches raws r c (suc i) n),
        table-all r i (place_at c i) (place_at c (length c - 1 - i))
            (place_at-is_bot c i (omega arith) a)
            (place_at-is_bot c (length c - 1 - i) (omega arith) a),
        round-all r c (suc i) n a (omega arith),
      )

  leg_one-all :
      (k r n : ℕ) (c : List Place) (half : ℕ)
      → AllBots c
      → half + half ≡ length c
      → r < k
      → k ≤ r + n
      → seats_in p k (leg_one raws r n c) ≡ circle_sum p c
  unfolding leg_one
  leg_one-all k r zero c half a e low high = absurd (omega arith)
  leg_one-all k r (suc n) c half a e low high =
      let tables : length c / 2 ≡ half = omega arith in
      let parts =
        seats_in-append p k raws (round_matches raws r c 0 (length c / 2))
          (leg_one raws (suc r) n (rotate c)) in
      elim (Bool-cases (suc r == k)) [
        | inl f ↦
            let same : suc r ≡ k = ground arith in
            omega (
              arith,
              parts,
              subst
                  (λ j.
                    seats_in p j (round_matches raws r c 0 (length c / 2))
                    ≡ span p c 0 (length c / 2) + back p c 0 (length c / 2))
                  same (round-all r c 0 (length c / 2) a (omega arith)),
              tables-all p c (length c / 2) (omega arith),
              leg_one-before p k raws (suc r) n (rotate c) (omega arith),
            )
        | inr f ↦
            let later : suc r < k = ground arith in
            omega (
              arith,
              parts,
              round-other p k raws r c 0 (length c / 2) (λ g. absurd (omega arith)),
              rotate-sum p c,
              leg_one-all k (suc r) n (rotate c) half (rotate-AllBots c a)
                  (e ∙ sym (length-rotate c)) later (omega arith),
            )
      ]

  second-none :
      (circle : List Place) (rounds k : ℕ)
      → k ≤ rounds
      → seats_in p k (map (reversed rounds) (leg_one raws 0 rounds circle)) ≡ 0
  second-none circle rounds k h =
      let first = leg_one raws 0 rounds circle in
      elim (Bool-cases (ltb k rounds)) [
        | inl f ↦ reversed-early p rounds k first (ground arith)
        | inr f ↦
            let same : rounds + 0 ≡ k = ground arith in
            subst (λ j. seats_in p j (map (reversed rounds) first) ≡ 0) same
              (reversed-seats p rounds 0 first
                ∙ leg_one-before p 0 raws 0 rounds circle (omega arith))
      ]

  legs-all :
      (circle : List Place) (rounds half k : ℕ)
      → AllBots circle
      → half + half ≡ length circle
      → 1 ≤ k
      → k ≤ 2 * rounds
      → seats_in p k
          (leg_one raws 0 rounds circle ++ map (reversed rounds) (leg_one raws 0 rounds circle))
        ≡ circle_sum p circle
  legs-all circle rounds half k a e low high =
      let first = leg_one raws 0 rounds circle in
      let parts = seats_in-append p k raws first (map (reversed rounds) first) in
      elim (Bool-cases (ltb rounds k)) [
        | inl f ↦
            let d = k - rounds in
            let same : rounds + d ≡ k = ground arith in
            omega (
              arith,
              parts,
              leg_one-after p k raws 0 rounds circle (ground arith),
              subst (λ j. seats_in p j (map (reversed rounds) first) ≡ seats_in p d first) same
                  (reversed-seats p rounds d first),
              leg_one-all d 0 rounds circle half a e (ground arith) (omega arith),
            )
        | inr f ↦
            let within : k ≤ rounds = ground arith in
            omega (
              arith,
              parts,
              leg_one-all k 0 rounds circle half a e (omega arith) (omega arith),
              second-none circle rounds k within,
            )
      ]

-- With an even number of identifiers, in every round, the first to the last of both legs, the bots that
-- pass any test have just as many seats as there are such bots: every bot plays exactly once.
pub schedule_of-even :
    (raws : List RawEntry) (ids : List Text) (p : Text → Bool) (half k : ℕ)
    → half + half ≡ length ids
    → 1 ≤ k
    → k ≤ 2 * (length ids - 1)
    → seats_in p k (games_of (schedule_of raws ids)) ≡ count p ids
unfolding schedule_of
schedule_of-even raws ids p half k e low high =
    let even : is_even (length ids) ≡ true = ground arith in
    let circle = circle_of ids in
    let whole_circle : circle_of ids ≡ map some ids ++ [] = rw even refl in
    let n : length circle ≡ length ids = ap length whole_circle ∙ length-somes ids in
    let bots : AllBots circle = subst AllBots (sym whole_circle) (somes-AllBots ids) in
    let first = leg_one raws 0 (length circle - 1) circle in
    rw (games_of-schedule_from 0 (first ++ map (reversed (length circle - 1)) first)) (
      legs-all p raws circle (length circle - 1) half k bots (omega arith) low (omega arith)
      ∙ circle_of-sum p ids)
