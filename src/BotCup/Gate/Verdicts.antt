-- ===== src/BotCup/Gate/Verdicts.antt =====
-- Who passes the gate, and which appeals are heard.
use ottv.Prelude.{
  ℕ, ◌+◌, ◌≤◌, ◌<◌, ◌≡◌, ◌↔◌, refl, ap, Bool, true, false, ◌||◌, Option, none, some, List, [], ◌∷◌,
  ltb, leb, All, length, arith, inl, inr, Bool-cases,
}
use ottv.BotCup.Gate.{
  GateGame, GateVerdict, GateStatus, qualified, not_qualified, GameStatus, finished, unfinished,
  is_finished, sum_gate_points, some_unfinished, gate_verdict, gate_game_count, pass_points, Mode,
  appeal_window, max_appeals, window_closed, appeal_allowed, appeal_window_closed, appeal_limit,
}

abbrev pub Over : GateGame → Type 0
Over g = g.status ≡ finished

-- The points of the games, one after the other.
abbrev pub points_in : List GateGame → ℕ
points_in [] = 0
points_in (g ∷ gs) = g.points + points_in gs

sum_gate_points-points_in :
    (sum : ℕ) (games : List GateGame) → sum_gate_points sum games ≡ sum + points_in games
unfolding sum_gate_points
sum_gate_points-points_in sum [] = omega arith
sum_gate_points-points_in sum (g ∷ gs) =
    omega (arith, sum_gate_points-points_in (sum + g.points) gs)

is_finished_iff : (status : GameStatus) → (is_finished status ≡ true) ↔ (status ≡ finished)
is_finished_iff finished = (λ h. refl, λ h. refl)
is_finished_iff unfinished = (λ h. absurd (cc), λ h. absurd (cc))

finished_iff : (games : List GateGame) → (some_unfinished games ≡ false) ↔ All Over games
finished_iff [] = (λ h. tt, λ h. refl)
finished_iff (g ∷ gs) = elim (Bool-cases (is_finished g.status)) [
  | inl e ↦
      let (there, back) = finished_iff gs in
      let done_game : Over g = (is_finished_iff g.status).0 e in
      rw e (λ h. (done_game, there h), λ (o, a). back a)
  | inr e ↦ rw e (
    λ h. absurd (cc),
    λ (o, a). let yes : is_finished g.status ≡ true = (is_finished_iff g.status).1 o in absurd (cc),
  )
]

points_of_verdict : Option GateVerdict → ℕ
points_of_verdict none = 0
points_of_verdict (some v) = v.points

is_qualified : Option GateVerdict → Bool
is_qualified none = false
is_qualified (some v) = elim v.status [ qualified ↦ true | not_qualified ↦ false ]

points_eq :
    (status : GateStatus) (m n : ℕ)
    → ◌≡◌ {A = Option GateVerdict}
        (some (record { status = status; points = m }))
        (some (record { status = qualified; points = n }))
    → m ≡ n
unfolding points_of_verdict
points_eq status m n h = ap points_of_verdict h

status_ne :
    (m n : ℕ)
    → ◌≡◌ {A = Option GateVerdict}
        (some (record { status = not_qualified; points = m }))
        (some (record { status = qualified; points = n }))
    → ⊥
unfolding is_qualified
status_ne m n h = let e : false ≡ true = ap is_qualified h in absurd (cc)

-- A submission qualifies with a number of points exactly when at least six games have been played, all
-- are finished, these are their points, and they are four at least.
pub gate_verdict_iff :
    (games : List GateGame) (n : ℕ)
    → (gate_verdict games ≡ some (record { status = qualified; points = n }))
      ↔ ((6 ≤ length games) × All Over games × (points_in games ≡ n) × (8 ≤ n))
unfolding gate_verdict
gate_verdict_iff games n = (there, back)
  where
    sum : ℕ
    sum = sum_gate_points 0 games

    open_test : Bool
    open_test = ltb (length games) gate_game_count || some_unfinished games

    of_status : GateStatus → GateVerdict
    of_status status = record { status = status; points = sum }

    there :
        gate_verdict games ≡ some (record { status = qualified; points = n })
        → (6 ≤ length games) × All Over games × (points_in games ≡ n) × (8 ≤ n)
    there h = elim (Bool-cases open_test) [
      | inl e ↦
          let w : ◌≡◌ {A = Option GateVerdict} none
              (some (record { status = qualified; points = n })) =
            rw e at h in
          absurd (cc)
      | inr e ↦ elim (Bool-cases (leb pass_points sum)) [
        | inl f ↦
            let w : some (of_status qualified) ≡ some (record { status = qualified; points = n }) =
              rw (e, f) at h in
            let same : sum ≡ n = points_eq qualified sum n w in
            (
              ground arith,
              (finished_iff games).0 (ground arith),
              omega (arith, sum_gate_points-points_in 0 games),
              ground arith,
            )
        | inr f ↦
            let w : some (of_status not_qualified)
                ≡ some (record { status = qualified; points = n }) =
              rw (e, f) at h in
            absurd (status_ne sum n w)
      ]
    ]

    back :
        (6 ≤ length games) × All Over games × (points_in games ≡ n) × (8 ≤ n)
        → gate_verdict games ≡ some (record { status = qualified; points = n })
    back (six, all, total, eight) =
        let same : sum ≡ n = omega (arith, sum_gate_points-points_in 0 games) in
        let u : some_unfinished games ≡ false = (finished_iff games).1 all in
        let e : open_test ≡ false = ground arith in
        let f : leb pass_points sum ≡ true = ground arith in rw (e, f, same) refl

-- An appeal is heard exactly when the results are published, the time of the appeal is not over (twelve
-- hours in the demonstration, twenty-four in the event) and there have been fewer than three appeals.
pub appeal_allowed_iff :
    (mode : Mode) (published : Option ℕ) (now appeals : ℕ)
    → (appeal_allowed mode published now appeals ≡ none) ↔ (
        (at : ℕ) × (published ≡ some at)
        × (at ≤ now)
        × (now < at + appeal_window mode)
        × (appeals < 3))
unfolding appeal_allowed
appeal_allowed_iff mode none now appeals =
    (λ h. absurd (cc), λ (at, e, low, high, few). absurd (cc))
appeal_allowed_iff mode (some at) now appeals = (there, back)
  where
    there :
        appeal_allowed mode (some at) now appeals ≡ none
        → (t : ℕ) × (some at ≡ some t) × (t ≤ now) × (now < t + appeal_window mode) × (appeals < 3)
    there h = elim (Bool-cases (window_closed mode (some at) now)) [
      | inl e ↦ let w : some appeal_window_closed ≡ none = rw e at h in absurd (cc)
      | inr e ↦ elim (Bool-cases (leb max_appeals appeals)) [
        | inl f ↦ let w : some appeal_limit ≡ none = rw (e, f) at h in absurd (cc)
        | inr f ↦ (at, refl, ground arith, ground arith, ground arith)
      ]
    ]

    back :
        (t : ℕ) × (some at ≡ some t) × (t ≤ now) × (now < t + appeal_window mode) × (appeals < 3)
        → appeal_allowed mode (some at) now appeals ≡ none
    back (t, e, low, high, few) =
        let same : at ≡ t = cc in
        let open_now : window_closed mode (some at) now ≡ false = rw same (ground arith) in
        let f : leb max_appeals appeals ≡ false = ground arith in rw (open_now, f) refl
