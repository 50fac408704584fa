-- ===== src/Rules/Time/Elapsed.antt =====
-- What `elapseClock` does to the clocks.
use mathlib.Core.Path.{subst}
use ottv.Prelude.{
  ℕ, ◌+◌, ◌-◌, ◌≤◌, ◌<◌, ◌≡◌, none, some, List, [], ◌∷◌, ◌++◌, pos, arith, sym, ap, ◌∙◌,
}
use ottv.Rules.Types.{
  Seat, seat_a, seat_b, other, remaining, GameState, GameEvent, win, timeout, ok,
}
use ottv.Rules.Board.{whole}
use ottv.Rules.Board.Occupancy.{clone_state_eq}
use ottv.Rules.Time.{run_down, elapse_for, elapse_clock}

-- The copy is the state itself.
pub elapse_clock-eq :
    (s : GameState) (t : ℕ)
    → elapse_clock (some s) (whole (pos t)) ≡ ok (elapse_for s s.winner s.clock.running_seat t)
unfolding elapse_clock
elapse_clock-eq s t = rw clone_state_eq

abbrev Timed : Type 0
Timed = GameState × List GameEvent

abbrev after : GameState → ℕ → Timed
after s t = elapse_for s s.winner s.clock.running_seat t

-- Two stretches of time, one after the other.
abbrev twice : GameState → ℕ → ℕ → Timed
twice s t u =
    let first = after s t in let second = after first.0 u in (second.0, first.1 ++ second.1)

after-add : (s : GameState) (t u : ℕ) → twice s t u ≡ after s (t + u)
unfolding elapse_for run_down
after-add s t u = ground arith

-- Time that elapses in two parts leaves the state, and reports the events, that it does at once.
pub elapse_clock-add :
    (s : GameState) (t u : ℕ) (r q : Timed)
    → elapse_clock (some s) (whole (pos t)) ≡ ok r
    → elapse_clock (some r.0) (whole (pos u)) ≡ ok q
    → elapse_clock (some s) (whole (pos (t + u))) ≡ ok (q.0, r.1 ++ q.1)
elapse_clock-add s t u r q h k =
    let first : after s t ≡ r = cc (elapse_clock-eq s t) in
    let second : after r.0 u ≡ q = cc (elapse_clock-eq r.0 u) in
    elapse_clock-eq s (t + u) ∙ ap ok (sym (after-add s t u) ∙ cc)

-- The state and the events `r` when the clock of `seat` has run down from `s` by `t`.
pub record RanDown (s : GameState) (seat : Seat) (t : ℕ) (r : Timed) : Type 0 where
  pub taken : remaining r.0.clock seat ≡ remaining s.clock seat - t
  pub kept : remaining r.0.clock (other seat) ≡ remaining s.clock (other seat)
  pub turn_kept : r.0.turn ≡ s.turn
  pub pieces_kept : r.0.pieces ≡ s.pieces
  pub in_time :
      t < remaining s.clock seat
      → (r.0.winner ≡ none) × (r.0.clock.running_seat ≡ some seat) × (r.1 ≡ [])
  pub out_of_time :
      remaining s.clock seat ≤ t
      → (r.0.winner ≡ some (other seat))
        × (r.0.reason ≡ some timeout)
        × (r.0.clock.running_seat ≡ none)
        × (r.1 ≡ win (other seat) timeout none ∷ [])

run_down-RanDown :
    (s : GameState) (seat : Seat) (t : ℕ)
    → s.winner ≡ none
    → s.clock.running_seat ≡ some seat
    → RanDown s seat t (run_down s seat t)
unfolding run_down
run_down-RanDown s seat_a t w h = ground arith
run_down-RanDown s seat_b t w h = ground arith

-- When a positive time elapses in an open game while the clock of a seat runs, that clock loses just
-- the time, down to 0; the other clock, the turn and the pieces stay; the other seat wins by timeout,
-- with the clock stopped and the event reported, exactly when the clock comes to 0.
pub elapse_clock-RanDown :
    (s : GameState) (seat : Seat) (t : ℕ) (r : Timed)
    → s.winner ≡ none
    → s.clock.running_seat ≡ some seat
    → 0 < t
    → elapse_clock (some s) (whole (pos t)) ≡ ok r
    → RanDown s seat t r
unfolding elapse_for
elapse_clock-RanDown s seat t r w h p e =
    let taken : run_down s seat t ≡ r = ground (arith, elapse_clock-eq s t) in
    subst (RanDown s seat t) taken (run_down-RanDown s seat t w h)
