-- ===== src/Rules/Time.antt =====
-- `elapseClock` of packages/game-core/src/rules.js.
pub mod Elapsed
use ottv.Prelude.{ℕ, ◌-◌, Option, none, some, List, [], ◌∷◌, pos, ◌==◌, if◌then◌else◌}
use ottv.Rules.Types.{
  Seat, other, remaining, set_remaining, GameState, GameEvent, win, timeout, ok, fail, Applied,
  missing_state, invalid_time,
}
use ottv.Rules.Board.{Sent, whole, clone_state}

-- The clock of `seat` runs for `elapsed` milliseconds; `Math.max(0, before - elapsed)` is the
-- subtraction of ℕ.
unfoldable pub run_down : GameState → Seat → ℕ → GameState × List GameEvent
run_down next seat elapsed =
    let left = remaining next.clock seat - elapsed in
    let clock = set_remaining next.clock seat left in
    let winner = other seat in
    if left == 0
    then (
      record next {
        winner = some winner;
        reason = some timeout;
        eliminated_player = none;
        clock = record clock { running_seat = none };
      },
      win winner timeout none ∷ [],
    )
    else (record next { clock = clock }, [])

-- `next.winner || !seat || elapsedMs === 0` leaves the copy as it is.
unfoldable pub elapse_for : GameState → Option Seat → Option Seat → ℕ → GameState × List GameEvent
elapse_for next none (some seat) elapsed =
    if elapsed == 0 then (next, []) else run_down next seat elapsed
elapse_for next _ _ elapsed = (next, [])

unfoldable pub elapse_clock : Option GameState → Sent → Applied
elapse_clock none elapsed = fail missing_state
elapse_clock (some s) (whole (pos elapsed)) =
    let next = clone_state s in ok (elapse_for next next.winner next.clock.running_seat elapsed)
elapse_clock (some s) _ = fail invalid_time
