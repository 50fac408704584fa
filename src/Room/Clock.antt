-- ===== src/Room/Clock.antt =====
-- The clock of class `Room`: settling it, its deadline, and the end of a game.
use ottv.Prelude.{ℕ, ◌-◌, Bool, ◌||◌, not, Option, none, some, List, [], pos, ◌==◌, if◌then◌else◌}
use ottv.Rules.Types.{Seat, remaining, GameEvent, ok}
use ottv.Rules.Board.{whole}
use ottv.Rules.Time.{elapse_clock}
use ottv.Room.Types.{Room, done, is_playing, is_some, NumberedEvent, commit_state_change}

abbrev pub running_seat : Room → Option Seat
running_seat r = r.state.clock.running_seat

abbrev pub set_running : Room → Option Seat → Room
set_running r s =
    let g = r.state in
    let c = g.clock in record r { state = record g { clock = record c { running_seat = s } } }

unfoldable pub cancel_clock_deadline : Room → Room
cancel_clock_deadline r = record r { clock_timer = none }

-- `finishTerminal`
unfoldable pub finish_terminal : Room → Room
unfolding cancel_clock_deadline
finish_terminal r =
    let c = cancel_clock_deadline r in
    let t = record c { reconnect_timer_a = none; reconnect_timer_b = none } in
    record (set_running t none) { status = done }

abbrev pub deadline : Room → Option Seat → Option ℕ
deadline r none = none
deadline r (some seat) = if is_playing r.status then some (remaining r.state.clock seat) else none

-- `scheduleClockDeadline`
unfoldable pub schedule_clock_deadline : Room → Room
unfolding cancel_clock_deadline
schedule_clock_deadline r = record (cancel_clock_deadline r) {
  clock_timer = deadline r (running_seat r);
}

abbrev pub clock_stopped : Room → Bool
clock_stopped r = not (is_playing r.status) || not (is_some (running_seat r))

-- The part of `settleClock` behind its guards. The elapsed time is a number, so the result of
-- `elapseClock` is `ok`.
unfoldable pub advance : Room → ℕ → ℕ → Room × List GameEvent
advance r elapsed now = elim (elapse_clock (some r.state) (whole (pos elapsed))) [
  | ok p ↦
      let moved = record r { state = p.0; clock_anchor_ms = now } in
      (if is_some p.0.winner then finish_terminal moved else moved, p.1)
  | _ ↦ (r, [])
]

-- `settleClock(now, { commit: false })`
unfoldable pub settle_uncommitted : Room → ℕ → Room × List GameEvent
settle_uncommitted r now =
    let elapsed = now - r.clock_anchor_ms in
    if clock_stopped r
    then (record r { clock_anchor_ms = now }, [])
    else if elapsed == 0
    then (r, [])
    else advance r elapsed now

abbrev commit_advanced : Room × List GameEvent → Room × List NumberedEvent
commit_advanced p = commit_state_change p.0 p.1 (is_some p.0.state.winner)

-- `settleClock(now)`
unfoldable pub settle_clock : Room → ℕ → Room × List NumberedEvent
settle_clock r now =
    let elapsed = now - r.clock_anchor_ms in
    if clock_stopped r
    then (record r { clock_anchor_ms = now }, [])
    else if elapsed == 0
    then (r, [])
    else commit_advanced (advance r elapsed now)

-- The callback of the clock's timer; what it passes to `notify` is left out.
unfoldable pub on_clock_timer : Room → ℕ → Room × List NumberedEvent
unfolding settle_clock
on_clock_timer r now = settle_clock (record r { clock_timer = none }) now
