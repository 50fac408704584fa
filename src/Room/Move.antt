-- ===== src/Room/Move.antt =====
-- `handleMove` of class `Room` of packages/game-core/src/room.js.
pub mod Kept
pub mod Taken
pub mod Alike
pub mod Moved
use ottv.Prelude.{
  ℕ, Bool, true, false, ◌&&◌, ◌||◌, not, Option, none, some, List, [], ◌∷◌, ◌++◌, pos, eq_ℤ, leb,
  if◌then◌else◌,
}
use ottv.Rules.Types.{Seat, seat_eq, GameState, GameEvent, RuleError, ok, fail, throws}
use ottv.Rules.Board.{Sent, whole, other_value}
use ottv.Rules.Apply.{RawPoint, apply_move}
use ottv.Room.Types.{
  Connection, Room, LastMove, NumberedEvent, is_playing, is_some, player_of, connected, seat_of,
  commit_state_change,
}
use ottv.Room.Clock.{
  set_running, cancel_clock_deadline, schedule_clock_deadline, finish_terminal, settle_uncommitted,
}

pub data MoveReply : Type 0 where
  accepted : List NumberedEvent → MoveReply
  duplicate : List NumberedEvent → MoveReply
  not_in_room not_started : MoveReply
  stale_revision : ℕ → Option Sent → MoveReply
  finished : List NumberedEvent → MoveReply
  refused : RuleError → MoveReply
  crashed : MoveReply

-- `===` where one side is a whole number.
abbrev pub same_sent : Sent → Sent → Bool
same_sent (whole i) (whole j) = eq_ℤ i j
same_sent _ _ = false

abbrev pub same_square : RawPoint → Option RawPoint → Bool
same_square p none = false
same_square p (some q) = same_sent p.raw_x q.raw_x && same_sent p.raw_y q.raw_y

abbrev same_expected : Option Sent → Sent → Bool
same_expected none e = false
same_expected (some d) e = same_sent d e

-- A whole number from `low` to `high`.
abbrev pub within_interval : ℕ → ℕ → Sent → Bool
within_interval low high (whole (pos n)) = leb low n && leb n high
within_interval low high _ = false

-- The revisions that a retry of the last move may name.
abbrev pub retry_revision : LastMove → Option Sent → Bool
retry_revision m none = true
retry_revision m (some e) =
    same_sent e (whole (pos m.revision_before))
    || same_expected m.expected_revision e
    || within_interval m.structural_revision_before m.revision_before e

unfoldable pub is_duplicate :
    Option LastMove → Seat → Option RawPoint → Option RawPoint → Option Sent → Bool
is_duplicate none seat from to expected = false
is_duplicate (some m) seat from to expected =
    seat_eq m.seat seat
    && same_square m.from from
    && same_square m.to to
    && retry_revision m expected

abbrev pub last_events_of : Option LastMove → List NumberedEvent
last_events_of none = []
last_events_of (some m) = m.events

unfoldable pub is_stale : Room → Option Sent → Bool
is_stale r none = false
is_stale r (some e) = not (within_interval r.structural_revision r.revision e)

-- The copies of the squares; they are there when a move has been accepted.
abbrev pub copied : Option RawPoint → RawPoint
copied (some p) = record { raw_x = p.raw_x; raw_y = p.raw_y }
copied none = record { raw_x = other_value; raw_y = other_value }

-- `if (settled.events.length) this.commitStateChange(settled.events, …)`
abbrev pub commit_if_any : Room → List GameEvent → Bool → Room × List NumberedEvent
commit_if_any r [] structural = (r, [])
commit_if_any r (e ∷ es) structural = commit_state_change r (e ∷ es) structural

abbrev pub next_clock : Room → Room
next_clock r =
    if is_some r.state.winner
    then finish_terminal r
    else if not (connected (player_of r r.state.turn))
    then cancel_clock_deadline (set_running r none)
    else schedule_clock_deadline r

-- What follows an accepted `applyMove`.
unfoldable pub record_move :
    Room
    → Seat
    → Option RawPoint
    → Option RawPoint
    → Option Sent
    → ℕ
    → List GameEvent
    → GameState
    → List GameEvent
    → Room × MoveReply
record_move r seat from to expected now before state events =
    let placed = record r { state = state; clock_anchor_ms = now } in
    let (committed, numbered) = commit_state_change (next_clock placed) (before ++ events) true in
    let last : LastMove = record {
      seat = seat;
      from = copied from;
      to = copied to;
      revision_before = r.revision;
      revision_after = committed.revision;
      structural_revision_before = r.structural_revision;
      expected_revision = expected;
      events = numbered;
    } in
    (record committed { last_move = some last }, accepted numbered)

-- The attempt to move, after the clock has been settled.
unfoldable pub attempt_move :
    Room
    → List GameEvent
    → Seat
    → Option RawPoint
    → Option RawPoint
    → Option Sent
    → ℕ
    → Room × MoveReply
unfolding record_move
attempt_move r before seat from to expected now =
    elim (apply_move (some r.state) (some seat) from to) [
      | ok (state, events) ↦ record_move r seat from to expected now before state events
      | fail e ↦ ((commit_if_any r before false).0, refused e)
      | throws ↦ (r, crashed)
    ]

abbrev pub finish_settled : Room × List GameEvent → Room × MoveReply
finish_settled p = let (r, events) = commit_if_any p.0 p.1 true in (r, finished events)

-- The guards of `handleMove` for a seated player; the clock is read at `now` and, once the move
-- has been accepted, at `later`.
unfoldable pub move_seated :
    Room → Seat → Option RawPoint → Option RawPoint → Option Sent → ℕ → ℕ → Room × MoveReply
unfolding is_duplicate is_stale attempt_move
move_seated r seat from to expected now later =
    let settled = settle_uncommitted r now in
    if is_duplicate r.last_move seat from to expected
    then (r, duplicate (last_events_of r.last_move))
    else if not (is_playing r.status)
    then (r, not_started)
    else if is_stale r expected
    then (r, stale_revision r.revision expected)
    else if is_some settled.0.state.winner
    then finish_settled settled
    else attempt_move settled.0 settled.1 seat from to expected later

unfoldable pub handle_move :
    Room
    → Option Connection
    → Option RawPoint
    → Option RawPoint
    → Option Sent
    → ℕ
    → ℕ
    → Room × MoveReply
unfolding move_seated
handle_move r c from to expected now later = elim (seat_of r c) [
  | none ↦ (r, not_in_room)
  | some seat ↦ move_seated r seat from to expected now later
]
