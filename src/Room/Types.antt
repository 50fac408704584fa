-- ===== src/Room/Types.antt =====
-- The state of class `Room` of packages/game-core/src/room.js, and its constructor.
use Prim.Native.String.{String}
use ottv.Prelude.{
  ℕ, suc, Bool, true, false, ◌&&◌, Option, none, some, List, [], ◌∷◌, ◌==◌, text_eq, not,
  if◌then◌else◌,
}
use ottv.Names.{Text}
use ottv.Rules.Types.{Seat, seat_a, seat_b, GameState, GameEvent}
use ottv.Rules.Board.{Sent, create_initial_state}
use ottv.Rules.Apply.{RawPoint}

-- A connection: which object it is, and its `id` if it has one.
pub record Connection : Type 0 where
  pub object : ℕ
  pub id : Option String

pub record Player : Type 0 where
  pub connection : Option Connection
  pub name : Text
  pub seat : Seat
  pub connected : Bool
  pub resume_token : String
  pub reconnect_deadline_ms : Option ℕ

pub data Status : Type 0 where
  waiting playing done : Status

pub record NumberedEvent : Type 0 where
  pub event : GameEvent
  pub event_id : ℕ

pub record LastMove : Type 0 where
  pub seat : Seat
  pub from : RawPoint
  pub to : RawPoint
  pub revision_before : ℕ
  pub revision_after : ℕ
  pub structural_revision_before : ℕ
  pub expected_revision : Option Sent
  pub events : List NumberedEvent

-- A timer is the delay that it was scheduled with; `none` is no timer. The clock and the random
-- tokens come with each call that reads them.
pub record Room : Type 0 where
  pub player_a : Option Player
  pub player_b : Option Player
  pub state : GameState
  pub status : Status
  pub last_events : List NumberedEvent
  pub revision : ℕ
  pub structural_revision : ℕ
  pub next_event_id : ℕ
  pub created_at : ℕ
  pub clock_anchor_ms : ℕ
  pub clock_timer : Option ℕ
  pub reconnect_timer_a : Option ℕ
  pub reconnect_timer_b : Option ℕ
  pub last_move : Option LastMove
  pub initial_clock_ms : ℕ
  pub reconnect_grace_ms : ℕ

abbrev pub player_of : Room → Seat → Option Player
player_of r seat_a = r.player_a
player_of r seat_b = r.player_b

abbrev pub set_player : Room → Seat → Option Player → Room
set_player r seat_a p = record r { player_a = p }
set_player r seat_b p = record r { player_b = p }

abbrev pub set_reconnect_timer : Room → Seat → Option ℕ → Room
set_reconnect_timer r seat_a t = record r { reconnect_timer_a = t }
set_reconnect_timer r seat_b t = record r { reconnect_timer_b = t }

abbrev pub is_playing : Status → Bool
is_playing playing = true
is_playing _ = false

abbrev pub is_waiting : Status → Bool
is_waiting waiting = true
is_waiting _ = false

abbrev pub is_done : Status → Bool
is_done done = true
is_done _ = false

abbrev pub is_some {ℓ} : {A : Type ℓ} → Option A → Bool
is_some none = false
is_some (some _) = true

abbrev pub connected : Option Player → Bool
connected none = false
connected (some p) = p.connected

-- The initial state with the clocks of the room.
unfoldable pub room_initial_state : ℕ → GameState
unfolding create_initial_state
room_initial_state ms =
    let s = create_initial_state in
    record s { clock = record s.clock { remaining_a = ms; remaining_b = ms } }

-- The constructor. `deps` has given the two durations, clamped as there, and the two revisions.
unfoldable pub new_room : ℕ → ℕ → ℕ → ℕ → ℕ → Room
unfolding room_initial_state
new_room initial_ms grace_ms revision structural now = record {
  player_a = none;
  player_b = none;
  state = room_initial_state initial_ms;
  status = waiting;
  last_events = [];
  revision = revision;
  structural_revision = structural;
  next_event_id = 1;
  created_at = now;
  clock_anchor_ms = now;
  clock_timer = none;
  reconnect_timer_a = none;
  reconnect_timer_b = none;
  last_move = none;
  initial_clock_ms = initial_ms;
  reconnect_grace_ms = grace_ms;
}

-- `sameConnection`
abbrev same_ids : Option String → Option String → Bool
same_ids (some i) (some j) = text_eq i j
same_ids _ _ = false

unfoldable pub same_connection : Option Connection → Option Connection → Bool
same_connection none none = true
same_connection (some c) (some d) = if c.object == d.object then true else same_ids c.id d.id
same_connection _ _ = false

abbrev sits : Option Player → Option Connection → Bool
sits none c = false
sits (some p) c = p.connected && same_connection p.connection c

-- `seatOf`
unfoldable pub seat_of : Room → Option Connection → Option Seat
seat_of r c =
    if sits r.player_a c then some seat_a else if sits r.player_b c then some seat_b else none

unfoldable pub is_empty : Room → Bool
is_empty r =
    if not (is_some r.player_a) && not (is_some r.player_b)
    then true
    else if not (is_done r.status)
    then false
    else not (connected r.player_a) && not (connected r.player_b)

-- The events of a commit, numbered from `n`.
unfoldable pub number_events : ℕ → List GameEvent → List NumberedEvent
number_events n [] = []
number_events n (e ∷ es) = record { event = e; event_id = n } ∷ number_events (suc n) es

abbrev pub next_id : ℕ → List GameEvent → ℕ
next_id n [] = n
next_id n (e ∷ es) = next_id (suc n) es

abbrev stamped : Room → Bool → Room
stamped r structural =
    let revision = suc r.revision in
    record r {
      revision = revision;
      structural_revision = if structural then revision else r.structural_revision;
    }

-- `commitStateChange`
unfoldable pub commit_state_change : Room → List GameEvent → Bool → Room × List NumberedEvent
unfolding number_events
commit_state_change r [] structural = (stamped r structural, [])
commit_state_change r (e ∷ es) structural =
    let events = number_events r.next_event_id (e ∷ es) in
    (
      record (stamped r structural) {
        last_events = events;
        next_event_id = next_id r.next_event_id (e ∷ es);
      },
      events,
    )
