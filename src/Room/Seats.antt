-- ===== src/Room/Seats.antt =====
-- Joining, leaving and coming back in class `Room` of packages/game-core/src/room.js. A reply names
-- the players' names and the state only where they do not stand in the room that is returned.
pub mod Kept
pub mod Gone
pub mod Back
use Prim.Native.String.{String}
use ottv.Prelude.{
  ℕ, ◌+◌, Bool, true, false, ◌&&◌, ◌||◌, not, Option, none, some, List, [], ◌∷◌, ◌==◌, ltb, leb,
  text_eq, if◌then◌else◌,
}
use ottv.Names.{Text, clean_display_name, name_max}
use ottv.Rules.Types.{Seat, seat_a, seat_b, seat_eq, other, win, Reason, leave, disconnect_timeout}
use ottv.Room.Types.{
  Connection, Player, Room, playing, done, is_playing, is_waiting, is_done, is_some, NumberedEvent,
  player_of, set_player, set_reconnect_timer, connected, seat_of, commit_state_change,
  room_initial_state,
}
use ottv.Room.Clock.{
  running_seat, set_running, cancel_clock_deadline, finish_terminal, schedule_clock_deadline,
  settle_clock,
}

-- `sanitizeName`: "Khách" for a name with nothing left.
abbrev pub guest : Text
guest = 75 ∷ 104 ∷ 225 ∷ 99 ∷ 104 ∷ []

abbrev or_guest : Text → Text
or_guest [] = guest
or_guest (c ∷ cs) = c ∷ cs

unfoldable pub sanitize_name : Text → Text
sanitize_name name = or_guest (clean_display_name name name_max)

unfoldable pub make_player : Option Connection → Text → Seat → String → Player
make_player c name seat token = record {
  connection = c;
  name = sanitize_name name;
  seat = seat;
  connected = true;
  resume_token = token;
  reconnect_deadline_ms = none;
}

pub data JoinReply : Type 0 where
  joined : Seat → Text → String → JoinReply
  room_finished room_full : JoinReply

abbrev pub free_seat : Room → Option Seat
free_seat r =
    if not (is_some r.player_a)
    then some seat_a
    else if not (is_some r.player_b)
    then some seat_b
    else none

-- The start of the game, once both seats are taken.
unfoldable pub start_game : Room → ℕ → Room
start_game r now =
    let s = room_initial_state r.initial_clock_ms in
    let started = record r { status = playing; state = s; clock_anchor_ms = now } in
    schedule_clock_deadline
      (if connected (player_of started s.turn) then started else set_running started none)

abbrev pub seat_player : Room → Seat → Player → ℕ → Room
seat_player r seat p now =
    let seated = (commit_state_change (set_player r seat (some p)) [] true).0 in
    if is_some seated.player_a && is_some seated.player_b then start_game seated now else seated

abbrev pub join_seat : Room → Option Connection → Text → String → ℕ → Option Seat → Room × JoinReply
join_seat r c name token now none = (r, room_full)
join_seat r c name token now (some seat) =
    let p = make_player c name seat token in
    (seat_player r seat p now, joined seat p.name p.resume_token)

-- `addPlayer`, with the random token and the time.
unfoldable pub add_player : Room → Option Connection → Text → String → ℕ → Room × JoinReply
unfolding start_game make_player
add_player r c name token now =
    if is_done r.status then (r, room_finished) else join_seat r c name token now (free_seat r)

abbrev lose_player : ℕ → Player → Player
lose_player deadline p = record p { connected = false; reconnect_deadline_ms = some deadline }

abbrev pub dropped : Bool → ℕ → Option Player → Option Player
dropped true deadline (some p) = some (lose_player deadline p)
dropped _ deadline p = p

-- `reconcileHydration`; the two flags are the seats in `preserveSeats`. It replies with the seats
-- that it marked as disconnected.
unfoldable pub reconcile_hydration : Room → ℕ → Bool → Bool → Room × Bool × Bool
reconcile_hydration r now keep_a keep_b =
    let lost_a = connected r.player_a && not keep_a in
    let lost_b = connected r.player_b && not keep_b in
    let deadline = now + r.reconnect_grace_ms in
    let marked = record r {
      player_a = dropped lost_a deadline r.player_a;
      player_b = dropped lost_b deadline r.player_b;
    } in
    let stopped =
      if is_playing r.status && is_some (running_seat r)
      then cancel_clock_deadline (record (set_running marked none) { clock_anchor_ms = now })
      else marked in
    if is_done r.status
    then (r, false, false)
    else if not (lost_a || lost_b)
    then (r, false, false)
    else ((commit_state_change stopped [] true).0, lost_a, lost_b)

-- `deadline !== null && deadline <= now`
abbrev expired_by : ℕ → Option ℕ → Bool
expired_by now none = false
expired_by now (some deadline) = leb deadline now

abbrev pub is_expired : ℕ → Option Player → Bool
is_expired now none = false
is_expired now (some p) = not p.connected && expired_by now p.reconnect_deadline_ms

abbrev set_reason : Room → Reason → Room
set_reason r reason = let g = r.state in record r { state = record g { reason = some reason } }

-- `expireWaitingCreator`
unfoldable pub expire_waiting_creator : Room → ℕ → Room × Bool
expire_waiting_creator r now =
    let closed = record (set_reason r disconnect_timeout) {
      reconnect_timer_a = none;
      status = done;
    } in
    if is_waiting r.status && not (is_some r.player_b) && is_expired now r.player_a
    then ((commit_state_change (set_running closed none) [] true).0, true)
    else (r, false)

abbrev pub declare_winner : Room → Seat → Reason → Room
declare_winner r winner reason =
    let g = r.state in
    record r {
      state = record g { winner = some winner; reason = some reason; eliminated_player = none };
    }

-- The end of a game by `reason`: the winner, the commit of its event, `finishTerminal`.
unfoldable pub close_for : Room → Seat → Reason → Room × List NumberedEvent
close_for r winner reason =
    let (committed, events) =
      commit_state_change (declare_winner r winner reason) (win winner reason none ∷ []) true in
    (finish_terminal committed, events)

abbrev pub disconnect_at : Room → Seat → Option Player → Room
disconnect_at r seat none = r
disconnect_at r seat (some p) = set_player r seat (some (record p { connected = false }))

abbrev pub lose_at : Room → Seat → ℕ → Room
lose_at r seat deadline = set_player r seat (dropped true deadline (player_of r seat))

abbrev pub runs_for : Seat → Option Seat → Bool
runs_for seat none = false
runs_for seat (some s) = seat_eq s seat

-- `disconnectPlayer` of a seated player, in a game that is not over.
unfoldable pub disconnect_open : Room → Seat → ℕ → Room
disconnect_open r seat now =
    let lost = lose_at r seat (now + r.reconnect_grace_ms) in
    let stopped =
      if runs_for seat (running_seat r)
      then cancel_clock_deadline (record (set_running lost none) { clock_anchor_ms = now })
      else lost in
    set_reconnect_timer (commit_state_change stopped [] true).0 seat (some r.reconnect_grace_ms)

unfoldable pub disconnect_seat : Room → Seat → ℕ → Room
unfolding disconnect_open
disconnect_seat r seat now =
    let settled = (settle_clock r now).0 in
    if is_done r.status
    then (commit_state_change (disconnect_at r seat (player_of r seat)) [] true).0
    else if is_some settled.state.winner
    then (commit_state_change (disconnect_at settled seat (player_of settled seat)) [] true).0
    else disconnect_open settled seat now

-- `disconnectPlayer`, and so `removePlayer`; it replies with the seat.
unfoldable pub disconnect_player : Room → Option Connection → ℕ → Room × Option Seat
unfolding disconnect_seat
disconnect_player r c now = elim (seat_of r c) [
  | none ↦ (r, none)
  | some seat ↦ (disconnect_seat r seat now, some seat)
]

abbrev pub clear_deadline : Option Player → Option Player
clear_deadline none = none
clear_deadline (some p) = some (record p { connected = false; reconnect_deadline_ms = none })

-- `leavePlayer` of a seated player.
unfoldable pub leave_seat : Room → Seat → ℕ → Room × List NumberedEvent
unfolding close_for
leave_seat r seat now =
    let settled = (settle_clock r now).0 in
    let gone =
      set_reconnect_timer (set_player settled seat (clear_deadline (player_of settled seat))) seat
        none in
    let g = gone.state in
    let closed = record gone {
      state = record g { reason = some leave; eliminated_player = none };
    } in
    if is_some settled.state.winner
    then (settled, [])
    else if is_waiting gone.status
    then (finish_terminal (commit_state_change closed [] true).0, [])
    else close_for gone (other seat) leave

unfoldable pub leave_player : Room → Option Connection → ℕ → Room × Option (List NumberedEvent)
unfolding leave_seat
leave_player r c now = elim (seat_of r c) [
  | none ↦ (r, none)
  | some seat ↦ let (left, events) = leave_seat r seat now in (left, some events)
]

-- `deadline >= now`; `null` counts as 0.
abbrev not_before : ℕ → Option ℕ → Bool
not_before now none = now == 0
not_before now (some deadline) = leb now deadline

abbrev pub can_resume : String → ℕ → Option Player → Bool
can_resume token now none = false
can_resume token now (some p) =
    not p.connected && text_eq p.resume_token token && not_before now p.reconnect_deadline_ms

pub data ResumeReply : Type 0 where
  resumed : Seat → List NumberedEvent → ResumeReply
  game_finished bad_token : ResumeReply

abbrev pub resume_at : Option Connection → Option Player → Option Player
resume_at c none = none
resume_at c (some p) =
    some (record p { connection = c; connected = true; reconnect_deadline_ms = none })

unfoldable pub resume_seat : Room → Option Connection → Seat → ℕ → Room × ResumeReply
resume_seat r c seat now =
    let (settled, events) = settle_clock r now in
    let back =
      set_player (set_reconnect_timer settled seat none) seat
        (resume_at c (player_of settled seat)) in
    let turn = back.state.turn in
    let ticking =
      record (set_running back (if connected (player_of back turn) then some turn else none)) {
        clock_anchor_ms = now;
      } in
    let after = if is_some back.state.winner then back else schedule_clock_deadline ticking in
    ((commit_state_change after [] true).0, resumed seat events)

-- `resumePlayer`
unfoldable pub resume_player : Room → Option Connection → String → ℕ → Room × ResumeReply
unfolding resume_seat
resume_player r c token now =
    if is_done r.status
    then (r, game_finished)
    else if can_resume token now r.player_a
    then resume_seat r c seat_a now
    else if can_resume token now r.player_b
    then resume_seat r c seat_b now
    else (r, bad_token)

-- `tieBreakGraceLoser`
unfoldable pub tie_break_grace_loser : Room → Seat
tie_break_grace_loser r =
    let a = r.state.clock.remaining_a in
    let b = r.state.clock.remaining_b in
    if a == b then r.state.turn else if ltb a b then seat_a else seat_b

abbrev pub wanted : Option Seat → Seat → Bool
wanted none seat = true
wanted (some only) seat = seat_eq seat only

abbrev pub same_deadline : Option Player → Option Player → Bool
same_deadline (some p) (some q) = elim p.reconnect_deadline_ms [
  | none ↦ not (is_some q.reconnect_deadline_ms)
  | some t ↦ elim q.reconnect_deadline_ms [ none ↦ false | some u ↦ t == u ]
]
same_deadline _ _ = false

-- `expireReconnect`; `none` for `onlySeat` is both seats.
unfoldable pub expire_reconnect : Room → ℕ → Option Seat → Room × List NumberedEvent
unfolding close_for tie_break_grace_loser
expire_reconnect r now only =
    let gone_a = is_expired now r.player_a in
    let gone_b = is_expired now r.player_b in
    let hit_a = gone_a && wanted only seat_a in
    let hit_b = gone_b && wanted only seat_b in
    let (settled, events) = settle_clock r now in
    let simultaneous = gone_a && gone_b && same_deadline settled.player_a settled.player_b in
    let loser =
      if simultaneous then tie_break_grace_loser settled else if hit_a then seat_a else seat_b in
    if not (is_playing r.status)
    then (r, [])
    else if not (hit_a || hit_b)
    then (r, [])
    else if is_some settled.state.winner
    then (settled, events)
    else close_for settled (other loser) disconnect_timeout

-- The callback of a seat's reconnect timer.
unfoldable pub on_reconnect_timer : Room → Seat → ℕ → Room × List NumberedEvent
unfolding expire_reconnect
on_reconnect_timer r seat now = expire_reconnect (set_reconnect_timer r seat none) now (some seat)
