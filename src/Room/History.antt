-- ===== src/Room/History.antt =====
-- The life of a room: the calls that the server and the timers make of class `Room`, in any order.
use Prim.Native.String.{String}
use ottv.Prelude.{ℕ, ◌≤◌, refl, Bool, Option, some}
use ottv.Names.{Text}
use ottv.Rules.Types.{Seat, seat_a, seat_b}
use ottv.Rules.Board.{Sent}
use ottv.Rules.Board.Occupancy.{IsBoard}
use ottv.Rules.Board.Start.{create_initial_state-IsBoard}
use ottv.Rules.Apply.{RawPoint}
use ottv.Room.Types.{Connection, Room, new_room, room_initial_state}
use ottv.Room.Clock.{settle_clock, on_clock_timer}
use ottv.Room.Seats.{
  add_player, reconcile_hydration, expire_waiting_creator, disconnect_player, leave_player,
  resume_player, expire_reconnect, on_reconnect_timer,
}
use ottv.Room.Seats.Kept.{
  add_player-IsRoom, reconcile_hydration-IsRoom, expire_waiting_creator-IsRoom,
}
use ottv.Room.Seats.Gone.{disconnect_player-IsRoom, leave_player-IsRoom}
use ottv.Room.Seats.Back.{resume_player-IsRoom, expire_reconnect-IsRoom}
use ottv.Room.Move.{handle_move}
use ottv.Room.Move.Kept.{handle_move-IsRoom}
use ottv.Room.Valid.{IsRoom, settle_clock-IsRoom}

-- A call of the room `r`, with what comes with it.
pub data Call : Type 0 where
  join : Option Connection → Text → String → ℕ → Call
  hydrate : ℕ → Bool → Bool → Call
  expire_waiting : ℕ → Call
  move : Option Connection → Option RawPoint → Option RawPoint → Option Sent → ℕ → ℕ → Call
  disconnect : Option Connection → ℕ → Call
  leave : Option Connection → ℕ → Call
  resume : Option Connection → String → ℕ → Call
  expire : ℕ → Option Seat → Call
  reconnect_timer : Seat → ℕ → Call
  clock_timer : ℕ → Call
  settle : ℕ → Call

-- The room after a call.
unfoldable pub after : Room → Call → Room
after r (join c name token now) = (add_player r c name token now).0
after r (hydrate now keep_a keep_b) = (reconcile_hydration r now keep_a keep_b).0
after r (expire_waiting now) = (expire_waiting_creator r now).0
after r (move c from to expected now later) = (handle_move r c from to expected now later).0
after r (disconnect c now) = (disconnect_player r c now).0
after r (leave c now) = (leave_player r c now).0
after r (resume c token now) = (resume_player r c token now).0
after r (expire now only) = (expire_reconnect r now only).0
after r (reconnect_timer seat now) = (on_reconnect_timer r seat now).0
after r (clock_timer now) = (on_clock_timer r now).0
after r (settle now) = (settle_clock r now).0

pub data Reach (r : Room) : Room → Type 0 where
  here : Reach r r
  next : {q : Room} → Reach r q → (c : Call) → Reach r (after q c)

reconnect_timer-IsRoom :
    (r : Room) (seat : Seat) (now : ℕ) → IsRoom r → IsRoom (on_reconnect_timer r seat now).0
unfolding on_reconnect_timer
reconnect_timer-IsRoom r seat_a now v =
    expire_reconnect-IsRoom _ now (some seat_a) (record { sound = v.sound; ordered = v.ordered })
reconnect_timer-IsRoom r seat_b now v =
    expire_reconnect-IsRoom _ now (some seat_b) (record { sound = v.sound; ordered = v.ordered })

clock_timer-IsRoom : (r : Room) (now : ℕ) → IsRoom r → IsRoom (on_clock_timer r now).0
unfolding on_clock_timer
clock_timer-IsRoom r now v =
    let s = v.sound in
    settle_clock-IsRoom _ now (record {
      sound = record {
        board = s.board;
        seated = s.seated;
        open_game = s.open_game;
        fair_clock = s.fair_clock;
        over_clock = s.over_clock;
        no_timer = λ _. refl;
      };
      ordered = v.ordered;
    })

after-IsRoom : (r : Room) (c : Call) → IsRoom r → IsRoom (after r c)
unfolding after
after-IsRoom r (join c name token now) v = add_player-IsRoom r c name token now v
after-IsRoom r (hydrate now keep_a keep_b) v = reconcile_hydration-IsRoom r now keep_a keep_b v
after-IsRoom r (expire_waiting now) v = expire_waiting_creator-IsRoom r now v
after-IsRoom r (move c from to expected now later) v =
    handle_move-IsRoom r c from to expected now later v
after-IsRoom r (disconnect c now) v = disconnect_player-IsRoom r c now v
after-IsRoom r (leave c now) v = leave_player-IsRoom r c now v
after-IsRoom r (resume c token now) v = resume_player-IsRoom r c token now v
after-IsRoom r (expire now only) v = expire_reconnect-IsRoom r now only v
after-IsRoom r (reconnect_timer seat now) v = reconnect_timer-IsRoom r seat now v
after-IsRoom r (clock_timer now) v = clock_timer-IsRoom r now v
after-IsRoom r (settle now) v = settle_clock-IsRoom r now v

new_room-IsRoom :
    (initial_ms grace_ms revision structural now : ℕ)
    → structural ≤ revision
    → IsRoom (new_room initial_ms grace_ms revision structural now)
unfolding new_room room_initial_state
new_room-IsRoom initial_ms grace_ms revision structural now o = record {
  sound = record {
    board = initial_board;
    seated = λ h. absurd (cc);
    open_game = λ h. absurd (cc);
    fair_clock = λ h s e. absurd (cc);
    over_clock = λ h. absurd (cc);
    no_timer = λ _. refl;
  };
  ordered = o;
}
  where
    initial_board : IsBoard (room_initial_state initial_ms).pieces
    initial_board = create_initial_state-IsBoard

Reach-IsRoom : {r q : Room} → Reach r q → IsRoom r → IsRoom q
Reach-IsRoom here v = v
Reach-IsRoom (next w c) v = after-IsRoom _ c (Reach-IsRoom w v)

-- A new room whose structural revision is not ahead of its revision comes, by any sequence of
-- calls, only to rooms in which the pieces are a board, the structural revision is not ahead, and
-- only a playing room has a deadline; while the room plays, both seats are taken, there is no
-- winner, and a clock that runs is that of the seat on turn, which is connected; when it is done no
-- clock runs.
pub Reach-new_room :
    (initial_ms grace_ms revision structural now : ℕ) (r : Room)
    → structural ≤ revision
    → Reach (new_room initial_ms grace_ms revision structural now) r
    → IsRoom r
Reach-new_room initial_ms grace_ms revision structural now r o w =
    Reach-IsRoom w (new_room-IsRoom initial_ms grace_ms revision structural now o)
