-- ===== src/Room/Tests.antt =====
-- Runs of a room, and each theorem about rooms at one of them.
use Prim.Native.String.{String}
use ottv.Prelude.{
  ◌≢◌, false, ℕ, ◌≡◌, refl, true, Option, none, some, List, [], ◌∷◌, pos, arith, text_eq, eq_ℤ,
  ◌+ℤ◌, ◌-ℤ◌, abs,
}
use ottv.Rules.Types.{
  Seat, remaining, other, seat_a, seat_b, dam, la, keo, timeout, Piece, GameState,
}
use ottv.Rules.Board.{
  whole, inside_point, inside, has_single_occupancy, pieces_at, at, compare, clone_state,
}
use ottv.Rules.Moves.{
  all_moves, get_legal_moves, open_to, moves_from, moves_of_player, detect_winner,
}
use ottv.Rules.Apply.{
  RawPoint, apply_move, step_on, conclude, play, play_on, verdict, one_step, relocate, end_game,
  pass_turn,
}
use ottv.Room.Types.{
  connected, Connection, Player, Room, NumberedEvent, playing, done, is_done, new_room, seat_of,
  same_connection,
}
use ottv.Room.Clock.{running_seat, settle_clock, settle_uncommitted}
use ottv.Room.Move.{
  MoveReply, accepted, duplicate, is_duplicate, is_stale, record_move, attempt_move, move_seated,
  handle_move,
}
use ottv.Rules.Board.Start.{is_board, is_board-IsBoard}
use ottv.Room.Grace.{settle_clock-absent}
use ottv.Room.Overdue.{EndedAt, expire_reconnect-EndedAt}
use ottv.Room.Seats.{expire_reconnect}
use ottv.Room.Valid.{IsRoom, pick}
use ottv.Room.History.{join, move, disconnect, resume, after, here, next, Reach-new_room}
use ottv.Room.Final.{Reach-IsOver}
use ottv.Room.Retry.{Outdated, handle_move-retry, handle_move-Outdated}

abbrev phone : Option Connection
phone = some (record { object = 1; id = some "p1" })

abbrev laptop : Option Connection
laptop = some (record { object = 2; id = none })

abbrev square : ℕ → ℕ → Option RawPoint
square x y = some (record { raw_x = whole (pos x); raw_y = whole (pos y) })

abbrev lobby : Room
lobby = new_room 600000 60000 4 3 100

abbrev started : Room
started = after (after lobby (join phone (65 ∷ []) "ta" 150)) (join laptop (66 ∷ []) "tb" 180)

abbrev interrupted : Room
interrupted = after (after started (disconnect laptop 900)) (resume laptop "tb" 1200)

Reach-new_room_example :
    IsRoom (after interrupted (move phone (square 2 7) (square 2 6) none 1300 1301))
Reach-new_room_example = Reach-new_room 600000 60000 4 3 100 _ (ground arith) (
    next
      (next
        (next (next (next here (join phone (65 ∷ []) "ta" 150)) (join laptop (66 ∷ []) "tb" 180))
          (disconnect laptop 900))
        (resume laptop "tb" 1200))
      (move phone (square 2 7) (square 2 6) none 1300 1301))

abbrev player : Seat → Option Connection → String → Option Player
player s c token = some (record {
  connection = c;
  name = 65 ∷ [];
  seat = s;
  connected = true;
  resume_token = token;
  reconnect_deadline_ms = none;
})

abbrev hammer : Piece
hammer = record { id = "a1"; player = seat_a; type = dam; x = pos 3; y = pos 3 }

abbrev scissors : Piece
scissors = record { id = "b1"; player = seat_b; type = keo; x = pos 4; y = pos 4 }

abbrev leaf : Piece
leaf = record { id = "b2"; player = seat_b; type = la; x = pos 7; y = pos 1 }

abbrev open_duel : GameState
open_duel = record {
  turn = seat_a;
  winner = none;
  reason = none;
  eliminated_player = none;
  clock = record { remaining_a = 600000; remaining_b = 600000; running_seat = some seat_a };
  pieces = hammer ∷ scissors ∷ leaf ∷ [];
}

abbrev duel_room : Room
duel_room = record lobby {
  player_a = player seat_a phone "ta";
  player_b = player seat_b laptop "tb";
  state = open_duel;
  status = playing;
}

abbrev capture_reply : Room × MoveReply
capture_reply = handle_move duel_room phone (square 3 3) (square 4 4) (some (whole (pos 3))) 100 107

abbrev events_of : MoveReply → List NumberedEvent
events_of (accepted events) = events
events_of _ = []

capture_accepted :
    handle_move duel_room phone (square 3 3) (square 4 4) (some (whole (pos 3))) 100 107
    ≡ (capture_reply.0, accepted (events_of capture_reply.1))
unfolding handle_move move_seated is_duplicate is_stale attempt_move record_move seat_of
    same_connection settle_uncommitted new_room apply_move step_on conclude play play_on verdict
    one_step relocate end_game pass_turn inside_point inside has_single_occupancy pieces_at at
    compare clone_state detect_winner all_moves get_legal_moves moves_from moves_of_player open_to
    text_eq eq_ℤ ◌+ℤ◌ ◌-ℤ◌ abs
capture_accepted = refl

handle_move-retry_example :
    handle_move capture_reply.0 phone (square 3 3) (square 4 4) (some (whole (pos 3))) 250 251
    ≡ (capture_reply.0, duplicate (events_of capture_reply.1))
handle_move-retry_example =
    handle_move-retry duel_room phone (square 3 3) (square 4 4) (some (whole (pos 3))) 100 107
      capture_reply.0 (events_of capture_reply.1) 250 251 capture_accepted

handle_move-Outdated_example : Outdated duel_room capture_reply.0 (some (whole (pos 3)))
handle_move-Outdated_example =
    handle_move-Outdated duel_room phone (square 3 3) (square 4 4) (some (whole (pos 3))) 100 107
      capture_reply.0 (events_of capture_reply.1) capture_accepted

abbrev timed_out : Room
timed_out = record duel_room {
  state = record open_duel {
    winner = some seat_b;
    reason = some timeout;
    clock = record { remaining_a = 0; remaining_b = 600000; running_seat = none };
  };
  status = done;
}

Reach-IsOver_example :
    (is_done (after timed_out (disconnect phone 900)).status ≡ true)
    × ((after timed_out (disconnect phone 900)).state ≡ timed_out.state)
Reach-IsOver_example =
    Reach-IsOver timed_out (after timed_out (disconnect phone 900))
      (next here (disconnect phone 900)) refl refl

abbrev away_room : Room
away_room = record duel_room {
  player_b = some (record {
    connection = laptop;
    name = 65 ∷ [];
    seat = seat_b;
    connected = false;
    resume_token = "tb";
    reconnect_deadline_ms = some 900;
  });
}

away_board : is_board open_duel ≡ true
unfolding is_board text_eq eq_ℤ
away_board = refl

away_clock :
    (s : Seat)
    → running_seat away_room ≡ some s
    → (s ≡ seat_a) × (connected (pick away_room.player_a away_room.player_b s) ≡ true)
away_clock seat_a e = (refl, refl)
away_clock seat_b e = absurd (cc)

away_room-IsRoom : IsRoom away_room
unfolding new_room
away_room-IsRoom = record {
  sound = record {
    board = is_board-IsBoard open_duel away_board;
    seated = λ _. (refl, refl);
    open_game = λ _. refl;
    fair_clock = λ _ s e. away_clock s e;
    over_clock = λ h. absurd (cc);
    no_timer = λ h. absurd (cc);
  };
  ordered = omega arith;
}

settle_clock-absent_example :
    (remaining (settle_clock away_room 950).0.state.clock seat_b
      ≡ remaining away_room.state.clock seat_b)
    × ((settle_clock away_room 950).0.state.winner ≢ some (other seat_b))
settle_clock-absent_example = settle_clock-absent away_room seat_b 950 away_room-IsRoom refl refl

expire_reconnect-EndedAt_example :
    EndedAt away_room (expire_reconnect away_room 950 (some seat_b)).0 950 (some seat_b)
expire_reconnect-EndedAt_example =
    expire_reconnect-EndedAt away_room 950 (some seat_b) away_room-IsRoom refl refl
