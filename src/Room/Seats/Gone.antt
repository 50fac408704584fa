-- ===== src/Room/Seats/Gone.antt =====
-- Disconnecting and leaving keep a room valid.
use mathlib.Core.Path.{subst}
use ottv.Prelude.{
  ℕ, ◌+◌, ◌≤◌, ◌≡◌, refl, sym, ◌∙◌, true, false, Option, none, some, [], arith, inl, inr,
  Bool-cases, Option-cases,
}
use ottv.Rules.Types.{Seat, seat_a, seat_b, other, GameState, leave}
use ottv.Rules.Board.Occupancy.{IsBoard}
use ottv.Room.Types.{
  Connection, Room, Player, is_playing, is_waiting, is_done, is_some, player_of, set_player,
  set_reconnect_timer, seat_of,
}
use ottv.Room.Clock.{running_seat, set_running, settle_clock, cancel_clock_deadline}
use ottv.Room.Seats.{
  lose_at, disconnect_at, runs_for, disconnect_open, disconnect_seat, disconnect_player,
  clear_deadline, leave_seat, leave_player,
}
use ottv.Room.Seats.Kept.{commit-same, set_player-IsRoom, is_some-dropped, close_for-IsRoom}
use ottv.Room.Valid.{
  IsRoom, commit-IsRoom, finish_terminal-IsRoom, stopped-IsSound, settle_clock-IsRoom,
}

-- A room with a winner does not play.
pub winner-idle :
    (r : Room) → IsRoom r → is_some r.state.winner ≡ true → is_playing r.status ≡ false
winner-idle r v h = elim (Bool-cases (is_playing r.status)) [
  | inl e ↦ let w = v.sound.open_game e in absurd (ground arith)
  | inr e ↦ e
]

done-idle : (r : Room) → is_done r.status ≡ true → is_playing r.status ≡ false
done-idle r h = ground arith

set_timer-IsRoom :
    (r : Room) (seat : Seat) (t : Option ℕ) → IsRoom r → IsRoom (set_reconnect_timer r seat t)
set_timer-IsRoom r seat_a t v = record { sound = v.sound; ordered = v.ordered }
set_timer-IsRoom r seat_b t v = record { sound = v.sound; ordered = v.ordered }

disconnect_at-IsRoom :
    (r : Room) (seat : Seat) (p : Option Player)
    → IsRoom r
    → is_playing r.status ≡ false
    → IsRoom (disconnect_at r seat p)
disconnect_at-IsRoom r seat none v idle = v
disconnect_at-IsRoom r seat (some p) v idle = set_player-IsRoom r seat _ v idle

-- A seat that is lost while the clock of the other runs, or none.
lost-IsSound :
    (r : Room) (seat : Seat) (d : ℕ)
    → IsRoom r
    → runs_for seat (running_seat r) ≡ false
    → IsRoom (lose_at r seat d)
lost-IsSound r seat_a d v off = record {
  sound = record {
    board = v.sound.board;
    seated = λ h. (is_some-dropped true d r.player_a ∙ (v.sound.seated h).0, (v.sound.seated h).1);
    open_game = v.sound.open_game;
    fair_clock = λ h s e. let (turn, on) = v.sound.fair_clock h s e in (turn, ground arith);
    over_clock = v.sound.over_clock;
    no_timer = v.sound.no_timer;
  };
  ordered = v.ordered;
}
lost-IsSound r seat_b d v off = record {
  sound = record {
    board = v.sound.board;
    seated = λ h. ((v.sound.seated h).0, is_some-dropped true d r.player_b ∙ (v.sound.seated h).1);
    open_game = v.sound.open_game;
    fair_clock = λ h s e. let (turn, on) = v.sound.fair_clock h s e in (turn, ground arith);
    over_clock = v.sound.over_clock;
    no_timer = v.sound.no_timer;
  };
  ordered = v.ordered;
}

stopped-IsRoom :
    (r : Room) (seat : Seat) (d now : ℕ)
    → IsRoom r
    → IsRoom (
        cancel_clock_deadline
          (record (set_running (lose_at r seat d) none) { clock_anchor_ms = now }))
unfolding cancel_clock_deadline
stopped-IsRoom r seat_a d now v = record {
  sound = stopped-IsSound _ _ _ _ _ v.sound _ _ (is_some-dropped true d r.player_a) refl;
  ordered = v.ordered;
}
stopped-IsRoom r seat_b d now v = record {
  sound = stopped-IsSound _ _ _ _ _ v.sound _ _ refl (is_some-dropped true d r.player_b);
  ordered = v.ordered;
}

disconnect_open-IsRoom :
    (r : Room) (seat : Seat) (now : ℕ) → IsRoom r → IsRoom (disconnect_open r seat now)
unfolding disconnect_open
disconnect_open-IsRoom r seat now v = set_timer-IsRoom _ seat _ (
    commit-IsRoom _ [] true (elim (Bool-cases (runs_for seat (running_seat r))) [
      | inl on ↦ rw on (stopped-IsRoom r seat (now + r.reconnect_grace_ms) now v)
      | inr off ↦ rw off (lost-IsSound r seat (now + r.reconnect_grace_ms) v off)
    ]))

disconnect_seat-IsRoom :
    (r : Room) (seat : Seat) (now : ℕ) → IsRoom r → IsRoom (disconnect_seat r seat now)
unfolding disconnect_seat
disconnect_seat-IsRoom r seat now v = elim (Bool-cases (is_done r.status)) [
  | inl e ↦
      rw e
        (commit-IsRoom _ [] true (disconnect_at-IsRoom r seat (player_of r seat) v (done-idle r e)))
  | inr e ↦ rw e (elim (Bool-cases (is_some settled.state.winner)) [
    | inl won ↦ rw won (
        commit-IsRoom _ [] true (
          disconnect_at-IsRoom settled seat (player_of settled seat) ok_settled
            (winner-idle settled ok_settled won)))
    | inr open_game ↦ rw open_game (disconnect_open-IsRoom settled seat now ok_settled)
  ])
]
  where
    settled : Room
    settled = (settle_clock r now).0

    ok_settled : IsRoom settled
    ok_settled = settle_clock-IsRoom r now v

pub disconnect_player-IsRoom :
    (r : Room) (c : Option Connection) (now : ℕ) → IsRoom r → IsRoom (disconnect_player r c now).0
unfolding disconnect_player
disconnect_player-IsRoom r c now v = elim (Option-cases (seat_of r c)) [
  | inl e ↦ rw (e, disconnect_player) v
  | inr (seat, e) ↦ rw (e, disconnect_player) (disconnect_seat-IsRoom r seat now v)
]

-- The writes to one seat leave the game and the revisions alone.
abbrev with_seat : Room → Seat → Option Player → Room
with_seat r seat p = set_reconnect_timer (set_player r seat p) seat none

with_seat-state :
    (r : Room) (seat : Seat) (p : Option Player) → (with_seat r seat p).state ≡ r.state
with_seat-state r seat_a p = refl
with_seat-state r seat_b p = refl

with_seat-ordered :
    (r : Room) (seat : Seat) (p : Option Player)
    → IsRoom r
    → (with_seat r seat p).structural_revision ≤ (with_seat r seat p).revision
with_seat-ordered r seat_a p v = v.ordered
with_seat-ordered r seat_b p v = v.ordered

with_seat-IsBoard :
    (r : Room) (seat : Seat) (p : Option Player)
    → IsRoom r
    → IsBoard (with_seat r seat p).state.pieces
with_seat-IsBoard r seat p v =
    subst (λ (g : GameState). IsBoard g.pieces) (sym (with_seat-state r seat p)) v.sound.board

leave_seat-IsRoom : (r : Room) (seat : Seat) (now : ℕ) → IsRoom r → IsRoom (leave_seat r seat now).0
unfolding leave_seat
leave_seat-IsRoom r seat now v = elim (Bool-cases (is_some settled.state.winner)) [
  | inl won ↦ rw won sv
  | inr open_game ↦ rw open_game (elim (Bool-cases (is_waiting gone.status)) [
    | inl e ↦
        let (same, ordered) = commit-same closed [] true go in
        rw e (
          finish_terminal-IsRoom _ (subst (λ (g : GameState). IsBoard g.pieces) (sym same) gb)
            ordered)
    | inr e ↦ rw e (close_for-IsRoom gone (other seat) leave gb go)
  ])
]
  where
    settled : Room
    settled = (settle_clock r now).0

    sv : IsRoom settled
    sv = settle_clock-IsRoom r now v

    gone : Room
    gone = with_seat settled seat (clear_deadline (player_of settled seat))

    gb : IsBoard gone.state.pieces
    gb = with_seat-IsBoard settled seat _ sv

    go : gone.structural_revision ≤ gone.revision
    go = with_seat-ordered settled seat _ sv

    closed : Room
    closed =
        let g = gone.state in
        record gone { state = record g { reason = some leave; eliminated_player = none } }

pub leave_player-IsRoom :
    (r : Room) (c : Option Connection) (now : ℕ) → IsRoom r → IsRoom (leave_player r c now).0
unfolding leave_player
leave_player-IsRoom r c now v = elim (Option-cases (seat_of r c)) [
  | inl e ↦ rw (e, leave_player) v
  | inr (seat, e) ↦ rw (e, leave_player) (leave_seat-IsRoom r seat now v)
]
