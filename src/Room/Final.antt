-- ===== src/Room/Final.antt =====
-- The end of a game in class `Room`: a room that is done with a winner stays as it is.
use ottv.Prelude.{
  ℕ, ◌≡◌, refl, Bool, true, false, Option, some, [], not, ◌&&◌, arith, inl, inr, Bool-cases,
  Option-cases,
}
use Prim.Native.String.{String}
use ottv.Names.{Text}
use ottv.Rules.Types.{Seat, seat_a, seat_b, GameState}
use ottv.Rules.Board.{Sent}
use ottv.Rules.Apply.{RawPoint}
use ottv.Room.Types.{
  Connection, Room, is_done, is_waiting, is_playing, is_some, player_of, seat_of,
  commit_state_change,
}
use ottv.Room.Clock.{settle_clock, on_clock_timer, clock_stopped}
use ottv.Room.Seats.{
  add_player, reconcile_hydration, expire_waiting_creator, disconnect_seat, disconnect_player,
  leave_seat, leave_player, resume_player, expire_reconnect, on_reconnect_timer, is_expired,
  disconnect_at,
}
use ottv.Room.Move.{is_duplicate, move_seated, handle_move}
use ottv.Room.History.{
  Call, join, hydrate, expire_waiting, move, disconnect, leave, resume, expire, reconnect_timer,
  clock_timer, settle, after, Reach, here, next,
}

-- The room `q` is done, with the winner that `g` has, in the state `g`.
pub record IsOver (g : GameState) (q : Room) : Type 0 where
  pub status_done : is_done q.status ≡ true
  pub won : is_some q.state.winner ≡ true
  pub state_kept : q.state ≡ g

settle_clock-IsOver :
    (g : GameState) (r : Room) (now : ℕ) → IsOver g r → IsOver g (settle_clock r now).0
unfolding settle_clock
settle_clock-IsOver g r now v =
    let stopped : clock_stopped r ≡ true = idle r v.status_done in
    rw stopped (record { status_done = v.status_done; won = v.won; state_kept = v.state_kept })
  where
    idle : (q : Room) → is_done q.status ≡ true → clock_stopped q ≡ true
    idle q h = ground arith

idle : (r : Room) → is_done r.status ≡ true → is_playing r.status ≡ false
idle r h = ground arith

not_waiting :
    (r : Room) (now : ℕ)
    → is_done r.status ≡ true
    → (is_waiting r.status && not (is_some r.player_b) && is_expired now r.player_a) ≡ false
not_waiting r now h = ground arith

disconnect_at-IsOver :
    (g : GameState) (r : Room) (seat : Seat)
    → IsOver g r
    → IsOver g (commit_state_change (disconnect_at r seat (player_of r seat)) [] true).0
unfolding commit_state_change
disconnect_at-IsOver g r seat_a v = elim (Option-cases r.player_a) [
  | inl e ↦ rw e (record { status_done = v.status_done; won = v.won; state_kept = v.state_kept })
  | inr (p, e) ↦
      rw e (record { status_done = v.status_done; won = v.won; state_kept = v.state_kept })
]
disconnect_at-IsOver g r seat_b v = elim (Option-cases r.player_b) [
  | inl e ↦ rw e (record { status_done = v.status_done; won = v.won; state_kept = v.state_kept })
  | inr (p, e) ↦
      rw e (record { status_done = v.status_done; won = v.won; state_kept = v.state_kept })
]

add_player-IsOver :
    (g : GameState) (r : Room) (c : Option Connection) (name : Text) (token : String) (now : ℕ)
    → IsOver g r
    → IsOver g (add_player r c name token now).0
unfolding add_player
add_player-IsOver g r c name token now v = rw v.status_done v

reconcile_hydration-IsOver :
    (g : GameState) (r : Room) (now : ℕ) (keep_a keep_b : Bool)
    → IsOver g r
    → IsOver g (reconcile_hydration r now keep_a keep_b).0
unfolding reconcile_hydration
reconcile_hydration-IsOver g r now keep_a keep_b v = rw v.status_done v

expire_waiting_creator-IsOver :
    (g : GameState) (r : Room) (now : ℕ) → IsOver g r → IsOver g (expire_waiting_creator r now).0
unfolding expire_waiting_creator
expire_waiting_creator-IsOver g r now v = rw (not_waiting r now v.status_done) v

move_seated-IsOver :
    (g : GameState) (r : Room) (seat : Seat) (from to : Option RawPoint) (expected : Option Sent)
    (now later : ℕ)
    → IsOver g r
    → IsOver g (move_seated r seat from to expected now later).0
unfolding move_seated
move_seated-IsOver g r seat from to expected now later v =
    elim (Bool-cases (is_duplicate r.last_move seat from to expected)) [
      | inl e ↦ rw e v
      | inr e ↦ rw e (rw (idle r v.status_done) v)
    ]

handle_move-IsOver :
    (g : GameState) (r : Room) (c : Option Connection) (from to : Option RawPoint)
    (expected : Option Sent) (now later : ℕ)
    → IsOver g r
    → IsOver g (handle_move r c from to expected now later).0
unfolding handle_move
handle_move-IsOver g r c from to expected now later v = elim (Option-cases (seat_of r c)) [
  | inl e ↦ rw (e, handle_move) v
  | inr (seat, e) ↦ rw (e, handle_move) (move_seated-IsOver g r seat from to expected now later v)
]

disconnect_player-IsOver :
    (g : GameState) (r : Room) (c : Option Connection) (now : ℕ)
    → IsOver g r
    → IsOver g (disconnect_player r c now).0
unfolding disconnect_player disconnect_seat
disconnect_player-IsOver g r c now v = elim (Option-cases (seat_of r c)) [
  | inl e ↦ rw (e, disconnect_player) v
  | inr (seat, e) ↦ rw (e, disconnect_player) (rw v.status_done (disconnect_at-IsOver g r seat v))
]

leave_player-IsOver :
    (g : GameState) (r : Room) (c : Option Connection) (now : ℕ)
    → IsOver g r
    → IsOver g (leave_player r c now).0
unfolding leave_player leave_seat
leave_player-IsOver g r c now v = elim (Option-cases (seat_of r c)) [
  | inl e ↦ rw (e, leave_player) v
  | inr (seat, e) ↦ rw (e, leave_player) (rw settled.won settled)
]
  where
    settled : IsOver g (settle_clock r now).0
    settled = settle_clock-IsOver g r now v

resume_player-IsOver :
    (g : GameState) (r : Room) (c : Option Connection) (token : String) (now : ℕ)
    → IsOver g r
    → IsOver g (resume_player r c token now).0
unfolding resume_player
resume_player-IsOver g r c token now v = rw v.status_done v

expire_reconnect-IsOver :
    (g : GameState) (r : Room) (now : ℕ) (only : Option Seat)
    → IsOver g r
    → IsOver g (expire_reconnect r now only).0
unfolding expire_reconnect
expire_reconnect-IsOver g r now only v = rw (idle r v.status_done) v

on_reconnect_timer-IsOver :
    (g : GameState) (r : Room) (seat : Seat) (now : ℕ)
    → IsOver g r
    → IsOver g (on_reconnect_timer r seat now).0
unfolding on_reconnect_timer
on_reconnect_timer-IsOver g r seat_a now v =
    expire_reconnect-IsOver g _ now (some seat_a)
      (record { status_done = v.status_done; won = v.won; state_kept = v.state_kept })
on_reconnect_timer-IsOver g r seat_b now v =
    expire_reconnect-IsOver g _ now (some seat_b)
      (record { status_done = v.status_done; won = v.won; state_kept = v.state_kept })

on_clock_timer-IsOver :
    (g : GameState) (r : Room) (now : ℕ) → IsOver g r → IsOver g (on_clock_timer r now).0
unfolding on_clock_timer
on_clock_timer-IsOver g r now v =
    settle_clock-IsOver g _ now
      (record { status_done = v.status_done; won = v.won; state_kept = v.state_kept })

after-IsOver : (g : GameState) (r : Room) (c : Call) → IsOver g r → IsOver g (after r c)
unfolding after
after-IsOver g r (join c name token now) v = add_player-IsOver g r c name token now v
after-IsOver g r (hydrate now keep_a keep_b) v = reconcile_hydration-IsOver g r now keep_a keep_b v
after-IsOver g r (expire_waiting now) v = expire_waiting_creator-IsOver g r now v
after-IsOver g r (move c from to expected now later) v =
    handle_move-IsOver g r c from to expected now later v
after-IsOver g r (disconnect c now) v = disconnect_player-IsOver g r c now v
after-IsOver g r (leave c now) v = leave_player-IsOver g r c now v
after-IsOver g r (resume c token now) v = resume_player-IsOver g r c token now v
after-IsOver g r (expire now only) v = expire_reconnect-IsOver g r now only v
after-IsOver g r (reconnect_timer seat now) v = on_reconnect_timer-IsOver g r seat now v
after-IsOver g r (clock_timer now) v = on_clock_timer-IsOver g r now v
after-IsOver g r (settle now) v = settle_clock-IsOver g r now v

-- Once a room is done with a winner, every sequence of calls leaves it done and its state, with
-- the winner, the board and the clocks, as it is.
pub Reach-IsOver :
    (r q : Room)
    → Reach r q
    → is_done r.status ≡ true
    → is_some r.state.winner ≡ true
    → (is_done q.status ≡ true) × (q.state ≡ r.state)
Reach-IsOver r q w d won = let v = kept w in (v.status_done, v.state_kept)
  where
    kept : {p : Room} → Reach r p → IsOver r.state p
    kept here = record { status_done = d; won = won; state_kept = refl }
    kept (next u c) = after-IsOver r.state _ c (kept u)
