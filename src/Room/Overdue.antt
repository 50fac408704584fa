-- ===== src/Room/Overdue.antt =====
-- The end of the time that a seat has to come back to a room.
use ottv.Prelude.{
  ℕ, ◌-◌, ◌≤◌, ◌≡◌, refl, sym, ap, ◌∙◌, Bool, true, false, ◌&&◌, Option, none, some, arith, inl,
  inr, ◌==◌, Bool-cases, Option-cases, if◌then◌else◌,
}
use ottv.Rules.Types.{
  Seat, seat_a, seat_b, other, GameState, Reason, timeout, disconnect_timeout, remaining,
}
use ottv.Rules.Time.{elapse_for, run_down}
use ottv.Rules.Time.Elapsed.{elapse_clock-eq}
use ottv.Room.Types.{Room, is_playing, is_done, is_some, connected, player_of, commit_state_change}
use ottv.Room.Clock.{running_seat, clock_stopped, advance, settle_clock, finish_terminal}
use ottv.Room.Seats.{
  expire_reconnect, is_expired, wanted, close_for, same_deadline, tie_break_grace_loser,
}
use ottv.Room.Late.{
  overdue, Late, Loss, by_clock, together, is_expired-Late, is_expired-connected, Late-is_expired,
  same_deadline-Late, Late-same_deadline, tie_break_grace_loser-LessTime, first-Loss,
}
use ottv.Room.Valid.{IsRoom, commit_state_change-same}

-- A game that has ended in the room `q`, for the other seat than `loser`.
pub record EndedAt (r q : Room) (now : ℕ) (only : Option Seat) : Type 0 where
  pub over : is_done q.status ≡ true
  pub loser : Seat
  pub won : q.state.winner ≡ some (other loser)
  pub why : Loss r now only loser q.state.reason

elapse_for-lost :
    (s : GameState) (t : ℕ)
    → s.winner ≡ none
    → let u = (elapse_for s s.winner s.clock.running_seat t).0 in
      is_some u.winner ≡ true
      → (loser : Seat) × (s.clock.running_seat ≡ some loser)
        × (remaining s.clock loser ≤ t)
        × (u.winner ≡ some (other loser))
        × (u.reason ≡ some timeout)
unfolding elapse_for run_down
elapse_for-lost s t w won = elim (Option-cases s.clock.running_seat) [
  | inl e ↦ absurd (ground arith)
  | inr (seat, e) ↦ (seat, e, ground arith, ground arith, ground arith)
]

advance-lost :
    (r : Room) (elapsed now : ℕ)
    → r.state.winner ≡ none
    → is_some (advance r elapsed now).0.state.winner ≡ true
    → let q = (advance r elapsed now).0 in
      (is_done q.status ≡ true)
      × (loser : Seat) × (running_seat r ≡ some loser)
      × (remaining r.state.clock loser ≤ elapsed)
      × (q.state.winner ≡ some (other loser))
      × (q.state.reason ≡ some timeout)
unfolding advance finish_terminal
advance-lost r elapsed now w won = elim (Bool-cases (is_some u.winner)) [
  | inl e ↦
      let (loser, runs, short, lost, reason) = elapse_for-lost r.state elapsed w e in
      rw (elapse_clock-eq r.state elapsed, advance) (rw e (refl, loser, runs, short, lost, reason))
  | inr e ↦ absurd (ground (arith, elapse_clock-eq r.state elapsed))
]
  where
    u : GameState
    u = (elapse_for r.state r.state.winner r.state.clock.running_seat elapsed).0

settle_clock-lost :
    (r : Room) (now : ℕ)
    → r.state.winner ≡ none
    → is_some (settle_clock r now).0.state.winner ≡ true
    → let q = (settle_clock r now).0 in
      (is_done q.status ≡ true)
      × (loser : Seat) × (running_seat r ≡ some loser)
      × (remaining r.state.clock loser ≤ now - r.clock_anchor_ms)
      × (q.state.winner ≡ some (other loser))
      × (q.state.reason ≡ some timeout)
unfolding settle_clock
settle_clock-lost r now w won = elim (Bool-cases (clock_stopped r)) [
  | inl e ↦ absurd (ground arith)
  | inr e ↦ elim (Bool-cases (elapsed == 0)) [
    | inl z ↦ absurd (ground arith)
    | inr n ↦
        let p = advance r elapsed now in
        let same = commit_state_change-same p.0 p.1 (is_some p.0.state.winner) in
        let ended : is_some p.0.state.winner ≡ true = ground (arith, same.0) in
        let (over, loser, runs, short, lost, reason) = advance-lost r elapsed now w ended in
        rw (e, n)
          (
            ap is_done same.1 ∙ over,
            loser,
            runs,
            short,
            ap (λ (g : GameState). g.winner) same.0 ∙ lost,
            ap (λ (g : GameState). g.reason) same.0 ∙ reason,
          )
  ]
]
  where
    elapsed : ℕ
    elapsed = now - r.clock_anchor_ms

connected-loser :
    (r : Room) (seat : Seat)
    → IsRoom r
    → is_playing r.status ≡ true
    → running_seat r ≡ some seat
    → connected (player_of r seat) ≡ true
connected-loser r seat_a v on runs = (v.sound.fair_clock on seat_a runs).1
connected-loser r seat_b v on runs = (v.sound.fair_clock on seat_b runs).1

close_for-ended :
    (r : Room) (winner : Seat) (reason : Reason)
    → let q = (close_for r winner reason).0 in
      (is_done q.status ≡ true) × (q.state.winner ≡ some winner) × (q.state.reason ≡ some reason)
unfolding close_for finish_terminal commit_state_change
close_for-ended r winner reason = (refl, refl, refl)

-- With both seats away no clock runs, and settling it changes only the anchor.
settle_clock-both :
    (r : Room) (now : ℕ)
    → IsRoom r
    → is_playing r.status ≡ true
    → is_expired now r.player_a ≡ true
    → is_expired now r.player_b ≡ true
    → (settle_clock r now).0 ≡ record r { clock_anchor_ms = now }
unfolding settle_clock
settle_clock-both r now v on a b = elim (Option-cases (running_seat r)) [
  | inl e ↦ rw (on, e) refl
  | inr (seat, e) ↦
      let there : connected (player_of r seat) ≡ true = connected-loser r seat v on e in
      let gone : connected (player_of r seat) ≡ false = either seat in absurd (cc)
]
  where
    either : (seat : Seat) → connected (player_of r seat) ≡ false
    either seat_a = is_expired-connected now r.player_a a
    either seat_b = is_expired-connected now r.player_b b

-- In a valid room that plays, with a seat whose time to come back is over among those that are asked
-- for, `expireReconnect` ends the game, in one of three ways. The seat whose clock ran, and which is
-- connected, loses by timeout, with no more time on its clock than has passed since the clock was last
-- read. Or the time of both seats, both away, ended at the same instant, and the one with less time on
-- its clock loses, on equal clocks the one on turn. Or else the first seat that is asked for, is away
-- and is out of time to come back loses.
pub expire_reconnect-EndedAt :
    (r : Room) (now : ℕ) (only : Option Seat)
    → IsRoom r
    → is_playing r.status ≡ true
    → overdue r now only ≡ true
    → EndedAt r (expire_reconnect r now only).0 now only
unfolding expire_reconnect
expire_reconnect-EndedAt r now only v on late =
    rw (on, late)
      (elim (Bool-cases (is_some settled.state.winner)) [
        | inl won ↦
            let (over, loser, runs, short, lost, reason) =
              settle_clock-lost r now (v.sound.open_game on) won in
            rw won (record {
              over = over;
              loser = loser;
              won = lost;
              why = by_clock reason runs short (connected-loser r loser v on runs);
            })
        | inr open_game ↦ rw open_game (closed loses loss)
      ])
  where
    settled : Room
    settled = (settle_clock r now).0

    hit_a : Bool
    hit_a = is_expired now r.player_a && wanted only seat_a

    tied : Bool
    tied =
        is_expired now r.player_a
        && is_expired now r.player_b
        && same_deadline settled.player_a settled.player_b

    loses : Seat
    loses = if tied then tie_break_grace_loser settled else if hit_a then seat_a else seat_b

    closed :
        (loser : Seat)
        → Loss r now only loser (some disconnect_timeout)
        → EndedAt r (close_for settled (other loser) disconnect_timeout).0 now only
    closed loser why =
        let (over, won, reason) = close_for-ended settled (other loser) disconnect_timeout in
        record { over = over; loser = loser; won = won; why = rw reason why }

    still :
        is_expired now r.player_a ≡ true
        → is_expired now r.player_b ≡ true
        → same_deadline settled.player_a settled.player_b ≡ same_deadline r.player_a r.player_b
    still a b =
        ap (λ (q : Room). same_deadline q.player_a q.player_b) (settle_clock-both r now v on a b)

    tie : tied ≡ true → Loss r now only (tie_break_grace_loser settled) (some disconnect_timeout)
    tie e =
        let a : is_expired now r.player_a ≡ true = ground arith in
        let b : is_expired now r.player_b ≡ true = ground arith in
        let same : same_deadline r.player_a r.player_b ≡ true = sym (still a b) ∙ ground arith in
        let (t, l) = is_expired-Late now r.player_a a in
        rw (settle_clock-both r now v on a b) (
          together t refl l (same_deadline-Late now r.player_a r.player_b t same l b)
            (tie_break_grace_loser-LessTime (record r { clock_anchor_ms = now })))

    untied : tied ≡ false → (u : ℕ) → ¬ (Late now r.player_a u × Late now r.player_b u)
    untied e u (l, m) =
        let a = Late-is_expired now r.player_a u l in
        let b = Late-is_expired now r.player_b u m in
        let same = still a b ∙ Late-same_deadline now r.player_a r.player_b u l m in
        let e' : tied ≡ true = rw (a, b, same) refl in absurd (cc)

    loss : Loss r now only loses (some disconnect_timeout)
    loss = elim (Bool-cases tied) [
      | inl e ↦ rw e (tie e)
      | inr e ↦ rw e (first-Loss r now only late (untied e))
    ]
