-- ===== src/Room/Grace.antt =====
-- The clock of a seat that is away from a room.
use ottv.Prelude.{
  ℕ, ◌-◌, ◌≡◌, ◌≢◌, refl, sym, ap, ◌∙◌, true, false, none, some, arith, inl, inr, ◌==◌, Bool-cases,
}
use ottv.Rules.Types.{Seat, seat_a, seat_b, other, remaining, GameState}
use ottv.Rules.Time.{elapse_for, run_down}
use ottv.Rules.Time.Elapsed.{elapse_clock-eq}
use ottv.Room.Types.{Room, is_playing, is_some, connected, player_of}
use ottv.Room.Clock.{running_seat, clock_stopped, advance, settle_clock, finish_terminal}
use ottv.Room.Valid.{IsRoom, commit_state_change-same}

-- Time takes from the clock that runs only, and the seat that it runs for loses.
elapse_for-other :
    (s : GameState) (seat : Seat) (t : ℕ)
    → s.winner ≡ none
    → (s.clock.running_seat ≢ some seat)
    → let u = (elapse_for s s.winner s.clock.running_seat t).0 in
      (remaining u.clock seat ≡ remaining s.clock seat) × (u.winner ≢ some (other seat))
unfolding elapse_for run_down
elapse_for-other s seat_a t w h = ground arith
elapse_for-other s seat_b t w h = ground arith

advance-other :
    (r : Room) (seat : Seat) (elapsed now : ℕ)
    → r.state.winner ≡ none
    → (running_seat r ≢ some seat)
    → let q = (advance r elapsed now).0 in
      (remaining q.state.clock seat ≡ remaining r.state.clock seat)
      × (q.state.winner ≢ some (other seat))
unfolding advance finish_terminal
advance-other r seat elapsed now w h =
    rw (elapse_clock-eq r.state elapsed, advance)
      (elim (Bool-cases (is_some u.winner)) [
        | inl e ↦ rw e (elapse_for-other r.state seat elapsed w h)
        | inr e ↦ rw e (elapse_for-other r.state seat elapsed w h)
      ])
  where
    u : GameState
    u = (elapse_for r.state r.state.winner r.state.clock.running_seat elapsed).0

settle_clock-other :
    (r : Room) (seat : Seat) (now : ℕ)
    → r.state.winner ≡ none
    → (running_seat r ≢ some seat)
    → let q = (settle_clock r now).0 in
      (remaining q.state.clock seat ≡ remaining r.state.clock seat)
      × (q.state.winner ≢ some (other seat))
unfolding settle_clock
settle_clock-other r seat now w h = elim (Bool-cases (clock_stopped r)) [
  | inl e ↦ rw e (refl, open_game)
  | inr e ↦ rw e (elim (Bool-cases (elapsed == 0)) [
    | inl z ↦ rw z (refl, open_game)
    | inr n ↦
        let p = advance r elapsed now in
        let same = (commit_state_change-same p.0 p.1 (is_some p.0.state.winner)).0 in
        let (kept, lost) = advance-other r seat elapsed now w h in
        rw n (
          ap (λ (g : GameState). remaining g.clock seat) same ∙ kept,
          λ won. lost (sym (ap (λ (g : GameState). g.winner) same) ∙ won),
        )
  ])
]
  where
    elapsed : ℕ
    elapsed = now - r.clock_anchor_ms

    open_game : r.state.winner ≢ some (other seat)
    open_game won = absurd (cc)

absent-stands :
    (r : Room) (seat : Seat)
    → IsRoom r
    → is_playing r.status ≡ true
    → connected (player_of r seat) ≡ false
    → running_seat r ≢ some seat
absent-stands r seat_a v on away runs =
    let (_, here) = v.sound.fair_clock on seat_a runs in absurd (cc)
absent-stands r seat_b v on away runs =
    let (_, here) = v.sound.fair_clock on seat_b runs in absurd (cc)

-- In a valid room that plays, settling the clock takes no time from a seat that is not connected,
-- and does not make it lose.
pub settle_clock-absent :
    (r : Room) (seat : Seat) (now : ℕ)
    → IsRoom r
    → is_playing r.status ≡ true
    → connected (player_of r seat) ≡ false
    → let q = (settle_clock r now).0 in
      (remaining q.state.clock seat ≡ remaining r.state.clock seat)
      × (q.state.winner ≢ some (other seat))
settle_clock-absent r seat now v on away =
    settle_clock-other r seat now (v.sound.open_game on) (absent-stands r seat v on away)
