-- ===== src/Room/Late.antt =====
-- Seats whose time to come back is over, and why a seat loses by `expireReconnect`.
use ottv.Prelude.{
  ℕ, ◌-◌, ◌≤◌, ◌<◌, ◌≡◌, refl, sym, ltb, ap, ◌∙◌, Bool, true, false, ◌&&◌, ◌||◌, Option, none, some,
  arith, inl, inr, ◌⊎◌, ◌==◌, Bool-cases, Option-cases, if◌then◌else◌,
}
use ottv.Rules.Types.{
  Seat, seat_a, seat_b, GameState, Reason, timeout, disconnect_timeout, remaining,
}
use ottv.Room.Types.{Room, Player, connected, player_of}
use ottv.Room.Clock.{running_seat}
use ottv.Room.Seats.{is_expired, wanted, same_deadline, tie_break_grace_loser}

-- The seats whose time to come back is over at `now`, of those that are asked for.
abbrev pub overdue : Room → ℕ → Option Seat → Bool
overdue r now only =
    (is_expired now r.player_a && wanted only seat_a)
    || (is_expired now r.player_b && wanted only seat_b)

-- The seat is away, and the time to come back ended at `t`.
abbrev pub Late : ℕ → Option Player → ℕ → Type 0
Late now none t = ⊥
Late now (some p) t = (p.connected ≡ false) × (p.reconnect_deadline_ms ≡ some t) × (t ≤ now)

abbrev pub Asked : Option Seat → Seat → Type 0
Asked only seat = (only ≡ none) ⊎ (only ≡ some seat)

-- The seat with less time left, or with the same time the one on turn.
abbrev pub LessTime : GameState → Seat → Type 0
LessTime g seat =
    ((g.clock.remaining_a < g.clock.remaining_b) × (seat ≡ seat_a))
    ⊎ (((g.clock.remaining_b < g.clock.remaining_a) × (seat ≡ seat_b))
        ⊎ ((g.clock.remaining_a ≡ g.clock.remaining_b) × (seat ≡ g.turn)))

-- Why the seat `loser` loses the game of the room `r` at `now`, when the time of the seats `only` is
-- looked at: the clock of the seat, which is there, ran and is over; the time to come back of both
-- seats ended at one instant; or that of the seat ended, and it is the first one asked for.
pub data Loss (r : Room) (now : ℕ) (only : Option Seat) (loser : Seat) (reason : Option Reason)
    : Type 0 where
  by_clock :
      reason ≡ some timeout
      → running_seat r ≡ some loser
      → remaining r.state.clock loser ≤ now - r.clock_anchor_ms
      → connected (player_of r loser) ≡ true
      → Loss r now only loser reason
  together :
      (t : ℕ)
      → reason ≡ some disconnect_timeout
      → Late now r.player_a t
      → Late now r.player_b t
      → LessTime r.state loser
      → Loss r now only loser reason
  away :
      (t : ℕ)
      → reason ≡ some disconnect_timeout
      → Asked only loser
      → Late now (player_of r loser) t
      → ((u : ℕ) → ¬ (Late now r.player_a u × Late now r.player_b u))
      → (loser ≡ seat_b → (u : ℕ) → ¬ (Asked only seat_a × Late now r.player_a u))
      → Loss r now only loser reason

pub is_expired-Late :
    (now : ℕ) (p : Option Player) → is_expired now p ≡ true → (t : ℕ) × Late now p t
is_expired-Late now none h = absurd (cc)
is_expired-Late now (some p) h = elim (Option-cases p.reconnect_deadline_ms) [
  | inl e ↦ absurd (ground arith)
  | inr (t, e) ↦ (t, (ground arith, e, ground arith))
]

pub is_expired-connected :
    (now : ℕ) (p : Option Player) → is_expired now p ≡ true → connected p ≡ false
is_expired-connected now none h = refl
is_expired-connected now (some p) h = ground arith

pub Late-is_expired : (now : ℕ) (p : Option Player) (t : ℕ) → Late now p t → is_expired now p ≡ true
Late-is_expired now none t l = absurd l
Late-is_expired now (some p) t (off, until, over) = rw (off, until) (ground arith)

pub same_deadline-Late :
    (now : ℕ) (p q : Option Player) (t : ℕ)
    → same_deadline p q ≡ true
    → Late now p t
    → is_expired now q ≡ true
    → Late now q t
same_deadline-Late now none q t h l e = absurd l
same_deadline-Late now (some p) none t h l e = absurd (cc)
same_deadline-Late now (some p) (some q) t h (off, until, over) e =
    let (u, (away_q, until_q, over_q)) = is_expired-Late now (some q) e in
    let same : t ≡ u = ground arith in (away_q, until_q ∙ ap some (sym same), over)

pub Late-same_deadline :
    (now : ℕ) (p q : Option Player) (t : ℕ) → Late now p t → Late now q t → same_deadline p q ≡ true
Late-same_deadline now none q t l m = absurd l
Late-same_deadline now (some p) none t l m = absurd m
Late-same_deadline now (some p) (some q) t (_, until, _) (_, until_q, _) =
    rw (until, until_q) (ground arith)

pub tie_break_grace_loser-LessTime : (r : Room) → LessTime r.state (tie_break_grace_loser r)
unfolding tie_break_grace_loser
tie_break_grace_loser-LessTime r = elim (Bool-cases (a == b)) [
  | inl e ↦ rw e (inr (inr (ground arith, refl)))
  | inr e ↦ elim (Bool-cases (ltb a b)) [
    | inl f ↦ rw (e, f) (inl (ground arith, refl))
    | inr f ↦ rw (e, f) (inr (inl (ground arith, refl)))
  ]
]
  where
    a : ℕ
    a = r.state.clock.remaining_a

    b : ℕ
    b = r.state.clock.remaining_b

wanted-Asked : (only : Option Seat) (seat : Seat) → wanted only seat ≡ true → Asked only seat
wanted-Asked none seat h = inl refl
wanted-Asked (some s) seat h = inr (ap some (ground arith))

Asked-wanted : (only : Option Seat) (seat : Seat) → Asked only seat → wanted only seat ≡ true
Asked-wanted none seat h = refl
Asked-wanted (some s) seat (inl e) = absurd (cc)
Asked-wanted (some s) seat_a (inr e) = ground arith
Asked-wanted (some s) seat_b (inr e) = ground arith

-- Without a tie the first overdue seat that is asked for loses.
pub first-Loss :
    (r : Room) (now : ℕ) (only : Option Seat)
    → overdue r now only ≡ true
    → ((u : ℕ) → ¬ (Late now r.player_a u × Late now r.player_b u))
    → Loss r now only
        (if is_expired now r.player_a && wanted only seat_a then seat_a else seat_b)
        (some disconnect_timeout)
first-Loss r now only late untied =
    elim (Bool-cases (is_expired now r.player_a && wanted only seat_a)) [
      | inl h ↦
          let (t, l) = is_expired-Late now r.player_a (ground arith) in
          rw h (away t refl (wanted-Asked only seat_a (ground arith)) l untied (λ e. absurd (cc)))
      | inr h ↦
          let (t, l) = is_expired-Late now r.player_b (ground arith) in
          rw h (
            away t refl (wanted-Asked only seat_b (ground arith)) l untied
              (λ e u p. not_a h u p.0 p.1))
    ]
  where
    not_a :
        (is_expired now r.player_a && wanted only seat_a) ≡ false
        → (u : ℕ) → Asked only seat_a
        → ¬ Late now r.player_a u
    not_a h u asked l =
        let a = Late-is_expired now r.player_a u l in
        let w = Asked-wanted only seat_a asked in absurd (ground arith)
