-- ===== src/Room/Move/Kept.antt =====
-- `handleMove` keeps a room valid.
use mathlib.Core.Path.{subst}
use ottv.Prelude.{
  ℕ, ◌≡◌, refl, sym, ap, ◌∙◌, Bool, true, false, Option, none, some, List, [], ◌∷◌, ◌++◌, arith,
  inl, inr, ◌⊎◌, if◌then◌else◌, Bool-cases, Option-cases,
}
use ottv.Rules.Types.{
  Seat, seat_a, seat_b, GameState, GameEvent, Result, ok, fail, throws, RuleError,
}
use ottv.Rules.Board.{Sent}
use ottv.Rules.Board.Occupancy.{IsBoard}
use ottv.Rules.Apply.{RawPoint, apply_move}
use ottv.Rules.Apply.Kept.{apply_move-IsBoard}
use ottv.Rules.Apply.Handover.{apply_move-Outcome}
use ottv.Room.Types.{Connection, Room, is_playing, is_some, player_of, connected, seat_of}
use ottv.Room.Clock.{cancel_clock_deadline, settle_uncommitted}
use ottv.Room.Move.{
  commit_if_any, next_clock, record_move, attempt_move, finish_settled, is_duplicate, is_stale,
  move_seated, handle_move,
}
use ottv.Room.Valid.{
  IsSound, IsRoom, pick, commit-IsRoom, finish_terminal-IsRoom, schedule-IsRoom,
  settle_uncommitted-IsRoom, settle_uncommitted-status,
}

-- A room in which an accepted move has been placed.
abbrev pub placed : Room → GameState → ℕ → Room
placed r g now = record r { state = g; clock_anchor_ms = now }

placed-player :
    (r : Room) (g : GameState) (now : ℕ) (s : Seat) → player_of (placed r g now) s ≡ player_of r s
placed-player r g now seat_a = refl
placed-player r g now seat_b = refl

-- The game after a move, for the players as they are.
moved-IsSound :
    (r : Room) (g : GameState)
    → IsRoom r
    → is_playing r.status ≡ true
    → IsBoard g.pieces
    → g.winner ≡ none
    → g.clock.running_seat ≡ some g.turn
    → connected (player_of r g.turn) ≡ true
    → IsSound g r.status r.player_a r.player_b r.clock_timer
moved-IsSound r g v on b open_game runs turn_on = record {
  board = b;
  seated = v.sound.seated;
  open_game = λ _. open_game;
  fair_clock = λ h s e.
      let same : s ≡ g.turn = cc in
      (
        same,
        subst (λ (t : Seat). connected (pick r.player_a r.player_b t) ≡ true) (sym same)
            (picked r g.turn turn_on),
      );
  over_clock = λ h. absurd (ground arith);
  no_timer = v.sound.no_timer;
}
  where
    picked :
        (q : Room) (s : Seat)
        → connected (player_of q s) ≡ true
        → connected (pick q.player_a q.player_b s) ≡ true
    picked q s h = ground arith

waiting_turn-IsSound :
    (r : Room) (g : GameState)
    → IsRoom r
    → IsBoard g.pieces
    → g.winner ≡ none
    → IsSound
        (record g { clock = record g.clock { running_seat = none } })
        r.status
        r.player_a
        r.player_b
        none
waiting_turn-IsSound r g v b open_game = record {
  board = b;
  seated = v.sound.seated;
  open_game = λ _. open_game;
  fair_clock = λ h s e. absurd (cc);
  over_clock = λ _. refl;
  no_timer = λ _. refl;
}

next_clock-IsRoom :
    (r : Room) (g : GameState) (now : ℕ)
    → IsRoom r
    → is_playing r.status ≡ true
    → IsBoard g.pieces
    → (g.winner ≡ none → g.clock.running_seat ≡ some g.turn)
    → IsRoom (next_clock (placed r g now))
unfolding cancel_clock_deadline
next_clock-IsRoom r g now v on b runs = elim (Bool-cases (is_some g.winner)) [
  | inl won ↦ rw won (finish_terminal-IsRoom _ b v.ordered)
  | inr open_game ↦
      let none_yet : g.winner ≡ none = ground arith in
      rw open_game (elim (Bool-cases (connected (player_of (placed r g now) g.turn))) [
        | inl here ↦ rw here (
            schedule-IsRoom _ (record {
              sound = moved-IsSound r g v on b none_yet (runs none_yet) (rw placed-player at here);
              ordered = v.ordered;
            }))
        | inr away ↦
            rw away (record { sound = waiting_turn-IsSound r g v b none_yet; ordered = v.ordered })
      ])
]

record_move-IsRoom :
    (r : Room) (seat : Seat) (from to : Option RawPoint) (expected : Option Sent) (now : ℕ)
    (before : List GameEvent) (g : GameState) (events : List GameEvent)
    → IsRoom (next_clock (placed r g now))
    → IsRoom (record_move r seat from to expected now before g events).0
unfolding record_move
record_move-IsRoom r seat from to expected now before g events v =
    let w = commit-IsRoom (next_clock (placed r g now)) (before ++ events) true v in
    record { sound = w.sound; ordered = w.ordered }

commit_if_any-IsRoom :
    (r : Room) (events : List GameEvent) (structural : Bool)
    → IsRoom r
    → IsRoom (commit_if_any r events structural).0
commit_if_any-IsRoom r [] structural v = v
commit_if_any-IsRoom r (e ∷ es) structural v = commit-IsRoom r (e ∷ es) structural v

-- After an accepted move of an open game the clock is that of the seat on turn.
apply_move-runs :
    (s : GameState) (seat : Seat) (from to : Option RawPoint) (g : GameState)
    (events : List GameEvent)
    → IsBoard s.pieces
    → apply_move (some s) (some seat) from to ≡ ok (g, events)
    → g.winner ≡ none
    → g.clock.running_seat ≡ some g.turn
apply_move-runs s seat from to g events b h open_game =
    elim (apply_move-Outcome s (some seat) from to (g, events) b h) [
      | inl (_, on) ↦ on.clock_runs ∙ ap some (sym on.turn_passed)
      | inr (w, won, _) ↦ absurd (cc)
    ]

pub Result-cases {ℓ} :
    {A : Type ℓ} (m : Result A)
    → ((x : A) × (m ≡ ok x)) ⊎ ((e : RuleError) × (m ≡ fail e)) ⊎ (m ≡ throws)
Result-cases (ok x) = inl (x, refl)
Result-cases (fail e) = inr (inl (e, refl))
Result-cases throws = inr (inr refl)

attempt_move-IsRoom :
    (r : Room) (before : List GameEvent) (seat : Seat) (from to : Option RawPoint)
    (expected : Option Sent) (now : ℕ)
    → IsRoom r
    → is_playing r.status ≡ true
    → IsRoom (attempt_move r before seat from to expected now).0
unfolding attempt_move
attempt_move-IsRoom r before seat from to expected now v on =
    elim (Result-cases (apply_move (some r.state) (some seat) from to)) [
      | inl ((g, events), e) ↦
          rw (e, attempt_move)
            (record_move-IsRoom r seat from to expected now before g events (
              next_clock-IsRoom r g now v on
                (apply_move-IsBoard r.state (some seat) from to (g, events) v.sound.board e)
                (apply_move-runs r.state seat from to g events v.sound.board e)))
      | inr (inl (x, e)) ↦ rw (e, attempt_move) (commit_if_any-IsRoom r before false v)
      | inr (inr e) ↦ rw (e, attempt_move) v
    ]

move_seated-IsRoom :
    (r : Room) (seat : Seat) (from to : Option RawPoint) (expected : Option Sent) (now later : ℕ)
    → IsRoom r
    → IsRoom (move_seated r seat from to expected now later).0
unfolding move_seated
move_seated-IsRoom r seat from to expected now later v =
    elim (Bool-cases (is_duplicate r.last_move seat from to expected)) [
      | inl e ↦ rw e v
      | inr fresh ↦ rw fresh (elim (Bool-cases (is_playing r.status)) [
        | inr idle ↦ rw idle v
        | inl on ↦ rw on (elim (Bool-cases (is_stale r expected)) [
          | inl old ↦ rw old v
          | inr current ↦ rw current (settled_part on)
        ])
      ])
    ]
  where
    settled : Room × List GameEvent
    settled = settle_uncommitted r now

    settled_part :
        is_playing r.status ≡ true
        → IsRoom
            (if is_some settled.0.state.winner
              then finish_settled settled
              else attempt_move settled.0 settled.1 seat from to expected later).0
    settled_part on = elim (Bool-cases (is_some settled.0.state.winner)) [
      | inl won ↦
          rw won (commit_if_any-IsRoom settled.0 settled.1 true (settle_uncommitted-IsRoom r now v))
      | inr open_game ↦ rw open_game (
          attempt_move-IsRoom settled.0 settled.1 seat from to expected later
            (settle_uncommitted-IsRoom r now v)
            (ap is_playing (settle_uncommitted-status r now open_game) ∙ on))
    ]

pub handle_move-IsRoom :
    (r : Room) (c : Option Connection) (from to : Option RawPoint) (expected : Option Sent)
    (now later : ℕ)
    → IsRoom r
    → IsRoom (handle_move r c from to expected now later).0
unfolding handle_move
handle_move-IsRoom r c from to expected now later v = elim (Option-cases (seat_of r c)) [
  | inl e ↦ rw (e, handle_move) v
  | inr (seat, e) ↦ rw (e, handle_move) (move_seated-IsRoom r seat from to expected now later v)
]
