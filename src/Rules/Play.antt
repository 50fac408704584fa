-- ===== src/Rules/Play.antt =====
-- Whole games: the states that moves and the passing of time reach from the initial one, through
-- `applyMove` and `elapseClock` of packages/game-core/src/rules.js.
use mathlib.Core.Path.{subst}
use ottv.Prelude.{
  ℕ, ◌≡◌, ◌≢◌, refl, sym, ap, ◌∙◌, Bool, true, false, Option, none, some, List, [], ◌∷◌, pos, arith,
  inl, inr, ◌⊎◌, any, text_eq, eq_ℤ, ◌+ℤ◌,
}
use ottv.Rules.Types.{Seat, Clock, GameState, GameEvent, ok}
use ottv.Rules.Board.{
  whole, create_initial_state, has_single_occupancy, pieces_at, at, inside, compare,
}
use ottv.Rules.Board.Occupancy.{IsBoard}
use ottv.Rules.Board.Start.{create_initial_state-IsBoard}
use ottv.Rules.Moves.{all_moves, get_legal_moves, moves_from, open_to}
use ottv.Rules.Apply.{RawPoint, apply_move}
use ottv.Rules.Apply.Kept.{apply_move-IsBoard}
use ottv.Rules.Apply.Handover.{GoesOn, Over, all_moves-retimed, apply_move-Outcome}
use ottv.Rules.Apply.Accepted.{Applying}
use ottv.Rules.Apply.Listed.{apply_move-all_moves}
use ottv.Rules.Time.{elapse_clock, elapse_for, run_down}
use ottv.Rules.Time.Elapsed.{elapse_clock-eq}

-- One call that succeeds.
pub data Step (s u : GameState) : Type 0 where
  moves :
      (player : Option Seat) (from to : Option RawPoint) (events : List GameEvent)
      → apply_move (some s) player from to ≡ ok (u, events)
      → Step s u
  waits :
      (t : ℕ) (events : List GameEvent)
      → elapse_clock (some s) (whole (pos t)) ≡ ok (u, events)
      → Step s u

pub data Reach (s : GameState) : GameState → Type 0 where
  here : Reach s s
  next : {t u : GameState} → Reach s t → Step t u → Reach s u

abbrev pub is_cons {ℓ} : {A : Type ℓ} → List A → Bool
is_cons [] = false
is_cons (_ ∷ _) = true

-- What holds of a game between two calls.
pub record IsGame (s : GameState) : Type 0 where
  pub board : IsBoard s.pieces
  pub clock_on_turn : s.winner ≡ none → s.clock.running_seat ≡ some s.turn
  pub clock_stands : (w : Seat) → s.winner ≡ some w → s.clock.running_seat ≡ none
  pub can_move : s.winner ≡ none → is_cons (all_moves s s.turn) ≡ true

initial_move : is_cons (all_moves create_initial_state create_initial_state.turn) ≡ true
unfolding create_initial_state all_moves get_legal_moves has_single_occupancy moves_from open_to
    pieces_at at inside compare text_eq eq_ℤ ◌+ℤ◌
initial_move = refl

pub create_initial_state-IsGame : IsGame create_initial_state
create_initial_state-IsGame = record {
  board = create_initial_state-IsBoard;
  clock_on_turn = λ _. unfold create_initial_state in refl;
  clock_stands = λ w h. absurd (unfold create_initial_state in cc h);
  can_move = λ _. initial_move;
}

any-is_cons {ℓ} : {A : Type ℓ} (f : A → Bool) (xs : List A) → any f xs ≡ true → is_cons xs ≡ true
any-is_cons f [] h = h
any-is_cons f (x ∷ xs) h = refl

GoesOn-IsGame :
    (s : GameState) (r : Applying)
    → IsBoard r.0.pieces
    → r.0.winner ≡ none
    → GoesOn s r
    → IsGame r.0
GoesOn-IsGame s r v open_game g = record {
  board = v;
  clock_on_turn = λ _. g.clock_runs ∙ ap some (sym g.turn_passed);
  clock_stands = λ w h. absurd (cc);
  can_move = λ _.
      any-is_cons _ _
        (sym (apply_move-all_moves r.0 v open_game g.reply.from g.reply.to) ∙ g.reply_accepted);
}

Over-IsGame :
    (s : GameState) (r : Applying) (w : Seat)
    → IsBoard r.0.pieces
    → r.0.winner ≡ some w
    → Over s r w
    → IsGame r.0
Over-IsGame s r w v done o = record {
  board = v;
  clock_on_turn = λ h. absurd (cc);
  clock_stands = λ _ _. o.clock_stands;
  can_move = λ h. absurd (cc);
}

apply_move-IsGame :
    (s : GameState) (player : Option Seat) (from to : Option RawPoint) (r : Applying)
    → IsGame s
    → apply_move (some s) player from to ≡ ok r
    → IsGame r.0
apply_move-IsGame s player from to r g h = elim (apply_move-Outcome s player from to r g.board h) [
  | inl (open_game, on) ↦
      GoesOn-IsGame s r (apply_move-IsBoard s player from to r g.board h) open_game on
  | inr (w, done, over) ↦
      Over-IsGame s r w (apply_move-IsBoard s player from to r g.board h) done over
]

-- Time changes the clock alone, or ends the game.
pub elapse_for-cases :
    (s : GameState) (t : ℕ)
    → let u = (elapse_for s s.winner s.clock.running_seat t).0 in
      ((u ≡ record s { clock = u.clock }) × (u.clock.running_seat ≡ s.clock.running_seat))
      ⊎ ((u.winner ≢ none) × (u.clock.running_seat ≡ none) × (u.pieces ≡ s.pieces))
unfolding elapse_for run_down
elapse_for-cases s t = ground arith

retimed-IsGame :
    (s : GameState) (c : Clock)
    → IsGame s
    → c.running_seat ≡ s.clock.running_seat
    → IsGame (record s { clock = c })
retimed-IsGame s c g e = record {
  board = g.board;
  clock_on_turn = λ h. e ∙ g.clock_on_turn h;
  clock_stands = λ w h. e ∙ g.clock_stands w h;
  can_move = λ h. ap is_cons (all_moves-retimed s s.turn c s.turn) ∙ g.can_move h;
}

elapse_clock-IsGame :
    (s : GameState) (t : ℕ) (r : Applying)
    → IsGame s
    → elapse_clock (some s) (whole (pos t)) ≡ ok r
    → IsGame r.0
elapse_clock-IsGame s t r g h = subst (λ (q : Applying). IsGame q.0) now after
  where
    u : GameState
    u = (elapse_for s s.winner s.clock.running_seat t).0

    now : elapse_for s s.winner s.clock.running_seat t ≡ r
    now = cc (elapse_clock-eq s t)

    after : IsGame u
    after = elim (elapse_for-cases s t) [
      | inl (same, running) ↦ subst IsGame (sym same) (retimed-IsGame s u.clock g running)
      | inr (ended, stands, pieces) ↦ record {
        board = subst IsBoard (sym pieces) g.board;
        clock_on_turn = λ e. absurd (ended e);
        clock_stands = λ _ _. stands;
        can_move = λ e. absurd (ended e);
      }
    ]

Step-IsGame : {s u : GameState} → Step s u → IsGame s → IsGame u
Step-IsGame {s} {u} (moves player from to events h) g =
    apply_move-IsGame s player from to (u, events) g h
Step-IsGame {s} {u} (waits t events h) g = elapse_clock-IsGame s t (u, events) g h

Reach-IsGame : {s u : GameState} → Reach s u → IsGame s → IsGame u
Reach-IsGame here g = g
Reach-IsGame (next r st) g = Step-IsGame st (Reach-IsGame r g)

-- Every state that a game comes to is a board, its clock runs for the seat on turn until there is
-- a winner and for nobody then, and until then the seat on turn has a move.
pub Reach-create_initial_state : (s : GameState) → Reach create_initial_state s → IsGame s
Reach-create_initial_state s r = Reach-IsGame r create_initial_state-IsGame
