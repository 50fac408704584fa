-- ===== src/Rules/Apply/Concluded.antt =====
-- How `applyMove` leaves the game: over, or with the other seat on turn.
use ottv.Prelude.{◌≡◌, true, none, some, List, [], ◌∷◌, ◌++◌, arith, inl, inr, Option-cases}
use ottv.Rules.Types.{Seat, other, GameState, GameEvent, ok}
use ottv.Rules.Board.{has_single_occupancy}
use ottv.Rules.Moves.{Win}
use ottv.Rules.Apply.{win_event, end_game, pass_turn, verdict, conclude}
use ottv.Rules.Apply.Accepted.{Applying}

-- The two ends of an accepted move.
pub data Outcome (next : GameState) (events : List GameEvent) (player : Seat) (r : Applying)
    : Type 0 where
  ended :
      (w : Win)
      → verdict next player ≡ some w
      → r ≡ (end_game next w, events ++ win_event w ∷ [])
      → Outcome next events player r
  continued :
      verdict next player ≡ none
      → r ≡ (pass_turn next (other player), events)
      → Outcome next events player r

pub conclude-Outcome :
    (player : Seat) (next : GameState) (events : List GameEvent) {r : Applying}
    → conclude player (next, events) ≡ ok r
    → Outcome next events player r
unfolding conclude
conclude-Outcome player next events {r} h = elim (Option-cases (verdict next player)) [
  | inl e ↦ continued e (ground arith)
  | inr (w, e) ↦ ended w e (ground arith)
]

-- The check that stands last never refuses.
pub conclude-is_ok :
    (player : Seat) (next : GameState) (events : List GameEvent)
    → has_single_occupancy next ≡ true
    → (r : Applying) × (conclude player (next, events) ≡ ok r)
unfolding conclude end_game pass_turn has_single_occupancy
conclude-is_ok player next events h = elim (Option-cases (verdict next player)) [
  | inl e ↦ ((pass_turn next (other player), events), rw (e, h))
  | inr (w, e) ↦ ((end_game next w, events ++ win_event w ∷ []), rw (e, h))
]

pub Outcome-pieces :
    (next : GameState) (events : List GameEvent) (player : Seat) (r : Applying)
    → Outcome next events player r
    → r.0.pieces ≡ next.pieces
unfolding end_game pass_turn
Outcome-pieces next events player r (ended w v e) = ground arith
Outcome-pieces next events player r (continued v e) = ground arith
