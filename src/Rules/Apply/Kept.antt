-- ===== src/Rules/Apply/Kept.antt =====
-- What every accepted move keeps, and how it changes the turn, the winner and the clock.
use ottv.Prelude.{◌≡◌, true, Option, some, arith}
use ottv.Rules.Types.{Seat, Point, GameState, ok}
use ottv.Rules.Board.{inside, inside_point, Sent, whole, other_value}
use ottv.Rules.Board.Occupancy.{IsBoard}
use ottv.Rules.Apply.{RawPoint, apply_move}
use ottv.Rules.Apply.Accepted.{Applying, Accepted, apply_move-Accepted}
use ottv.Rules.Apply.Played.{Effect, play-Effect, Effect-IsBoard}
use ottv.Rules.Apply.Concluded.{Outcome, conclude-Outcome, Outcome-pieces}

inside_point-inside : (c d : Sent) (p : Point) → inside_point c d ≡ some p → inside p.x p.y ≡ true
unfolding inside_point
inside_point-inside (whole x) (whole y) p h = ground arith
inside_point-inside (whole x) other_value p h = absurd (cc)
inside_point-inside other_value d p h = absurd (cc)

module _ {s : GameState} {player : Option Seat} {from to : Option RawPoint} {r : Applying} where
  pub Accepted-Effect :
      IsBoard s.pieces
      → (a : Accepted s player from to r) → Effect s a.stepped.mover a.f a.t a.stepped.played
  Accepted-Effect v a =
      play-Effect s a.seat a.stepped.mover a.f a.t v.unique_ids a.stepped.found a.stepped.few
        a.stepped.play_eq

  pub Accepted-Outcome :
      (a : Accepted s player from to r) → Outcome a.stepped.played.0 a.stepped.played.1 a.seat r
  Accepted-Outcome a = conclude-Outcome a.seat _ _ a.stepped.concluded

  pub Accepted-IsBoard : IsBoard s.pieces → Accepted s player from to r → IsBoard r.0.pieces
  Accepted-IsBoard v a =
      rw (Outcome-pieces _ _ _ _ (Accepted-Outcome a))
        (Effect-IsBoard s _ _ _ _ v (inside_point-inside _ _ a.t a.to_inside) (Accepted-Effect v a))

-- An accepted move from a board leaves a board: no two pieces on one square, no two with one id, none outside.
pub apply_move-IsBoard :
    (s : GameState) (player : Option Seat) (from to : Option RawPoint) (r : Applying)
    → IsBoard s.pieces
    → apply_move (some s) player from to ≡ ok r
    → IsBoard r.0.pieces
apply_move-IsBoard s player from to r v h =
    Accepted-IsBoard v (apply_move-Accepted s player from to h)
