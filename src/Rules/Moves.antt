-- ===== src/Rules/Moves.antt =====
-- The moves that packages/game-core/src/rules.js offers, and the end of a game. A state is given:
-- the test `!state` has no counterpart.
use Prim.Native.String.{String}
use ottv.Prelude.{
  Bool, true, false, ◌&&◌, ◌||◌, not, Option, none, some, List, [], ◌∷◌, ◌++◌, map, ℤ, pos, negsuc,
  ◌+ℤ◌, find?, any, text_eq, if◌then◌else◌,
}
use ottv.Rules.Types.{
  Seat, seat_a, seat_b, seat_eq, kind_eq, Point, point, goal_square, Piece, GameState, Reason, goal,
  elimination,
}
use ottv.Rules.Board.{inside, at, pieces_at, has_single_occupancy, compare, Comparison, lose}

-- `DELTAS`
abbrev pub deltas : List Point
deltas =
    point (negsuc 0) (negsuc 0)
    ∷ point (pos 0) (negsuc 0)
    ∷ point (pos 1) (negsuc 0)
    ∷ point (negsuc 0) (pos 0)
    ∷ point (pos 1) (pos 0)
    ∷ point (negsuc 0) (pos 1)
    ∷ point (pos 0) (pos 1)
    ∷ point (pos 1) (pos 1)
    ∷ []

abbrev pub is_lose : Comparison → Bool
is_lose lose = true
is_lose _ = false

abbrev pub is_none {ℓ} : {A : Type ℓ} → Option A → Bool
is_none none = true
is_none (some _) = false

-- `occ.length > 0 && (occ[0].player === piece.player || occ[0].type === piece.type)`
abbrev pub first_blocks : Piece → List Piece → Bool
first_blocks piece [] = false
first_blocks piece (p ∷ _) = seat_eq p.player piece.player || kind_eq p.type piece.type

-- An enemy that the piece loses to.
abbrev pub stronger_enemy : Piece → Piece → Bool
stronger_enemy piece p = not (seat_eq p.player piece.player) && is_lose (compare piece.type p.type)

-- The square of a step is offered.
unfoldable pub open_to : GameState → Piece → ℤ → ℤ → Bool
open_to s piece x y =
    let occ = pieces_at s x y in
    inside x y && not (first_blocks piece occ) && not (any (stronger_enemy piece) occ)

-- The loop over `DELTAS`.
unfoldable pub moves_from : GameState → Piece → List Point → List Point
moves_from s piece [] = []
moves_from s piece (d ∷ ds) =
    let x = piece.x +ℤ d.x in
    let y = piece.y +ℤ d.y in
    let rest = moves_from s piece ds in if open_to s piece x y then point x y ∷ rest else rest

abbrev pub has_id : String → Piece → Bool
has_id id p = text_eq p.id id

abbrev pub moves_of_found : GameState → Option Piece → List Point
moves_of_found s none = []
moves_of_found s (some piece) = moves_from s piece deltas

unfoldable pub get_legal_moves : GameState → String → List Point
get_legal_moves s id =
    if not (has_single_occupancy s) || not (is_none s.winner)
    then []
    else moves_of_found s (find? (has_id id) s.pieces)

pub record LegalMove : Type 0 where
  pub piece_id : String
  pub from : Point
  pub to : Point

-- The loop of `allMoves`.
unfoldable pub moves_of_player : GameState → Seat → List Piece → List LegalMove
moves_of_player s player [] = []
moves_of_player s player (p ∷ ps) =
    let own =
      map (λ (t : Point). record { piece_id = p.id; from = point p.x p.y; to = t })
        (get_legal_moves s p.id) in
    (if seat_eq p.player player then own else []) ++ moves_of_player s player ps

unfoldable pub all_moves : GameState → Seat → List LegalMove
unfolding moves_of_player
all_moves s player = if is_none s.winner then moves_of_player s player s.pieces else []

pub record Win : Type 0 where
  pub winner : Seat
  pub reason : Reason
  pub eliminated_player : Option Seat

abbrev pub of_seat : Seat → Piece → Bool
of_seat seat p = seat_eq p.player seat

abbrev pub at_goal : Seat → Piece → Bool
at_goal seat p = seat_eq p.player seat && at (goal_square seat).x (goal_square seat).y p

-- The two loops over the seats, each written out.
unfoldable pub detect_winner : GameState → Option Win
detect_winner s =
    if any (at_goal seat_a) s.pieces
    then some (record { winner = seat_a; reason = goal; eliminated_player = none })
    else if any (at_goal seat_b) s.pieces
    then some (record { winner = seat_b; reason = goal; eliminated_player = none })
    else if not (any (of_seat seat_a) s.pieces)
    then some (record { winner = seat_b; reason = elimination; eliminated_player = some seat_a })
    else if not (any (of_seat seat_b) s.pieces)
    then some (record { winner = seat_a; reason = elimination; eliminated_player = some seat_b })
    else none
