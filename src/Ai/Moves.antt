-- ===== src/Ai/Moves.antt =====
-- `buildPosition`, `generateMoves`, `countMoves` and `orderingBonus` of ai.js. The pieces of a state
-- are on the board. A move is found by steps that may read a piece that is not there, which is none.
pub mod Counted
use Prim.Native.Nat.{Ordering, compare, max}
use ottv.Prelude.{
  ℕ, zero, suc, ◌+◌, ◌-◌, ◌*◌, Bool, true, false, ◌&&◌, ◌||◌, not, Option, none, some, List, [],
  ◌∷◌, ◌++◌, ltb, ℤ, pos, negsuc, pos_part, ◌+ℤ◌, map, count, sort_by, ◌then_by◌, if◌then◌else◌,
}
use ottv.Rules.Types.{
  Seat, seat_a, seat_b, seat_eq, Kind, kind_eq, beats, size, goal_square, Point, Piece, GameState,
}
use ottv.Rules.Moves.{deltas}
use ottv.Ai.{SearchPiece, Position, slot_at, put_slot, piece_at, cell}

abbrev pub search_piece : Piece → SearchPiece
search_piece p = record {
  id = p.id;
  side = p.player;
  type = p.type;
  x = pos_part p.x;
  y = pos_part p.y;
  alive = true;
}

abbrev pub empty_board : ℕ → List ℕ
empty_board zero = []
empty_board (suc n) = 0 ∷ empty_board n

-- The loop that writes each piece, from its number on, on its cell.
unfoldable pub place_all : List ℕ → ℕ → List SearchPiece → List ℕ
place_all board slot [] = board
place_all board slot (p ∷ ps) = place_all (put_slot board (cell p.x p.y) slot) (suc slot) ps

abbrev pub is_of : Seat → SearchPiece → Bool
is_of side p = seat_eq p.side side

-- `buildPosition`
unfoldable pub build_position : GameState → Position
unfolding place_all
build_position state =
    let pieces = map search_piece state.pieces in
    record {
      pieces = pieces;
      board = place_all (empty_board (size * size)) 1 pieces;
      count_a = count (is_of seat_a) pieces;
      count_b = count (is_of seat_b) pieces;
    }

pub record ScoredMove : Type 0 where
  pub index : ℕ
  pub x : ℕ
  pub y : ℕ
  pub capture : ℕ
  pub order : ℕ

abbrev pub apart : ℕ → ℕ → ℕ
apart a b = a - b + (b - a)

-- `distanceToGoal`
unfoldable pub distance_to_goal : Seat → ℕ → ℕ → ℕ
distance_to_goal side x y =
    let goal = goal_square side in max (apart x (pos_part goal.x)) (apart y (pos_part goal.y))

-- `orderingBonus`; a step of one does not go more than one away from the goal.
unfoldable pub ordering_bonus : SearchPiece → ℕ → ℕ → ℕ
unfolding distance_to_goal
ordering_bonus p x y = distance_to_goal p.side p.x p.y + 1 - distance_to_goal p.side x y

-- The cell that a step from a coordinate comes to, on the board only.
abbrev pub on_board : ℤ → Option ℕ
on_board (negsuc n) = none
on_board (pos n) = if ltb n size then some n else none

-- What a cell is for a piece: closed, free, or a capture.
pub data Target : Type 0 where
  closed free taken : Target

infixl 5 ◌>>=◌
abbrev pub ◌>>=◌ {ℓ κ} : {A : Type ℓ} {B : Type κ} → Option A → (A → Option B) → Option B
none >>= f = none
some a >>= f = f a

abbrev pub target_of : Position → SearchPiece → ℕ → Option Target
target_of s p zero = some free
target_of s p (suc occupant) = do
  target ← piece_at s.pieces occupant
  some (
      if seat_eq target.side p.side || not (kind_eq (beats p.type) target.type)
      then closed
      else taken)

abbrev pub target_at : Position → SearchPiece → Option ℕ → Option ℕ → Option Target
target_at s p (some x) (some y) = target_of s p (slot_at s.board (cell x y))
target_at s p _ _ = some closed

abbrev pub scored : ℕ → SearchPiece → ℕ → ℕ → ℕ → ScoredMove
scored index p x y capture = record {
  index = index;
  x = x;
  y = y;
  capture = capture;
  order = capture * 100 + ordering_bonus p x y;
}

abbrev pub move_to : ℕ → SearchPiece → ℕ → ℕ → Target → List ScoredMove
move_to index p x y closed = []
move_to index p x y free = scored index p x y 0 ∷ []
move_to index p x y taken = scored index p x y 1 ∷ []

abbrev pub total_of : Target → ℕ
total_of closed = 0
total_of free = 1
total_of taken = 1

-- The moves of a piece, and how many they are.
unfoldable pub piece_moves : Position → ℕ → SearchPiece → List Point → Option (List ScoredMove)
unfolding ordering_bonus
piece_moves s index p [] = some []
piece_moves s index p (d ∷ ds) = do
  let x = on_board (pos p.x +ℤ d.x)
  let y = on_board (pos p.y +ℤ d.y)
  target ← target_at s p x y
  rest ← piece_moves s index p ds
  some (move_to index p (pos_part (pos p.x +ℤ d.x)) (pos_part (pos p.y +ℤ d.y)) target ++ rest)

unfoldable pub piece_total : Position → SearchPiece → List Point → Option ℕ
piece_total s p [] = some 0
piece_total s p (d ∷ ds) = do
  target ← target_at s p (on_board (pos p.x +ℤ d.x)) (on_board (pos p.y +ℤ d.y))
  rest ← piece_total s p ds
  some (total_of target + rest)

abbrev pub plays : Seat → SearchPiece → Bool
plays side p = p.alive && seat_eq p.side side

-- The loops over the pieces, from the number of the first.
unfoldable pub moves_from_index : Position → Seat → ℕ → List SearchPiece → Option (List ScoredMove)
unfolding piece_moves
moves_from_index s side index [] = some []
moves_from_index s side index (p ∷ ps) =
    let later = moves_from_index s side (suc index) ps in
    if plays side p
    then (do own ← piece_moves s index p deltas; rest ← later; some (own ++ rest))
    else later

unfoldable pub total_from : Position → Seat → List SearchPiece → Option ℕ
unfolding piece_total
total_from s side [] = some 0
total_from s side (p ∷ ps) =
    let later = total_from s side ps in
    if plays side p
    then (do own ← piece_total s p deltas; rest ← later; some (own + rest))
    else later

abbrev pub best_first : ScoredMove → ScoredMove → Ordering
best_first a b = compare b.order a.order then_by compare a.index b.index

-- `generateMoves`
unfoldable pub generate_moves : Position → Seat → Option (List ScoredMove)
unfolding moves_from_index
generate_moves s side = do
  moves ← moves_from_index s side 0 s.pieces
  some (sort_by best_first moves)

-- `countMoves`
unfoldable pub count_moves : Position → Seat → Option ℕ
unfolding total_from
count_moves s side = total_from s side s.pieces
