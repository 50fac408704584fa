-- ===== src/Ai.antt =====
-- The search position of packages/game-core/src/ai.js. Its typed array is a list of numbers, in
-- which a read outside gives 0, as falsy as the `undefined` of the source, and a write outside is
-- ignored. Coordinates are those of pieces on the board, and a count is a natural number, which stays
-- at 0 where it is lowered from 0.
pub mod Undo
pub mod Moves
mod Tests
use Prim.Native.String.{String}
use ottv.Prelude.{ℕ, zero, suc, ◌+◌, ◌-◌, ◌*◌, Bool, true, false, Option, none, some, List, [], ◌∷◌}
use ottv.Rules.Types.{Seat, seat_a, seat_b, other, Kind}

pub record SearchPiece : Type 0 where
  pub id : String
  pub side : Seat
  pub type : Kind
  pub x : ℕ
  pub y : ℕ
  pub alive : Bool

-- `count` is the pair of the living pieces of the two sides.
pub record Position : Type 0 where
  pub pieces : List SearchPiece
  pub board : List ℕ
  pub count_a : ℕ
  pub count_b : ℕ

pub record SearchMove : Type 0 where
  pub index : ℕ
  pub x : ℕ
  pub y : ℕ

pub record Undoing : Type 0 where
  pub index : ℕ
  pub from_x : ℕ
  pub from_y : ℕ
  pub victim_slot : ℕ

abbrev pub slot_at : List ℕ → ℕ → ℕ
slot_at [] n = 0
slot_at (x ∷ xs) zero = x
slot_at (x ∷ xs) (suc n) = slot_at xs n

abbrev pub put_slot : List ℕ → ℕ → ℕ → List ℕ
put_slot [] n v = []
put_slot (x ∷ xs) zero v = v ∷ xs
put_slot (x ∷ xs) (suc n) v = x ∷ put_slot xs n v

abbrev pub piece_at : List SearchPiece → ℕ → Option SearchPiece
piece_at [] n = none
piece_at (p ∷ ps) zero = some p
piece_at (p ∷ ps) (suc n) = piece_at ps n

abbrev pub put_piece : List SearchPiece → ℕ → SearchPiece → List SearchPiece
put_piece [] n q = []
put_piece (p ∷ ps) zero q = q ∷ ps
put_piece (p ∷ ps) (suc n) q = p ∷ put_piece ps n q

abbrev pub cell : ℕ → ℕ → ℕ
cell x y = y * 9 + x

abbrev pub count_of : Position → Seat → ℕ
count_of s seat_a = s.count_a
count_of s seat_b = s.count_b

abbrev pub set_count : Position → Seat → ℕ → Position
set_count s seat_a n = record s { count_a = n }
set_count s seat_b n = record s { count_b = n }

-- The victim in `slot`, made dead or alive, and the count of its side; `none` is a read of a
-- property of `undefined`.
unfoldable pub take_victim : Position → Seat → ℕ → Option Position
take_victim s side zero = some s
take_victim s side (suc v) = elim (piece_at s.pieces v) [
  | none ↦ none
  | some p ↦
      let q = record s { pieces = put_piece s.pieces v (record p { alive = false }) } in
      some (set_count q (other side) (count_of q (other side) - 1))
]

unfoldable pub give_victim : Position → Seat → ℕ → Option Position
give_victim s side zero = some s
give_victim s side (suc v) = elim (piece_at s.pieces v) [
  | none ↦ none
  | some p ↦
      let q = record s { pieces = put_piece s.pieces v (record p { alive = true }) } in
      some (set_count q (other side) (count_of q (other side) + 1))
]

-- The writes of `makeMove` to the board and to the piece that moves.
abbrev pub stepped : Position → SearchPiece → SearchMove → Position
stepped s p m = record s {
  pieces = put_piece s.pieces m.index (record p { x = m.x; y = m.y });
  board = put_slot (put_slot s.board (cell p.x p.y) 0) (cell m.x m.y) (suc m.index);
}

abbrev pub undoing : Position → SearchPiece → SearchMove → Undoing
undoing s p m = record {
  index = m.index;
  from_x = p.x;
  from_y = p.y;
  victim_slot = slot_at s.board (cell m.x m.y);
}

-- `makeMove`
unfoldable pub make_move : Position → Seat → SearchMove → Option (Position × Undoing)
unfolding take_victim
make_move s side m = elim (piece_at s.pieces m.index) [
  | none ↦ none
  | some p ↦ elim (take_victim (stepped s p m) side (slot_at s.board (cell m.x m.y))) [
    | none ↦ none
    | some q ↦ some (q, undoing s p m)
  ]
]

-- The writes of `unmakeMove` to the board and to the piece that has moved.
abbrev pub stepped_back : Position → SearchPiece → Undoing → Position
stepped_back s p u = record s {
  pieces = put_piece s.pieces u.index (record p { x = u.from_x; y = u.from_y });
  board =
      put_slot (put_slot s.board (cell u.from_x u.from_y) (suc u.index)) (cell p.x p.y)
        u.victim_slot;
}

-- `unmakeMove`
unfoldable pub unmake_move : Position → Seat → Undoing → Option Position
unfolding give_victim
unmake_move s side u = elim (piece_at s.pieces u.index) [
  | none ↦ none
  | some p ↦ give_victim (stepped_back s p u) side u.victim_slot
]
