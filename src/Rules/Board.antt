-- ===== src/Rules/Board.antt =====
-- The board of packages/game-core/src/rules.js: squares, occupancy, copies and the initial state.
pub mod Occupancy
pub mod Start
use Prim.Native.String.{String, ◌++◌ as text_append}
use ottv.Prelude.{
  ℕ, zero, suc, ◌+◌, Bool, true, false, ◌&&◌, Option, none, some, List, [], ◌∷◌, map, ℤ, pos,
  negsuc, ◌-ℤ◌, eq_ℤ, ltb, filter, any, if◌then◌else◌,
}
use ottv.Rules.Types.{
  Seat, seat_a, seat_b, seat_eq, Kind, dam, la, keo, kind_eq, beats, size, initial_ms, Point, point,
  Piece, Clock, GameState,
}

-- A value as a caller sends it: a whole number or anything else.
pub data Sent : Type 0 where
  whole : ℤ → Sent
  other_value : Sent

-- `inside` of one coordinate.
pub within : ℤ → Bool
within (pos n) = ltb n size
within (negsuc _) = false

unfoldable pub inside : ℤ → ℤ → Bool
unfolding within
inside x y = within x && within y

-- `inside` on what a caller sent, with the whole numbers that it has established.
unfoldable pub inside_point : Sent → Sent → Option Point
inside_point (whole x) (whole y) = if inside x y then some (point x y) else none
inside_point (whole _) other_value = none
inside_point other_value _ = none

pub data Comparison : Type 0 where
  tie win lose : Comparison

-- At a piece's square.
unfoldable pub at : ℤ → ℤ → Piece → Bool
at x y p = eq_ℤ p.x x && eq_ℤ p.y y

unfoldable pub pieces_at : GameState → ℤ → ℤ → List Piece
pieces_at s x y = filter (at x y) s.pieces

-- The loop of `hasSingleOccupancy`; a key "x,y" in the set `occupied` is the square.
abbrev pub on_square : Point → Point → Bool
on_square p q = eq_ℤ p.x q.x && eq_ℤ p.y q.y

pub single_occupancy : List Point → List Piece → Bool
single_occupancy occupied [] = true
single_occupancy occupied (p ∷ ps) =
    let here = point p.x p.y in
    let rest = single_occupancy (here ∷ occupied) ps in
    if any (on_square here) occupied then false else rest

unfoldable pub has_single_occupancy : GameState → Bool
unfolding single_occupancy
has_single_occupancy s = single_occupancy [] s.pieces

unfoldable pub fresh_clock : Clock
fresh_clock = record {
  remaining_a = initial_ms;
  remaining_b = initial_ms;
  running_seat = some seat_a;
}

-- A clock that may lack fields: `none` stands for what is absent or not finite.
pub record RawClock : Type 0 where
  pub raw_a : Option ℕ
  pub raw_b : Option ℕ
  pub raw_running : Option Seat

abbrev finite_or_initial : Option ℕ → ℕ
finite_or_initial (some t) = t
finite_or_initial none = initial_ms

unfoldable pub clone_clock : Option RawClock → Clock
unfolding fresh_clock
clone_clock none = fresh_clock
clone_clock (some c) = record {
  remaining_a = finite_or_initial c.raw_a;
  remaining_b = finite_or_initial c.raw_b;
  running_seat = c.raw_running;
}

abbrev pub raw_clock : Clock → RawClock
raw_clock c = record {
  raw_a = some c.remaining_a;
  raw_b = some c.remaining_b;
  raw_running = c.running_seat;
}

abbrev pub clone_piece : Piece → Piece
clone_piece p = record { id = p.id; player = p.player; type = p.type; x = p.x; y = p.y }

unfoldable pub clone_state : GameState → GameState
unfolding clone_clock
clone_state s = record {
  turn = s.turn;
  winner = s.winner;
  reason = s.reason;
  eliminated_player = s.eliminated_player;
  clock = clone_clock (some (raw_clock s.clock));
  pieces = map clone_piece s.pieces;
}

unfoldable pub create_empty_state : GameState
unfolding fresh_clock
create_empty_state = record {
  turn = seat_a;
  winner = none;
  reason = none;
  eliminated_player = none;
  clock = fresh_clock;
  pieces = [];
}

pub record Spot : Type 0 where
  pub type : Kind
  pub x : ℤ
  pub y : ℤ

abbrev spot : Kind → ℕ → ℕ → Spot
spot k x y = record { type = k; x = pos x; y = pos y }

-- `A_SETUP`
abbrev pub a_setup : List Spot
a_setup =
    spot la 4 7
    ∷ spot dam 5 7
    ∷ spot keo 4 6
    ∷ spot la 5 6
    ∷ spot dam 6 6
    ∷ spot keo 5 5
    ∷ spot la 6 5
    ∷ spot dam 7 5
    ∷ spot keo 6 4
    ∷ spot la 7 4
    ∷ []

abbrev seat_text : Seat → String
seat_text seat_a = "A"
seat_text seat_b = "B"

abbrev kind_text : Kind → String
kind_text dam = "dam"
kind_text la = "la"
kind_text keo = "keo"

-- The text of an index of `A_SETUP`, which has ten elements.
abbrev index_text : ℕ → String
index_text zero = "0"
index_text (suc zero) = "1"
index_text (suc (suc zero)) = "2"
index_text (suc (suc (suc zero))) = "3"
index_text (suc (suc (suc (suc zero)))) = "4"
index_text (suc (suc (suc (suc (suc zero))))) = "5"
index_text (suc (suc (suc (suc (suc (suc zero)))))) = "6"
index_text (suc (suc (suc (suc (suc (suc (suc zero))))))) = "7"
index_text (suc (suc (suc (suc (suc (suc (suc (suc zero)))))))) = "8"
index_text _ = "9"

abbrev initial_id : Seat → Kind → ℕ → String
initial_id s k i =
    text_append (seat_text s)
      (text_append "-" (text_append (kind_text k) (text_append "-" (index_text i))))

-- The square that the turn of the board by 180 degrees takes a coordinate to.
abbrev mirrored : ℤ → ℤ
mirrored v = pos size -ℤ pos 1 -ℤ v

-- The loop over `A_SETUP`, from index `i`.
abbrev initial_pieces : ℕ → List Spot → List Piece
initial_pieces i [] = []
initial_pieces i (t ∷ rest) =
    record { id = initial_id seat_a t.type i; player = seat_a; type = t.type; x = t.x; y = t.y }
    ∷ record {
      id = initial_id seat_b t.type i;
      player = seat_b;
      type = t.type;
      x = mirrored t.x;
      y = mirrored t.y;
    }
    ∷ initial_pieces (suc i) rest

unfoldable pub create_initial_state : GameState
unfolding create_empty_state ◌-ℤ◌
create_initial_state = record create_empty_state { pieces = initial_pieces 0 a_setup }

-- `compare`
unfoldable pub compare : Kind → Kind → Comparison
compare k l = if kind_eq k l then tie else if kind_eq (beats k) l then win else lose

pub record Counts : Type 0 where
  pub dam_count : ℕ
  pub la_count : ℕ
  pub keo_count : ℕ

add_count : Kind → Counts → Counts
add_count dam c = record c { dam_count = c.dam_count + 1 }
add_count la c = record c { la_count = c.la_count + 1 }
add_count keo c = record c { keo_count = c.keo_count + 1 }

count_from : Seat → Counts → List Piece → Counts
unfolding add_count
count_from player c [] = c
count_from player c (p ∷ ps) =
    count_from player (if seat_eq p.player player then add_count p.type c else c) ps

unfoldable pub count_by_type : GameState → Seat → Counts
unfolding count_from
count_by_type s player =
    count_from player (record { dam_count = 0; la_count = 0; keo_count = 0 }) s.pieces
