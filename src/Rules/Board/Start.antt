-- ===== src/Rules/Board/Start.antt =====
-- The initial state is a board: a test for boards, and its run on the pieces of
-- `createInitialState`.
use ottv.Prelude.{◌≡◌, refl, Bool, true, false, ◌&&◌, not, List, [], ◌∷◌, arith, All, text_eq, eq_ℤ}
use ottv.Rules.Types.{Piece, GameState}
use ottv.Rules.Board.{has_single_occupancy, inside, create_initial_state}
use ottv.Rules.Board.Occupancy.{UniqueIds, IsBoard, has_single_occupancy_iff}

all_hold : (Piece → Bool) → List Piece → Bool
all_hold f [] = true
all_hold f (p ∷ ps) = f p && all_hold f ps

all_hold-All :
    (f : Piece → Bool) (ps : List Piece) → all_hold f ps ≡ true → All (λ p. f p ≡ true) ps
unfolding all_hold
all_hold-All f [] h = tt
all_hold-All f (p ∷ ps) h = (ground arith, all_hold-All f ps (ground arith))

no_twin : Piece → List Piece → Bool
no_twin p [] = true
no_twin p (q ∷ qs) = not (text_eq p.id q.id) && no_twin p qs

no_twin-All :
    (p : Piece) (qs : List Piece) → no_twin p qs ≡ true → All (λ q. text_eq p.id q.id ≡ false) qs
unfolding no_twin
no_twin-All p [] h = tt
no_twin-All p (q ∷ qs) h = (ground arith, no_twin-All p qs (ground arith))

unique_ids : List Piece → Bool
unique_ids [] = true
unique_ids (p ∷ ps) = no_twin p ps && unique_ids ps

unique_ids-UniqueIds : (ps : List Piece) → unique_ids ps ≡ true → UniqueIds ps
unfolding unique_ids
unique_ids-UniqueIds [] h = tt
unique_ids-UniqueIds (p ∷ ps) h =
    (no_twin-All p ps (ground arith), unique_ids-UniqueIds ps (ground arith))

unfoldable pub is_board : GameState → Bool
unfolding all_hold no_twin unique_ids has_single_occupancy inside
is_board s =
    has_single_occupancy s && unique_ids s.pieces && all_hold (λ p. inside p.x p.y) s.pieces

pub is_board-IsBoard : (s : GameState) → is_board s ≡ true → IsBoard s.pieces
unfolding is_board
is_board-IsBoard s h = record {
  separate = (has_single_occupancy_iff s).0 (ground arith);
  unique_ids = unique_ids-UniqueIds s.pieces (ground arith);
  on_board = all_hold-All _ s.pieces (ground arith);
}

pub create_initial_state-IsBoard : IsBoard create_initial_state.pieces
create_initial_state-IsBoard =
    is_board-IsBoard create_initial_state
      (unfold is_board create_initial_state text_eq eq_ℤ in refl)
