-- ===== src/Ai/Tests.antt =====
-- A capture of the search, made and taken back.
use ottv.Prelude.{ℕ, zero, suc, ◌≤◌, ◌≡◌, ◌≢◌, refl, true, some, List, [], ◌∷◌, arith}
use ottv.Rules.Types.{seat_a, seat_b, dam, keo, other}
use ottv.Ai.{
  SearchPiece, Position, SearchMove, Undoing, slot_at, put_slot, piece_at, cell, count_of,
  make_move, unmake_move,
}
use ottv.Ai.Moves.{generate_moves, count_moves}
use ottv.Ai.Moves.Counted.{number_of_moves, generate_moves-count_moves}
use ottv.Ai.Undo.{Fits, unmake_move-make_move}

abbrev zeros : ℕ → List ℕ
zeros zero = []
zeros (suc n) = 0 ∷ zeros n

abbrev hammer : SearchPiece
hammer = record { id = "a1"; side = seat_a; type = dam; x = 3; y = 3; alive = true }

abbrev scissors : SearchPiece
scissors = record { id = "b1"; side = seat_b; type = keo; x = 4; y = 4; alive = true }

abbrev facing : Position
facing = record {
  pieces = hammer ∷ scissors ∷ [];
  board = put_slot (put_slot (zeros 81) 30 1) 40 2;
  count_a = 1;
  count_b = 1;
}

abbrev capture_move : SearchMove
capture_move = record { index = 0; x = 4; y = 4 }

facing_victim :
    (v : ℕ)
    → slot_at facing.board (cell 4 4) ≡ suc v
    → (q : SearchPiece) × (piece_at facing.pieces v ≡ some q)
      × (q.alive ≡ true)
      × (0 ≢ v)
      × (1 ≤ count_of facing (other seat_a))
facing_victim zero e = absurd (omega arith)
facing_victim (suc zero) e = (scissors, refl, refl, λ h. absurd (omega arith), omega arith)
facing_victim (suc (suc v)) e = absurd (omega arith)

facing-Fits : Fits facing seat_a capture_move hammer
facing-Fits = record {
  found = refl;
  stands = refl;
  goes = λ h. absurd (omega arith);
  victim = facing_victim;
}

unmake_move-make_move_example :
    (q : Position) × (u : Undoing) × (make_move facing seat_a capture_move ≡ some (q, u))
    × (unmake_move q seat_a u ≡ some facing)
unmake_move-make_move_example = unmake_move-make_move facing seat_a capture_move hammer facing-Fits

generate_moves-count_moves_example :
    number_of_moves (generate_moves facing seat_b) ≡ count_moves facing seat_b
generate_moves-count_moves_example = generate_moves-count_moves facing seat_b
