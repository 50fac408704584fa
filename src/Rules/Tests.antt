-- ===== src/Rules/Tests.antt =====
-- Runs of the rules on concrete boards, and each theorem about them at one.
use ottv.Prelude.{
  ℕ, ◌≡◌, ◌≢◌, refl, ◌⊎◌, true, none, some, [], ◌∷◌, pos, any, eq_ℤ, ◌+ℤ◌, ◌-ℤ◌, abs, text_eq,
  arith, ◌↔◌,
}
use ottv.Rules.Types.{
  Seat, seat_a, seat_b, dam, la, keo, Point, point, Piece, GameState, capture, move, Clock, is_ok,
  ok, throws,
}
use ottv.Rules.Board.{
  create_initial_state, whole, on_square, at, has_single_occupancy, pieces_at, inside_point, inside,
  compare, clone_state,
}
use ottv.Rules.Board.Occupancy.{IsBoard, Separate, has_single_occupancy_iff}
use ottv.Rules.Board.Start.{is_board, is_board-IsBoard}
use ottv.Rules.Moves.{
  all_moves, get_legal_moves, open_to, moves_from, moves_of_player, detect_winner,
}
use ottv.Rules.Apply.{
  apply_move, step_on, conclude, play, play_on, verdict, one_step, relocate, end_game, pass_turn,
}
use ottv.Rules.Apply.Accepted.{Applying, mover_at}
use ottv.Rules.Apply.Kept.{apply_move-IsBoard}
use ottv.Rules.Apply.Legal.{raw_point, apply_move-get_legal_moves}
use ottv.Rules.Apply.Listed.{is_move, apply_move-all_moves}
use ottv.Rules.Apply.Handover.{GoesOn, Over, apply_move-Outcome}
use ottv.Rules.Apply.Total.{apply_move-ne-throws}
use ottv.Rules.Apply.Captures.{Aimed, Toll, apply_move-Toll}
use ottv.Rules.Time.{elapse_clock, elapse_for, run_down}
use ottv.Rules.Time.Elapsed.{RanDown, elapse_clock-add, elapse_clock-RanDown}
use ottv.Rules.Play.{moves, here, next, IsGame, Reach-create_initial_state}

abbrev hammer : Piece
hammer = record { id = "a1"; player = seat_a; type = dam; x = pos 3; y = pos 3 }

abbrev scissors : Piece
scissors = record { id = "b1"; player = seat_b; type = keo; x = pos 4; y = pos 4 }

abbrev leaf : Piece
leaf = record { id = "b2"; player = seat_b; type = la; x = pos 7; y = pos 1 }

abbrev ten_minutes : Seat → Clock
ten_minutes s = record { remaining_a = 600000; remaining_b = 600000; running_seat = some s }

abbrev duel : GameState
duel = record {
  turn = seat_a;
  winner = none;
  reason = none;
  eliminated_player = none;
  clock = ten_minutes seat_a;
  pieces = hammer ∷ scissors ∷ leaf ∷ [];
}

abbrev duel_after : Applying
duel_after = (
  record duel {
    turn = seat_b;
    clock = ten_minutes seat_b;
    pieces = record hammer { x = pos 4; y = pos 4 } ∷ leaf ∷ [];
  },
  capture "a1" "b1" keo (point (pos 3) (pos 3)) (point (pos 4) (pos 4)) ∷ [],
)

duel-is_board : is_board duel ≡ true
unfolding is_board text_eq eq_ℤ
duel-is_board = refl

duel-IsBoard : IsBoard duel.pieces
duel-IsBoard = is_board-IsBoard duel duel-is_board

abbrev from_hammer : Point
from_hammer = point (pos 3) (pos 3)

abbrev to_scissors : Point
to_scissors = point (pos 4) (pos 4)

duel_capture :
    apply_move
      (some duel)
      (some seat_a)
      (some (raw_point from_hammer))
      (some (raw_point to_scissors))
    ≡ ok duel_after
unfolding apply_move step_on conclude play play_on verdict one_step relocate end_game pass_turn
    inside_point inside has_single_occupancy pieces_at at compare clone_state detect_winner
    all_moves get_legal_moves moves_from moves_of_player open_to text_eq eq_ℤ ◌+ℤ◌ ◌-ℤ◌ abs
duel_capture = refl

apply_move-IsBoard_example : IsBoard duel_after.0.pieces
apply_move-IsBoard_example =
    apply_move-IsBoard duel (some seat_a) (some (raw_point from_hammer))
      (some (raw_point to_scissors)) duel_after duel-IsBoard duel_capture

apply_move-Outcome_example :
    ((duel_after.0.winner ≡ none) × GoesOn duel duel_after)
    ⊎ ((w : Seat) × (duel_after.0.winner ≡ some w) × Over duel duel_after w)
apply_move-Outcome_example =
    apply_move-Outcome duel (some seat_a) (some (raw_point from_hammer))
      (some (raw_point to_scissors)) duel_after duel-IsBoard duel_capture

apply_move-Toll_example :
    (f t : Point) × Aimed (some (raw_point from_hammer)) f
    × Aimed (some (raw_point to_scissors)) t
    × Toll f t seat_a duel.pieces duel_after.0.pieces
apply_move-Toll_example =
    apply_move-Toll duel (some seat_a) (some (raw_point from_hammer)) (some (raw_point to_scissors))
      duel_after duel-IsBoard duel_capture

apply_move-ne-throws_example :
    apply_move (some duel) none none (some (raw_point to_scissors)) ≢ throws
apply_move-ne-throws_example =
    apply_move-ne-throws (some duel) none none (some (raw_point to_scissors))

hammer_found : mover_at duel seat_a from_hammer ≡ some hammer
unfolding at eq_ℤ
hammer_found = refl

apply_move-get_legal_moves_example :
    is_ok (
      apply_move
        (some duel)
        (some seat_a)
        (some (raw_point from_hammer))
        (some (raw_point to_scissors)))
    ≡ any (λ p. on_square p to_scissors) (get_legal_moves duel "a1")
apply_move-get_legal_moves_example =
    apply_move-get_legal_moves duel seat_a hammer duel-IsBoard hammer_found to_scissors refl refl

apply_move-all_moves_example :
    is_ok (
      apply_move
        (some duel)
        (some seat_a)
        (some (raw_point from_hammer))
        (some (raw_point to_scissors)))
    ≡ any (is_move from_hammer to_scissors) (all_moves duel seat_a)
apply_move-all_moves_example = apply_move-all_moves duel duel-IsBoard refl from_hammer to_scissors

has_single_occupancy_iff_example : (has_single_occupancy duel ≡ true) ↔ Separate duel.pieces
has_single_occupancy_iff_example = has_single_occupancy_iff duel

abbrev waited : ℕ → GameState
waited t = record duel { clock = record (ten_minutes seat_a) { remaining_a = t } }

second_passes : elapse_clock (some duel) (whole (pos 1000)) ≡ ok (waited 599000, [])
unfolding elapse_clock clone_state elapse_for run_down
second_passes = refl

another_passes : elapse_clock (some (waited 599000)) (whole (pos 500)) ≡ ok (waited 598500, [])
unfolding elapse_clock clone_state elapse_for run_down
another_passes = refl

elapse_clock-add_example : elapse_clock (some duel) (whole (pos 1500)) ≡ ok (waited 598500, [])
elapse_clock-add_example =
    elapse_clock-add duel 1000 500 (waited 599000, []) (waited 598500, []) second_passes
      another_passes

elapse_clock-RanDown_example : RanDown duel seat_a 1000 (waited 599000, [])
elapse_clock-RanDown_example =
    elapse_clock-RanDown duel seat_a 1000 (waited 599000, []) refl refl (omega arith) second_passes

opened : GameState
unfolding create_initial_state relocate text_eq
opened = record create_initial_state {
  turn = seat_b;
  clock = ten_minutes seat_b;
  pieces = relocate "A-keo-2" (point (pos 3) (pos 5)) create_initial_state.pieces;
}

opening :
    apply_move
      (some create_initial_state)
      (some seat_a)
      (some (raw_point (point (pos 4) (pos 6))))
      (some (raw_point (point (pos 3) (pos 5))))
    ≡ ok (opened, move "A-keo-2" (point (pos 4) (pos 6)) (point (pos 3) (pos 5)) ∷ [])
unfolding opened apply_move step_on conclude play play_on verdict one_step end_game pass_turn
    inside_point inside has_single_occupancy pieces_at at compare clone_state detect_winner
    all_moves get_legal_moves moves_from moves_of_player open_to text_eq eq_ℤ ◌+ℤ◌ ◌-ℤ◌ abs
opening = refl

Reach-create_initial_state_example : IsGame opened
Reach-create_initial_state_example = Reach-create_initial_state opened (
    next here (
      moves (some seat_a) (some (raw_point (point (pos 4) (pos 6))))
        (some (raw_point (point (pos 3) (pos 5))))
        (move "A-keo-2" (point (pos 4) (pos 6)) (point (pos 3) (pos 5)) ∷ []) opening))
