-- ===== src/Ai/Moves/Counted.antt =====
-- The number of moves is that of the list.
use ottv.Prelude.{
  ℕ, suc, ◌+◌, ◌≡◌, refl, ap, ◌∙◌, Option, none, some, List, [], ◌∷◌, ◌++◌, pos, pos_part, ◌+ℤ◌,
  length, length-append, length-sort_by, sort_by, arith, inl, inr, Bool-cases,
}
use ottv.Rules.Types.{Seat, Point}
use ottv.Rules.Moves.{deltas}
use ottv.Ai.{SearchPiece, Position}
use ottv.Ai.Moves.{
  ◌>>=◌, ScoredMove, Target, closed, free, taken, on_board, target_at, move_to, total_of,
  piece_moves, piece_total, plays, moves_from_index, total_from, best_first, generate_moves,
  count_moves,
}

-- The number of the moves in a list that may not be there.
abbrev pub number_of_moves : Option (List ScoredMove) → Option ℕ
number_of_moves none = none
number_of_moves (some ms) = some (length ms)

length-move_to :
    (index : ℕ) (p : SearchPiece) (x y : ℕ) (t : Target)
    → length (move_to index p x y t) ≡ total_of t
length-move_to index p x y closed = refl
length-move_to index p x y free = refl
length-move_to index p x y taken = refl

module _ (to : Target → List ScoredMove) (same : (t : Target) → length (to t) ≡ total_of t) where
  step-number :
      (t : Option Target) (later : Option (List ScoredMove))
      → number_of_moves (t >>= λ u. later >>= λ ms. some (to u ++ ms))
        ≡ (t >>= λ u. number_of_moves later >>= λ m. some (total_of u + m))
  step-number none later = refl
  step-number (some u) none = refl
  step-number (some u) (some ms) =
      let e : length (to u ++ ms) ≡ total_of u + length ms =
        omega (arith, length-append (to u) ms, same u) in
      ap (λ (n : ℕ). some n) e

joined-number :
    (own later : Option (List ScoredMove))
    → number_of_moves (own >>= λ ms. later >>= λ ns. some (ms ++ ns))
      ≡ (number_of_moves own >>= λ m. number_of_moves later >>= λ n. some (m + n))
joined-number none later = refl
joined-number (some ms) none = refl
joined-number (some ms) (some ns) = ap (λ (n : ℕ). some n) (length-append ms ns)

piece_moves-total :
    (s : Position) (index : ℕ) (p : SearchPiece) (ds : List Point)
    → number_of_moves (piece_moves s index p ds) ≡ piece_total s p ds
unfolding piece_moves piece_total
piece_moves-total s index p [] = refl
piece_moves-total s index p (d ∷ ds) =
    let t = target_at s p (on_board (pos p.x +ℤ d.x)) (on_board (pos p.y +ℤ d.y)) in
    let to = move_to index p (pos_part (pos p.x +ℤ d.x)) (pos_part (pos p.y +ℤ d.y)) in
    step-number to (length-move_to index p _ _) t (piece_moves s index p ds)
    ∙ ap (λ (n : Option ℕ). t >>= λ u. n >>= λ m. some (total_of u + m))
        (piece_moves-total s index p ds)

moves_from_index-total :
    (s : Position) (side : Seat) (index : ℕ) (ps : List SearchPiece)
    → number_of_moves (moves_from_index s side index ps) ≡ total_from s side ps
unfolding moves_from_index total_from
moves_from_index-total s side index [] = refl
moves_from_index-total s side index (p ∷ ps) =
    let later = moves_from_index-total s side (suc index) ps in
    elim (Bool-cases (plays side p)) [
      | inl e ↦ rw e (
          joined-number (piece_moves s index p deltas) (moves_from_index s side (suc index) ps)
          ∙ ap
              (λ (n : Option ℕ). n >>= λ m.
                number_of_moves (moves_from_index s side (suc index) ps) >>= λ k. some (m + k))
              (piece_moves-total s index p deltas)
          ∙ ap (λ (n : Option ℕ). piece_total s p deltas >>= λ m. n >>= λ k. some (m + k)) later)
      | inr e ↦ rw e later
    ]

sorted-number :
    (moves : Option (List ScoredMove))
    → number_of_moves (moves >>= λ ms. some (sort_by best_first ms)) ≡ number_of_moves moves
sorted-number none = refl
sorted-number (some ms) = ap (λ (n : ℕ). some n) (length-sort_by best_first ms)

-- On every position countMoves gives the number of the moves that generateMoves lists, and fails just
-- where that fails.
pub generate_moves-count_moves :
    (s : Position) (side : Seat) → number_of_moves (generate_moves s side) ≡ count_moves s side
unfolding generate_moves count_moves
generate_moves-count_moves s side =
    sorted-number (moves_from_index s side 0 s.pieces) ∙ moves_from_index-total s side 0 s.pieces
