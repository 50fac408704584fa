-- ===== src/Ai/Undo.antt =====
-- Taking a move of the search back.
use mathlib.Core.Path.{subst}
use ottv.Prelude.{
  ℕ, zero, suc, ◌+◌, ◌-◌, ◌≤◌, ◌≡◌, ◌≢◌, refl, sym, ap, ◌∙◌, Bool, true, false, Option, some, List,
  [], ◌∷◌, arith, inl, inr, ◌⊎◌,
}
use ottv.Rules.Types.{Seat, seat_a, seat_b, other}
use ottv.Ai.{
  SearchPiece, Position, SearchMove, Undoing, slot_at, put_slot, piece_at, put_piece, cell,
  count_of, set_count, take_victim, give_victim, stepped, undoing, make_move, unmake_move,
}

put_slot-back : (b : List ℕ) (t : ℕ) (k : ℕ) → put_slot (put_slot b t k) t (slot_at b t) ≡ b
put_slot-back [] t k = refl
put_slot-back (x ∷ b) zero k = refl
put_slot-back (x ∷ b) (suc t) k = ap (λ (c : List ℕ). x ∷ c) (put_slot-back b t k)

-- Two cells that are written and written back.
put_slot-back_two :
    (b : List ℕ) (f t k : ℕ)
    → f ≢ t
    → put_slot (put_slot (put_slot (put_slot b f 0) t k) f (slot_at b f)) t (slot_at b t) ≡ b
put_slot-back_two [] f t k h = refl
put_slot-back_two (x ∷ b) zero zero k h = absurd (h refl)
put_slot-back_two (x ∷ b) zero (suc t) k h = ap (λ (c : List ℕ). x ∷ c) (put_slot-back b t k)
put_slot-back_two (x ∷ b) (suc f) zero k h = ap (λ (c : List ℕ). x ∷ c) (put_slot-back b f 0)
put_slot-back_two (x ∷ b) (suc f) (suc t) k h =
    ap (λ (c : List ℕ). x ∷ c) (put_slot-back_two b f t k (λ e. h (ap suc e)))

piece_at-put_piece :
    (ps : List SearchPiece) (i : ℕ) (p q : SearchPiece)
    → piece_at ps i ≡ some p
    → piece_at (put_piece ps i q) i ≡ some q
piece_at-put_piece [] i p q h = absurd (cc)
piece_at-put_piece (x ∷ ps) zero p q h = refl
piece_at-put_piece (x ∷ ps) (suc i) p q h = piece_at-put_piece ps i p q h

piece_at-put_other :
    (ps : List SearchPiece) (i v : ℕ) (q : SearchPiece)
    → i ≢ v
    → piece_at (put_piece ps i q) v ≡ piece_at ps v
piece_at-put_other [] i v q h = refl
piece_at-put_other (x ∷ ps) zero zero q h = absurd (h refl)
piece_at-put_other (x ∷ ps) zero (suc v) q h = refl
piece_at-put_other (x ∷ ps) (suc i) zero q h = refl
piece_at-put_other (x ∷ ps) (suc i) (suc v) q h = piece_at-put_other ps i v q (λ e. h (ap suc e))

put_piece-back :
    (ps : List SearchPiece) (i : ℕ) (p q : SearchPiece)
    → piece_at ps i ≡ some p
    → put_piece (put_piece ps i q) i p ≡ ps
put_piece-back [] i p q h = refl
put_piece-back (x ∷ ps) zero p q h = ap (λ (y : SearchPiece). y ∷ ps) (sym (some_inj h))
  where
    some_inj : some x ≡ some p → x ≡ p
    some_inj e = cc
put_piece-back (x ∷ ps) (suc i) p q h =
    ap (λ (qs : List SearchPiece). x ∷ qs) (put_piece-back ps i p q h)

put_piece_comm :
    (ps : List SearchPiece) (i v : ℕ) (p q : SearchPiece)
    → i ≢ v
    → put_piece (put_piece ps i p) v q ≡ put_piece (put_piece ps v q) i p
put_piece_comm [] i v p q h = refl
put_piece_comm (x ∷ ps) zero zero p q h = absurd (h refl)
put_piece_comm (x ∷ ps) zero (suc v) p q h = refl
put_piece_comm (x ∷ ps) (suc i) zero p q h = refl
put_piece_comm (x ∷ ps) (suc i) (suc v) p q h =
    ap (λ (qs : List SearchPiece). x ∷ qs) (put_piece_comm ps i v p q (λ e. h (ap suc e)))

-- A move that the position can make: the piece stands on its own cell, the target is another one,
-- and a piece there is another living piece of the other side, which has been counted.
pub record Fits (s : Position) (side : Seat) (m : SearchMove) (p : SearchPiece) : Type 0 where
  pub found : piece_at s.pieces m.index ≡ some p
  pub stands : slot_at s.board (cell p.x p.y) ≡ suc m.index
  pub goes : cell p.x p.y ≢ cell m.x m.y
  pub victim :
      (v : ℕ)
      → slot_at s.board (cell m.x m.y) ≡ suc v
      → (q : SearchPiece) × (piece_at s.pieces v ≡ some q)
        × (q.alive ≡ true)
        × (m.index ≢ v)
        × (1 ≤ count_of s (other side))

-- The board after a move and its way back.
board-back :
    (s : Position) (side : Seat) (m : SearchMove) (p : SearchPiece)
    → Fits s side m p
    → put_slot
        (put_slot (stepped s p m).board (cell p.x p.y) (suc m.index))
        (cell m.x m.y)
        (slot_at s.board (cell m.x m.y))
      ≡ s.board
board-back s side m p f =
    ap
      (λ (k : ℕ).
        put_slot (put_slot (stepped s p m).board (cell p.x p.y) k) (cell m.x m.y)
          (slot_at s.board (cell m.x m.y)))
      (sym f.stands)
    ∙ put_slot-back_two s.board (cell p.x p.y) (cell m.x m.y) (suc m.index) f.goes

position-same :
    (s : Position) (ps : List SearchPiece) (b : List ℕ)
    → ps ≡ s.pieces
    → b ≡ s.board
    → record s { pieces = ps; board = b } ≡ s
position-same s ps b e f =
    ap (λ (qs : List SearchPiece). record s { pieces = qs; board = b }) e
    ∙ ap (λ (c : List ℕ). record s { board = c }) f

abbrev pub moved : SearchPiece → SearchMove → SearchPiece
moved p m = record p { x = m.x; y = m.y }

quiet-back :
    (s : Position) (side : Seat) (m : SearchMove) (p : SearchPiece)
    → Fits s side m p
    → slot_at s.board (cell m.x m.y) ≡ zero
    → unmake_move (stepped s p m) side (undoing s p m) ≡ some s
unfolding unmake_move give_victim
quiet-back s side m p f e =
    rw (piece_at-put_piece s.pieces m.index p (moved p m) f.found, unmake_move)
      (rw e (
        ap some (
          position-same s _ _ (put_piece-back s.pieces m.index p (moved p m) f.found) (
            subst
              (λ (k : ℕ).
                put_slot (put_slot (stepped s p m).board (cell p.x p.y) (suc m.index))
                  (cell m.x m.y) k
                ≡ s.board)
              e (board-back s side m p f)))))

-- A position in which the victim `v`, the piece `q`, has been taken.
abbrev robbed : Position → Seat → ℕ → SearchPiece → Position
robbed t side v q =
    set_count (record t { pieces = put_piece t.pieces v (record q { alive = false }) }) (other side)
      (count_of t (other side) - 1)

capture-pieces :
    (ps : List SearchPiece) (i v : ℕ) (p p' q : SearchPiece)
    → i ≢ v
    → piece_at ps i ≡ some p
    → piece_at ps v ≡ some q
    → q.alive ≡ true
    → put_piece
        (put_piece (put_piece (put_piece ps i p') v (record q { alive = false })) i p)
        v
        (record q { alive = true })
      ≡ ps
capture-pieces ps i v p p' q apart here there living =
    let dead : SearchPiece = record q { alive = false } in
    ap (λ (xs : List SearchPiece). put_piece xs v (record q { alive = true }))
      (sym (put_piece_comm (put_piece ps i p') i v p dead apart)
        ∙ ap (λ (xs : List SearchPiece). put_piece xs v dead) (put_piece-back ps i p p' here))
    ∙ ap (λ (b : Bool). put_piece (put_piece ps v dead) v (record q { alive = b })) (sym living)
    ∙ put_piece-back ps v q dead there

-- The pieces `i` and `v` in the list after a capture, and after the mover has gone back.
after_capture :
    (ps : List SearchPiece) (i v : ℕ) (p p' q d : SearchPiece)
    → i ≢ v
    → piece_at ps i ≡ some p
    → piece_at ps v ≡ some q
    → (piece_at (put_piece (put_piece ps i p') v d) i ≡ some p')
      × (piece_at (put_piece (put_piece (put_piece ps i p') v d) i p) v ≡ some d)
after_capture ps i v p p' q d apart here there = (
  piece_at-put_other (put_piece ps i p') v i d (λ e. apart (sym e))
      ∙ piece_at-put_piece ps i p p' here,
  piece_at-put_other (put_piece (put_piece ps i p') v d) i v p apart
      ∙ piece_at-put_piece (put_piece ps i p') v q d (piece_at-put_other ps i v p' apart ∙ there),
)

board-back_at :
    (s : Position) (side : Seat) (m : SearchMove) (p : SearchPiece) (k : ℕ)
    → Fits s side m p
    → slot_at s.board (cell m.x m.y) ≡ k
    → put_slot (put_slot (stepped s p m).board (cell p.x p.y) (suc m.index)) (cell m.x m.y) k
      ≡ s.board
board-back_at s side m p k f e =
    subst
      (λ (j : ℕ).
        put_slot (put_slot (stepped s p m).board (cell p.x p.y) (suc m.index)) (cell m.x m.y) j
        ≡ s.board)
      e (board-back s side m p f)

recounted_a :
    (s : Position) (ps : List SearchPiece) (b : List ℕ) (n : ℕ)
    → ps ≡ s.pieces
    → b ≡ s.board
    → n ≡ s.count_a
    → record s { pieces = ps; board = b; count_a = n } ≡ s
recounted_a s ps b n e f g =
    ap (λ (k : ℕ). record s { pieces = ps; board = b; count_a = k }) g ∙ position-same s ps b e f

recounted_b :
    (s : Position) (ps : List SearchPiece) (b : List ℕ) (n : ℕ)
    → ps ≡ s.pieces
    → b ≡ s.board
    → n ≡ s.count_b
    → record s { pieces = ps; board = b; count_b = n } ≡ s
recounted_b s ps b n e f g =
    ap (λ (k : ℕ). record s { pieces = ps; board = b; count_b = k }) g ∙ position-same s ps b e f

capture-back :
    (s : Position) (side : Seat) (m : SearchMove) (p : SearchPiece) (v : ℕ) (q : SearchPiece)
    → Fits s side m p
    → slot_at s.board (cell m.x m.y) ≡ suc v
    → piece_at s.pieces v ≡ some q
    → q.alive ≡ true
    → m.index ≢ v
    → 1 ≤ count_of s (other side)
    → unmake_move (robbed (stepped s p m) side v q) side (undoing s p m) ≡ some s
unfolding unmake_move give_victim
capture-back s seat_a m p v q f e there living apart counted =
    let dead : SearchPiece = record q { alive = false } in
    let (mine, yours) = after_capture s.pieces m.index v p (moved p m) q dead apart f.found there in
    let n : s.count_b - 1 + 1 ≡ s.count_b = omega arith in
    rw (mine, unmake_move)
      (rw e (
        rw (yours, give_victim)
          (ap some (
            recounted_b s _ _ _
              (capture-pieces s.pieces m.index v p (moved p m) q apart f.found there living)
              (board-back_at s seat_a m p (suc v) f e) n))))
capture-back s seat_b m p v q f e there living apart counted =
    let dead : SearchPiece = record q { alive = false } in
    let (mine, yours) = after_capture s.pieces m.index v p (moved p m) q dead apart f.found there in
    let n : s.count_a - 1 + 1 ≡ s.count_a = omega arith in
    rw (mine, unmake_move)
      (rw e (
        rw (yours, give_victim)
          (ap some (
            recounted_a s _ _ _
              (capture-pieces s.pieces m.index v p (moved p m) q apart f.found there living)
              (board-back_at s seat_b m p (suc v) f e) n))))

slot-cases : (k : ℕ) → (k ≡ zero) ⊎ ((v : ℕ) × (k ≡ suc v))
slot-cases zero = inl refl
slot-cases (suc v) = inr (v, refl)

-- The search makes a move that fits a position, a step to a free cell or a capture, and taking it
-- back gives the position itself: the pieces, the board and the counts.
pub unmake_move-make_move :
    (s : Position) (side : Seat) (m : SearchMove) (p : SearchPiece)
    → Fits s side m p
    → (q : Position) × (u : Undoing) × (make_move s side m ≡ some (q, u))
      × (unmake_move q side u ≡ some s)
unfolding make_move take_victim
unmake_move-make_move s side m p f = elim (slot-cases (slot_at s.board (cell m.x m.y))) [
  | inl e ↦ (
    stepped s p m,
    undoing s p m,
    rw (f.found, make_move) (rw e (ap (told (stepped s p m)) e)),
    quiet-back s side m p f e,
  )
  | inr (v, e) ↦
      let (q, there, living, apart, counted) = f.victim v e in
      let there' : piece_at (stepped s p m).pieces v ≡ some q =
        piece_at-put_other s.pieces m.index v (moved p m) apart ∙ there in
      (
        robbed (stepped s p m) side v q,
        undoing s p m,
        rw (f.found, make_move)
            (rw e (rw (there', take_victim) (ap (told (robbed (stepped s p m) side v q)) e))),
        capture-back s side m p v q f e there living apart counted,
      )
]
  where
    told : Position → ℕ → Option (Position × Undoing)
    told t k = some (t, record (undoing s p m) { victim_slot = k })
