-- ===== src/Rules/Apply/Legal.antt =====
-- `applyMove` accepts exactly the moves that `getLegalMoves` offers.
use ottv.Prelude.{
  ◌≡◌, refl, Bool, true, false, ◌&&◌, ◌||◌, not, none, some, List, [], ◌∷◌, arith, find?, filter,
  any, length, leb, inl, inr, Bool-cases, find-holds, All-find,
}
use ottv.Rules.Types.{
  Seat, seat_eq, kind_eq, Kind, move, capture, Point, Piece, GameState, ok, Result, ◌>>=◌, ◌>>◌,
  require, is_ok, RuleError,
}
use ottv.Rules.Board.{inside, inside_point, whole, at, pieces_at, on_square, compare, win}
use ottv.Rules.Board.Occupancy.{
  IsBoard, has_single_occupancy_iff, length-pieces_at, find-by_id, clone_state_eq,
}
use ottv.Rules.Moves.{
  is_none, is_lose, first_blocks, stronger_enemy, has_id, deltas, open_to, get_legal_moves,
}
use ottv.Rules.Apply.{
  RawPoint, one_step, play_on, play, conclude, step_on, apply_move, relocate, other_id,
}
use ottv.Rules.Apply.Accepted.{Applying, mover_at}
use ottv.Rules.Apply.Played.{play-Effect, Effect-IsBoard}
use ottv.Rules.Apply.Concluded.{conclude-is_ok}
use ottv.Rules.Apply.Steps.{place, any-moves_from, any-deltas}

-- The squares as a client sends them.
abbrev pub raw_point : Point → RawPoint
raw_point p = record { raw_x = whole p.x; raw_y = whole p.y }

pub seat_eq-eq : (a b : Seat) → seat_eq a b ≡ true → a ≡ b
seat_eq-eq a b h = ground arith

seat_eq_refl : (a : Seat) → seat_eq a a ≡ true
seat_eq_refl a = ground arith

-- A piece that is no stronger and not of the same kind is captured.
compare-win : (k l : Kind) → kind_eq l k ≡ false → is_lose (compare k l) ≡ false → compare k l ≡ win
unfolding compare
compare-win k l d n = ground arith

play-is_ok :
    (s : GameState) (seat : Seat) (m : Piece) (occ : List Piece) (f t : Point)
    → find? (has_id m.id) s.pieces ≡ some m
    → m.player ≡ seat
    → any (λ p. seat_eq p.player seat) occ ≡ false
    → any (λ p. kind_eq p.type m.type) occ ≡ false
    → any (stronger_enemy m) occ ≡ false
    → (played : Applying) × (play s m occ f t ≡ ok played)
unfolding play play_on
play-is_ok s seat m [] f t found own a b c = (
  (record s { pieces = relocate m.id t s.pieces }, move m.id f t ∷ []),
  rw (clone_state_eq, found),
)
play-is_ok s seat m (e ∷ r) f t found own a b c = (
  (
    record s { pieces = relocate m.id t (filter (other_id e.id) s.pieces) },
    capture m.id e.id e.type f t ∷ [],
  ),
  rw (clone_state_eq, found)
      (rw (compare-win m.type e.type (ground arith) (ground arith), play_on)),
)

-- The tests of the two functions on the pieces of a square agree where there is at most one.
first_blocks-any :
    (m : Piece) (seat : Seat) (occ : List Piece)
    → m.player ≡ seat
    → leb (length occ) 1 ≡ true
    → first_blocks m occ
      ≡ (any (λ p. seat_eq p.player seat) occ || any (λ p. kind_eq p.type m.type) occ)
first_blocks-any m seat [] own few = refl
first_blocks-any m seat (p ∷ []) own few = rw own (ground arith)
first_blocks-any m seat (p ∷ q ∷ r) own few = absurd (ground arith)

-- A chain of three guards succeeds exactly when all hold.
guards-is_ok {ℓ} :
    {B : Type ℓ} (x y z : Bool) (e f g : RuleError) (k : Result B)
    → (x ≡ false → y ≡ false → z ≡ false → is_ok k ≡ true)
    → is_ok (require (not x) e >> (require (not y) f >> (require (not z) g >> k)))
      ≡ (not (x || y) && not z)
guards-is_ok false false false e f g k h = h refl refl refl
guards-is_ok false false true e f g k h = refl
guards-is_ok false true z e f g k h = refl
guards-is_ok true y z e f g k h = refl

module _ (s : GameState) (seat : Seat) (m : Piece) (v : IsBoard s.pieces)
    (found : mover_at s seat (place m) ≡ some m) where
  m-own : m.player ≡ seat
  m-own = seat_eq-eq _ _ (ground (arith, find-holds _ s.pieces found))

  played-is_ok :
      (t : Point)
      → inside t.x t.y ≡ true
      → any (λ p. seat_eq p.player seat) (pieces_at s t.x t.y) ≡ false
      → any (λ p. kind_eq p.type m.type) (pieces_at s t.x t.y) ≡ false
      → any (stronger_enemy m) (pieces_at s t.x t.y) ≡ false
      → is_ok (play s m (pieces_at s t.x t.y) (place m) t >>= conclude seat) ≡ true
  unfolding pieces_at
  played-is_ok t i a b c =
      let few = length-pieces_at t.x t.y s.pieces v.separate in
      let (played, e) =
        play-is_ok s seat m (pieces_at s t.x t.y) (place m) t
          (find-by_id _ s.pieces m v.unique_ids found) m-own a b c in
      let board =
        Effect-IsBoard s m (place m) t played v i
          (play-Effect s seat m (place m) t v.unique_ids found few e) in
      let (r, d) =
        conclude-is_ok seat played.0 played.1
          ((has_single_occupancy_iff played.0).1 board.separate) in
      rw (e, d)

  step_on-is_ok :
      (t : Point)
      → inside t.x t.y ≡ true
      → is_ok (step_on s seat (place m) t) ≡ (one_step (place m) t && open_to s m t.x t.y)
  unfolding step_on open_to
  step_on-is_ok t i = elim (Bool-cases (one_step (place m) t)) [
    | inl near ↦
        let few = length-pieces_at t.x t.y s.pieces v.separate in
        let agree = first_blocks-any m seat (filter (at t.x t.y) s.pieces) m-own few in
        rw (near, found, i)
          (unfold pieces_at in
            rw (few, agree)
              (guards-is_ok (any (λ p. seat_eq p.player seat) (pieces_at s t.x t.y)) _ _ _ _ _ _
                (played-is_ok t i)))
    | inr off ↦ rw off
  ]

  -- Of the moves of a piece on a board, with the game open and its seat on turn, `applyMove`
  -- accepts exactly those that `getLegalMoves` offers.
  pub apply_move-get_legal_moves :
      (t : Point)
      → s.winner ≡ none
      → s.turn ≡ seat
      → is_ok (apply_move (some s) (some seat) (some (raw_point (place m))) (some (raw_point t)))
        ≡ any (λ p. on_square p t) (get_legal_moves s m.id)
  unfolding apply_move get_legal_moves inside_point
  apply_move-get_legal_moves t running turn =
      let single = (has_single_occupancy_iff s).1 v.separate in
      let m_inside = All-find _ _ s.pieces v.on_board found in
      let open_game : is_none s.winner ≡ true = rw running in
      let on_turn : seat_eq s.turn seat ≡ true = rw turn (seat_eq_refl seat) in
      rw
        (
          open_game,
          single,
          on_turn,
          m_inside,
          find-by_id _ s.pieces m v.unique_ids found,
          any-moves_from s m t deltas,
          any-deltas m t,
        )
        (elim (Bool-cases (inside t.x t.y)) [
          | inl i ↦ rw i (step_on-is_ok t i)
          | inr out ↦ rw out (unfold open_to in rw out (ground arith))
        ])
