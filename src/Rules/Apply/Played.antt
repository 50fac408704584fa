-- ===== src/Rules/Apply/Played.antt =====
-- What an accepted step does to the board, and how it leaves the game.
use Prim.Native.String.{String}
use mathlib.Core.Bool.{false≢true}
use ottv.Prelude.{
  ◌≡◌, refl, eq_ℤ_comm, sym, ap, ◌∙◌, true, false, some, List, [], ◌∷◌, ℤ, arith, All, filter,
  length, leb, inl, inr, ◌⊎◌, Bool-cases, text_eq, text_eq_iff, filter-one, filter-nil,
}
use ottv.Rules.Types.{Seat, Point, Piece, GameState, move, capture, ok}
use ottv.Rules.Board.{at, pieces_at, inside, compare, Comparison, tie, win, lose}
use ottv.Rules.Board.Occupancy.{
  Vacant, Separate, UniqueIds, IsBoard, IsBoard-filter, find-by_id, clone_state_eq,
}
use ottv.Rules.Apply.{relocate, other_id, play_on, play}
use ottv.Rules.Apply.Accepted.{Applying, mover_at}

-- The pieces after a step to an empty square, and after a capture.
abbrev Moved : GameState → Piece → Point → Point → Applying → Type 0
Moved s mover f t played =
    played ≡ (record s { pieces = relocate mover.id t s.pieces }, move mover.id f t ∷ [])

abbrev Captured : GameState → Piece → Piece → Point → Point → Applying → Type 0
Captured s mover enemy f t played = played ≡ (
  record s { pieces = relocate mover.id t (filter (other_id enemy.id) s.pieces) },
  capture mover.id enemy.id enemy.type f t ∷ [],
)

Comparison-cases : (c : Comparison) → (c ≡ tie) ⊎ (c ≡ win) ⊎ (c ≡ lose)
Comparison-cases c = ground arith

pub data Effect (s : GameState) (mover : Piece) (f t : Point) (played : Applying) : Type 0 where
  to_empty : pieces_at s t.x t.y ≡ [] → Moved s mover f t played → Effect s mover f t played
  to_enemy :
      (enemy : Piece)
      → pieces_at s t.x t.y ≡ enemy ∷ []
      → compare mover.type enemy.type ≡ win
      → Captured s mover enemy f t played
      → Effect s mover f t played

play_on-Effect :
    (s : GameState) (mover : Piece) (f t : Point) (occ : List Piece) {played : Applying}
    → pieces_at s t.x t.y ≡ occ
    → leb (length occ) 1 ≡ true
    → play_on s mover occ f t ≡ ok played
    → Effect s mover f t played
unfolding play_on
play_on-Effect s mover f t [] e few h = to_empty e (cc)
play_on-Effect s mover f t (x ∷ y ∷ r) e few h = absurd (ground arith)
play_on-Effect s mover f t (x ∷ []) e few h = elim (Comparison-cases (compare mover.type x.type)) [
  | inl c ↦ absurd (cc (rw (c, play_on) at h))
  | inr (inl c) ↦ to_enemy x e c (cc (rw (c, play_on) at h))
  | inr (inr c) ↦ absurd (cc (rw (c, play_on) at h))
]

-- With distinct ids the piece that moves is the one that stood on the square.
pub play-Effect :
    (s : GameState) (seat : Seat) (mover : Piece) (f t : Point) {played : Applying}
    → UniqueIds s.pieces
    → mover_at s seat f ≡ some mover
    → leb (length (pieces_at s t.x t.y)) 1 ≡ true
    → play s mover (pieces_at s t.x t.y) f t ≡ ok played
    → Effect s mover f t played
unfolding play
play-Effect s seat mover f t u found few h =
    play_on-Effect s mover f t _ refl few
      (rw (clone_state_eq, find-by_id _ s.pieces mover u found) at h)

pub relocate-All {ℓ} :
    (P : Piece → Type ℓ) (id : String) (t : Point) (ps : List Piece)
    → ((p : Piece) → P p → P (record p { x = t.x; y = t.y }))
    → All P ps
    → All P (relocate id t ps)
unfolding relocate
relocate-All P id t [] k a = tt
relocate-All P id t (p ∷ ps) k (h, a) = elim (Bool-cases (text_eq p.id id)) [
  | inl e ↦ rw e (k p h, a)
  | inr e ↦ rw e (h, relocate-All P id t ps k a)
]

relocate-UniqueIds :
    (id : String) (t : Point) (ps : List Piece) → UniqueIds ps → UniqueIds (relocate id t ps)
unfolding relocate
relocate-UniqueIds id t [] u = tt
relocate-UniqueIds id t (p ∷ ps) (v, u) = elim (Bool-cases (text_eq p.id id)) [
  | inl e ↦ rw e (v, u)
  | inr e ↦ rw e (relocate-All _ id t ps (λ q h. h) v, relocate-UniqueIds id t ps u)
]

-- A piece that moves to a vacant square stands on it alone.
relocate-Vacant :
    (id : String) (t : Point) (p : Piece) (ps : List Piece)
    → at t.x t.y p ≡ false
    → Vacant p.x p.y ps
    → Vacant p.x p.y (relocate id t ps)
unfolding at
relocate-Vacant id t p ps off v =
    relocate-All _ id t ps (λ q h. ground (arith, eq_ℤ_comm t.x p.x, eq_ℤ_comm t.y p.y)) v

relocate-Separate :
    (id : String) (t : Point) (ps : List Piece)
    → Vacant t.x t.y ps
    → Separate ps
    → Separate (relocate id t ps)
unfolding relocate
relocate-Separate id t [] e s = tt
relocate-Separate id t (p ∷ ps) (off, e) (v, s) = elim (Bool-cases (text_eq p.id id)) [
  | inl same ↦ rw same (e, s)
  | inr differs ↦ rw differs (relocate-Vacant id t p ps off v, relocate-Separate id t ps e s)
]

relocate-IsBoard :
    (id : String) (t : Point) (ps : List Piece)
    → inside t.x t.y ≡ true
    → Vacant t.x t.y ps
    → IsBoard ps
    → IsBoard (relocate id t ps)
relocate-IsBoard id t ps i e v = record {
  separate = relocate-Separate id t ps e v.separate;
  unique_ids = relocate-UniqueIds id t ps v.unique_ids;
  on_board = relocate-All _ id t ps (λ p h. i) v.on_board;
}

elsewhere :
    (x y : ℤ) (q enemy : Piece)
    → (at x y q ≡ true → q ≡ enemy)
    → text_eq q.id enemy.id ≡ false
    → at x y q ≡ false
elsewhere x y q enemy h differs = elim (Bool-cases (at x y q)) [
  | inl here ↦
      let same : q.id ≡ enemy.id = ap (λ (p : Piece). p.id) (h here) in
      absurd (false≢true (sym differs ∙ (text_eq_iff q.id enemy.id).1 same))
  | inr off ↦ off
]

-- Where one enemy stands, its capture leaves the square vacant.
captured-Vacant :
    (x y : ℤ) (ps : List Piece) (enemy : Piece)
    → filter (at x y) ps ≡ enemy ∷ []
    → Vacant x y (filter (other_id enemy.id) ps)
captured-Vacant x y ps enemy one = only ps (filter-one (at x y) ps one)
  where
    only :
        (qs : List Piece)
        → All (λ q. at x y q ≡ true → q ≡ enemy) qs
        → Vacant x y (filter (other_id enemy.id) qs)
    only [] h = tt
    only (q ∷ qs) (h, r) = elim (Bool-cases (text_eq q.id enemy.id)) [
      | inl same ↦ rw same (only qs r)
      | inr differs ↦ rw differs (elsewhere x y q enemy h differs, only qs r)
    ]

-- The board stays a board.
pub Effect-IsBoard :
    (s : GameState) (mover : Piece) (f t : Point) (played : Applying)
    → IsBoard s.pieces
    → inside t.x t.y ≡ true
    → Effect s mover f t played
    → IsBoard played.0.pieces
unfolding pieces_at
Effect-IsBoard s mover f t played v i (to_empty none_there e) =
    rw e (relocate-IsBoard mover.id t s.pieces i (filter-nil _ s.pieces none_there) v)
Effect-IsBoard s mover f t played v i (to_enemy enemy one w e) = rw e (
    relocate-IsBoard mover.id t _ i (captured-Vacant t.x t.y s.pieces enemy one)
      (IsBoard-filter _ s.pieces v))
