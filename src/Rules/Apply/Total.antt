-- ===== src/Rules/Apply/Total.antt =====
-- `applyMove` never reads a property of `undefined`.
use ottv.Prelude.{
  ◌≡◌, ◌≢◌, refl, ap, Bool, true, false, Option, none, some, List, [], ◌∷◌, arith, find?, any, leb,
  length, not, inl, inr, ◌∙◌, ◌⊎◌, Bool-cases, text_eq, text_eq_refl,
}
use ottv.Rules.Types.{
  Seat, Point, Piece, GameState, GameEvent, Result, ok, fail, throws, ◌>>=◌, ◌>>◌, require,
  require_some, require_found, RuleError, seat_eq, kind_eq, game_over, invalid_board, invalid_seat,
  not_your_turn, missing_square, off_board, not_one_step, no_piece, own_piece, same_kind,
  stronger_piece,
}
use ottv.Rules.Board.{inside_point, pieces_at, has_single_occupancy}
use ottv.Rules.Board.Occupancy.{clone_state_eq}
use ottv.Rules.Moves.{is_none, stronger_enemy, has_id}
use ottv.Rules.Apply.Accepted.{mover_at}
use ottv.Rules.Apply.{RawPoint, one_step, play_on, play, conclude, step_on, apply_move}

-- Some piece has the id of a piece that was found.
find-id :
    (f : Piece → Bool) (ps : List Piece) (m : Piece)
    → find? f ps ≡ some m
    → find? (has_id m.id) ps ≢ none
find-id f [] m h = cc
find-id f (p ∷ ps) m h = elim (Bool-cases (f p)) [
  | inl e ↦
      let h' : some p ≡ some m = rw e at h in
      let same : text_eq p.id m.id ≡ true =
        ap (λ (q : Piece). text_eq p.id q.id) (let s : m ≡ p = cc in s) ∙ text_eq_refl p.id in
      rw same (λ c. cc)
  | inr e ↦ ground (arith, find-id f ps m)
]

>>=-eq-throws {ℓ κ} :
    {A : Type ℓ} {B : Type κ} (m : Result A) (f : A → Result B)
    → (m >>= f) ≡ throws
    → (m ≡ throws) ⊎ ((x : A) × (f x ≡ throws))
>>=-eq-throws (ok x) f h = inr (x, h)
>>=-eq-throws (fail e) f h = absurd (cc)
>>=-eq-throws throws f h = inl refl

require-eq-throws {ℓ} :
    {B : Type ℓ} (c : Bool) (e : RuleError) (k : Result B)
    → (require c e >> k) ≡ throws
    → (c ≡ true) × (k ≡ throws)
require-eq-throws true e k h = (refl, h)
require-eq-throws false e k h = absurd (cc)

require_some-eq-throws {ℓ κ} :
    {A : Type ℓ} {B : Type κ} (o : Option A) (e : RuleError) (k : A → Result B)
    → (require_some o e >>= k) ≡ throws
    → (x : A) × (o ≡ some x) × (k x ≡ throws)
require_some-eq-throws (some x) e k h = (x, refl, h)
require_some-eq-throws none e k h = absurd (cc)

require_found-eq-throws {ℓ} : {A : Type ℓ} (o : Option A) → require_found o ≡ throws → o ≡ none
require_found-eq-throws none h = refl
require_found-eq-throws (some x) h = absurd (cc)

conclude-ne-throws : (seat : Seat) (p : GameState × List GameEvent) → conclude seat p ≢ throws
unfolding conclude
conclude-ne-throws seat p = ground arith

play_on-ne-throws :
    (next : GameState) (m : Piece) (occ : List Piece) (f t : Point)
    → play_on next m occ f t ≢ throws
unfolding play_on
play_on-ne-throws next m [] f t = λ c. cc
play_on-ne-throws next m (e ∷ r) f t = ground arith

play-ne-throws :
    (s : GameState) (g : Piece → Bool) (m : Piece) (occ : List Piece) (f t : Point)
    → find? g s.pieces ≡ some m
    → play s m occ f t ≢ throws
unfolding play
play-ne-throws s g m occ f t found h =
    elim (>>=-eq-throws (require_found (find? (has_id m.id) s.pieces)) _ (rw clone_state_eq at h)) [
      | inl lost ↦ find-id g s.pieces m found (require_found-eq-throws _ lost)
      | inr (n, e) ↦ play_on-ne-throws s n occ f t e
    ]

step_on-ne-throws : (s : GameState) (seat : Seat) (f t : Point) → step_on s seat f t ≢ throws
unfolding step_on
step_on-ne-throws s seat f t h =
    let (_, h₁) = require-eq-throws (one_step f t) not_one_step _ h in
    let (m, found, h₂) = require_some-eq-throws (mover_at s seat f) no_piece _ h₁ in
    let occ = pieces_at s t.x t.y in
    let (_, h₃) = require-eq-throws (leb (length occ) 1) invalid_board _ h₂ in
    let (_, h₄) = require-eq-throws (not (any (λ p. seat_eq p.player seat) occ)) own_piece _ h₃ in
    let (_, h₅) = require-eq-throws (not (any (λ p. kind_eq p.type m.type) occ)) same_kind _ h₄ in
    let (_, h₆) = require-eq-throws (not (any (stronger_enemy m) occ)) stronger_piece _ h₅ in
    elim (>>=-eq-throws (play s m (pieces_at s t.x t.y) f t) (conclude seat) h₆) [
      | inl e ↦ play-ne-throws s _ m _ f t found e
      | inr (p, e) ↦ conclude-ne-throws seat p e
    ]

-- With no state, or with any state that has a list of pieces, and whatever the seat and the squares, the
-- result is a state or a refusal: no property of an undefined piece is read.
pub apply_move-ne-throws :
    (s : Option GameState) (player : Option Seat) (from to : Option RawPoint)
    → apply_move s player from to ≢ throws
unfolding apply_move
apply_move-ne-throws none player from to h = absurd (cc)
apply_move-ne-throws (some s) player from to h =
    let (_, h₁) = require-eq-throws (is_none s.winner) game_over _ h in
    let (_, h₂) = require-eq-throws (has_single_occupancy s) invalid_board _ h₁ in
    let (seat, _, h₃) = require_some-eq-throws player invalid_seat _ h₂ in
    let (_, h₄) = require-eq-throws (seat_eq s.turn seat) not_your_turn _ h₃ in
    let (f, _, h₅) = require_some-eq-throws from missing_square _ h₄ in
    let (t, _, h₆) = require_some-eq-throws to missing_square _ h₅ in
    let (p, _, h₇) = require_some-eq-throws (inside_point f.raw_x f.raw_y) off_board _ h₆ in
    let (q, _, h₈) = require_some-eq-throws (inside_point t.raw_x t.raw_y) off_board _ h₇ in
    step_on-ne-throws s seat p q h₈
