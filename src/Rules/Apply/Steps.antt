-- ===== src/Rules/Apply/Steps.antt =====
-- One step in a direction of `DELTAS`, by the distances that `applyMove` tests.
use ottv.Prelude.{
  ◌≡◌, refl, Bool, true, false, ◌&&◌, List, [], ◌∷◌, ℤ, pos, negsuc, ◌+ℤ◌, ◌-ℤ◌, abs, eq_ℤ,
  eq_ℤ_iff, eq_ℤ_refl, arith, any, leb, ◌==◌, Bool-cases, ◌⊎◌, inl, inr, ap,
}
use ottv.Rules.Types.{Point, point, Piece, GameState}
use ottv.Rules.Board.{on_square}
use ottv.Rules.Moves.{deltas, open_to, moves_from}
use ottv.Rules.Apply.{one_step}

-- The tests of one coordinate of a step, from `v` to `w`: the three offsets, and the distances.
record Axis (v w : ℤ) (back stay forth near none_of : Bool) : Type 0 where
  is_back : eq_ℤ (v +ℤ negsuc 0) w ≡ back
  is_stay : eq_ℤ (v +ℤ pos 0) w ≡ stay
  is_forth : eq_ℤ (v +ℤ pos 1) w ≡ forth
  is_near : leb (abs (w -ℤ v)) 1 ≡ near
  is_zero : (abs (w -ℤ v) == 0) ≡ none_of

data Offset (v w : ℤ) : Type 0 where
  backward : Axis v w true false false true false → Offset v w
  still : Axis v w false true false true true → Offset v w
  forward : Axis v w false false true true false → Offset v w
  far : Axis v w false false false false false → Offset v w

offset_sum :
    (v w : ℤ)
    → Axis v w true false false true false
      ⊎ Axis v w false true false true true
      ⊎ Axis v w false false true true false
      ⊎ Axis v w false false false false false
unfolding ◌+ℤ◌ ◌-ℤ◌ abs eq_ℤ
offset_sum (pos m) (pos n) = ground arith
offset_sum (pos m) (negsuc n) = ground arith
offset_sum (negsuc m) (pos n) = ground arith
offset_sum (negsuc m) (negsuc n) = ground arith

abbrev pub shifted : Piece → Point → Point
shifted m d = point (m.x +ℤ d.x) (m.y +ℤ d.y)

abbrev pub place : Piece → Point
place m = point m.x m.y

-- A step in one of the eight directions is a step that `applyMove` accepts.
pub any-deltas :
    (m : Piece) (t : Point) → any (λ d. on_square (shifted m d) t) deltas ≡ one_step (place m) t
unfolding one_step
any-deltas m t = ground (arith, offset_sum m.x t.x, offset_sum m.y t.y)

pub on_square-eq : (p q : Point) → on_square p q ≡ true → p ≡ q
on_square-eq p q h =
    let ex = (eq_ℤ_iff p.x q.x).0 (ground arith) in
    let ey = (eq_ℤ_iff p.y q.y).0 (ground arith) in λ i. point (ex i) (ey i)

pub on_square_refl : (p : Point) → on_square p p ≡ true
on_square_refl p = simp (eq_ℤ_refl)

-- A square is among the moves if a direction leads there and it is open.
pub any-moves_from :
    (s : GameState) (m : Piece) (t : Point) (ds : List Point)
    → any (λ p. on_square p t) (moves_from s m ds)
      ≡ (any (λ d. on_square (shifted m d) t) ds && open_to s m t.x t.y)
unfolding moves_from
any-moves_from s m t [] = refl
any-moves_from s m t (d ∷ ds) = elim (Bool-cases (on_square (shifted m d) t)) [
  | inl e ↦
      let same = on_square-eq (shifted m d) t e in
      let same_x : m.x +ℤ d.x ≡ t.x = ap (λ (p : Point). p.x) same in
      let same_y : m.y +ℤ d.y ≡ t.y = ap (λ (p : Point). p.y) same in
      rw (e, same_x, same_y) (ground (arith, any-moves_from s m t ds, on_square_refl t))
  | inr e ↦ rw e (ground (arith, any-moves_from s m t ds))
]
