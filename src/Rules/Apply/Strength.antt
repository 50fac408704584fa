-- ===== src/Rules/Apply/Strength.antt =====
-- The number of the pieces of a seat, and what a move and a capture do to it.
use Prim.Native.String.{String}
use mathlib.Core.Path.{subst}
use ottv.Prelude.{
  ℕ, ◌+◌, ◌≡◌, refl, ap, ◌∙◌, Bool, true, false, some, List, [], ◌∷◌, arith, All, filter, find?,
  length, inl, inr, All-find, All-map_of, Bool-cases, text_eq, text_eq_comm, text_eq_refl,
}
use ottv.Rules.Types.{Seat, seat_eq, Point, Piece}
use ottv.Rules.Board.Occupancy.{UniqueIds}
use ottv.Rules.Moves.{of_seat}
use ottv.Rules.Apply.{relocate, other_id}

-- The pieces of a seat, counted.
abbrev pub strength : Seat → List Piece → ℕ
strength seat ps = length (filter (of_seat seat) ps)

pub strength-relocate :
    (seat : Seat) (id : String) (t : Point) (ps : List Piece)
    → strength seat (relocate id t ps) ≡ strength seat ps
unfolding relocate
strength-relocate seat id t [] = refl
strength-relocate seat id t (p ∷ ps) = ground (arith, strength-relocate seat id t ps)

filter_of_All {ℓ} :
    {A : Type ℓ} (f : A → Bool) (xs : List A) → All (λ x. f x ≡ true) xs → filter f xs ≡ xs
filter_of_All f [] a = refl
filter_of_All f (x ∷ xs) (e, a) = rw (e, filter_of_All f xs a)

abbrev pub one_if : Bool → ℕ
one_if true = 1
one_if false = 0

-- With distinct ids a capture takes away one piece.
pub strength-remove :
    (seat : Seat) (f : Piece → Bool) (ps : List Piece) (e : Piece)
    → UniqueIds ps
    → find? f ps ≡ some e
    → strength seat ps ≡ strength seat (filter (other_id e.id) ps) + one_if (seat_eq e.player seat)
strength-remove seat f [] e u h = absurd (cc)
strength-remove seat f (p ∷ ps) e (v, u) h = elim (Bool-cases (f p)) [
  | inl y ↦
      let h' : some p ≡ some e = rw y at h in
      let same : p ≡ e = cc in
      let rest : filter (other_id e.id) ps ≡ ps = filter_of_All _ ps (
        All-map_of _ _ (λ q d. others q (subst (λ (x : Piece). text_eq x.id q.id ≡ false) same d))
          ps v) in
      let own : text_eq p.id e.id ≡ true =
        ap (λ (q : Piece). text_eq q.id e.id) same ∙ text_eq_refl e.id in
      let seat_same : seat_eq p.player seat ≡ seat_eq e.player seat =
        ap (λ (q : Piece). seat_eq q.player seat) same in
      rw (own, rest) (ground arith)
  | inr n ↦
      let h' : find? f ps ≡ some e = rw n at h in
      let differs : text_eq p.id e.id ≡ false = All-find _ f ps v h' in
      rw differs (ground (arith, strength-remove seat f ps e u h'))
]
  where
    others : (q : Piece) → text_eq e.id q.id ≡ false → other_id e.id q ≡ true
    others q d = rw (text_eq_comm q.id e.id, d)
