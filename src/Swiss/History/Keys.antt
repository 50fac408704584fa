-- ===== src/Swiss/History/Keys.antt =====
-- The keys of pairs of bots.
use ottv.Prelude.{◌≡◌, refl, true, false, [], ◌∷◌, arith, inl, inr, Bool-cases}
use ottv.Names.{Text}
use ottv.Swiss.Types.{text_less}
use ottv.Swiss.History.{make_pair_key}

text_less_asym : (s t : Text) → text_less s t ≡ true → text_less t s ≡ false
text_less_asym [] [] h = refl
text_less_asym [] (d ∷ ds) h = refl
text_less_asym (c ∷ cs) [] h = absurd (cc)
text_less_asym (c ∷ cs) (d ∷ ds) h = ground (arith, text_less_asym cs ds)

text_less_eq : (s t : Text) → text_less s t ≡ false → text_less t s ≡ false → s ≡ t
text_less_eq [] [] h k = refl
text_less_eq [] (d ∷ ds) h k = absurd (cc)
text_less_eq (c ∷ cs) [] h k = absurd (cc)
text_less_eq (c ∷ cs) (d ∷ ds) h k = ground (arith, text_less_eq cs ds)

-- The key of a pair does not depend on the order.
pub make_pair_key_comm : (a b : Text) → make_pair_key a b ≡ make_pair_key b a
unfolding make_pair_key
make_pair_key_comm a b = elim (Bool-cases (text_less a b)) [
  | inl e ↦ let f = text_less_asym a b e in rw (e, f) refl
  | inr e ↦ elim (Bool-cases (text_less b a)) [
    | inl f ↦ rw (e, f) refl
    | inr f ↦ let s : a ≡ b = text_less_eq a b e f in rw s refl
  ]
]
