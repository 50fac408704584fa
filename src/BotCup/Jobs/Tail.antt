-- ===== src/BotCup/Jobs/Tail.antt =====
-- The end of a log.
use ottv.Prelude.{
  ℕ, suc, zero, ◌+◌, ◌-◌, ◌≤◌, ◌<◌, ◌≡◌, ◌⊎◌, refl, ap, [], ◌∷◌, ◌++◌, leb, length, arith, inl, inr,
  Bool-cases,
}
use ottv.Names.{Text}
use ottv.BotCup.Jobs.{ellipsis, drop, tail_text}

length-drop : (n : ℕ) (cs : Text) → length (drop n cs) ≡ length cs - n
length-drop zero cs = omega arith
length-drop (suc n) [] = omega arith
length-drop (suc n) (c ∷ cs) = omega (arith, length-drop n cs)

drop-suffix : (n : ℕ) (cs : Text) → (start : Text) × (start ++ drop n cs ≡ cs)
drop-suffix zero cs = ([], refl)
drop-suffix (suc n) [] = ([], refl)
drop-suffix (suc n) (c ∷ cs) =
    let (start, e) = drop-suffix n cs in (c ∷ start, ap (λ (ds : Text). c ∷ ds) e)

-- For a bound of at least one unit, a text within the bound stays as it is, and a longer one becomes an
-- ellipsis and an end of the text, which together have just as many units as the bound.
tail_text-IsTail :
    (value : Text) (max_chars : ℕ)
    → 1 ≤ max_chars
    → ((length value ≤ max_chars) × (tail_text value max_chars ≡ value))
      ⊎ ((start : Text) × (end : Text) × (start ++ end ≡ value)
          × (tail_text value max_chars ≡ ellipsis ∷ end)
          × (length (tail_text value max_chars) ≡ max_chars)
          × (max_chars < length value))
unfolding tail_text
tail_text-IsTail value max_chars h = elim (Bool-cases (leb (length value) max_chars)) [
  | inl e ↦ rw e (inl (ground arith, refl))
  | inr e ↦
      let n = length value - max_chars + 1 in
      let (start, same) = drop-suffix n value in
      let longer : max_chars < length value = ground arith in
      rw e (inr (start, drop n value, same, refl, omega (arith, length-drop n value), longer))
]
