-- ===== src/Names.antt =====
-- packages/game-core/src/names.js. A text is the list of its UTF-16 units.
pub mod Clean
mod Tests
use ottv.Prelude.{
  ℕ, zero, suc, Bool, true, false, ◌&&◌, ◌||◌, not, List, [], ◌∷◌, leb, ◌==◌, filter, any,
  if◌then◌else◌,
}
use mathlib.Core.List.{reverse}

abbrev pub Text : Type 0
Text = List ℕ

-- What `\s` and `trim` take for white space.
unfoldable pub is_space : ℕ → Bool
is_space c =
    (leb 9 c && leb c 13)
    || c == 32
    || c == 160
    || c == 0x1680
    || (leb 0x2000 c && leb c 0x200a)
    || c == 0x2028
    || c == 0x2029
    || c == 0x202f
    || c == 0x205f
    || c == 0x3000
    || c == 0xfeff

-- `replace(/<[^>]*>/g, "")`: a `<` with a `>` behind it opens a tag, which the first `>` closes.
unfoldable pub strip_tags : Bool → Text → Text
strip_tags inside [] = []
strip_tags true (c ∷ cs) = strip_tags (not (c == b'>')) cs
strip_tags false (c ∷ cs) = elim (c == b'<' && any (λ d. d == b'>') cs) [
  | true ↦ strip_tags true cs
  | false ↦ c ∷ strip_tags false cs
]

abbrev pub is_angle : ℕ → Bool
is_angle c = c == b'<' || c == b'>'

-- `replace(/\s+/g, " ")`; the flag says that the unit before was white space.
unfoldable pub collapse : Bool → Text → Text
collapse spaced [] = []
collapse spaced (c ∷ cs) =
    let rest = collapse (is_space c) cs in
    if is_space c then (if spaced then rest else 32 ∷ rest) else c ∷ rest

unfoldable pub trim_start : Text → Text
trim_start [] = []
trim_start (c ∷ cs) = let rest = trim_start cs in if is_space c then rest else c ∷ cs

unfoldable pub trim : Text → Text
unfolding trim_start
trim cs = reverse (trim_start (reverse (trim_start cs)))

abbrev pub take : ℕ → Text → Text
take zero cs = []
take (suc n) [] = []
take (suc n) (c ∷ cs) = c ∷ take n cs

abbrev pub name_max : ℕ
name_max = 20

unfoldable pub clean_display_name : Text → ℕ → Text
unfolding strip_tags collapse trim
clean_display_name value max =
    trim
      (take max (trim (collapse false (filter (λ c. not (is_angle c)) (strip_tags false value)))))
