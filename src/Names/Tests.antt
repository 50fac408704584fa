-- ===== src/Names/Tests.antt =====
-- A run of `cleanDisplayName`.
use ottv.Prelude.{[], ◌∷◌, ◌≡◌, refl}
use ottv.Names.{Text, clean_display_name, is_space, strip_tags, collapse, trim_start, trim}
use ottv.Names.Clean.{IsShown, clean_display_name-IsShown}

-- A tag, two blanks and a tabulator around `An`, and a stray bracket.
abbrev tagged : Text
tagged = 60 ∷ 98 ∷ 62 ∷ 32 ∷ 9 ∷ 65 ∷ 110 ∷ 32 ∷ 32 ∷ 60 ∷ 66 ∷ []

tagged_cleaned : clean_display_name tagged 20 ≡ 65 ∷ 110 ∷ 32 ∷ 66 ∷ []
unfolding clean_display_name is_space strip_tags collapse trim_start trim
tagged_cleaned = refl

clean_display_name-IsShown_example : IsShown 3 (clean_display_name tagged 3)
clean_display_name-IsShown_example = clean_display_name-IsShown tagged 3
