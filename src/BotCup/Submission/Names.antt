-- ===== src/BotCup/Submission/Names.antt =====
-- The cleaned name of a file.
use ottv.Prelude.{ℕ, ◌+◌, ◌≤◌, ◌<◌, ◌≡◌, ◌≢◌, [], ◌∷◌, ◌++◌, All, length}
use ottv.Names.{Text}
use ottv.BotCup.Jobs.{drop}

abbrev pub NoDot : Text → Type 0
NoDot = All (λ (c : ℕ). c ≢ b'.')

-- The extension of a name is its last dot with what follows it, unless that dot is the first unit.
pub data IsExtension (base extension : Text) : Type 0 where
  dotless : NoDot base → extension ≡ [] → IsExtension base extension
  hidden :
      (rest : Text) → base ≡ b'.' ∷ rest → NoDot rest → extension ≡ [] → IsExtension base extension
  after_dot :
      (stem rest : Text)
      → base ≡ stem ++ b'.' ∷ rest
      → 0 < length stem
      → NoDot rest
      → extension ≡ b'.' ∷ rest
      → IsExtension base extension

-- What becomes of a name: one of at most 64 units stays; a longer one is cut, and the extension put
-- behind the cut.
pub data IsCleaned (base extension clean : Text) : Type 0 where
  kept : length base ≤ 64 → clean ≡ base → IsCleaned base extension clean
  shortened :
      (front back : Text)
      → 64 < length base
      → base ≡ front ++ back
      → clean ≡ front ++ extension
      → length extension ≤ 64
      → length clean ≡ 64
      → IsCleaned base extension clean
  lengthened :
      (front back : Text)
      → base ≡ front ++ back
      → clean ≡ front ++ extension
      → 64 < length extension
      → length clean ≡ length base + 64
      → IsCleaned base extension clean

-- The last dot of a text is its unit `n`.
pub record DotAt (cs : Text) (n : ℕ) : Type 0 where
  stem : Text
  rest : Text
  split : cs ≡ stem ++ b'.' ∷ rest
  place : length stem ≡ n
  no_more : NoDot rest
  dropped : drop n cs ≡ b'.' ∷ rest
