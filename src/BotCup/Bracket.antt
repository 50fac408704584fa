-- ===== src/BotCup/Bracket.antt =====
-- The knockout of tournament.mjs: `knockoutFirstRound`, `knockoutDecision`, `drawTiebreakMap` and
-- `nextKnockoutPairings`.
pub mod Results
pub mod Rounds
pub mod Start
use Prim.Native.Nat.{min}
use ottv.Prelude.{
  ℕ, zero, suc, ◌-◌, Bool, true, false, ◌&&◌, ◌||◌, not, Option, none, some, List, [], ◌∷◌, ◌==◌,
  leb, ltb, any, length, if◌then◌else◌,
}
use ottv.Names.{Text}
use ottv.BotCup.Gate.{MapId, maps, nth}

infixl 5 ◌>>=◌
abbrev pub ◌>>=◌ {ℓ κ} : {A : Type ℓ} {B : Type κ} → Option A → (A → Option B) → Option B
none >>= f = none
some a >>= f = f a

-- The slots `R16-n`, `QFn`, `SFn`, `F` and `3RD`.
pub data Slot : Type 0 where
  round_of_16 quarter semi : ℕ → Slot
  final third : Slot

pub record Fixture : Type 0 where
  pub slot : Slot
  pub high : Option Text
  pub low : Option Text
  pub high_seed : ℕ
  pub low_seed : ℕ

-- The seeds of the first pairings of a bracket of 16 and of 4.
abbrev pub bracket_16 : List (ℕ × ℕ)
bracket_16 = (1, 16) ∷ (8, 9) ∷ (5, 12) ∷ (4, 13) ∷ (3, 14) ∷ (6, 11) ∷ (7, 10) ∷ (2, 15) ∷ []

abbrev pub bracket_4 : List (ℕ × ℕ)
bracket_4 = (1, 4) ∷ (2, 3) ∷ []

abbrev pub fixture_of : (ℕ → Slot) → List Text → ℕ → ℕ × ℕ → Fixture
fixture_of slot seeded index seeds = record {
  slot = slot (suc index);
  high = nth seeded (seeds.0 - 1);
  low = nth seeded (seeds.1 - 1);
  high_seed = seeds.0;
  low_seed = seeds.1;
}

unfoldable pub fixtures_of : (ℕ → Slot) → List Text → ℕ → List (ℕ × ℕ) → List Fixture
fixtures_of slot seeded index [] = []
fixtures_of slot seeded index (p ∷ ps) =
    fixture_of slot seeded index p ∷ fixtures_of slot seeded (suc index) ps

-- `knockoutFirstRound`
unfoldable pub knockout_first_round : List Text → ℕ → List Fixture
unfolding fixtures_of
knockout_first_round seeded size =
    if ltb (length seeded) 4
    then []
    else if leb 16 size && leb 16 (length seeded)
    then fixtures_of round_of_16 seeded 0 bracket_16
    else fixtures_of semi seeded 0 bracket_4

abbrev pub max_tiebreaks : ℕ
max_tiebreaks = 2

pub data Qualifier : Type 0 where
  high_team low_team : Qualifier

pub data Decision : Type 0 where
  undecided : Decision
  decided : Qualifier → Bool → Decision

-- `knockoutDecision`; the flag says that the seed decides.
unfoldable pub knockout_decision : ℕ → ℕ → ℕ → Decision
knockout_decision high_points low_points tiebreaks_played =
    if not (high_points == low_points)
    then decided (if ltb low_points high_points then high_team else low_team) false
    else if ltb tiebreaks_played max_tiebreaks
    then undecided
    else decided high_team true

-- `drawTiebreakMap`, for the whole part of the random number times the number of maps.
unfoldable pub draw_tiebreak_map : ℕ → Option MapId
draw_tiebreak_map drawn = nth maps (min (length maps - 1) drawn)

pub record Seeded : Type 0 where
  pub team : Text
  pub seed : ℕ

pub record KnockoutResult : Type 0 where
  pub slot : Slot
  pub winner_entry : Seeded
  pub loser_entry : Seeded

abbrev pub same_slot : Slot → Slot → Bool
same_slot (round_of_16 m) (round_of_16 n) = m == n
same_slot (quarter m) (quarter n) = m == n
same_slot (semi m) (semi n) = m == n
same_slot final final = true
same_slot third third = true
same_slot _ _ = false

-- `bySlot.get(slot)`: the last result of the slot.
unfoldable pub result_at : List KnockoutResult → Slot → Option KnockoutResult
result_at [] slot = none
result_at (r ∷ rs) slot = elim (result_at rs slot) [
  | some s ↦ some s
  | none ↦ if same_slot r.slot slot then some r else none
]

-- The results of the slots from `index + 1` on; a slot without a result is an error of the source.
unfoldable pub pairs_of : List KnockoutResult → (ℕ → Slot) → ℕ → ℕ → Option (List KnockoutResult)
unfolding result_at
pairs_of results slot index zero = some []
pairs_of results slot index (suc count) = do
  r ← result_at results (slot (suc index))
  rs ← pairs_of results slot (suc index) count
  some (r ∷ rs)

abbrev pub seed_order : Seeded → Seeded → Seeded × Seeded
seed_order x y = if leb x.seed y.seed then (x, y) else (y, x)

abbrev pub fixture : Slot → Seeded × Seeded → Fixture
fixture slot p = record {
  slot = slot;
  high = some p.0.team;
  low = some p.1.team;
  high_seed = p.0.seed;
  low_seed = p.1.seed;
}

-- `pairUp`; an entry without a second is an error of the source.
unfoldable pub pair_up : (ℕ → Slot) → ℕ → List Seeded → Option (List Fixture)
pair_up slot index [] = some []
pair_up slot index (x ∷ []) = none
pair_up slot index (x ∷ y ∷ es) = do
  rest ← pair_up slot (suc index) es
  some (fixture (slot (suc index)) (seed_order x y) ∷ rest)

abbrev pub winners : List KnockoutResult → List Seeded
winners [] = []
winners (r ∷ rs) = r.winner_entry ∷ winners rs

abbrev pub losers : List KnockoutResult → List Seeded
losers [] = []
losers (r ∷ rs) = r.loser_entry ∷ losers rs

-- The final and the match for the third place.
abbrev pub last_pairings : List KnockoutResult → Option (List Fixture)
last_pairings (s ∷ t ∷ []) = some (
    fixture final (seed_order s.winner_entry t.winner_entry)
    ∷ fixture third (seed_order s.loser_entry t.loser_entry)
    ∷ [])
last_pairings _ = none

abbrev pub is_round_of_16 : Slot → Bool
is_round_of_16 (round_of_16 n) = true
is_round_of_16 _ = false

abbrev pub is_quarter : Slot → Bool
is_quarter (quarter n) = true
is_quarter _ = false

abbrev pub is_semi : Slot → Bool
is_semi (semi n) = true
is_semi _ = false

abbrev pub some_slot : (Slot → Bool) → List KnockoutResult → Bool
some_slot f results = any (λ (r : KnockoutResult). f r.slot) results

-- `nextKnockoutPairings`; none where the source reads a result that is not there.
unfoldable pub next_knockout_pairings : List KnockoutResult → Option (List Fixture)
unfolding pairs_of pair_up
next_knockout_pairings results =
    if some_slot is_round_of_16 results
    then (do rs ← pairs_of results round_of_16 0 8; pair_up quarter 0 (winners rs))
    else if some_slot is_quarter results
    then (do rs ← pairs_of results quarter 0 4; pair_up semi 0 (winners rs))
    else if some_slot is_semi results
    then (do rs ← pairs_of results semi 0 2; last_pairings rs)
    else some []
