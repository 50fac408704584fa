-- ===== src/Swiss/Types.antt =====
-- The data of the Swiss pairing. A text is the list of its UTF-16 units. Points, counts and rounds
-- are natural numbers: points that come in halves are counted in halves.
use Prim.Native.Nat.{Ordering, compare}
use ottv.Prelude.{ℕ, Bool, true, false, ◌&&◌, Option, [], ◌∷◌, ◌==◌, ◌≡◌, refl, arith, ℤ}
use ottv.Names.{Text}

-- What stands in an identifier's place: nothing, a text, or some other value.
pub data RawId : Type 0 where
  no_id : RawId
  text_id : Text → RawId
  other_id : RawId

-- An entry: a text, an object with `botId`, `id` and a `botVersionId` that is a text, or neither.
pub data RawEntry : Type 0 where
  bare : Text → RawEntry
  object : RawId → RawId → Option Text → RawEntry
  neither : RawEntry

pub record Entry : Type 0 where
  pub bot_id : Text
  pub bot_version_id : Option Text

-- The errors that are thrown; a number is the index of the entry.
pub data SwissError : Type 0 where
  entry_not_object id_not_text id_empty : ℕ → SwissError
  duplicate_entry : Text → SwissError
  too_few_bots : ℕ → SwissError
  round_number_not_integer round_count_not_integer round_count_low round_number_outside : SwissError
  no_opponent : SwissError

pub data Outcome {ℓ} (A : Type ℓ) : Type ℓ where
  done : A → Outcome A
  thrown : SwissError → Outcome A

infixl 5 ◌>>=◌ ◌>>◌
abbrev pub ◌>>=◌ {ℓ κ} : {A : Type ℓ} {B : Type κ} → Outcome A → (A → Outcome B) → Outcome B
done a >>= f = f a
thrown e >>= f = thrown e

abbrev pub ◌>>◌ {ℓ} : {B : Type ℓ} → Outcome (Unit {0}) → Outcome B → Outcome B
m >> k = m >>= λ _. k

abbrev pub ensure : Bool → SwissError → Outcome (Unit {0})
ensure true e = done tt
ensure false e = thrown e

-- A match that was played; an identifier that is missing is the empty text.
pub record HistoryMatch : Type 0 where
  pub round_number : ℕ
  pub bot_a_id : Text
  pub bot_b_id : Text

-- A row of the standings; a field that is not a number is none.
pub record Standing : Type 0 where
  pub bot_id : Text
  pub points : Option ℕ
  pub wins : Option ℕ
  pub draws : Option ℕ
  pub losses : Option ℕ
  pub played : Option ℕ
  pub bye_count : Option ℕ
  pub seat_balance : Option ℤ

pub data Side : Type 0 where
  side_a side_b : Side

pub record SeatStats : Type 0 where
  pub count_a : ℕ
  pub count_b : ℕ
  pub last_seat : Option Side
  pub streak : ℕ

pub record Participant : Type 0 where
  pub bot_id : Text
  pub bot_version_id : Option Text
  pub points : ℕ
  pub wins : ℕ
  pub draws : ℕ
  pub losses : ℕ
  pub played : ℕ
  pub bye_count : ℕ
  pub seat_balance : ℤ
  pub last_seat : Option Side
  pub seat_streak : ℕ
  pub buchholz : ℕ

pub record Pair : Type 0 where
  pub u : Participant
  pub v : Participant

-- `===` on texts.
abbrev pub same_text : Text → Text → Bool
same_text [] [] = true
same_text (c ∷ cs) (d ∷ ds) = c == d && same_text cs ds
same_text _ _ = false

pub same_text_eq : (s t : Text) → same_text s t ≡ true → s ≡ t
same_text_eq [] [] h = refl
same_text_eq [] (d ∷ ds) h = absurd (cc)
same_text_eq (c ∷ cs) [] h = absurd (cc)
same_text_eq (c ∷ cs) (d ∷ ds) h = ground (arith, same_text_eq cs ds)

pub same_text_refl : (s : Text) → same_text s s ≡ true
same_text_refl [] = refl
same_text_refl (c ∷ cs) = ground (arith, same_text_refl cs)

-- `<` on texts, by their units.
abbrev pub text_less : Text → Text → Bool
text_less s [] = false
text_less [] (d ∷ ds) = true
text_less (c ∷ cs) (d ∷ ds) = elim (compare c d) [
  | Ordering.lt ↦ true
  | Ordering.eq ↦ text_less cs ds
  | Ordering.gt ↦ false
]
