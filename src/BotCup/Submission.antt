-- ===== src/BotCup/Submission.antt =====
-- packages/bot-cup-core/src/submission.mjs, without `normalizeSource`, and `sealedSubmission` of
-- tournament.mjs. A text is the list of its UTF-16 units, and a file the list of its bytes.
pub mod Final
pub mod Days
pub mod Names
use Prim.Native.Nat.{◌/◌}
use ottv.Prelude.{
  ℕ, zero, suc, ◌+◌, ◌-◌, ◌*◌, Bool, true, false, ◌&&◌, ◌||◌, not, Option, none, some, List, [],
  ◌∷◌, ◌++◌, ◌==◌, leb, ltb, any, filter, find?, length, ℤ, pos, ◌-ℤ◌, if◌then◌else◌,
}
use ottv.Names.{Text, trim, take}
use ottv.Swiss.Types.{same_text}
use ottv.BotCup.Jobs.{drop}
use ottv.BotCup.Gate.{hour}

abbrev pub day : ℕ
day = 24 * hour

abbrev pub vietnam_offset : ℕ
vietnam_offset = 7 * hour

abbrev pub max_bytes : ℕ
max_bytes = 200 * 1024

abbrev pub filename_max : ℕ
filename_max = 64

pub data SubmissionStatus : Type 0 where
  checking ready build_failed smoke_failed : SubmissionStatus

abbrev pub is_final_eligible : SubmissionStatus → Bool
is_final_eligible checking = true
is_final_eligible ready = true
is_final_eligible _ = false

abbrev pub is_ready : SubmissionStatus → Bool
is_ready ready = true
is_ready _ = false

pub data Language : Type 0 where
  python node : Language

-- `endsWith`
abbrev pub ends_with : Text → Text → Bool
ends_with text end =
    same_text (drop (length text - length end) text) end && leb (length end) (length text)

abbrev pub has_extension : Text → Text → Bool
has_extension lower extension = ends_with lower extension && ltb (length extension) (length lower)

abbrev pub extension_py : Text
extension_py = b'.' ∷ b'p' ∷ b'y' ∷ []

abbrev pub extension_js : Text
extension_js = b'.' ∷ b'j' ∷ b's' ∷ []

abbrev pub extension_mjs : Text
extension_mjs = b'.' ∷ b'm' ∷ b'j' ∷ b's' ∷ []

-- `languageForFilename`, of the name in lower case.
unfoldable pub language_of : Text → Option Language
language_of lower =
    if has_extension lower extension_py
    then some python
    else if has_extension lower extension_js || has_extension lower extension_mjs
    then some node
    else none

abbrev pub is_separator : ℕ → Bool
is_separator c = c == b'/' || c == 92

abbrev pub is_control : ℕ → Bool
is_control c = leb c 31 || c == 127

-- `split(/[\\/]/).pop()`
unfoldable pub last_segment : Text → Text
last_segment [] = []
last_segment (c ∷ cs) =
    let rest = last_segment cs in
    if any is_separator cs then rest else if is_separator c then cs else c ∷ cs

-- The last segment, without control characters and trimmed.
unfoldable pub base_name : Text → Text
unfolding last_segment
base_name filename = trim (filter (λ c. not (is_control c)) (last_segment filename))

-- `lastIndexOf(".")`
unfoldable pub last_dot : Text → Option ℕ
last_dot [] = none
last_dot (c ∷ cs) = elim (last_dot cs) [
  | some n ↦ some (suc n)
  | none ↦ if c == b'.' then some 0 else none
]

-- The extension with its dot, which is not the first character.
unfoldable pub extension_of : Text → Text
unfolding last_dot
extension_of base = elim (last_dot base) [
  | none ↦ []
  | some n ↦ if ltb 0 n then drop n base else []
]

-- `base.slice(0, filenameMax - length)`: a negative end counts from the end of the text.
unfoldable pub slice_to : Text → ℕ → Text
slice_to base n =
    if leb n filename_max
    then take (filename_max - n) base
    else take (length base - (n - filename_max)) base

-- `cleanFilename`
unfoldable pub clean_filename : Text → Text
unfolding base_name extension_of slice_to
clean_filename filename =
    let base = base_name filename in
    let extension = extension_of base in
    if leb (length base) filename_max then base else slice_to base (length extension) ++ extension

-- `hasBinaryBytes`
unfoldable pub has_binary_bytes : List ℕ → Bool
has_binary_bytes bytes =
    any
      (λ b. ltb b 0x20 && not (b == 0x09) && not (b == 0x0a) && not (b == 0x0c) && not (b == 0x0d))
      bytes

pub data SourceError : Type 0 where
  submission_empty submission_too_large submission_extension submission_binary submission_encoding :
      SourceError

pub data Inspection : Type 0 where
  accepted : Language → Text → Text → Inspection
  rejected : SourceError → Inspection

-- The lower case of a text, and the decoding of bytes as UTF-8, are parameters.
module _ (to_lower : Text → Text) (decode : List ℕ → Option Text) where
  abbrev pub language_for_filename : Text → Option Language
  language_for_filename filename = language_of (to_lower filename)

  -- The checks of the bytes, once the language is known.
  unfoldable pub inspect_bytes : Language → Text → List ℕ → Inspection
  unfolding has_binary_bytes
  inspect_bytes language name bytes =
      if ltb max_bytes (length bytes)
      then rejected submission_too_large
      else if has_binary_bytes bytes
      then rejected submission_binary
      else elim (decode bytes) [
        | none ↦ rejected submission_encoding
        | some text ↦
            if length (trim text) == 0
            then rejected submission_empty
            else accepted language name text
      ]

  -- `inspectSource`
  unfoldable pub inspect_source : List ℕ → Text → Inspection
  unfolding inspect_bytes clean_filename language_of
  inspect_source bytes filename =
      let name = clean_filename filename in
      elim (language_for_filename name) [
        | none ↦ rejected submission_extension
        | some language ↦ inspect_bytes language name bytes
      ]

pub record CupEvent : Type 0 where
  pub practice_opens_at : Option ℕ
  pub code_freeze_at : Option ℕ

pub data WindowError : Type 0 where
  submissions_not_open code_frozen : WindowError

abbrev pub reached : Option ℕ → ℕ → Bool
reached none now = false
reached (some at) now = leb at now

-- `submissionWindow`: none, or why a team may not upload.
unfoldable pub submission_window : CupEvent → ℕ → Option WindowError
submission_window event now =
    if reached event.code_freeze_at now
    then some code_frozen
    else if not (reached event.practice_opens_at now)
    then some submissions_not_open
    else none

-- `finalSubmissionLocked`
unfoldable pub final_submission_locked : CupEvent → ℕ → Bool
final_submission_locked event now = reached event.code_freeze_at now

-- `vietnamDayStart`
unfoldable pub vietnam_day_start : ℕ → ℤ
vietnam_day_start now = pos ((now + vietnam_offset) / day * day) -ℤ pos vietnam_offset

pub record Submission : Type 0 where
  pub id : Text
  pub seq : ℕ
  pub status : SubmissionStatus

-- The newest of the submissions, from the one that is the newest so far.
unfoldable pub latest_from : Option Submission → List Submission → Option Submission
latest_from latest [] = latest
latest_from none (s ∷ ss) = latest_from (some s) ss
latest_from (some l) (s ∷ ss) = latest_from (some (if ltb l.seq s.seq then s else l)) ss

abbrev pub eligible : List Submission → List Submission
eligible submissions = filter (λ (s : Submission). is_final_eligible s.status) submissions

-- The submission that the team has chosen; an empty identifier is no choice.
abbrev pub chosen_one : List Submission → Option Text → Option Submission
chosen_one submissions none = none
chosen_one submissions (some []) = none
chosen_one submissions (some (c ∷ cs)) =
    find? (λ (s : Submission). same_text s.id (c ∷ cs)) submissions

-- `effectiveFinalSubmission`
unfoldable pub effective_final_submission : List Submission → Option Text → Option Submission
unfolding latest_from
effective_final_submission submissions chosen_id =
    elim (chosen_one (eligible submissions) chosen_id) [
      | some s ↦ some s
      | none ↦ latest_from none (eligible submissions)
    ]

-- `sealedSubmission`
unfoldable pub sealed_submission : List Submission → Option Text → Option Submission
unfolding effective_final_submission
sealed_submission submissions chosen_id =
    effective_final_submission (filter (λ (s : Submission). is_ready s.status) submissions)
      chosen_id
