-- ===== src/Swiss/Entries.antt =====
-- `normalizeSwissEntries` of swiss.mjs. The order of texts that `localeCompare` gives is a parameter.
pub mod Checked
use Prim.Native.Nat.{Ordering}
use ottv.Prelude.{
  ℕ, suc, Bool, true, false, Option, none, some, List, [], ◌∷◌, leb, any, length, not, sort_by,
  if◌then◌else◌,
}
use ottv.Names.{Text, trim}
use ottv.Swiss.Types.{
  RawId, no_id, text_id, other_id, RawEntry, bare, object, neither, Entry, SwissError,
  entry_not_object, id_not_text, id_empty, duplicate_entry, too_few_bots, Outcome, done, thrown,
  ◌>>=◌, ◌>>◌, ensure, same_text,
}

-- A version that is the empty text is left out.
abbrev pub kept_version : Option Text → Option Text
kept_version none = none
kept_version (some []) = none
kept_version (some (c ∷ cs)) = some (c ∷ cs)

abbrev pub chosen_id : RawId → RawId → RawId
chosen_id no_id id = id
chosen_id bot_id id = bot_id

abbrev pub is_blank : Text → Bool
is_blank [] = true
is_blank (c ∷ cs) = false

unfoldable pub entry_id : ℕ → RawId → Outcome Text
entry_id i (text_id t) = if is_blank (trim t) then thrown (id_empty i) else done (trim t)
entry_id i no_id = thrown (id_not_text i)
entry_id i other_id = thrown (id_not_text i)

-- The identifier and the version of an entry.
unfoldable pub read_entry : ℕ → RawEntry → Outcome Entry
unfolding entry_id
read_entry i (bare t) = do
  id ← entry_id i (text_id t)
  done (record { bot_id = id; bot_version_id = none })
read_entry i (object bot_id id version) = do
  id' ← entry_id i (chosen_id bot_id id)
  done (record { bot_id = id'; bot_version_id = kept_version version })
read_entry i neither = thrown (entry_not_object i)

-- The loop over the entries; `seen` are the identifiers before.
unfoldable pub read_entries : ℕ → List Text → List RawEntry → Outcome (List Entry)
unfolding read_entry
read_entries i seen [] = done []
read_entries i seen (raw ∷ raws) = do
  e ← read_entry i raw
  ensure (not (any (same_text e.bot_id) seen)) (duplicate_entry e.bot_id)
  rest ← read_entries (suc i) (e.bot_id ∷ seen) raws
  done (e ∷ rest)

module _ (locale_compare : Text → Text → Ordering) where
  unfoldable pub normalize_swiss_entries : List RawEntry → Outcome (List Entry)
  unfolding read_entries
  normalize_swiss_entries raws = do
    entries ← read_entries 0 [] raws
    ensure (leb 2 (length entries)) (too_few_bots (length entries))
    done (sort_by (λ (a b : Entry). locale_compare a.bot_id b.bot_id) entries)
