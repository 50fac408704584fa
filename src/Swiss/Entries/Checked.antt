-- ===== src/Swiss/Entries/Checked.antt =====
-- What `normalizeSwissEntries` lets through.
use Prim.Native.Nat.{Ordering}
use ottv.Prelude.{
  ℕ, suc, ◌≤◌, ◌≡◌, refl, false, not, List, [], ◌∷◌, leb, any, All, All-map_of, length,
  length-sort_by, sort_by, arith, inl, inr, Bool-cases,
}
use ottv.Names.{Text}
use ottv.Swiss.Types.{
  RawEntry, Entry, duplicate_entry, too_few_bots, Outcome, done, thrown, ◌>>=◌, ◌>>◌, ensure,
  same_text,
}
use ottv.Swiss.Entries.{read_entry, read_entries, normalize_swiss_entries}
use ottv.Swiss.Matching.Distinct.{ApartBy, DistinctBy, DistinctBy-sort_by}

pub >>=-eq-done {ℓ κ} :
    {A : Type ℓ} {B : Type κ} (m : Outcome A) (f : A → Outcome B) {b : B}
    → (m >>= f) ≡ done b
    → (x : A) × (m ≡ done x) × (f x ≡ done b)
>>=-eq-done (done x) f h = (x, refl, h)
>>=-eq-done (thrown e) f h = absurd (cc)

abbrev pub entry_bot : Entry → Text
entry_bot e = e.bot_id

abbrev pub Unseen : List Text → Entry → Type 0
Unseen seen e = any (same_text e.bot_id) seen ≡ false

Unseen-cons :
    (t : Text) (seen : List Text) (e : Entry)
    → Unseen (t ∷ seen) e
    → (same_text e.bot_id t ≡ false) × Unseen seen e
Unseen-cons t seen e h = ground arith

abbrev after_read : ℕ → List Text → List RawEntry → Entry → Outcome (List Entry)
after_read i seen raws e = do
  ensure (not (any (same_text e.bot_id) seen)) (duplicate_entry e.bot_id)
  rest ← read_entries (suc i) (e.bot_id ∷ seen) raws
  done (e ∷ rest)

after_read-eq-done :
    (i : ℕ) (seen : List Text) (raws : List RawEntry) (e : Entry) (es : List Entry)
    → after_read i seen raws e ≡ done es
    → Unseen seen e
      × (rest : List Entry) × (read_entries (suc i) (e.bot_id ∷ seen) raws ≡ done rest)
      × (e ∷ rest ≡ es)
after_read-eq-done i seen raws e es h = elim (Bool-cases (any (same_text e.bot_id) seen)) [
  | inl old ↦ let w : thrown (duplicate_entry e.bot_id) ≡ done es = rw old at h in absurd (cc)
  | inr new ↦
      let (rest, read, w) =
        >>=-eq-done (read_entries (suc i) (e.bot_id ∷ seen) raws) (λ rest. done (e ∷ rest))
          (rw new at h) in
      let w' : done (e ∷ rest) ≡ done es = w in (new, rest, read, cc)
]

read_entries-Distinct :
    (i : ℕ) (seen : List Text) (raws : List RawEntry) (es : List Entry)
    → read_entries i seen raws ≡ done es
    → DistinctBy entry_bot es × All (Unseen seen) es
unfolding read_entries
read_entries-Distinct i seen [] es h = let e : [] ≡ es = cc in rw (← e) (tt, tt)
read_entries-Distinct i seen (raw ∷ raws) es h =
    let (e, read, h₁) = >>=-eq-done (read_entry i raw) (after_read i seen raws) h in
    let (new, rest, read_rest, same) = after_read-eq-done i seen raws e es h₁ in
    let (d, a) = read_entries-Distinct (suc i) (e.bot_id ∷ seen) raws rest read_rest in
    rw (← same) (
      (All-map_of _ (ApartBy entry_bot e) (λ x u. (Unseen-cons e.bot_id seen x u).0) rest a, d),
      (new, All-map_of _ (Unseen seen) (λ x u. (Unseen-cons e.bot_id seen x u).1) rest a),
    )

module _ (locale_compare : Text → Text → Ordering) where
  abbrev cmp : Entry → Entry → Ordering
  cmp a b = locale_compare a.bot_id b.bot_id

  abbrev sorted : List Entry → Outcome (List Entry)
  sorted entries = do
    ensure (leb 2 (length entries)) (too_few_bots (length entries))
    done (sort_by cmp entries)

  sorted-eq-done :
      (read es : List Entry) → sorted read ≡ done es → (2 ≤ length read) × (sort_by cmp read ≡ es)
  sorted-eq-done read es h = elim (Bool-cases (leb 2 (length read))) [
    | inl e ↦ let w : done (sort_by cmp read) ≡ done es = rw e at h in (ground arith, cc)
    | inr e ↦ let w : thrown (too_few_bots (length read)) ≡ done es = rw e at h in absurd (cc)
  ]

  -- The entries that are let through are two at least, and their identifiers are distinct.
  pub normalize-Distinct :
      (raws : List RawEntry) (es : List Entry)
      → normalize_swiss_entries locale_compare raws ≡ done es
      → DistinctBy entry_bot es × (2 ≤ length es)
  unfolding normalize_swiss_entries
  normalize-Distinct raws es h =
      let (read, e, h₁) = >>=-eq-done (read_entries 0 [] raws) sorted h in
      let (two, same) = sorted-eq-done read es h₁ in
      let (d, _) = read_entries-Distinct 0 [] raws read e in
      rw (← same)
        (DistinctBy-sort_by entry_bot cmp read d, omega (arith, length-sort_by cmp read, two))
