-- ===== src/Swiss/Round.antt =====
-- `pairSwissRound` of swiss.mjs.
pub mod Complete
pub mod Seated
use Prim.Native.Nat.{Ordering}
use ottv.Prelude.{
  ℕ, zero, suc, Bool, true, false, ◌&&◌, not, Option, none, some, List, [], ◌∷◌, leb, ℤ, pos,
  negsuc, map, length, if◌then◌else◌,
}
use ottv.Names.{Text}
use ottv.Rules.Board.{Sent, whole, other_value}
use ottv.Swiss.Types.{
  RawEntry, Entry, HistoryMatch, Standing, Participant, Pair, Outcome, done, thrown, ◌>>=◌, ◌>>◌,
  ensure, round_number_not_integer, round_count_not_integer, round_count_low, round_number_outside,
  same_text,
}
use ottv.Swiss.Entries.{normalize_swiss_entries}
use ottv.Swiss.History.{chronicle}
use ottv.Swiss.Participants.{assemble_participants, select_fair_bye, sort_pool_descending}
use ottv.Swiss.Matching.{
  Found, Budget, Paired, Warning, find_rematch_free_matching, greedy_fallback_matching,
}
use ottv.Swiss.Seats.{Seating, allocate_seats}

pub record Options : Type 0 where
  pub entries : List RawEntry
  pub round_number : Sent
  pub round_count : Sent
  pub standings : List Standing
  pub history : List HistoryMatch

pub record Pairing : Type 0 where
  pub schedule_index : ℕ
  pub bot_a_id : Text
  pub bot_b_id : Text
  pub bot_a_version_id : Option Text
  pub bot_b_version_id : Option Text

pub record Round : Type 0 where
  pub pairings : List Pairing
  pub byes : List Text
  pub warnings : List Warning

abbrev pub is_integer : Sent → Bool
is_integer (whole _) = true
is_integer other_value = false

-- The number, which is 0 where it is less than 1.
abbrev pub natural : Sent → ℕ
natural (whole (pos n)) = n
natural _ = zero

abbrev pub version_of : List Entry → Text → Option Text
version_of [] id = none
version_of (e ∷ es) id =
    let rest = version_of es id in if same_text e.bot_id id then e.bot_version_id else rest

abbrev pub pairing_of : List Entry → ℕ → Seating → Pairing
pairing_of entries i s = record {
  schedule_index = i;
  bot_a_id = s.bot_a_id;
  bot_b_id = s.bot_b_id;
  bot_a_version_id = version_of entries s.bot_a_id;
  bot_b_version_id = version_of entries s.bot_b_id;
}

unfoldable pub seat_pairs : List Entry → ℕ → List Pair → List Pairing
seat_pairs entries i [] = []
seat_pairs entries i (p ∷ ps) =
    pairing_of entries i (allocate_seats p.u p.v i) ∷ seat_pairs entries (suc i) ps

abbrev pub bye_ids : Option Participant → List Text
bye_ids none = []
bye_ids (some p) = p.bot_id ∷ []

module _ (locale_compare : Text → Text → Ordering) where
  -- The pairs of the pool and the warnings.
  unfoldable pub match_pool :
      List HistoryMatch → List Participant → Outcome (List Pair × List Warning)
  match_pool matches pool =
      elim (find_rematch_free_matching locale_compare matches (length pool) pool
        (record { steps = 0; exhausted = false })).0 [
          | some pairs ↦ done (pairs, [])
          | none ↦ greedy_fallback_matching locale_compare matches pool
        ]

  unfoldable pub pair_swiss_round : Options → Outcome Round
  unfolding match_pool seat_pairs
  pair_swiss_round o = do
    ensure (is_integer o.round_number) round_number_not_integer
    ensure (is_integer o.round_count) round_count_not_integer
    ensure (leb 1 (natural o.round_count)) round_count_low
    ensure (leb 1 (natural o.round_number) && leb (natural o.round_number) (natural o.round_count))
        round_number_outside
    entries ← normalize_swiss_entries locale_compare o.entries
    let matches = chronicle o.history
    let participants = assemble_participants entries o.standings matches
    let selected = select_fair_bye locale_compare participants
    paired ← match_pool matches (sort_pool_descending locale_compare selected.1)
    done (record {
      pairings = seat_pairs entries 0 paired.0;
      byes = bye_ids selected.0;
      warnings = paired.1;
    })
