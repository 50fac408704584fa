-- ===== src/Swiss/Tests.antt =====
-- A tournament of three bots, in which two have met.
use Prim.Native.Nat.{Ordering, compare}
use ottv.Prelude.{
  ℕ, ◌<◌, ◌≤◌, ◌≡◌, ◌≢◌, refl, false, true, Option, none, some, List, [], ◌∷◌, pos, All, length,
  arith,
}
use ottv.Names.{Text}
use ottv.Rules.Board.{whole}
use ottv.Swiss.Types.{
  RawEntry, bare, object, no_id, text_id, Entry, HistoryMatch, Participant, done,
}
use ottv.Swiss.Entries.{normalize_swiss_entries}
use ottv.Swiss.Entries.Checked.{entry_bot, normalize-Distinct}
use ottv.Swiss.Matching.{Budget, Found, find_rematch_free_matching, greedy_loop, max_search_steps}
use ottv.Swiss.Matching.Distinct.{DistinctBy}
use ottv.Swiss.Matching.Search.{IsMatching, find-IsMatching}
use ottv.Swiss.Matching.Bounded.{Within, find-fuel, find-Within}
use ottv.Swiss.Matching.Greedy.{IsPaired, greedy_loop-IsPaired}
use ottv.Swiss.Participants.{select_fair_bye}
use ottv.Swiss.Participants.Bye.{Selection, select_fair_bye-Selection}
use ottv.Swiss.Round.{Options, Round, pair_swiss_round}
use ottv.Swiss.Round.Complete.{IsRound, pair_swiss_round-IsRound}

-- An order of texts: by units.
abbrev pub by_units : Text → Text → Ordering
by_units [] [] = Ordering.eq
by_units [] (d ∷ ds) = Ordering.lt
by_units (c ∷ cs) [] = Ordering.gt
by_units (c ∷ cs) (d ∷ ds) = elim (compare c d) [
  | Ordering.lt ↦ Ordering.lt
  | Ordering.eq ↦ by_units cs ds
  | Ordering.gt ↦ Ordering.gt
]

abbrev bot_a : Text
bot_a = b'a' ∷ []

abbrev bot_b : Text
bot_b = b'b' ∷ []

abbrev bot_c : Text
bot_c = b'c' ∷ []

abbrev participant : Text → ℕ → ℕ → Participant
participant id points byes = record {
  bot_id = id;
  bot_version_id = none;
  points = points;
  wins = points;
  draws = 0;
  losses = 0;
  played = 1;
  bye_count = byes;
  seat_balance = pos 0;
  last_seat = none;
  seat_streak = 0;
  buchholz = 0;
}

abbrev met : List HistoryMatch
met = record { round_number = 1; bot_a_id = bot_b; bot_b_id = bot_a } ∷ []

abbrev start : Budget
start = record { steps = 0; exhausted = false }

abbrev rivals : List Participant
rivals = participant bot_a 1 0 ∷ participant bot_b 0 0 ∷ []

abbrev strangers : List Participant
strangers = participant bot_a 1 0 ∷ participant bot_c 0 0 ∷ []

abbrev three : List Participant
three = participant bot_a 1 0 ∷ participant bot_b 0 0 ∷ participant bot_c 0 1 ∷ []

find_strangers :
    (find_rematch_free_matching by_units met 2 strangers start).0
    ≡ some (record { u = participant bot_a 1 0; v = participant bot_c 0 0 } ∷ [])
unfolding find_rematch_free_matching ottv.Prelude.sort_by ottv.Swiss.Matching.rematches
find_strangers = refl

find-IsMatching_example :
    IsMatching by_units met strangers
      (record { u = participant bot_a 1 0; v = participant bot_c 0 0 } ∷ [])
find-IsMatching_example =
    find-IsMatching by_units met 2 strangers start
      (record { u = participant bot_a 1 0; v = participant bot_c 0 0 } ∷ []) ((refl, tt), (tt, tt))
      find_strangers

find-fuel_example :
    find_rematch_free_matching by_units met 2 rivals start
    ≡ find_rematch_free_matching by_units met 7 rivals start
find-fuel_example = find-fuel by_units met 2 7 rivals start (omega arith) (omega arith)

find-Within_example : Within (find_rematch_free_matching by_units met 2 rivals start).1
find-Within_example = find-Within by_units met 2 rivals start refl (omega arith)

greedy_loop-IsPaired_example : IsPaired by_units met rivals (greedy_loop by_units met 2 rivals)
greedy_loop-IsPaired_example =
    greedy_loop-IsPaired by_units met 2 rivals ((refl, tt), (tt, tt)) (1, refl) (omega arith)

select_fair_bye-Selection_example : Selection by_units three (select_fair_bye by_units three)
select_fair_bye-Selection_example =
    select_fair_bye-Selection by_units (participant bot_a 1 0)
      (participant bot_b 0 0 ∷ participant bot_c 0 1 ∷ [])
      ((refl, (refl, tt)), ((refl, tt), (tt, tt)))

abbrev raws : List RawEntry
raws = bare bot_b ∷ object no_id (text_id (b' ' ∷ bot_c)) none ∷ bare bot_a ∷ []

abbrev entry : Text → Entry
entry id = record { bot_id = id; bot_version_id = none }

abbrev entered : List Entry
entered = entry bot_a ∷ entry bot_b ∷ entry bot_c ∷ []

normalize_raws : normalize_swiss_entries by_units raws ≡ done entered
unfolding normalize_swiss_entries ottv.Names.trim ottv.Names.is_space ottv.Prelude.sort_by
normalize_raws = refl

normalize-Distinct_example : DistinctBy entry_bot entered × (2 ≤ 3)
normalize-Distinct_example = normalize-Distinct by_units raws entered normalize_raws

abbrev round_two : Options
round_two = record {
  entries = raws;
  round_number = whole (pos 2);
  round_count = whole (pos 3);
  standings = [];
  history = met;
}

pair_swiss_round-IsRound_example :
    (r : Round) × (pair_swiss_round by_units round_two ≡ done r)
    × IsRound by_units round_two entered r
pair_swiss_round-IsRound_example =
    pair_swiss_round-IsRound by_units round_two entered 2 3 normalize_raws refl refl (omega arith)
      (omega arith)
