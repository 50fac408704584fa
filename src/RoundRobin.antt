-- ===== src/RoundRobin.antt =====
-- packages/arena/src/domain/round-robin.mjs, and `roundRobinPairings` of the bot cup.
pub mod Balanced
pub mod Places
pub mod Once
pub mod Full
mod Tests
use Prim.Native.Nat.{◌%◌, ◌/◌}
use ottv.Prelude.{
  ℕ, zero, suc, ◌+◌, ◌-◌, ◌*◌, Bool, true, false, not, Option, none, some, List, [], ◌∷◌, ◌++◌,
  ◌==◌, leb, ltb, any, map, filter, length, sort_by, ℤ, pos, negsuc, if◌then◌else◌,
}
use ottv.Names.{Text, trim}
use ottv.Rules.Board.{Sent, whole, other_value}
use ottv.Swiss.Types.{
  RawId, no_id, text_id, other_id, RawEntry, bare, object, neither, SwissError, entry_not_object,
  id_not_text, id_empty, duplicate_entry, too_few_bots, Outcome, done, thrown, ◌>>=◌, ◌>>◌, ensure,
  same_text,
}
use ottv.Swiss.Entries.{chosen_id, is_blank}
use ottv.BotCup.Swiss.{text_order}

-- The identifier of an entry as it stands, which is not empty when trimmed.
unfoldable pub raw_id : ℕ → RawId → Outcome Text
raw_id i (text_id t) = if is_blank (trim t) then thrown (id_empty i) else done t
raw_id i no_id = thrown (id_not_text i)
raw_id i other_id = thrown (id_not_text i)

unfoldable pub id_of : ℕ → RawEntry → Outcome Text
unfolding raw_id
id_of i (bare t) = raw_id i (text_id t)
id_of i (object bot_id id version) = raw_id i (chosen_id bot_id id)
id_of i neither = thrown (entry_not_object i)

-- The loop over the entries; `seen` are the identifiers before.
unfoldable pub ids_of : ℕ → List Text → List RawEntry → Outcome (List Text)
unfolding id_of
ids_of i seen [] = done []
ids_of i seen (raw ∷ raws) = do
  id ← id_of i raw
  ensure (not (any (same_text id) seen)) (duplicate_entry id)
  rest ← ids_of (suc i) (id ∷ seen) raws
  done (id ∷ rest)

-- `validateTournamentEntries`
unfoldable pub validate_tournament_entries : List RawEntry → Outcome (List Text)
unfolding ids_of
validate_tournament_entries raws = do
  ids ← ids_of 0 [] raws
  ensure (leb 2 (length ids)) (too_few_bots (length ids))
  done (sort_by text_order ids)

pub data CountError : Type 0 where
  count_not_integer count_too_low : CountError

pub data MatchCount : Type 0 where
  matches : ℕ → MatchCount
  refused : CountError → MatchCount

-- `calculateDoubleRoundRobinMatchCount`
unfoldable pub match_count : Sent → MatchCount
match_count (whole (pos n)) = if ltb n 2 then refused count_too_low else matches (n * (n - 1))
match_count (whole (negsuc n)) = refused count_too_low
match_count other_value = refused count_not_integer

pub data Leg : Type 0 where
  first_leg second_leg : Leg

pub record Match : Type 0 where
  pub round : ℕ
  pub leg : Leg
  pub bot_a_id : Text
  pub bot_b_id : Text
  pub bot_a_version_id : Option Text
  pub bot_b_version_id : Option Text

abbrev pub is_named : RawId → Text → Bool
is_named (text_id t) id = same_text t id
is_named _ id = false

-- `entryMap.get(id)?.botVersionId`; no two entries have the same identifier.
unfoldable pub meta_version : List RawEntry → Text → Option Text
meta_version [] id = none
meta_version (bare t ∷ raws) id = meta_version raws id
meta_version (neither ∷ raws) id = meta_version raws id
meta_version (object bot_id other version ∷ raws) id =
    let rest = meta_version raws id in
    if is_named (chosen_id bot_id other) id then version else rest

-- A place of the circle: a bot, or the bye.
abbrev pub Place : Type 0
Place = Option Text

abbrev pub place_at : List Place → ℕ → Place
place_at [] n = none
place_at (p ∷ ps) zero = p
place_at (p ∷ ps) (suc n) = place_at ps n

abbrev pub is_even : ℕ → Bool
is_even n = n % 2 == 0

abbrev pub match_between : List RawEntry → ℕ → Text → Text → Match
match_between raws round a b = record {
  round = round;
  leg = first_leg;
  bot_a_id = a;
  bot_b_id = b;
  bot_a_version_id = meta_version raws a;
  bot_b_version_id = meta_version raws b;
}

-- The match of a table, unless one of the two places is the bye.
abbrev pub table_match : List RawEntry → ℕ → ℕ → Place → Place → List Match
table_match raws r i none q = []
table_match raws r i (some a) none = []
table_match raws r i (some a) (some b) =
    (if is_even (i + r) then match_between raws (suc r) a b else match_between raws (suc r) b a)
    ∷ []

-- The tables of a round from `i` on.
unfoldable pub round_matches : List RawEntry → ℕ → List Place → ℕ → ℕ → List Match
round_matches raws r circle i zero = []
round_matches raws r circle i (suc tables) =
    table_match raws r i (place_at circle i) (place_at circle (length circle - 1 - i))
    ++ round_matches raws r circle (suc i) tables

-- `P.splice(1, 0, P.pop())`
unfoldable pub last_first : List Place → List Place
last_first [] = []
last_first (p ∷ []) = p ∷ []
last_first (p ∷ q ∷ ps) = elim (last_first (q ∷ ps)) [ [] ↦ p ∷ [] | ◌∷◌ l rest ↦ l ∷ p ∷ rest ]

abbrev pub rotate : List Place → List Place
rotate [] = []
rotate (p ∷ ps) = p ∷ last_first ps

-- The rounds of the first leg from `r` on.
unfoldable pub leg_one : List RawEntry → ℕ → ℕ → List Place → List Match
unfolding round_matches last_first
leg_one raws r zero circle = []
leg_one raws r (suc rounds) circle =
    round_matches raws r circle 0 (length circle / 2) ++ leg_one raws (suc r) rounds (rotate circle)

-- A match of the second leg.
abbrev pub reversed : ℕ → Match → Match
reversed rounds m = record {
  round = m.round + rounds;
  leg = second_leg;
  bot_a_id = m.bot_b_id;
  bot_b_id = m.bot_a_id;
  bot_a_version_id = m.bot_b_version_id;
  bot_b_version_id = m.bot_a_version_id;
}

pub record Scheduled : Type 0 where
  pub schedule_index : ℕ
  pub game : Match

abbrev pub schedule_from : ℕ → List Match → List Scheduled
schedule_from i [] = []
schedule_from i (m ∷ ms) = record { schedule_index = i; game = m } ∷ schedule_from (suc i) ms

abbrev pub circle_of : List Text → List Place
circle_of ids = map some ids ++ (if is_even (length ids) then [] else none ∷ [])

-- Both legs, for the identifiers in their order.
unfoldable pub schedule_of : List RawEntry → List Text → List Scheduled
unfolding leg_one
schedule_of raws ids =
    let circle = circle_of ids in
    let rounds = length circle - 1 in
    let first = leg_one raws 0 rounds circle in
    schedule_from 0 (first ++ map (reversed rounds) first)

-- `generateDoubleRoundRobinSchedule`
unfoldable pub generate_double_round_robin_schedule : List RawEntry → Outcome (List Scheduled)
unfolding validate_tournament_entries schedule_of
generate_double_round_robin_schedule raws = do
  ids ← validate_tournament_entries raws
  done (schedule_of raws ids)

pub record CupGame : Type 0 where
  pub round : ℕ
  pub a : Text
  pub b : Text

abbrev pub is_first_leg : Leg → Bool
is_first_leg first_leg = true
is_first_leg second_leg = false

abbrev pub cup_game : Scheduled → CupGame
cup_game s = record { round = s.game.round; a = s.game.bot_a_id; b = s.game.bot_b_id }

-- `roundRobinPairings` of the bot cup.
unfoldable pub round_robin_pairings : List Text → Outcome (List CupGame)
unfolding generate_double_round_robin_schedule
round_robin_pairings team_ids = if ltb (length team_ids) 2 then done [] else (do
  schedule ← generate_double_round_robin_schedule (map bare (sort_by text_order team_ids))
  done (map cup_game (filter (λ (s : Scheduled). is_first_leg s.game.leg) schedule)))
