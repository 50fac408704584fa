-- ===== src/Swiss/Participants.antt =====
-- `assembleParticipants`, `selectFairBye` and `sortPoolDescending` of swiss.mjs.
pub mod Bye
use Prim.Native.Nat.{Ordering, compare, ◌%◌}
use ottv.Prelude.{
  ℕ, ◌+◌, Bool, true, false, not, Option, none, some, List, [], ◌∷◌, ◌==◌, leb, ℤ, pos, ◌-ℤ◌, map,
  filter, length, sort_by, ◌then_by◌, if◌then◌else◌, ◌||◌,
}
use ottv.Names.{Text}
use ottv.Swiss.Types.{Entry, HistoryMatch, Standing, SeatStats, Participant, same_text}
use ottv.Swiss.History.{opponents_of, seat_stats, fresh_stats}

-- `standingsMap.get(id)`: the last row with the identifier.
unfoldable pub standing_of : List Standing → Text → Option Standing
standing_of [] id = none
standing_of (s ∷ ss) id = elim (standing_of ss id) [
  | some t ↦ some t
  | none ↦ if same_text s.bot_id id then some s else none
]

abbrev pub number_of : (Standing → Option ℕ) → Option Standing → ℕ
number_of f none = 0
number_of f (some s) = elim (f s) [ none ↦ 0 | some n ↦ n ]

abbrev stated_balance : Option Standing → ℤ
stated_balance none = pos 0
stated_balance (some s) = elim s.seat_balance [ none ↦ pos 0 | some b ↦ b ]

abbrev balance_of : SeatStats → Option Standing → ℤ
balance_of stats s =
    if not (stats.count_a == 0) || not (stats.count_b == 0)
    then pos stats.count_a -ℤ pos stats.count_b
    else stated_balance s

-- The first pass, over the matches in order; the Buchholz score comes with the second.
unfoldable pub assemble_one : List Standing → List HistoryMatch → Entry → Participant
assemble_one standings matches entry =
    let s = standing_of standings entry.bot_id in
    let stats = seat_stats fresh_stats matches entry.bot_id in
    record {
      bot_id = entry.bot_id;
      bot_version_id = entry.bot_version_id;
      points = number_of (λ (t : Standing). t.points) s;
      wins = number_of (λ (t : Standing). t.wins) s;
      draws = number_of (λ (t : Standing). t.draws) s;
      losses = number_of (λ (t : Standing). t.losses) s;
      played = number_of (λ (t : Standing). t.played) s;
      bye_count = number_of (λ (t : Standing). t.bye_count) s;
      seat_balance = balance_of stats s;
      last_seat = stats.last_seat;
      seat_streak = stats.streak;
      buchholz = 0;
    }

-- `pointsMap.get(id) || 0`; the identifiers are distinct.
unfoldable pub points_of : List Participant → Text → ℕ
points_of [] id = 0
points_of (p ∷ ps) id =
    let rest = points_of ps id in if same_text p.bot_id id then p.points else rest

unfoldable pub sum_points : List Participant → List Text → ℕ
unfolding points_of
sum_points ps [] = 0
sum_points ps (id ∷ ids) = points_of ps id + sum_points ps ids

-- `assembleParticipants`
unfoldable pub assemble_participants :
    List Entry → List Standing → List HistoryMatch → List Participant
unfolding assemble_one sum_points
assemble_participants entries standings matches =
    let first = map (assemble_one standings matches) entries in
    map
      (λ (p : Participant). record p {
        buchholz = sum_points first (opponents_of matches p.bot_id);
      })
      first

-- `Math.min(...)` of the numbers of byes.
unfoldable pub min_bye_count : Participant → List Participant → ℕ
min_bye_count p [] = p.bye_count
min_bye_count p (q ∷ qs) =
    let rest = min_bye_count q qs in if leb p.bye_count rest then p.bye_count else rest

abbrev pub is_odd : ℕ → Bool
is_odd n = not (n % 2 == 0)

abbrev pub without : List Participant → Text → List Participant
without ps id = filter (λ (p : Participant). not (same_text p.bot_id id)) ps

abbrev pub without_head :
    List Participant → List Participant → Option Participant × List Participant
without_head ps [] = (none, ps)
without_head ps (b ∷ bs) = (some b, without ps b.bot_id)

module _ (locale_compare : Text → Text → Ordering) where
  abbrev pub weakest_first : Participant → Participant → Ordering
  weakest_first a b =
      compare a.points b.points
      then_by compare a.wins b.wins
      then_by compare a.buchholz b.buchholz
      then_by compare a.played b.played
      then_by locale_compare a.bot_id b.bot_id

  abbrev pub strongest_first : Participant → Participant → Ordering
  strongest_first a b =
      compare b.points a.points
      then_by compare b.wins a.wins
      then_by compare b.buchholz a.buchholz
      then_by compare b.played a.played
      then_by locale_compare a.bot_id b.bot_id

  -- The candidates for a bye, the weakest first.
  unfoldable pub bye_candidates : List Participant → List Participant
  unfolding min_bye_count
  bye_candidates [] = []
  bye_candidates (p ∷ ps) =
      sort_by weakest_first
        (filter (λ (q : Participant). q.bye_count == min_bye_count p ps) (p ∷ ps))

  -- `selectFairBye`: the bye and the pool that is left.
  unfoldable pub select_fair_bye : List Participant → Option Participant × List Participant
  unfolding bye_candidates
  select_fair_bye ps =
      if is_odd (length ps) then without_head ps (bye_candidates ps) else (none, ps)

  unfoldable pub sort_pool_descending : List Participant → List Participant
  sort_pool_descending ps = sort_by strongest_first ps
