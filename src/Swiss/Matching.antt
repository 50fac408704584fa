-- ===== src/Swiss/Matching.antt =====
-- The matchings of swiss.mjs: the bounded search without a rematch, and the greedy one.
pub mod Distinct
pub mod Search
pub mod Bounded
pub mod Greedy
use Prim.Native.Nat.{Ordering, compare}
use ottv.Prelude.{
  ℕ, zero, suc, ◌+◌, ◌-◌, ◌<◌, Bool, true, false, ◌&&◌, ◌||◌, not, Option, none, some, List, [],
  ◌∷◌, ◌++◌, ◌==◌, leb, ltb, ℤ, pos_part, neg_part, filter, length, sort_by, ◌then_by◌,
  if◌then◌else◌,
}
use ottv.Names.{Text}
use ottv.Swiss.Types.{
  HistoryMatch, Participant, Pair, Side, side_a, side_b, Outcome, done, thrown, no_opponent, ◌>>=◌,
  same_text,
}
use ottv.Swiss.History.{make_pair_key, played_count, same_side}

abbrev pub max_search_steps : ℕ
max_search_steps = 5000

-- `playedCounts.get(makePairKey(u.botId, v.botId)) || 0`
unfoldable pub rematches : List HistoryMatch → Participant → Participant → ℕ
unfolding played_count make_pair_key
rematches matches u v = played_count matches (make_pair_key u.bot_id v.bot_id)

abbrev pub distance : ℕ → ℕ → ℕ
distance a b = a - b + (b - a)

abbrev pub is_negative : ℤ → Bool
is_negative b = ltb 0 (neg_part b)

abbrev pub is_positive : ℤ → Bool
is_positive b = ltb 0 (pos_part b)

abbrev pub is_zero : ℤ → Bool
is_zero b = not (is_negative b) && not (is_positive b)

abbrev both_sat : Participant → Participant → Bool
both_sat u v = elim u.last_seat [
  | none ↦ false
  | some _ ↦ elim v.last_seat [ none ↦ false | some _ ↦ true ]
]

abbrev sat_alike : Participant → Participant → Bool
sat_alike u v = elim u.last_seat [ none ↦ false | some s ↦ same_side v.last_seat s ]

-- `computeSeatCompatibilityPenalty`
unfoldable pub seat_penalty : Participant → Participant → ℕ
seat_penalty u v =
    let a = u.seat_balance in
    let b = v.seat_balance in
    if (is_negative a && is_positive b) || (is_positive a && is_negative b)
    then 0
    else if is_zero a && is_zero b && both_sat u v && not (sat_alike u v)
    then 0
    else if (is_positive a && is_positive b) || (is_negative a && is_negative b)
    then 3
    else if sat_alike u v
    then 2
    else 1

-- A pair that has met before gets a warning.
pub data Warning : Type 0 where
  fallback : Warning
  rematch_paired : Text → Text → Warning

-- `remaining.splice(remaining.findIndex(…), 1)`
abbrev pub take_out : Text → List Participant → List Participant
take_out id [] = []
take_out id (p ∷ ps) = let rest = take_out id ps in if same_text p.bot_id id then ps else p ∷ rest

abbrev pub Paired : Type 0
Paired = List Pair × List Warning

-- The steps taken and the flag of `budgetState`.
pub record Budget : Type 0 where
  pub steps : ℕ
  pub exhausted : Bool

abbrev pub Found : Type 0
Found = Option (List Pair) × Budget

abbrev pub leave_out : Participant → Participant → List Participant → List Participant
leave_out u v ps =
    filter
      (λ (p : Participant). not (same_text p.bot_id u.bot_id) && not (same_text p.bot_id v.bot_id))
      ps

-- The loop over the opponents of `u`; `look` is the search of what is left with an opponent.
unfoldable pub try_each :
    (Participant → Budget → Found) → Participant → List Participant → Budget → Found
try_each look u [] budget = (none, budget)
try_each look u (v ∷ vs) budget =
    let found = look v budget in
    let rest = try_each look u vs found.1 in
    elim found.0 [
      | some pairs ↦ (some (record { u = u; v = v } ∷ pairs), found.1)
      | none ↦ if found.1.exhausted then (none, found.1) else rest
    ]

module _ (locale_compare : Text → Text → Ordering) (matches : List HistoryMatch) where
  abbrev pub closest_first : Participant → Participant → Participant → Ordering
  closest_first u a b =
      compare (distance u.points a.points) (distance u.points b.points)
      then_by compare (distance u.wins a.wins) (distance u.wins b.wins)
      then_by compare (seat_penalty u a) (seat_penalty u b)
      then_by locale_compare a.bot_id b.bot_id

  unfoldable pub unplayed : Participant → List Participant → List Participant
  unplayed u candidates =
      sort_by (closest_first u) (filter (λ v. rematches matches u v == 0) candidates)

  -- `findRematchFreeMatching`; the fuel is spent on the participants that remain.
  unfoldable pub find_rematch_free_matching : ℕ → List Participant → Budget → Found
  unfolding unplayed try_each
  find_rematch_free_matching fuel [] budget = (some [], budget)
  find_rematch_free_matching zero (u ∷ candidates) budget = (none, budget)
  find_rematch_free_matching (suc fuel) (u ∷ candidates) budget =
      let steps = suc budget.steps in
      let look =
        λ (v : Participant). find_rematch_free_matching fuel (leave_out u v (u ∷ candidates)) in
      if leb max_search_steps steps
      then (none, record { steps = steps; exhausted = true })
      else try_each look u (unplayed u candidates) (record budget { steps = steps })

  abbrev pub least_played_first : Participant → Participant → Participant → Ordering
  least_played_first u a b =
      compare (rematches matches u a) (rematches matches u b) then_by closest_first u a b

  abbrev pub warn_of : Participant → Participant → List Warning
  warn_of u v = if ltb 0 (rematches matches u v) then rematch_paired u.bot_id v.bot_id ∷ [] else []

  -- A round of the loop, with the pairs and the warnings of the rounds after it.
  abbrev pub pair_with : Participant → Participant → Outcome Paired → Outcome Paired
  pair_with u v (done p) = done (record { u = u; v = v } ∷ p.0, warn_of u v ++ p.1)
  pair_with u v (thrown e) = thrown e

  abbrev pub pair_first :
      (List Participant → Outcome Paired)
      → Participant
      → List Participant
      → List Participant
      → Outcome Paired
  pair_first next u remaining [] = thrown no_opponent
  pair_first next u remaining (v ∷ vs) = pair_with u v (next (take_out v.bot_id remaining))

  -- The loop of `greedyFallbackMatching`; the fuel is spent on the participants that remain.
  unfoldable pub greedy_loop : ℕ → List Participant → Outcome Paired
  greedy_loop fuel [] = done ([], [])
  greedy_loop zero (u ∷ remaining) = thrown no_opponent
  greedy_loop (suc fuel) (u ∷ remaining) =
      pair_first (greedy_loop fuel) u remaining (sort_by (least_played_first u) remaining)

  -- `greedyFallbackMatching`
  unfoldable pub greedy_fallback_matching : List Participant → Outcome Paired
  unfolding greedy_loop
  greedy_fallback_matching pool = do p ← greedy_loop (length pool) pool; done (p.0, fallback ∷ p.1)
