-- ===== src/Swiss/History.antt =====
-- `makePairKey` and `analyzeHistory` of swiss.mjs. Its maps are read at one key: the count of a pair
-- of bots, the opponents of a bot and the seats of a bot.
pub mod Keys
use Prim.Native.Nat.{Ordering, compare}
use ottv.Prelude.{
  ℕ, suc, Bool, true, false, ◌&&◌, ◌||◌, not, Option, none, some, List, [], ◌∷◌, ◌++◌, filter,
  sort_by, if◌then◌else◌,
}
use ottv.Names.{Text}
use ottv.Swiss.Types.{HistoryMatch, Side, side_a, side_b, SeatStats, same_text, text_less}
use ottv.Swiss.Entries.{is_blank}

-- `makePairKey`: the two identifiers with a colon between them, the smaller first.
unfoldable pub make_pair_key : Text → Text → Text
make_pair_key a b = if text_less a b then a ++ b':' ∷ b else b ++ b':' ∷ a

-- The matches by round, without those that lack an identifier.
unfoldable pub chronicle : List HistoryMatch → List HistoryMatch
chronicle history =
    filter (λ (m : HistoryMatch). not (is_blank m.bot_a_id) && not (is_blank m.bot_b_id))
      (sort_by (λ (m n : HistoryMatch). compare m.round_number n.round_number) history)

-- `playedCounts.get(key) || 0`
unfoldable pub played_count : List HistoryMatch → Text → ℕ
unfolding make_pair_key
played_count [] key = 0
played_count (m ∷ ms) key =
    let rest = played_count ms key in
    if same_text (make_pair_key m.bot_a_id m.bot_b_id) key then suc rest else rest

-- `opponentsMap.get(id)`
unfoldable pub opponents_of : List HistoryMatch → Text → List Text
opponents_of [] id = []
opponents_of (m ∷ ms) id =
    let rest = opponents_of ms id in
    let second = if same_text m.bot_b_id id then m.bot_a_id ∷ rest else rest in
    if same_text m.bot_a_id id then m.bot_b_id ∷ second else second

abbrev pub fresh_stats : SeatStats
fresh_stats = record { count_a = 0; count_b = 0; last_seat = none; streak = 0 }

abbrev pub same_side : Option Side → Side → Bool
same_side (some side_a) side_a = true
same_side (some side_b) side_b = true
same_side _ _ = false

abbrev pub seated : SeatStats → Side → SeatStats
seated s side_a = record s {
  count_a = suc s.count_a;
  streak = if same_side s.last_seat side_a then suc s.streak else 1;
  last_seat = some side_a;
}
seated s side_b = record s {
  count_b = suc s.count_b;
  streak = if same_side s.last_seat side_b then suc s.streak else 1;
  last_seat = some side_b;
}

-- `seatStats.get(id)` after the matches.
unfoldable pub seat_stats : SeatStats → List HistoryMatch → Text → SeatStats
seat_stats s [] id = s
seat_stats s (m ∷ ms) id =
    let first = if same_text m.bot_a_id id then seated s side_a else s in
    seat_stats (if same_text m.bot_b_id id then seated first side_b else first) ms id
