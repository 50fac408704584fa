-- ===== src/BotCup/Table.antt =====
-- The tables of tournament.mjs: `headToHead`, `baseTable`, `sonnebornBerger`, `rank`,
-- `roundRobinStandings` and `swissStandings`. Points are counted in halves. The arithmetic of doubles
-- in the Sonneborn-Berger score is a parameter. A map that a loop fills is read at one team.
pub mod Totals
pub mod Ranks
use Prim.Native.Nat.{Ordering, compare}
use ottv.Prelude.{
  ℕ, zero, suc, ◌+◌, Bool, true, false, ◌&&◌, not, Option, none, some, List, [], ◌∷◌, ◌++◌, ◌==◌,
  ltb, filter, any, map, length, sort_by, ◌then_by◌, if◌then◌else◌,
}
use ottv.Names.{Text}
use ottv.Swiss.Types.{same_text, text_less}

pub record CupTeam : Type 0 where
  pub team_id : Text
  pub sealed_at : ℕ

-- A bye of a team, or a pairing that has been played.
pub record Meeting : Type 0 where
  pub a : Text
  pub b : Text
  pub points_a : ℕ
  pub points_b : ℕ
  pub wins_a : ℕ
  pub wins_b : ℕ
  pub games : ℕ

pub data CupPairing : Type 0 where
  bye : Text → CupPairing
  meeting : Meeting → CupPairing

pub record Opponent : Type 0 where
  pub id : Text
  pub points : ℕ
  pub games : ℕ

pub record Row : Type 0 where
  pub team_id : Text
  pub sealed_at : ℕ
  pub points : ℕ
  pub wins : ℕ
  pub games : ℕ
  pub byes : ℕ
  pub opponents : List Opponent

-- Two points.
abbrev pub swiss_bye_points : ℕ
swiss_bye_points = 4

abbrev pub played_as_a : Meeting → Row → Row
played_as_a m row = record row {
  points = row.points + m.points_a;
  wins = row.wins + m.wins_a;
  games = row.games + m.games;
  opponents = row.opponents ++ record { id = m.b; points = m.points_a; games = m.games } ∷ [];
}

abbrev pub played_as_b : Meeting → Row → Row
played_as_b m row = record row {
  points = row.points + m.points_b;
  wins = row.wins + m.wins_b;
  games = row.games + m.games;
  opponents = row.opponents ++ record { id = m.a; points = m.points_b; games = m.games } ∷ [];
}

abbrev pub given_bye : Row → Row
given_bye row = record row { points = row.points + swiss_bye_points; byes = suc row.byes }

-- One turn of the loop of `baseTable`, at a row.
unfoldable pub enter : CupPairing → Row → Row
enter (bye id) row = if same_text id row.team_id then given_bye row else row
enter (meeting m) row =
    let first = if same_text m.a row.team_id then played_as_a m row else row in
    if same_text m.b row.team_id then played_as_b m first else first

unfoldable pub enter_all : Row → List CupPairing → Row
unfolding enter
enter_all row [] = row
enter_all row (p ∷ ps) = enter_all (enter p row) ps

abbrev pub empty_row : CupTeam → Row
empty_row t = record {
  team_id = t.team_id;
  sealed_at = t.sealed_at;
  points = 0;
  wins = 0;
  games = 0;
  byes = 0;
  opponents = [];
}

-- `baseTable`; the identifiers of the teams are distinct.
unfoldable pub base_table : List CupTeam → List CupPairing → List Row
unfolding enter_all
base_table teams pairings = map (λ t. enter_all (empty_row t) pairings) teams

abbrev pub contains : List Text → Text → Bool
contains ids id = any (same_text id) ids

-- `headToHead`
unfoldable pub head_to_head : Text → List Text → List CupPairing → ℕ
head_to_head team tied [] = 0
head_to_head team tied (bye id ∷ ps) = head_to_head team tied ps
head_to_head team tied (meeting m ∷ ps) =
    let rest = head_to_head team tied ps in
    if same_text m.a team && contains tied m.b
    then m.points_a + rest
    else if same_text m.b team && contains tied m.a
    then m.points_b + rest
    else rest

-- `rows.get(id)?.points ?? 0`
unfoldable pub points_at : List Row → Text → ℕ
points_at [] id = 0
points_at (r ∷ rs) id =
    let rest = points_at rs id in if same_text r.team_id id then r.points else rest

-- `byPoints.get(points)`: the teams that are level on points.
abbrev pub level_with : List Row → ℕ → List Text
level_with rows points =
    map (λ (r : Row). r.team_id) (filter (λ (r : Row). r.points == points) rows)

-- The last key of a table: the smaller identifier goes first.
abbrev pub earlier_id : Text → Text → Ordering
earlier_id x y = if text_less y x then Ordering.gt else Ordering.lt

-- Sums of opponents' points, for `buchholzCut1`.
unfoldable pub sum_of : List ℕ → ℕ
sum_of [] = 0
sum_of (n ∷ ns) = n + sum_of ns

abbrev pub drop_first : List ℕ → List ℕ
drop_first [] = []
drop_first (n ∷ ns) = ns

unfoldable pub buchholz_cut1 : Row → List Row → ℕ
unfolding points_at sum_of
buchholz_cut1 row rows =
    sum_of
      (drop_first (sort_by compare (map (λ (o : Opponent). points_at rows o.id) row.opponents)))

-- The arithmetic of doubles: 0, the sum, the share `points / games * total` and the order.
module _ {Double : Type 0} (zero_double : Double) (plus : Double → Double → Double)
    (weighted : ℕ → ℕ → ℕ → Double) (compare_double : Double → Double → Ordering) where
  abbrev pub sb_term : List Row → Opponent → Double
  sb_term rows o =
      if ltb 0 o.games then weighted o.points o.games (points_at rows o.id) else zero_double

  unfoldable pub sum_sb : List Row → Double → List Opponent → Double
  unfolding points_at
  sum_sb rows sum [] = sum
  sum_sb rows sum (o ∷ os) = sum_sb rows (plus sum (sb_term rows o)) os

  -- `sonnebornBerger`
  unfoldable pub sonneborn_berger : Row → List Row → Double
  unfolding sum_sb
  sonneborn_berger row rows = sum_sb rows zero_double row.opponents

  -- A row with the keys of its table.
  pub record Keyed : Type 0 where
    pub row : Row
    pub sb : Double
    pub h2h : ℕ
    pub buchholz : ℕ

  pub record Ranked : Type 0 where
    pub keyed : Keyed
    pub rank : ℕ

  abbrev pub number_from : ℕ → List Keyed → List Ranked
  number_from i [] = []
  number_from i (k ∷ ks) = record { keyed = k; rank = i } ∷ number_from (suc i) ks

  -- `rank`
  unfoldable pub rank_by : (Keyed → Keyed → Ordering) → List Keyed → List Ranked
  rank_by cmp keyed = number_from 1 (sort_by cmp keyed)

  abbrev pub round_robin_order : Keyed → Keyed → Ordering
  round_robin_order x y =
      compare y.row.points x.row.points
      then_by compare y.h2h x.h2h
      then_by compare_double y.sb x.sb
      then_by compare y.row.wins x.row.wins
      then_by compare x.row.sealed_at y.row.sealed_at
      then_by earlier_id x.row.team_id y.row.team_id

  -- The head-to-head points count only where others are level.
  abbrev pub round_robin_keys : List Row → List CupPairing → Row → Keyed
  round_robin_keys rows pairings row =
      let tied = level_with rows row.points in
      record {
        row = row;
        sb = sonneborn_berger row rows;
        h2h = if ltb 1 (length tied) then head_to_head row.team_id tied pairings else 0;
        buchholz = 0;
      }

  -- `roundRobinStandings`
  unfoldable pub round_robin_standings : List CupTeam → List CupPairing → List Ranked
  unfolding base_table sonneborn_berger head_to_head rank_by
  round_robin_standings teams pairings =
      let rows = base_table teams pairings in
      rank_by round_robin_order (map (round_robin_keys rows pairings) rows)

  abbrev pub swiss_order : Keyed → Keyed → Ordering
  swiss_order x y =
      compare y.row.points x.row.points
      then_by compare y.buchholz x.buchholz
      then_by compare_double y.sb x.sb
      then_by compare y.row.wins x.row.wins
      then_by compare y.h2h x.h2h
      then_by compare x.row.sealed_at y.row.sealed_at
      then_by earlier_id x.row.team_id y.row.team_id

  abbrev pub swiss_keys : List Row → List CupPairing → Row → Keyed
  swiss_keys rows pairings row = record {
    row = row;
    sb = sonneborn_berger row rows;
    h2h = head_to_head row.team_id (level_with rows row.points) pairings;
    buchholz = buchholz_cut1 row rows;
  }

  -- `swissStandings`
  unfoldable pub swiss_standings : List CupTeam → List CupPairing → List Ranked
  unfolding base_table sonneborn_berger head_to_head buchholz_cut1 rank_by
  swiss_standings teams pairings =
      let rows = base_table teams pairings in
      rank_by swiss_order (map (swiss_keys rows pairings) rows)
