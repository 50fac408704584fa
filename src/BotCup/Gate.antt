-- ===== src/BotCup/Gate.antt =====
-- tournament.mjs of the bot cup: the gate, the format of the qualifying games, the games of a pairing
-- and the appeals. Points, which come in halves, are counted in halves.
pub mod Verdicts
use Prim.Native.Nat.{◌%◌}
use ottv.Prelude.{
  ℕ, zero, suc, ◌+◌, ◌-◌, ◌*◌, ◌≤◌, ◌<◌, ◌≡◌, ◌⊎◌, ◌↔◌, refl, Bool, true, false, ◌||◌, ◌&&◌, not,
  Option, none, some, List, [], ◌∷◌, ltb, leb, length, any, All, arith, inl, inr, Bool-cases,
  if◌then◌else◌,
}
use ottv.Names.{Text}

pub data MapId : Type 0 where
  classic flanks center : MapId

abbrev pub maps : List MapId
maps = classic ∷ flanks ∷ center ∷ []

-- Whether the status of a game is "finished".
pub data GameStatus : Type 0 where
  finished unfinished : GameStatus

abbrev pub is_finished : GameStatus → Bool
is_finished finished = true
is_finished unfinished = false

-- A seat of a gate game: the submission or the house bot.
pub data Contender : Type 0 where
  submission : Text → Contender
  house : Contender

pub record HouseGame : Type 0 where
  pub game_index : ℕ
  pub map_id : MapId
  pub a : Contender
  pub b : Contender

unfoldable pub games_on : Text → ℕ → List MapId → List HouseGame
games_on id index [] = []
games_on id index (m ∷ ms) =
    record { game_index = index * 2; map_id = m; a = submission id; b = house }
    ∷ record { game_index = index * 2 + 1; map_id = m; a = house; b = submission id }
    ∷ games_on id (suc index) ms

-- `gateGames`
unfoldable pub gate_games : Text → List HouseGame
unfolding games_on
gate_games id = games_on id 0 maps

abbrev pub gate_game_count : ℕ
gate_game_count = 6

-- Four points.
abbrev pub pass_points : ℕ
pass_points = 8

pub record GateGame : Type 0 where
  pub status : GameStatus
  pub points : ℕ

pub data GateStatus : Type 0 where
  qualified not_qualified : GateStatus

pub record GateVerdict : Type 0 where
  pub status : GateStatus
  pub points : ℕ

-- `games.reduce((sum, game) => sum + game.points, sum)`
unfoldable pub sum_gate_points : ℕ → List GateGame → ℕ
sum_gate_points sum [] = sum
sum_gate_points sum (g ∷ gs) = sum_gate_points (sum + g.points) gs

abbrev pub some_unfinished : List GateGame → Bool
some_unfinished games = any (λ (g : GateGame). not (is_finished g.status)) games

-- `gateVerdict`
unfoldable pub gate_verdict : List GateGame → Option GateVerdict
unfolding sum_gate_points
gate_verdict games =
    if ltb (length games) gate_game_count || some_unfinished games
    then none
    else some (record {
      status = if leb pass_points (sum_gate_points 0 games) then qualified else not_qualified;
      points = sum_gate_points 0 games;
    })

pub data Format : Type 0 where
  no_format round_robin swiss : Format

abbrev pub round_robin_max_teams : ℕ
round_robin_max_teams = 10

-- `chooseFormat`
unfoldable pub choose_format : ℕ → Format
choose_format qualified_count =
    if ltb qualified_count 2
    then no_format
    else if leb qualified_count round_robin_max_teams
    then round_robin
    else swiss

abbrev pub nth {ℓ} : {A : Type ℓ} → List A → ℕ → Option A
nth [] n = none
nth (x ∷ xs) zero = some x
nth (x ∷ xs) (suc n) = nth xs n

-- `swissMap`; before the first round there is no map.
unfoldable pub swiss_map : ℕ → Option MapId
swiss_map zero = none
swiss_map (suc r) = nth maps (r % 3)

pub data Team : Type 0 where
  team_a team_b : Team

pub record PairingGame : Type 0 where
  pub game_index : ℕ
  pub map_id : Option MapId
  pub red : Team

unfoldable pub both_colours : ℕ → List MapId → List PairingGame
both_colours index [] = []
both_colours index (m ∷ ms) =
    record { game_index = index * 2; map_id = some m; red = team_a }
    ∷ record { game_index = index * 2 + 1; map_id = some m; red = team_b }
    ∷ both_colours (suc index) ms

-- `pairingGames`
unfoldable pub pairing_games : Format → ℕ → List PairingGame
unfolding swiss_map both_colours
pairing_games swiss round =
    record { game_index = 0; map_id = swiss_map round; red = team_a }
    ∷ record { game_index = 1; map_id = swiss_map round; red = team_b }
    ∷ []
pairing_games _ round = both_colours 0 maps

-- The time of an appeal, in the demonstration and in the event.
pub data Mode : Type 0 where
  demo production : Mode

abbrev pub hour : ℕ
hour = 3600000

abbrev pub appeal_window : Mode → ℕ
appeal_window demo = 12 * hour
appeal_window production = 24 * hour

abbrev pub max_appeals : ℕ
max_appeals = 3

pub data AppealError : Type 0 where
  appeal_window_closed appeal_limit : AppealError

abbrev pub window_closed : Mode → Option ℕ → ℕ → Bool
window_closed mode none now = true
window_closed mode (some published) now =
    ltb now published || leb (published + appeal_window mode) now

-- `appealAllowed`: none, or why not.
unfoldable pub appeal_allowed : Mode → Option ℕ → ℕ → ℕ → Option AppealError
appeal_allowed mode results_published_at now appeals_in_stage =
    if window_closed mode results_published_at now
    then some appeal_window_closed
    else if leb max_appeals appeals_in_stage
    then some appeal_limit
    else none
