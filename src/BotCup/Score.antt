-- ===== src/BotCup/Score.antt =====
-- `pairingScore` of tournament.mjs. Points are counted in halves.
pub mod Shared
use ottv.Prelude.{
  ℕ, suc, ◌+◌, ◌*◌, ◌≡◌, ◌≤◌, ◌∙◌, ◌↔◌, refl, Bool, true, false, ◌&&◌, not, Option, some, List, [],
  ◌∷◌, length, any, count, ltb, arith, if◌then◌else◌, Bool-cases, inl, inr,
}
use ottv.Rules.Types.{Seat, seat_a}
use ottv.BotCup.Gate.{GameStatus, finished, unfinished, is_finished, Team, team_a, team_b}

-- Whether the outcome of a game is "draw".
pub data GameOutcome : Type 0 where
  draw decisive : GameOutcome

pub record PlayedGame : Type 0 where
  pub status : GameStatus
  pub outcome : GameOutcome
  pub winner : Option Seat
  pub red : Team

pub record Score : Type 0 where
  pub a : ℕ
  pub b : ℕ
  pub wins_a : ℕ
  pub wins_b : ℕ
  pub played : ℕ
  pub complete : Bool

abbrev pub same_bool : Bool → Bool → Bool
same_bool true b = b
same_bool false b = not b

abbrev pub is_seat_a : Option Seat → Bool
is_seat_a (some seat_a) = true
is_seat_a _ = false

abbrev pub is_team_a : Team → Bool
is_team_a team_a = true
is_team_a team_b = false

abbrev pub winner_side : PlayedGame → Team
winner_side g = if same_bool (is_seat_a g.winner) (is_team_a g.red) then team_a else team_b

abbrev pub credit : Team → Score → Score
credit team_a s = record s { a = s.a + 2; wins_a = suc s.wins_a }
credit team_b s = record s { b = s.b + 2; wins_b = suc s.wins_b }

-- A finished game on the score.
abbrev pub tally : GameOutcome → Team → Score → Score
tally draw t s = record s { a = suc s.a; b = suc s.b; played = suc s.played }
tally decisive t s = credit t (record s { played = suc s.played })

unfoldable pub score_games : Score → List PlayedGame → Score
score_games s [] = s
score_games s (g ∷ gs) =
    score_games (if is_finished g.status then tally g.outcome (winner_side g) s else s) gs

abbrev pub is_complete : List PlayedGame → Bool
is_complete games =
    ltb 0 (length games) && not (any (λ (g : PlayedGame). not (is_finished g.status)) games)

-- `pairingScore`
unfoldable pub pairing_score : List PlayedGame → Score
unfolding score_games
pairing_score games =
    score_games
      (record { a = 0; b = 0; wins_a = 0; wins_b = 0; played = 0; complete = is_complete games })
      games
