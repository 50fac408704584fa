-- ===== src/BotCup/Jobs.antt =====
-- packages/bot-cup-core/src/jobs.mjs. The log of a verdict is the list of the games with a fault, in
-- the place of the sentences about them.
pub mod Tail
use ottv.Prelude.{
  ℕ, suc, zero, ◌+◌, ◌-◌, ◌*◌, Bool, true, false, ◌&&◌, ◌||◌, not, Option, none, some, List, [],
  ◌∷◌, leb, ltb, any, filter, length, if◌then◌else◌,
}
use ottv.Names.{Text}
use ottv.Rules.Types.{Seat, seat_a, seat_b}
use ottv.BotCup.Gate.{
  GameStatus, finished, unfinished, is_finished, MapId, classic, HouseGame, Contender, submission,
  house,
}

pub data JobKind : Type 0 where
  knockout gate round_robin_job swiss_job check smoke probe practice : JobKind

-- `JOB_PRIORITY`
abbrev pub job_priority : JobKind → ℕ
job_priority knockout = 40
job_priority gate = 30
job_priority round_robin_job = 30
job_priority swiss_job = 30
job_priority check = 20
job_priority smoke = 20
job_priority probe = 15
job_priority practice = 10

abbrev pub max_attempts : ℕ
max_attempts = 3

-- `smokeGames`
abbrev pub smoke_games : Text → List HouseGame
smoke_games id =
    record { game_index = 0; map_id = classic; a = submission id; b = house }
    ∷ record { game_index = 1; map_id = classic; a = house; b = submission id }
    ∷ []

-- A smoke game: whether it ended by forfeit, who lost, why, and where the submission played.
pub record SmokeGame : Type 0 where
  pub status : GameStatus
  pub forfeit : Bool
  pub loser : Option Seat
  pub reason : Text
  pub seat : Seat
  pub map_id : MapId

pub data SmokeStatus : Type 0 where
  ready smoke_failed : SmokeStatus

pub record SmokeVerdict : Type 0 where
  pub status : SmokeStatus
  pub log : List SmokeGame

abbrev pub lost_by : Option Seat → Seat → Bool
lost_by (some seat_a) seat_a = true
lost_by (some seat_b) seat_b = true
lost_by _ _ = false

abbrev pub at_fault : SmokeGame → Bool
at_fault g = g.forfeit && lost_by g.loser g.seat

abbrev pub verdict_of : List SmokeGame → SmokeVerdict
verdict_of [] = record { status = ready; log = [] }
verdict_of (g ∷ gs) = record { status = smoke_failed; log = g ∷ gs }

-- `smokeVerdict`
unfoldable pub smoke_verdict : List SmokeGame → Option SmokeVerdict
smoke_verdict games =
    if ltb (length games) 2 || any (λ (g : SmokeGame). not (is_finished g.status)) games
    then none
    else some (verdict_of (filter at_fault games))

pub data LeaseStatus : Type 0 where
  failed queued : LeaseStatus

-- `expiredLeaseStatus`
unfoldable pub expired_lease_status : ℕ → LeaseStatus
expired_lease_status attempts = if leb max_attempts attempts then failed else queued

abbrev pub ellipsis : ℕ
ellipsis = 0x2026

abbrev pub drop : ℕ → Text → Text
drop zero cs = cs
drop (suc n) [] = []
drop (suc n) (c ∷ cs) = drop n cs

-- `tailText`, of a text.
unfoldable pub tail_text : Text → ℕ → Text
tail_text value max_chars =
    if leb (length value) max_chars
    then value
    else ellipsis ∷ drop (length value - max_chars + 1) value
