-- ===== src/BotCup/Score/Shared.antt =====
-- How the points of a pairing are shared.
use ottv.Prelude.{
  ◌+◌, ◌*◌, ◌≡◌, ◌≤◌, ◌∙◌, ◌↔◌, refl, Bool, true, false, ◌&&◌, not, Option, none, some, List, [],
  ◌∷◌, length, any, count, arith, if◌then◌else◌, Bool-cases, inl, inr,
}
use ottv.Rules.Types.{Seat, seat_a, seat_b}
use ottv.BotCup.Gate.{GameStatus, finished, unfinished, is_finished, Team, team_a, team_b}
use ottv.BotCup.Score.{
  GameOutcome, PlayedGame, Score, winner_side, tally, score_games, is_complete, pairing_score, draw,
  decisive,
}

-- The finished games, those that are drawn, and those that a side has won.
abbrev pub is_over : GameStatus → Bool
is_over finished = true
is_over unfinished = false

abbrev pub over : PlayedGame → Bool
over g = is_over g.status

abbrev pub is_draw : GameOutcome → Bool
is_draw draw = true
is_draw decisive = false

abbrev pub drawn : PlayedGame → Bool
drawn g = over g && is_draw g.outcome

-- The side that plays on a seat, where `red` is the side on seat A.
abbrev pub side_on : Team → Seat → Team
side_on team_a seat_a = team_a
side_on team_a seat_b = team_b
side_on team_b seat_a = team_b
side_on team_b seat_b = team_a

-- The side that has won: that on the seat of the winner; where none is named, that on seat B.
abbrev pub victor : Team → Option Seat → Team
victor red (some seat) = side_on red seat
victor red none = side_on red seat_b

abbrev pub is_side_a : Team → Bool
is_side_a team_a = true
is_side_a team_b = false

abbrev pub won_by_a : PlayedGame → Bool
won_by_a g = over g && not (is_draw g.outcome) && is_side_a (victor g.red g.winner)

abbrev pub won_by_b : PlayedGame → Bool
won_by_b g = over g && not (is_draw g.outcome) && not (is_side_a (victor g.red g.winner))

victor-winner_side :
    (status : GameStatus) (outcome : GameOutcome) (red : Team) (winner : Option Seat)
    → victor red winner
      ≡ winner_side (record { status = status; outcome = outcome; winner = winner; red = red })
victor-winner_side status outcome team_a none = refl
victor-winner_side status outcome team_b none = refl
victor-winner_side status outcome team_a (some seat_a) = refl
victor-winner_side status outcome team_a (some seat_b) = refl
victor-winner_side status outcome team_b (some seat_a) = refl
victor-winner_side status outcome team_b (some seat_b) = refl

-- What a score is worth, beside the games: it has gone up by them.
record Rises (s : Score) (games : List PlayedGame) (r : Score) : Type 0 where
  points_a : r.a ≡ s.a + (2 * count won_by_a games + count drawn games)
  points_b : r.b ≡ s.b + (2 * count won_by_b games + count drawn games)
  wins_a : r.wins_a ≡ s.wins_a + count won_by_a games
  wins_b : r.wins_b ≡ s.wins_b + count won_by_b games
  played : r.played ≡ s.played + count over games
  complete : r.complete ≡ s.complete

tally-Rises :
    (s : Score) (status : GameStatus) (outcome : GameOutcome) (winner : Option Seat) (red : Team)
    (t : Team)
    → victor red winner ≡ t
    → Rises s
        (record { status = status; outcome = outcome; winner = winner; red = red } ∷ [])
        (if is_finished status then tally outcome t s else s)
tally-Rises s unfinished outcome winner red t e = record {
  points_a = omega arith;
  points_b = omega arith;
  wins_a = omega arith;
  wins_b = omega arith;
  played = omega arith;
  complete = refl;
}
tally-Rises s finished draw winner red t e = record {
  points_a = omega arith;
  points_b = omega arith;
  wins_a = omega arith;
  wins_b = omega arith;
  played = omega arith;
  complete = refl;
}
tally-Rises s finished decisive winner red team_a e = record {
  points_a = rw e (omega arith);
  points_b = rw e (omega arith);
  wins_a = rw e (omega arith);
  wins_b = rw e (omega arith);
  played = omega arith;
  complete = refl;
}
tally-Rises s finished decisive winner red team_b e = record {
  points_a = rw e (omega arith);
  points_b = rw e (omega arith);
  wins_a = rw e (omega arith);
  wins_b = rw e (omega arith);
  played = omega arith;
  complete = refl;
}

Rises-trans :
    (s t r : Score) (g : PlayedGame) (gs : List PlayedGame)
    → Rises s (g ∷ []) t
    → Rises t gs r
    → Rises s (g ∷ gs) r
Rises-trans s t r g gs first rest = record {
  points_a = omega (arith, first.points_a, rest.points_a);
  points_b = omega (arith, first.points_b, rest.points_b);
  wins_a = omega (arith, first.wins_a, rest.wins_a);
  wins_b = omega (arith, first.wins_b, rest.wins_b);
  played = omega (arith, first.played, rest.played);
  complete = rest.complete ∙ first.complete;
}

score_games-Rises : (s : Score) (games : List PlayedGame) → Rises s games (score_games s games)
unfolding score_games
score_games-Rises s [] = record {
  points_a = omega arith;
  points_b = omega arith;
  wins_a = omega arith;
  wins_b = omega arith;
  played = omega arith;
  complete = refl;
}
score_games-Rises s (g ∷ gs) =
    Rises-trans s _ _ g gs
      (tally-Rises s g.status g.outcome g.winner g.red (winner_side g)
        (victor-winner_side g.status g.outcome g.red g.winner))
      (score_games-Rises (if is_finished g.status then tally g.outcome (winner_side g) s else s) gs)

count-le : (p : PlayedGame → Bool) (gs : List PlayedGame) → count p gs ≤ length gs
count-le p [] = omega arith
count-le p (g ∷ gs) = elim (Bool-cases (p g)) [
  | inl e ↦ rw e (omega (arith, count-le p gs))
  | inr e ↦ rw e (omega (arith, count-le p gs))
]

all_over :
    (gs : List PlayedGame)
    → (any (λ (g : PlayedGame). not (is_finished g.status)) gs ≡ false)
      ↔ (count over gs ≡ length gs)
all_over [] = (λ h. refl, λ h. refl)
all_over (g ∷ gs) = elim (Bool-cases (is_finished g.status)) [
  | inl e ↦
      let (there, back) = all_over gs in rw e (λ h. omega (arith, there h), λ h. back (omega arith))
  | inr e ↦ rw e (λ h. absurd (cc), λ h. absurd (omega (arith, count-le over gs)))
]

one_split :
    (o d a : Bool)
    → (if o then 1 else 0)
      ≡ (if o && not d && a then 1 else 0)
        + (if o && not d && not a then 1 else 0)
        + (if o && d then 1 else 0)
one_split o d a = ground arith

over-split :
    (gs : List PlayedGame) → count over gs ≡ count won_by_a gs + count won_by_b gs + count drawn gs
over-split [] = refl
over-split (g ∷ gs) = omega (
  arith,
  over-split gs,
  one_split (over g) (is_draw g.outcome) (is_side_a (victor g.red g.winner)),
)

-- What a score says of the games: the wins and the games that are over are counted, a win is worth two
-- halves of a point and a draw one to each side, and the score is complete when there are games and
-- all are over.
pub record IsScore (games : List PlayedGame) (r : Score) : Type 0 where
  wins_a : r.wins_a ≡ count won_by_a games
  wins_b : r.wins_b ≡ count won_by_b games
  played : r.played ≡ count over games
  points_a : r.a ≡ 2 * count won_by_a games + count drawn games
  points_b : r.b ≡ 2 * count won_by_b games + count drawn games
  shared : r.a + r.b ≡ 2 * r.played
  complete : (r.complete ≡ true) ↔ ((1 ≤ r.played) × (r.played ≡ length games))

complete_iff :
    (games : List PlayedGame)
    → (is_complete games ≡ true) ↔ ((1 ≤ count over games) × (count over games ≡ length games))
complete_iff games =
    let (there, back) = all_over games in
    let some_unfinished : Bool = any (λ (g : PlayedGame). not (is_finished g.status)) games in
    (
      λ h. let n : count over games ≡ length games = there (ground arith) in (ground (arith, n), n),
      λ (m, n). let u = back n in ground (arith, u),
    )

-- The wins of each side and the games that are over are counted. The side that plays red sits on seat A
-- and the other on seat B; the side on the winner's seat has won, or that on seat B where no winner is
-- named. A side has two halves of a point for each of its wins and one for each draw, so that the two
-- sides share two for each game that is over; and the score is complete exactly when there is a game
-- and all are over.
pub pairing_score-IsScore : (games : List PlayedGame) → IsScore games (pairing_score games)
unfolding pairing_score
pairing_score-IsScore games =
    let s : Score = record {
      a = 0;
      b = 0;
      wins_a = 0;
      wins_b = 0;
      played = 0;
      complete = is_complete games;
    } in
    let r = score_games-Rises s games in
    let played : (score_games s games).played ≡ count over games = omega (arith, r.played) in
    record {
      wins_a = omega (arith, r.wins_a);
      wins_b = omega (arith, r.wins_b);
      played = played;
      points_a = omega (arith, r.points_a);
      points_b = omega (arith, r.points_b);
      shared = omega (arith, r.points_a, r.points_b, r.played, over-split games);
      complete = rw (r.complete, played) (complete_iff games);
    }
