-- ===== src/BotCup/Tests.antt =====
-- A small cup.
use Prim.Native.Nat.{compare}
use ottv.Prelude.{
  ℕ, ◌+◌, ◌≤◌, ◌<◌, ◌≡◌, ◌⊎◌, ◌↔◌, refl, true, false, Bool, Option, none, some, List, [], ◌∷◌, ◌++◌,
  All, filter, count, length, arith, if◌then◌else◌,
}
use ottv.Names.{Text}
use ottv.Rules.Types.{seat_a}
use ottv.Swiss.Types.{Entry, done, same_text}
use ottv.Swiss.Tests.{by_units}
use ottv.BotCup.Gate.{finished, team_a, team_b, GateGame, qualified, gate_verdict}
use ottv.BotCup.Gate.Verdicts.{Over, points_in, gate_verdict_iff}
use ottv.BotCup.Score.{PlayedGame, draw, decisive, pairing_score}
use ottv.BotCup.Score.Shared.{IsScore, pairing_score-IsScore}
use ottv.BotCup.Table.{CupTeam, CupPairing, bye, meeting, base_table, round_robin_standings}
use ottv.BotCup.Table.Totals.{total_points, total_worth, base_table-total}
use ottv.BotCup.Table.Ranks.{IsRanking, round_robin_standings-IsRanking}
use ottv.BotCup.Bracket.{
  semi, round_of_16, KnockoutResult, knockout_first_round, next_knockout_pairings,
}
use ottv.BotCup.Bracket.Rounds.{Stage, next_knockout_pairings-Stage}
use ottv.BotCup.Bracket.Start.{IsBracket, knockout_first_round-IsBracket}
use ottv.BotCup.Interviews.{Interview, pass, fail, pending, top_four_after_interviews}
use ottv.BotCup.Interviews.Fair.{IsTopFour, top_four_after_interviews-IsTopFour}
use ottv.BotCup.Submission.{Submission, checking, ready, is_ready, sealed_submission}
use ottv.BotCup.Submission.Final.{Chosen, sealed_submission-Chosen}
use ottv.BotCup.Swiss.{CupRound, pair_swiss, options_of}
use ottv.BotCup.Swiss.Paired.{cup_seats, resting, pair_swiss_complete}
use ottv.Swiss.Entries.{normalize_swiss_entries}

abbrev red_team : Text
red_team = b'r' ∷ []

abbrev blue_team : Text
blue_team = b'b' ∷ []

abbrev green_team : Text
green_team = b'g' ∷ []

abbrev teams : List CupTeam
teams =
    record { team_id = red_team; sealed_at = 1 }
    ∷ record { team_id = blue_team; sealed_at = 2 }
    ∷ []

abbrev played : List CupPairing
played =
    meeting (record {
      a = red_team;
      b = blue_team;
      points_a = 7;
      points_b = 5;
      wins_a = 3;
      wins_b = 2;
      games = 6;
    })
    ∷ bye blue_team
    ∷ []

base_table-total_example : total_points (base_table teams played) ≡ total_worth played
base_table-total_example = base_table-total teams played ((refl, refl), (refl, tt))

abbrev whole_share : ℕ → ℕ → ℕ → ℕ
whole_share points games total = points + total

round_robin_standings-IsRanking_example :
    IsRanking 0
      (λ m n. m + n)
      whole_share
      compare
      (base_table teams played)
      (round_robin_standings 0 (λ m n. m + n) whole_share compare teams played)
round_robin_standings-IsRanking_example =
    round_robin_standings-IsRanking 0 (λ m n. m + n) whole_share compare teams played

abbrev two_games : List PlayedGame
two_games =
    record { status = finished; outcome = decisive; winner = some seat_a; red = team_b }
    ∷ record { status = finished; outcome = draw; winner = none; red = team_a }
    ∷ []

pairing_score-IsScore_example : IsScore two_games (pairing_score two_games)
pairing_score-IsScore_example = pairing_score-IsScore two_games

abbrev won : GateGame
won = record { status = finished; points = 2 }

abbrev lost : GateGame
lost = record { status = finished; points = 0 }

abbrev six_games : List GateGame
six_games = won ∷ won ∷ lost ∷ won ∷ won ∷ lost ∷ []

gate_verdict_iff_example :
    (gate_verdict six_games ≡ some (record { status = qualified; points = 8 }))
    ↔ ((6 ≤ length six_games) × All Over six_games × (points_in six_games ≡ 8) × (8 ≤ 8))
gate_verdict_iff_example = gate_verdict_iff six_games 8

abbrev seeded_four : List Text
seeded_four = red_team ∷ blue_team ∷ green_team ∷ (b'y' ∷ []) ∷ []

knockout_first_round-IsBracket_example :
    ((length seeded_four < 4) × (knockout_first_round seeded_four 4 ≡ []))
    ⊎ (((16 ≤ 4)
          × (16 ≤ length seeded_four)
          × IsBracket 16 round_of_16 seeded_four (knockout_first_round seeded_four 4))
        ⊎ ((4 ≤ length seeded_four)
            × ((4 < 16) ⊎ (length seeded_four < 16))
            × IsBracket 4 semi seeded_four (knockout_first_round seeded_four 4)))
knockout_first_round-IsBracket_example = knockout_first_round-IsBracket seeded_four 4

abbrev semi_result : ℕ → Text → ℕ → Text → ℕ → KnockoutResult
semi_result n winner winner_seed loser loser_seed = record {
  slot = semi n;
  winner_entry = record { team = winner; seed = winner_seed };
  loser_entry = record { team = loser; seed = loser_seed };
}

abbrev semi_results : List KnockoutResult
semi_results = semi_result 1 (b'y' ∷ []) 4 red_team 1 ∷ semi_result 2 blue_team 2 green_team 3 ∷ []

next_knockout_pairings-Stage_example : Stage semi_results (next_knockout_pairings semi_results)
next_knockout_pairings-Stage_example = next_knockout_pairings-Stage semi_results

abbrev interviews : Text → Interview
interviews id =
    if same_text id red_team then fail else if same_text id blue_team then pass else pending

top_four_after_interviews-IsTopFour_example :
    IsTopFour interviews seeded_four (top_four_after_interviews interviews seeded_four)
top_four_after_interviews-IsTopFour_example =
    top_four_after_interviews-IsTopFour interviews seeded_four

abbrev file_name : Text
file_name = b'a' ∷ b'/' ∷ b'b' ∷ b'.' ∷ b'p' ∷ b'y' ∷ []

abbrev submissions : List Submission
submissions =
    record { id = b'1' ∷ []; seq = 1; status = ready }
    ∷ record { id = b'2' ∷ []; seq = 2; status = checking }
    ∷ []

sealed_submission-Chosen_example :
    Chosen
      (filter (λ (s : Submission). is_ready s.status) submissions)
      none
      (sealed_submission submissions none)
sealed_submission-Chosen_example = sealed_submission-Chosen submissions none

abbrev active : List Text
active = red_team ∷ blue_team ∷ green_team ∷ []

abbrev entry_of : Text → Entry
entry_of id = record { bot_id = id; bot_version_id = none }

abbrev cup_entries : List Entry
cup_entries = entry_of blue_team ∷ entry_of green_team ∷ entry_of red_team ∷ []

normalize_active :
    normalize_swiss_entries by_units (options_of active 1 7 [] []).entries ≡ done cup_entries
unfolding normalize_swiss_entries ottv.Names.trim ottv.Names.is_space ottv.Prelude.sort_by
normalize_active = refl

pair_swiss_complete_example :
    (r : CupRound) × (pair_swiss by_units active 1 7 [] [] ≡ done r)
    × ((p : Text → Bool)
        → count p (cup_seats r.pairings) + count p (resting r.bye_team)
          ≡ count (λ (e : Entry). p e.bot_id) cup_entries)
pair_swiss_complete_example =
    pair_swiss_complete by_units active 1 7 [] [] cup_entries normalize_active (omega arith)
      (omega arith)
