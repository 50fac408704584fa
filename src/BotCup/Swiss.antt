-- ===== src/BotCup/Swiss.antt =====
-- `pairSwiss` of tournament.mjs: a Swiss round of the cup by the pairing of packages/arena.
pub mod Paired
use Prim.Native.Nat.{Ordering}
use ottv.Prelude.{
  ℕ, Bool, true, false, Option, none, some, List, [], ◌∷◌, any, filter, map, pos, sort_by,
  if◌then◌else◌,
}
use ottv.Names.{Text}
use ottv.Rules.Board.{whole}
use ottv.Swiss.Types.{
  RawEntry, bare, HistoryMatch, Standing, Outcome, done, thrown, ◌>>=◌, same_text, text_less,
}
use ottv.Swiss.Matching.{Warning}
use ottv.Swiss.Round.{Options, Pairing, Round, pair_swiss_round}
use ottv.BotCup.Table.{Row, contains}

pub record PastPairing : Type 0 where
  pub round : ℕ
  pub a : Text
  pub b : Text

pub record CupMatch : Type 0 where
  pub a : Text
  pub b : Text

pub record CupRound : Type 0 where
  pub pairings : List CupMatch
  pub bye_team : Option Text
  pub warnings : List Warning

-- `sort()` of texts, by their units.
abbrev pub text_order : Text → Text → Ordering
text_order s t =
    if text_less s t then Ordering.lt else if text_less t s then Ordering.gt else Ordering.eq

abbrev pub standing_input : Row → Standing
standing_input row = record {
  bot_id = row.team_id;
  points = some row.points;
  wins = some row.wins;
  draws = none;
  losses = none;
  played = some row.games;
  bye_count = some row.byes;
  seat_balance = none;
}

abbrev pub history_input : PastPairing → HistoryMatch
history_input p = record { round_number = p.round; bot_a_id = p.a; bot_b_id = p.b }

abbrev pub options_of : List Text → ℕ → ℕ → List Row → List PastPairing → Options
options_of active round round_count standings history = record {
  entries = map bare (sort_by text_order active);
  round_number = whole (pos round);
  round_count = whole (pos round_count);
  standings = map standing_input (filter (λ (row : Row). contains active row.team_id) standings);
  history = map history_input history;
}

abbrev pub match_of : Pairing → CupMatch
match_of p = record { a = p.bot_a_id; b = p.bot_b_id }

abbrev pub first_bye : List Text → Option Text
first_bye [] = none
first_bye (id ∷ ids) = some id

module _ (locale_compare : Text → Text → Ordering) where
  -- `pairSwiss`
  unfoldable pub pair_swiss : List Text → ℕ → ℕ → List Row → List PastPairing → Outcome CupRound
  pair_swiss active round round_count standings history = do
    r ← pair_swiss_round locale_compare (options_of active round round_count standings history)
    done (record {
      pairings = map match_of r.pairings;
      bye_team = first_bye r.byes;
      warnings = r.warnings;
    })
