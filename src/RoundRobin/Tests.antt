-- ===== src/RoundRobin/Tests.antt =====
-- A schedule of three bots.
use ottv.Prelude.{◌≤◌, ◌≡◌, refl, arith, count, List, [], ◌∷◌}
use ottv.Swiss.Types.{same_text}
use ottv.Names.{Text}
use ottv.RoundRobin.{schedule_of}
use ottv.RoundRobin.Balanced.{IsBalanced, schedule_of-IsBalanced}
use ottv.RoundRobin.Once.{seats_in, games_of, schedule_of-seats_in}
use ottv.RoundRobin.Full.{schedule_of-even}

abbrev three_bots : List Text
three_bots = (b'x' ∷ []) ∷ (b'y' ∷ []) ∷ (b'z' ∷ []) ∷ []

schedule_of-IsBalanced_example : IsBalanced (schedule_of [] three_bots)
schedule_of-IsBalanced_example = schedule_of-IsBalanced [] three_bots

schedule_of-seats_in_example :
    seats_in (same_text (b'x' ∷ [])) 1 (games_of (schedule_of [] three_bots))
    ≤ count (same_text (b'x' ∷ [])) three_bots
schedule_of-seats_in_example = schedule_of-seats_in [] three_bots (same_text (b'x' ∷ [])) 1

abbrev two_bots : List Text
two_bots = (b'x' ∷ []) ∷ (b'y' ∷ []) ∷ []

schedule_of-even_example :
    seats_in (same_text (b'x' ∷ [])) 2 (games_of (schedule_of [] two_bots))
    ≡ count (same_text (b'x' ∷ [])) two_bots
schedule_of-even_example =
    schedule_of-even [] two_bots (same_text (b'x' ∷ [])) 1 2 refl (omega arith) (omega arith)
