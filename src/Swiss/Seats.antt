-- ===== src/Swiss/Seats.antt =====
-- `allocateSeats` of swiss.mjs.
use Prim.Native.Nat.{◌%◌}
use ottv.Prelude.{ℕ, Bool, Option, none, some, ◌==◌, ltb, ℤ, ◌+◌, pos_part, neg_part, if◌then◌else◌}
use ottv.Names.{Text}
use ottv.Swiss.Types.{Participant, Side, side_a, side_b}

-- The bots on seat A and on seat B.
pub record Seating : Type 0 where
  pub bot_a_id : Text
  pub bot_b_id : Text

abbrev pub in_order : Participant → Participant → Seating
in_order u v = record { bot_a_id = u.bot_id; bot_b_id = v.bot_id }

abbrev pub swapped : Participant → Participant → Seating
swapped u v = record { bot_a_id = v.bot_id; bot_b_id = u.bot_id }

-- `<` on the balances.
unfoldable pub less_balance : ℤ → ℤ → Bool
less_balance a b = ltb (pos_part a + neg_part b) (pos_part b + neg_part a)

-- Equal balances, by the seats of the last round.
unfoldable pub by_last_seat : Participant → Participant → ℕ → Option Side → Option Side → Seating
by_last_seat u v i (some side_b) (some side_a) = in_order u v
by_last_seat u v i (some side_a) (some side_b) = swapped u v
by_last_seat u v i (some side_b) (some side_b) =
    if ltb v.seat_streak u.seat_streak
    then in_order u v
    else if ltb u.seat_streak v.seat_streak
    then swapped u v
    else in_order u v
by_last_seat u v i (some side_a) (some side_a) =
    if ltb v.seat_streak u.seat_streak
    then swapped u v
    else if ltb u.seat_streak v.seat_streak
    then in_order u v
    else swapped u v
by_last_seat u v i none _ = if i % 2 == 0 then in_order u v else swapped u v
by_last_seat u v i (some _) none = if i % 2 == 0 then in_order u v else swapped u v

unfoldable pub allocate_seats : Participant → Participant → ℕ → Seating
unfolding by_last_seat less_balance
allocate_seats u v i =
    if less_balance u.seat_balance v.seat_balance
    then in_order u v
    else if less_balance v.seat_balance u.seat_balance
    then swapped u v
    else by_last_seat u v i u.last_seat v.last_seat
