-- ===== src/Rules/Types.antt =====
-- The constants of packages/game-core/src/config.js and the data that
-- packages/game-core/src/rules.js passes around: seats, kinds of pieces, squares, clocks, states,
-- events and results.
use Prim.Native.String.{String}
use ottv.Prelude.{ℕ, ◌*◌, Bool, true, false, Option, none, some, List, ℤ, pos}

pub data Seat : Type 0 where
  seat_a seat_b : Seat

abbrev pub seat_eq : Seat → Seat → Bool
seat_eq seat_a seat_a = true
seat_eq seat_b seat_b = true
seat_eq _ _ = false

-- The other seat, `seat === "A" ? "B" : "A"`.
abbrev pub other : Seat → Seat
other seat_a = seat_b
other seat_b = seat_a

-- `TYPES`
pub data Kind : Type 0 where
  dam la keo : Kind

abbrev pub kind_eq : Kind → Kind → Bool
kind_eq dam dam = true
kind_eq la la = true
kind_eq keo keo = true
kind_eq _ _ = false

-- `BEATS`: the kind that a kind captures.
abbrev pub beats : Kind → Kind
beats dam = keo
beats keo = la
beats la = dam

-- `SIZE`
abbrev pub size : ℕ
size = 9

-- `TIME_CONTROL`
abbrev pub initial_ms : ℕ
initial_ms = 10 * 60 * 1000

abbrev pub reconnect_grace_ms : ℕ
reconnect_grace_ms = 60 * 1000

pub record Point : Type 0 where
  pub x : ℤ
  pub y : ℤ

abbrev pub point : ℤ → ℤ → Point
point x y = record { x = x; y = y }

-- `GOAL`
abbrev pub goal_square : Seat → Point
goal_square seat_a = point (pos 0) (pos 0)
goal_square seat_b = point (pos 8) (pos 8)

pub record Piece : Type 0 where
  pub id : String
  pub player : Seat
  pub type : Kind
  pub x : ℤ
  pub y : ℤ

pub data Reason : Type 0 where
  goal elimination no_moves timeout disconnect_timeout leave : Reason

-- `remainingMs` and `runningSeat`. All the times that the rules compute are whole and at least 0.
pub record Clock : Type 0 where
  pub remaining_a : ℕ
  pub remaining_b : ℕ
  pub running_seat : Option Seat

abbrev pub remaining : Clock → Seat → ℕ
remaining c seat_a = c.remaining_a
remaining c seat_b = c.remaining_b

abbrev pub set_remaining : Clock → Seat → ℕ → Clock
set_remaining c seat_a t = record c { remaining_a = t }
set_remaining c seat_b t = record c { remaining_b = t }

-- A state always has its list of pieces; the source takes a missing list as an empty one in places.
pub record GameState : Type 0 where
  pub turn : Seat
  pub winner : Option Seat
  pub reason : Option Reason
  pub eliminated_player : Option Seat
  pub clock : Clock
  pub pieces : List Piece

pub data GameEvent : Type 0 where
  move : String → Point → Point → GameEvent
  capture : String → String → Kind → Point → Point → GameEvent
  win : Seat → Reason → Option Seat → GameEvent

-- The messages of `fail`, one constructor for each text.
pub data RuleError : Type 0 where
  missing_state game_over invalid_board invalid_seat not_your_turn missing_square : RuleError
  off_board not_one_step no_piece own_piece same_kind stronger_piece invalid_time : RuleError

-- `{ ok: true, … }`, `fail(message)`, and the TypeError of a property read from `undefined`.
pub data Result {ℓ} (A : Type ℓ) : Type ℓ where
  ok : A → Result A
  fail : RuleError → Result A
  throws : Result A

infixl 5 ◌>>=◌ ◌>>◌
abbrev pub ◌>>=◌ {ℓ κ} : {A : Type ℓ} {B : Type κ} → Result A → (A → Result B) → Result B
ok x >>= f = f x
fail e >>= f = fail e
throws >>= f = throws

abbrev pub ◌>>◌ {ℓ} : {B : Type ℓ} → Result (Unit {0}) → Result B → Result B
m >> k = m >>= λ _. k

-- `if (!test) return fail(e)`
abbrev pub require : Bool → RuleError → Result (Unit {0})
require true e = ok tt
require false e = fail e

abbrev pub require_some {ℓ} : {A : Type ℓ} → Option A → RuleError → Result A
require_some (some x) e = ok x
require_some none e = fail e

-- A find whose result is used without a test.
abbrev pub require_found {ℓ} : {A : Type ℓ} → Option A → Result A
require_found (some x) = ok x
require_found none = throws

abbrev pub is_ok {ℓ} : {A : Type ℓ} → Result A → Bool
is_ok (ok _) = true
is_ok _ = false

abbrev pub Applied : Type 0
Applied = Result (GameState × List GameEvent)
