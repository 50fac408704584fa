-- ===== src/Policy.antt =====
-- packages/arena/src/domain/match-policy.mjs. A field of a policy is a number, some other value, or
-- missing; the sentences of the errors stand as their path and code.
pub mod Checked
mod Tests
use ottv.Prelude.{
  ℕ, zero, suc, Bool, true, false, ◌&&◌, not, Option, none, some, List, [], ◌∷◌, ◌++◌, ◌==◌, ℤ, pos,
  negsuc, ltb, map, if◌then◌else◌,
}

-- A value that stands in a field: nothing, a whole number, or some other value.
pub data Field : Type 0 where
  missing : Field
  integer : ℤ → Field
  otherwise : Field

-- Names of policies, of clock boundaries and of clock sources.
pub data Version : Type 0 where
  arena_policy_v1 bot_cup_policy_v1 other_version : Version

pub data Boundary : Type 0 where
  strict_less_than_budget other_boundary : Boundary

pub data ClockSource : Type 0 where
  referee_monotonic other_source : ClockSource

pub record Policy : Type 0 where
  pub match_policy_version : Version
  pub max_plies : Field
  pub initial_time_ms : Field
  pub turn_time_limit_ms : Field
  pub first_move_grace_ms : Field
  pub clock_boundary : Boundary
  pub clock_source : ClockSource

abbrev pub default_match_policy : Policy
default_match_policy = record {
  match_policy_version = arena_policy_v1;
  max_plies = integer (pos 400);
  initial_time_ms = integer (pos 600000);
  turn_time_limit_ms = integer (pos 1000);
  first_move_grace_ms = missing;
  clock_boundary = strict_less_than_budget;
  clock_source = referee_monotonic;
}

abbrev pub bot_cup_match_policy : Policy
bot_cup_match_policy = record {
  match_policy_version = bot_cup_policy_v1;
  max_plies = integer (pos 300);
  initial_time_ms = integer (pos 30000);
  turn_time_limit_ms = integer (pos 500);
  first_move_grace_ms = integer (pos 5000);
  clock_boundary = strict_less_than_budget;
  clock_source = referee_monotonic;
}

-- The errors: a value that the version does not have, with its field, and the codes of the others.
pub data PolicyField : Type 0 where
  max_plies_field initial_time_field turn_time_limit_field first_move_grace_field : PolicyField

pub data PolicyError : Type 0 where
  invalid_type : PolicyError
  unsupported_policy_value : PolicyField → PolicyError
  unsupported_policy_version unsupported_first_move_grace unsupported_max_plies : PolicyError
  invalid_max_plies invalid_initial_time invalid_turn_time_limit : PolicyError
  invalid_clock_boundary invalid_clock_source : PolicyError

abbrev pub same_integer : ℤ → ℤ → Bool
same_integer (pos m) (pos n) = m == n
same_integer (negsuc m) (negsuc n) = m == n
same_integer _ _ = false

-- `!==` between a field and a number.
abbrev pub is_number : Field → ℕ → Bool
is_number (integer i) n = same_integer i (pos n)
is_number _ n = false

abbrev pub is_missing : Field → Bool
is_missing missing = true
is_missing _ = false

-- `Number.isInteger(value) && value > 0`
abbrev pub is_positive_integer : Field → Bool
is_positive_integer (integer (pos n)) = ltb 0 n
is_positive_integer _ = false

-- An error in front of those behind it, where a test fails.
abbrev pub unless : Bool → PolicyError → List PolicyError → List PolicyError
unless true e rest = rest
unless false e rest = e ∷ rest

-- The fields whose numbers the version of the cup pins; `rest` are the errors behind them.
abbrev pub pinned_errors : Policy → List PolicyError → List PolicyError
pinned_errors p rest =
    unless (is_number p.max_plies 300) (unsupported_policy_value max_plies_field) (
      unless (is_number p.initial_time_ms 30000) (unsupported_policy_value initial_time_field) (
        unless (is_number p.turn_time_limit_ms 500) (unsupported_policy_value turn_time_limit_field)
          (unless (is_number p.first_move_grace_ms 5000)
            (unsupported_policy_value first_move_grace_field) rest)))

unfoldable pub version_errors : Version → Policy → List PolicyError → List PolicyError
version_errors bot_cup_policy_v1 p rest = pinned_errors p rest
version_errors other_version p rest = unsupported_policy_version ∷ rest
version_errors arena_policy_v1 p rest =
    unless (is_missing p.first_move_grace_ms) unsupported_first_move_grace rest

unfoldable pub plies_errors : Version → Policy → List PolicyError → List PolicyError
plies_errors arena_policy_v1 p rest = unless (is_number p.max_plies 400) unsupported_max_plies rest
plies_errors bot_cup_policy_v1 p rest =
    unless (is_positive_integer p.max_plies) invalid_max_plies rest
plies_errors other_version p rest = unless (is_positive_integer p.max_plies) invalid_max_plies rest

abbrev pub is_strict : Boundary → Bool
is_strict strict_less_than_budget = true
is_strict other_boundary = false

abbrev pub is_monotonic : ClockSource → Bool
is_monotonic referee_monotonic = true
is_monotonic other_source = false

-- The errors that do not depend on the version.
abbrev pub common_errors : Policy → List PolicyError
common_errors p = unless (is_positive_integer p.initial_time_ms) invalid_initial_time (
    unless (is_positive_integer p.turn_time_limit_ms) invalid_turn_time_limit (
      unless (is_strict p.clock_boundary) invalid_clock_boundary
        (unless (is_monotonic p.clock_source) invalid_clock_source [])))

-- The errors of an object, in the order of the source.
unfoldable pub policy_errors : Policy → List PolicyError
unfolding version_errors plies_errors
policy_errors p =
    version_errors p.match_policy_version p
      (plies_errors p.match_policy_version p (common_errors p))

pub record Validation : Type 0 where
  pub ok : Bool
  pub errors : List PolicyError

abbrev pub no_errors : List PolicyError → Bool
no_errors [] = true
no_errors (e ∷ es) = false

-- `validateMatchPolicy`; what is not an object is none.
unfoldable pub validate_match_policy : Option Policy → Validation
unfolding policy_errors
validate_match_policy none = record { ok = false; errors = invalid_type ∷ [] }
validate_match_policy (some p) = record {
  ok = no_errors (policy_errors p);
  errors = policy_errors p;
}
