-- ===== src/Policy/Tests.antt =====
-- The policies of the source.
use ottv.Prelude.{◌≡◌, ◌↔◌, ◌⊎◌, true, some}
use ottv.Policy.{default_match_policy, bot_cup_match_policy, validate_match_policy}
use ottv.Policy.Checked.{IsArenaPolicy, validate_match_policy_iff}

validate_match_policy_iff_example :
    ((validate_match_policy (some default_match_policy)).ok ≡ true)
    ↔ (IsArenaPolicy default_match_policy ⊎ (default_match_policy ≡ bot_cup_match_policy))
validate_match_policy_iff_example = validate_match_policy_iff default_match_policy
