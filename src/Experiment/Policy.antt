-- ===== src/Experiment/Policy.antt =====
-- LifecyclePolicy of src/adaptive_agent/experiment_lifecycle.py. The field provider_disclosure is a
-- text that is passed through, and is left out.
use adaptive_agent.Prelude.{Bool, true, false, not, ◌&&◌, String, List, eqb, length, ◌==◌}
use adaptive_agent.Json.Number.{ℤ, pos, negsuc}
use adaptive_agent.Models.Refs.{is_empty}
use adaptive_agent.Gate.Checks.{strings}
use adaptive_agent.Experiment.Outcome.{Outcome, require}

pub record LifecyclePolicy : Type 0 where
  pub development_task_ids : List String
  pub reserved_transfer_environment : String
  pub adaptation_support_task_ids : List String
  pub safety_case_ids : List String
  pub required_pins : List String
  pub infrastructure_retries : ℤ

abbrev pub non_negative : ℤ → Bool
non_negative (pos n) = true
non_negative (negsuc n) = false

-- not xs or len(set(xs)) != len(xs), negated
unfoldable pub unique_names : List String → Bool
unique_names xs = not (is_empty xs) && eqb (length (strings xs)) (length xs)

-- The checks of `__post_init__`.
unfoldable pub check_policy : LifecyclePolicy → Outcome (Unit {0})
unfolding unique_names
check_policy p = require (
    not (is_empty p.development_task_ids)
    && not (p.reserved_transfer_environment == "")
    && not (is_empty p.adaptation_support_task_ids)
    && unique_names p.safety_case_ids
    && non_negative p.infrastructure_retries
    && unique_names p.required_pins)
