-- ===== src/Gate/Decision.antt =====
-- `evaluate_performance_gate` and GateResult of src/adaptive_agent/performance_gate.py: the reasons
-- of every check, in the order of the source.
use adaptive_agent.Prelude.{
  Bool, true, false, not, String, Option, none, some, List, [], ◌∷◌, ◌++◌, ◌==◌, map, select,
}
use adaptive_agent.Json.{Json, Fields}
use adaptive_agent.Gate.Values.{Arithmetic, GateConfig, number}
use adaptive_agent.Gate.Reasons
use adaptive_agent.Gate.Reasons.{
  Reason, fromkeys, when, cost_ratio, latency_ratio, cost_budget, latency_budget, cost, latency,
}
use adaptive_agent.Gate.Checks.{
  config_reasons, summary_reasons, safety_reasons, gain_reasons, range_reasons, limit_reasons,
  is_missing,
}
use adaptive_agent.Gate.Environments.{environment_reasons}

-- The arguments of `evaluate_performance_gate`.
pub record Report : Type 0 where
  pub expected_comparison : String
  pub comparison : Option String
  pub baseline_summary : Json
  pub candidate_summary : Json
  pub accuracy_ci_lower : Json
  pub environment_cells : Option Fields
  pub required_environments : List String
  pub required_safety_case_ids : List String
  pub safety_passed : Json
  pub safety_violations : Json
  pub safety_case_results : Option Fields
  pub integrity_failures : List String

pub record GateResult : Type 0 where
  pub passed : Bool
  pub reasons : List Reason

unfoldable pub is_comparison : Option String → String → Bool
is_comparison none expected = false
is_comparison (some s) expected = s == expected

unfoldable pub integrity_reasons : List String → List Reason
integrity_reasons xs = map Reasons.integrity (select (λ x. not (x == "")) xs)

abbrev pub nothing : List Reason → Bool
nothing [] = true
nothing (r ∷ rs) = false

module _ (a : Arithmetic) where
  unfoldable pub cost_reasons : GateConfig → Report → List Reason
  unfolding limit_reasons
  cost_reasons c r =
      limit_reasons a c cost cost_budget cost_ratio Reasons.cost_exceeds Reasons.cost_exceeds_zero
        Reasons.cost_ratio_exceeds r.baseline_summary r.candidate_summary

  unfoldable pub latency_reasons : GateConfig → Report → List Reason
  unfolding limit_reasons
  latency_reasons c r =
      limit_reasons a c latency latency_budget latency_ratio Reasons.latency_exceeds
        Reasons.latency_exceeds_zero Reasons.latency_ratio_exceeds r.baseline_summary
        r.candidate_summary

  -- The checks of the metrics, after those of the inputs.
  unfoldable pub metric_part : GateConfig → Report → List Reason
  unfolding gain_reasons environment_reasons range_reasons cost_reasons latency_reasons
  metric_part c r =
      gain_reasons a c r.baseline_summary r.candidate_summary r.accuracy_ci_lower
      ++ (environment_reasons a c r.environment_cells r.required_environments
          ++ (range_reasons a r.baseline_summary r.candidate_summary
              ++ (cost_reasons c r ++ latency_reasons c r)))

  unfoldable pub found : GateConfig → Report → List Reason
  unfolding integrity_reasons config_reasons is_comparison summary_reasons safety_reasons
      metric_part
  found c r =
      fromkeys (integrity_reasons r.integrity_failures)
      ++ (config_reasons a c
          ++ (when (not (is_comparison r.comparison r.expected_comparison)) Reasons.wrong_comparison
              ++ (summary_reasons a r.baseline_summary r.candidate_summary
                  ++ (when (is_missing (number a r.accuracy_ci_lower)) Reasons.ci_invalid
                      ++ (safety_reasons r.safety_passed r.safety_violations r.safety_case_results
                            r.required_safety_case_ids
                          ++ metric_part c r)))))

  unfoldable pub evaluate_performance_gate : GateConfig → Report → GateResult
  unfolding found fromkeys
  evaluate_performance_gate c r = record {
    passed = nothing (fromkeys (found c r));
    reasons = fromkeys (found c r);
  }
