-- ===== src/Gate/Tests.antt =====
-- The gate of src/adaptive_agent/performance_gate.py on concrete reports.
use adaptive_agent.Prelude.{true, some, [], ◌∷◌, ◌≡◌, refl}
use adaptive_agent.Json.{Json, boolean, int, Fields, get, keys}
use adaptive_agent.Json.Number.{pos, lt, le, same}
use adaptive_agent.Gate.Values.{number, item, metric, counted, in_unit, negative}
use adaptive_agent.Gate.Reasons.{
  dedup, fromkeys, gain_below, accuracy, reliability, latency, cost, latency_ratio, cost_ratio,
  latency_budget, cost_budget,
}
use adaptive_agent.Gate.Checks.{
  is_true, violations, strings, same_names, unusable, all_true, violation_reasons, case_reasons,
  setting, setting_reasons, config_reasons, metric_reasons, summary_reasons, gain_reasons, outside,
  range_reasons, limit_reasons, safety_reasons,
}
use adaptive_agent.Gate.Environments.{
  cell_reasons, regression, compared, one_environment, each_environment, required_reasons,
  environment_reasons,
}
use adaptive_agent.Gate.Decision.{
  is_comparison, integrity_reasons, cost_reasons, latency_reasons, metric_part, found,
  evaluate_performance_gate,
}
use adaptive_agent.Gate.Passing.Safety.{passing_safe}
use adaptive_agent.Gate.Passing.Improvement.{Improves, Within, passing-Improves}
use adaptive_agent.Gate.Passing.Regression.{Holds, passing_regresses_nowhere}
use adaptive_agent.Gate.Fixtures.{minus, quotient, exact, half, config, summary, report}

passes : (evaluate_performance_gate exact config report).passed ≡ true
unfolding minus quotient evaluate_performance_gate found fromkeys dedup integrity_reasons
    config_reasons setting_reasons setting is_comparison summary_reasons metric_reasons
    safety_reasons violations violation_reasons case_reasons strings same_names unusable all_true
    is_true metric_part gain_reasons range_reasons outside limit_reasons cost_reasons
    latency_reasons environment_reasons required_reasons cell_reasons each_environment
    one_environment compared regression number item metric counted in_unit negative get keys lt le
    same
passes = refl

-- A gain of nothing is below the threshold.
small_gain :
    (evaluate_performance_gate exact config
      (record report { candidate_summary = summary half 2 })).reasons
    ≡ gain_below ∷ []
unfolding minus quotient evaluate_performance_gate found fromkeys dedup integrity_reasons
    config_reasons setting_reasons setting is_comparison summary_reasons metric_reasons
    safety_reasons violations violation_reasons case_reasons strings same_names unusable all_true
    is_true metric_part gain_reasons range_reasons outside limit_reasons cost_reasons
    latency_reasons environment_reasons required_reasons cell_reasons each_environment
    one_environment compared regression number item metric counted in_unit negative get keys lt le
    same
small_gain = refl

passing_safe_example :
    (boolean true ≡ boolean true)
    × (int (pos 0) ≡ int (pos 0))
    × ((results : Fields) × (report.safety_case_results ≡ some results)
        × (get "case" results ≡ some (boolean true)))
passing_safe_example = passing_safe exact config report "case" refl passes

passing-Improves_example :
    Improves exact config report
    × Within exact config report cost cost_budget cost_ratio
    × Within exact config report latency latency_budget latency_ratio
passing-Improves_example = passing-Improves exact config report passes

passing_regresses_nowhere_example :
    (cells : Fields) × (report.environment_cells ≡ some cells)
    × ((c : Json) × (get "shop" cells ≡ some c)
        × Holds exact c accuracy
        × Holds exact c reliability)
passing_regresses_nowhere_example =
    passing_regresses_nowhere exact config report "shop" (unfold is_true in refl) refl passes
