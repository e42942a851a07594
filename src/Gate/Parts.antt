-- ===== src/Gate/Parts.antt =====
-- The checks of src/adaptive_agent/performance_gate.py one by one, where no reason was found.
use adaptive_agent.Prelude.{Bool, true, false, not, List, [], ◌∷◌, ◌++◌, ◌≡◌, refl}
use adaptive_agent.Gate.Reasons.{Reason, fromkeys-nil, when}
use adaptive_agent.Gate.Values.{Arithmetic, GateConfig, number}
use adaptive_agent.Gate.Checks.{
  config_reasons, summary_reasons, safety_reasons, gain_reasons, range_reasons, is_missing,
}
use adaptive_agent.Gate.Environments.{environment_reasons}
use adaptive_agent.Gate.Decision.{
  Report, is_comparison, integrity_reasons, cost_reasons, latency_reasons, metric_part, found,
  evaluate_performance_gate, nothing,
}

pub append-nil {ℓ} : {A : Type ℓ} (xs ys : List A) → xs ++ ys ≡ [] → (xs ≡ []) × (ys ≡ [])
append-nil [] ys h = (refl, h)
append-nil (x ∷ xs) ys h = cc

pub when-nil : (b : Bool) (r : Reason) → when b r ≡ [] → b ≡ false
when-nil true r h = cc
when-nil false r h = refl

pub not-false : (b : Bool) → not b ≡ false → b ≡ true
not-false true h = refl
not-false false h = cc

nothing-nil : (rs : List Reason) → nothing rs ≡ true → rs ≡ []
nothing-nil [] h = refl
nothing-nil (r ∷ rs) h = cc

-- The parts of a report in which nothing is found.
pub record Clean (a : Arithmetic) (c : GateConfig) (r : Report) : Type 0 where
  pub integrity : integrity_reasons r.integrity_failures ≡ []
  pub settings : config_reasons a c ≡ []
  pub comparison : is_comparison r.comparison r.expected_comparison ≡ true
  pub summaries : summary_reasons a r.baseline_summary r.candidate_summary ≡ []
  pub interval : is_missing (number a r.accuracy_ci_lower) ≡ false
  pub safety :
      safety_reasons r.safety_passed r.safety_violations r.safety_case_results
        r.required_safety_case_ids
      ≡ []
  pub gain : gain_reasons a c r.baseline_summary r.candidate_summary r.accuracy_ci_lower ≡ []
  pub environments : environment_reasons a c r.environment_cells r.required_environments ≡ []
  pub ranges : range_reasons a r.baseline_summary r.candidate_summary ≡ []
  pub costs : cost_reasons a c r ≡ []
  pub latencies : latency_reasons a c r ≡ []

module _ (a : Arithmetic) (c : GateConfig) (r : Report) where
  found-Clean : found a c r ≡ [] → Clean a c r
  unfolding found metric_part
  found-Clean h =
      let h1 = append-nil _ _ h in
      let h2 = append-nil _ _ h1.1 in
      let h3 = append-nil _ _ h2.1 in
      let h4 = append-nil _ _ h3.1 in
      let h5 = append-nil _ _ h4.1 in
      let h6 = append-nil _ _ h5.1 in
      let h7 = append-nil _ _ h6.1 in
      let h8 = append-nil _ _ h7.1 in
      let h9 = append-nil _ _ h8.1 in
      let h10 = append-nil _ _ h9.1 in
      record {
        integrity = fromkeys-nil _ h1.0;
        settings = h2.0;
        comparison = not-false _ (when-nil _ _ h3.0);
        summaries = h4.0;
        interval = when-nil _ _ h5.0;
        safety = h6.0;
        gain = h7.0;
        environments = h8.0;
        ranges = h9.0;
        costs = h10.0;
        latencies = h10.1;
      }

  pub passed-Clean : (evaluate_performance_gate a c r).passed ≡ true → Clean a c r
  unfolding evaluate_performance_gate
  passed-Clean h = found-Clean (fromkeys-nil _ (nothing-nil _ h))
