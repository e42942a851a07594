-- ===== src/Gate/Passing/Improvement.antt =====
-- The gain, its interval and the limits of a gate of src/adaptive_agent/performance_gate.py that
-- passes.
use adaptive_agent.Prelude.{
  Bool, true, false, Option, none, some, List, [], ◌∷◌, ◌≡◌, ◌⊎◌, refl, inl, inr, if◌then◌else◌,
}
use adaptive_agent.Json.{Json}
use adaptive_agent.Json.Number.{Float, lt, le, same}
use adaptive_agent.Gate.Reasons.{
  Reason, when, Arm, baseline, candidate, Setting, accuracy_gain, ci_bound, cost_ratio,
  latency_ratio, cost_budget, latency_budget, Metric, accuracy, reliability, cost, latency,
}
use adaptive_agent.Gate.Values.{Arithmetic, GateConfig, number, metric, zero_float}
use adaptive_agent.Gate.Checks.{
  setting, setting_reasons, config_reasons, key, metric_reasons, summary_reasons, gain_reasons,
  limit_reasons, both, is_missing,
}
use adaptive_agent.Gate.Decision.{Report, evaluate_performance_gate, cost_reasons, latency_reasons}
use adaptive_agent.Gate.Parts.{append-nil, when-nil, Clean, passed-Clean}

abbrev Known : Option Float → Type 0
Known o = (x : Float) × (o ≡ some x)

known : (o : Option Float) → is_missing o ≡ false → Known o
known none h = cc
known (some x) h = (x, refl)

required-Known :
    (o : Option Float) (r : Reason) (f : Float → List Reason)
    → (elim o [ none ↦ r ∷ [] | some x ↦ f x ]) ≡ []
    → Known o
required-Known none r f h = cc
required-Known (some x) r f h = (x, refl)

optional_known :
    (o : Option Float) (x : Float) (f : Float → List Reason)
    → o ≡ some x
    → (elim o [ none ↦ [] | some y ↦ f y ]) ≡ []
    → f x ≡ []
optional_known none x f e h = cc
optional_known (some y) x f e h = cc

both_known :
    (o p : Option Float) (x y : Float) (f : Float → Float → List Reason)
    → o ≡ some x
    → p ≡ some y
    → both o p f ≡ []
    → f x y ≡ []
both_known none p x y f e e' h = cc
both_known (some x') none x y f e e' h = cc
both_known (some x') (some y') x y f e e' h = cc

abbrev every : List Setting
every = accuracy_gain ∷ ci_bound ∷ cost_ratio ∷ latency_ratio ∷ cost_budget ∷ latency_budget ∷ []

module _ (a : Arithmetic) where
  setting-Known :
      (c : GateConfig) (x : Setting) (xs : List Setting)
      → setting_reasons a c (x ∷ xs) ≡ []
      → Known (setting a c x) × (setting_reasons a c xs ≡ [])
  unfolding setting_reasons
  setting-Known c x xs h = let parts = append-nil _ _ h in (known _ (when-nil _ _ parts.0), parts.1)

  -- Every setting is a usable number.
  settings-Known :
      (c : GateConfig) → config_reasons a c ≡ [] → (x : Setting) → Known (setting a c x)
  unfolding config_reasons
  settings-Known c h x =
      let h1 =
        setting-Known c accuracy_gain
          (ci_bound ∷ cost_ratio ∷ latency_ratio ∷ cost_budget ∷ latency_budget ∷ [])
          (append-nil (setting_reasons a c every) _ h).0 in
      let h2 =
        setting-Known c ci_bound (cost_ratio ∷ latency_ratio ∷ cost_budget ∷ latency_budget ∷ [])
          h1.1 in
      let h3 =
        setting-Known c cost_ratio (latency_ratio ∷ cost_budget ∷ latency_budget ∷ []) h2.1 in
      let h4 = setting-Known c latency_ratio (cost_budget ∷ latency_budget ∷ []) h3.1 in
      let h5 = setting-Known c cost_budget (latency_budget ∷ []) h4.1 in
      let h6 = setting-Known c latency_budget [] h5.1 in
      elim x as (λ x. Known (setting a c x)) [
        | accuracy_gain ↦ h1.0
        | ci_bound ↦ h2.0
        | cost_ratio ↦ h3.0
        | latency_ratio ↦ h4.0
        | cost_budget ↦ h5.0
        | latency_budget ↦ h6.0
      ]

  metric-Known :
      (arm : Arm) (s : Json) (m : Metric) (ms : List Metric)
      → metric_reasons a arm s (m ∷ ms) ≡ []
      → Known (metric a s (key m)) × (metric_reasons a arm s ms ≡ [])
  unfolding metric_reasons
  metric-Known arm s m ms h =
      (required-Known (metric a s (key m)) _ _ (append-nil _ _ h).0, (append-nil _ _ h).1)

  arm-Known :
      (arm : Arm) (s : Json)
      → metric_reasons a arm s (accuracy ∷ reliability ∷ cost ∷ latency ∷ []) ≡ []
      → (m : Metric) → Known (metric a s (key m))
  arm-Known arm s h m =
      let h1 = metric-Known arm s accuracy (reliability ∷ cost ∷ latency ∷ []) h in
      let h2 = metric-Known arm s reliability (cost ∷ latency ∷ []) h1.1 in
      let h3 = metric-Known arm s cost (latency ∷ []) h2.1 in
      let h4 = metric-Known arm s latency [] h3.1 in
      elim m as (λ m. Known (metric a s (key m))) [
        | accuracy ↦ h1.0
        | reliability ↦ h2.0
        | cost ↦ h3.0
        | latency ↦ h4.0
      ]

  -- Both summaries have every metric.
  metrics-Known :
      (b l : Json)
      → summary_reasons a b l ≡ []
      → (m : Metric) → Known (metric a b (key m)) × Known (metric a l (key m))
  unfolding summary_reasons
  metrics-Known b l h m =
      let parts = append-nil _ _ (append-nil _ _ (append-nil _ _ h).1).1 in
      (arm-Known baseline b parts.0 m, arm-Known candidate l parts.1 m)

-- A metric stays within its limits: its absolute budget, and the ratio to a baseline that is not
-- zero.
pub record Within (a : Arithmetic) (c : GateConfig) (r : Report) (m : Metric)
    (budget ratio : Setting) : Type 0 where
  pub before : Float
  pub after : Float
  pub most : Float
  pub factor : Float
  pub before_is : metric a r.baseline_summary (key m) ≡ some before
  pub after_is : metric a r.candidate_summary (key m) ≡ some after
  pub most_is : setting a c budget ≡ some most
  pub factor_is : setting a c ratio ≡ some factor
  pub in_budget : lt most after ≡ false
  pub in_ratio : (same before zero_float ≡ true) ⊎ (lt factor (a.div after before) ≡ false)

-- The gain in accuracy reaches its threshold, and its interval lies above its bound.
pub record Improves (a : Arithmetic) (c : GateConfig) (r : Report) : Type 0 where
  pub before : Float
  pub after : Float
  pub least : Float
  pub low : Float
  pub bound : Float
  pub before_is : metric a r.baseline_summary "accuracy" ≡ some before
  pub after_is : metric a r.candidate_summary "accuracy" ≡ some after
  pub least_is : setting a c accuracy_gain ≡ some least
  pub low_is : number a r.accuracy_ci_lower ≡ some low
  pub bound_is : setting a c ci_bound ≡ some bound
  pub gain : lt (a.sub after before) least ≡ false
  pub interval : le low bound ≡ false

ratio_of :
    (zero_base : Bool) (o : List Reason) (p : Option Float) (factor : Float) (f : Float → Bool)
    (reason : Reason)
    → p ≡ some factor
    → (if zero_base then o else (elim p [ none ↦ [] | some x ↦ when (f x) reason ])) ≡ []
    → (zero_base ≡ true) ⊎ (f factor ≡ false)
ratio_of true o p factor f reason e h = inl refl
ratio_of false o p factor f reason e h =
    inr (when-nil _ _ (optional_known p factor (λ x. when (f x) reason) e h))

module _ (a : Arithmetic) (c : GateConfig) (r : Report) where
  Clean-Improves : Clean a c r → Improves a c r
  unfolding gain_reasons
  Clean-Improves h =
      let ((x, xe), (y, ye)) = metrics-Known a _ _ h.summaries accuracy in
      let (m, me) = settings-Known a c h.settings accuracy_gain in
      let (low, low_is) = known _ h.interval in
      let (bound, be) = settings-Known a c h.settings ci_bound in
      let parts = append-nil _ _ h.gain in
      record {
        before = x;
        after = y;
        least = m;
        low = low;
        bound = bound;
        before_is = xe;
        after_is = ye;
        least_is = me;
        low_is = low_is;
        bound_is = be;
        gain = when-nil _ _ (optional_known _ m _ me (both_known _ _ x y _ xe ye parts.0));
        interval = when-nil _ _ (both_known _ _ low bound _ low_is be parts.1);
      }

  within :
      (m : Metric) (budget ratio : Setting) (above above_zero above_ratio : Reason)
      → Clean a c r
      → limit_reasons a c m budget ratio above above_zero above_ratio r.baseline_summary
          r.candidate_summary
        ≡ []
      → Within a c r m budget ratio
  unfolding limit_reasons
  within m budget ratio above above_zero above_ratio h found =
      let ((x, xe), (y, ye)) = metrics-Known a _ _ h.summaries m in
      let (most, most_is) = settings-Known a c h.settings budget in
      let (factor, factor_is) = settings-Known a c h.settings ratio in
      let parts = append-nil _ _ found in
      record {
        before = x;
        after = y;
        most = most;
        factor = factor;
        before_is = xe;
        after_is = ye;
        most_is = most_is;
        factor_is = factor_is;
        in_budget = when-nil _ _ (both_known _ _ y most _ ye most_is parts.0);
        in_ratio =
            ratio_of (same x zero_float) _ _ factor _ _ factor_is
              (both_known _ _ y x _ ye xe parts.1);
      }

  -- When the gate passes, the gain in balanced accuracy reaches its threshold, the lower bound of
  -- its interval lies above the required bound, and cost and latency stay within their absolute
  -- budgets and, but for a baseline of zero, within their ratios to the baseline; all the numbers
  -- compared are there.
  pub passing-Improves :
      (evaluate_performance_gate a c r).passed ≡ true
      → Improves a c r
        × Within a c r cost cost_budget cost_ratio
        × Within a c r latency latency_budget latency_ratio
  unfolding cost_reasons latency_reasons
  passing-Improves passes =
      let h = passed-Clean a c r passes in
      (
        Clean-Improves h,
        within cost cost_budget cost_ratio _ _ _ h h.costs,
        within latency latency_budget latency_ratio _ _ _ h h.latencies,
      )
