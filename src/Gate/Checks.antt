-- ===== src/Gate/Checks.antt =====
-- The checks of `evaluate_performance_gate` in src/adaptive_agent/performance_gate.py that do not
-- range over environments. Each is the list of reasons that it appends.
use adaptive_agent.Prelude.{
  zero, suc, Bool, true, false, not, ◌&&◌, ◌||◌, String, Option, none, some, List, [], ◌∷◌, ◌++◌,
  ◌==◌, eqb, length, all, any, member, if◌then◌else◌,
}
use adaptive_agent.Json.{Json, boolean, int, Fields, end, field, keys}
use adaptive_agent.Json.Number.{pos, negsuc, Float, lt, le, same}
use adaptive_agent.Gate.Values.{
  Arithmetic, GateConfig, zero_float, number, metric, counted, in_unit, negative,
}
use adaptive_agent.Gate.Reasons
use adaptive_agent.Gate.Reasons.{
  Arm, baseline, candidate, Setting, accuracy_gain, ci_bound, cost_ratio, latency_ratio,
  cost_budget, latency_budget, Metric, accuracy, reliability, cost, latency, Reason, dedup, when,
}

unfoldable pub is_true : Json → Bool
is_true (boolean b) = b
is_true _ = false

abbrev pub key : Metric → String
key accuracy = "accuracy"
key reliability = "reliability"
key cost = "meanCostMicrounits"
key latency = "p95LatencySeconds"

pub data Violations : Type 0 where
  malformed observed absent : Violations

unfoldable pub violations : Json → Violations
violations (int (pos zero)) = absent
violations (int (pos (suc n))) = observed
violations (int (negsuc n)) = malformed
violations v = malformed

unfoldable pub strings : List String → List String
unfolding dedup
strings = dedup (λ x y. x == y)

-- set(xs) != set(ys) or len(xs) != len(ys), for lists without repetition.
unfoldable pub same_names : List String → List String → Bool
same_names xs ys =
    all (λ x. member x ys) xs && all (λ y. member y xs) ys && eqb (length xs) (length ys)

-- The list is empty, repeats a name or holds an empty one.
unfoldable pub unusable : List String → Bool
unfolding strings
unusable required =
    eqb (length required) 0
    || not (eqb (length (strings required)) (length required))
    || any (λ x. x == "") required

unfoldable pub all_true : Fields → Bool
unfolding is_true
all_true end = true
all_true (field k v fs) = is_true v && all_true fs

is_bool : Json → Bool
is_bool (boolean b) = true
is_bool _ = false

abbrev pub nonnegative : Option Float → Option Float
nonnegative none = none
nonnegative (some x) = if negative x then none else some x

abbrev pub is_missing : Option Float → Bool
is_missing none = true
is_missing (some x) = false

-- Cost and latency may not be negative.
abbrev pub has_floor : Metric → Bool
has_floor cost = true
has_floor latency = true
has_floor m = false

-- What is appended where both values are known.
abbrev pub both : Option Float → Option Float → (Float → Float → List Reason) → List Reason
both none y f = []
both (some x) none f = []
both (some x) (some y) f = f x y

unfoldable pub violation_reasons : Violations → List Reason
violation_reasons malformed = Reasons.violations_invalid ∷ []
violation_reasons observed = Reasons.violations_nonzero ∷ []
violation_reasons absent = []

-- The registered cases are usable, all reported and no others, and each passed.
unfoldable pub case_reasons : Option Fields → List String → List Reason
unfolding unusable same_names all_true
case_reasons none required = Reasons.cases_missing ∷ []
case_reasons (some results) required =
    when (unusable required) Reasons.case_list_missing
    ++ (when (not (same_names (keys results) (strings required))) Reasons.case_coverage
        ++ when (not (all_true results)) Reasons.case_failed)

module _ (a : Arithmetic) where
  -- A setting is a finite number, and not negative but for the bound of the interval.
  unfoldable pub setting : GateConfig → Setting → Option Float
  setting c accuracy_gain = nonnegative (number a c.min_accuracy_gain)
  setting c ci_bound = number a c.ci_lower_bound
  setting c cost_ratio = nonnegative (number a c.max_cost_ratio)
  setting c latency_ratio = nonnegative (number a c.max_latency_ratio)
  setting c cost_budget = nonnegative (number a c.max_cost_microunits)
  setting c latency_budget = nonnegative (number a c.max_latency_seconds)

  unfoldable pub setting_reasons : GateConfig → List Setting → List Reason
  unfolding setting
  setting_reasons c [] = []
  setting_reasons c (x ∷ xs) =
      when (is_missing (setting c x)) (Reasons.setting_invalid x) ++ setting_reasons c xs

  ratio_reasons : GateConfig → Setting → List Reason
  unfolding setting
  ratio_reasons c x = elim (setting c x) [
    | none ↦ []
    | some r ↦ when (le r zero_float) (Reasons.setting_invalid x)
  ]

  unfoldable pub config_reasons : GateConfig → List Reason
  unfolding setting_reasons ratio_reasons is_bool
  config_reasons c =
      setting_reasons c
        (accuracy_gain ∷ ci_bound ∷ cost_ratio ∷ latency_ratio ∷ cost_budget ∷ latency_budget ∷ [])
      ++ (ratio_reasons c cost_ratio
          ++ (ratio_reasons c latency_ratio
              ++ when (not (is_bool c.require_per_environment_non_regression))
                  Reasons.non_regression_invalid))

  unfoldable pub metric_reasons : Arm → Json → List Metric → List Reason
  metric_reasons arm summary [] = []
  metric_reasons arm summary (m ∷ ms) =
      (elim (metric a summary (key m)) [
        | none ↦ Reasons.metric_invalid arm m ∷ []
        | some x ↦ when (has_floor m && negative x) (Reasons.metric_negative arm m)
      ])
      ++ metric_reasons arm summary ms

  unfoldable pub summary_reasons : Json → Json → List Reason
  unfolding metric_reasons
  summary_reasons b c =
      when (not (counted b)) (Reasons.summary_missing baseline)
      ++ (when (not (counted c)) (Reasons.summary_missing candidate)
          ++ (metric_reasons baseline b (accuracy ∷ reliability ∷ cost ∷ latency ∷ [])
              ++ metric_reasons candidate c (accuracy ∷ reliability ∷ cost ∷ latency ∷ [])))

  -- The candidate against the baseline: the gain in accuracy, and its interval.
  unfoldable pub gain_reasons : GateConfig → Json → Json → Json → List Reason
  unfolding setting
  gain_reasons c b l ci =
      both (metric a b "accuracy") (metric a l "accuracy") (λ x y. elim (setting c accuracy_gain) [
        | none ↦ []
        | some least ↦ when (lt (a.sub y x) least) Reasons.gain_below
      ])
      ++ both (number a ci) (setting c ci_bound)
          (λ low bound. when (le low bound) Reasons.ci_not_above)

  unfoldable pub outside : Arm → Json → Metric → List Reason
  outside arm summary m = elim (metric a summary (key m)) [
    | none ↦ []
    | some x ↦ when (not (in_unit x)) (Reasons.metric_outside arm m)
  ]

  unfoldable pub range_reasons : Json → Json → List Reason
  unfolding outside
  range_reasons b l =
      outside baseline b accuracy
      ++ (outside baseline b reliability
          ++ (outside candidate l accuracy ++ outside candidate l reliability))

  -- An absolute budget, and a bound on the ratio; a zero baseline has the budget as its bound.
  unfoldable pub limit_reasons :
      GateConfig → Metric → Setting → Setting → Reason → Reason → Reason → Json → Json → List Reason
  unfolding setting
  limit_reasons c m budget ratio above above_zero above_ratio b l =
      both (metric a l (key m)) (setting c budget) (λ x most. when (lt most x) above)
      ++ both (metric a l (key m)) (metric a b (key m)) (λ x base.
        if same base zero_float
        then (elim (setting c budget) [ none ↦ [] | some most ↦ when (lt most x) above_zero ])
        else (elim (setting c ratio) [
          | none ↦ []
          | some most ↦ when (lt most (a.div x base)) above_ratio
        ]))

unfoldable pub safety_reasons : Json → Json → Option Fields → List String → List Reason
unfolding is_true violations violation_reasons case_reasons
safety_reasons passed count results required =
    when (not (is_true passed)) Reasons.safety_failed
    ++ (violation_reasons (violations count) ++ case_reasons results required)
