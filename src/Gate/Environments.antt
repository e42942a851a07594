-- ===== src/Gate/Environments.antt =====
-- The environments of `evaluate_performance_gate` in src/adaptive_agent/performance_gate.py.
use adaptive_agent.Prelude.{
  not, ◌&&◌, ◌||◌, String, Option, none, some, List, [], ◌∷◌, ◌++◌, if◌then◌else◌,
}
use adaptive_agent.Json.{Json, obj, Fields, keys, get}
use adaptive_agent.Json.Number.{lt}
use adaptive_agent.Gate.Values.{Arithmetic, GateConfig, item, metric, counted, in_unit}
use adaptive_agent.Gate.Reasons
use adaptive_agent.Gate.Reasons.{Metric, accuracy, reliability, Reason, when}
use adaptive_agent.Gate.Checks.{is_true, key, strings, same_names, unusable}

abbrev cell : Fields → String → Option Json
cell cells name = get name cells

-- The cells are those of the required environments, and no others.
unfoldable pub cell_reasons : Option Fields → List String → List Reason
unfolding same_names strings
cell_reasons none required = []
cell_reasons (some cells) required =
    when (not (same_names (keys cells) (strings required))) Reasons.cells_unexpected

module _ (a : Arithmetic) where
  -- The candidate may not be below the baseline in a metric.
  unfoldable pub regression : Json → Json → String → Metric → List Reason
  unfolding metric
  regression base changed name m = elim (metric a base (key m)) [
    | none ↦ Reasons.environment_invalid m name ∷ []
    | some x ↦ elim (metric a changed (key m)) [
      | none ↦ Reasons.environment_invalid m name ∷ []
      | some y ↦
          if not (in_unit x) || not (in_unit y)
          then Reasons.environment_outside m name ∷ []
          else when (lt y x) (Reasons.environment_regression m name)
    ]
  ]

  unfoldable pub compared : Json → Json → String → List Reason
  unfolding regression
  compared base changed name =
      if counted base && counted changed
      then regression base changed name accuracy ++ regression base changed name reliability
      else Reasons.environment_incomplete name ∷ []

  unfoldable pub one_environment : Option Json → String → List Reason
  unfolding compared
  one_environment (some (obj fs)) name = compared (item "B0" (obj fs)) (item "L" (obj fs)) name
  one_environment v name = Reasons.environment_missing name ∷ []

  unfoldable pub each_environment : Fields → List String → List Reason
  unfolding one_environment
  each_environment cells [] = []
  each_environment cells (name ∷ names) =
      one_environment (get name cells) name ++ each_environment cells names

  unfoldable pub required_reasons : Option Fields → List String → List Reason
  unfolding unusable strings each_environment
  required_reasons none required = Reasons.cells_missing ∷ []
  required_reasons (some cells) required =
      when (unusable required) Reasons.environments_missing
      ++ each_environment cells (strings required)

  unfoldable pub environment_reasons : GateConfig → Option Fields → List String → List Reason
  unfolding cell_reasons required_reasons
  environment_reasons c cells required =
      cell_reasons cells required
      ++ (if is_true c.require_per_environment_non_regression
          then required_reasons cells required
          else [])
