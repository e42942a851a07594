-- ===== src/Gate/Fixtures.antt =====
-- Concrete values for the tests of the gate.
use Prim.Native.Nat.{◌/◌}
use adaptive_agent.Prelude.{ℕ, ◌+◌, ◌-◌, ◌*◌, ◌^◌, true, some, [], ◌∷◌}
use adaptive_agent.Json.{Json, boolean, int, float, obj, end, field}
use adaptive_agent.Json.Number.{Float, finite, nan, pos, from_int}
use adaptive_agent.Gate.Values.{Arithmetic, GateConfig}
use adaptive_agent.Gate.Decision.{Report}

-- Numbers that are not negative: a difference exactly, a quotient to sixteen places.
unfoldable pub minus : Float → Float → Float
minus (finite (pos a) j) (finite (pos b) k) = finite (pos (a * 2 ^ k - b * 2 ^ j)) (j + k)
minus _ _ = nan

unfoldable pub quotient : Float → Float → Float
quotient (finite (pos a) j) (finite (pos b) k) = finite (pos (a * 2 ^ k * 2 ^ 16 / (b * 2 ^ j))) 16
quotient _ _ = nan

abbrev pub exact : Arithmetic
exact = record { of_int = from_int; sub = minus; div = quotient }

-- 1/2 and so on.
abbrev pub half : Json
half = float (finite (pos 1) 1)

abbrev pub config : GateConfig
config = record {
  min_accuracy_gain = float (finite (pos 1) 3);
  ci_lower_bound = int (pos 0);
  max_cost_ratio = int (pos 2);
  max_latency_ratio = int (pos 2);
  max_cost_microunits = int (pos 100);
  max_latency_seconds = int (pos 90);
  require_per_environment_non_regression = boolean true;
}

abbrev pub summary : Json → ℕ → Json
summary rate n = obj (
    field "accuracy" rate (
      field "reliability" (int (pos 1)) (
        field "meanCostMicrounits" (int (pos n))
          (field "p95LatencySeconds" (int (pos n)) (field "count" (int (pos 4)) end)))))

abbrev pub cell : Json
cell = obj (field "B0" (summary half 1) (field "L" (summary (int (pos 1)) 1) end))

abbrev pub report : Report
report = record {
  expected_comparison = "validation";
  comparison = some "validation";
  baseline_summary = summary half 1;
  candidate_summary = summary (int (pos 1)) 2;
  accuracy_ci_lower = float (finite (pos 1) 4);
  environment_cells = some (field "shop" cell end);
  required_environments = "shop" ∷ [];
  required_safety_case_ids = "case" ∷ [];
  safety_passed = boolean true;
  safety_violations = int (pos 0);
  safety_case_results = some (field "case" (boolean true) end);
  integrity_failures = [];
}
