-- ===== src/Gate/Values.antt =====
-- `_number`, `_metric`, `_count` and GateConfig of src/adaptive_agent/performance_gate.py.
use adaptive_agent.Prelude.{
  zero, suc, Bool, true, false, ◌&&◌, String, Option, none, some, if◌then◌else◌,
}
use adaptive_agent.Json.{Json, null, boolean, int, float, str, arr, obj, get}
use adaptive_agent.Json.Number.{ℤ, pos, negsuc, Float, is_finite, from_int, lt, le}

-- The arithmetic of `float`, which rounds.
pub record Arithmetic : Type 0 where
  pub of_int : ℤ → Float
  pub sub : Float → Float → Float
  pub div : Float → Float → Float

abbrev pub zero_float : Float
zero_float = from_int (pos 0)

abbrev pub one_float : Float
one_float = from_int (pos 1)

abbrev pub finite_only : Float → Option Float
finite_only x = if is_finite x then some x else none

unfoldable pub number : Arithmetic → Json → Option Float
number a (int n) = finite_only (a.of_int n)
number a (float x) = finite_only x
number a null = none
number a (boolean b) = none
number a (str s) = none
number a (arr xs) = none
number a (obj fs) = none

abbrev pub or_null : Option Json → Json
or_null none = null
or_null (some v) = v

-- value.get(key), or what stands for an attribute that is not there.
unfoldable pub item : String → Json → Json
item key (obj fs) = or_null (get key fs)
item key _ = null

unfoldable pub metric : Arithmetic → Json → String → Option Float
unfolding item number
metric a summary key = number a (item key summary)

-- The count of a summary: true when it is a positive integer.
unfoldable pub counted : Json → Bool
unfolding item
counted summary = elim (item "count" summary) [
  | int n ↦ elim n [ pos k ↦ (elim k [ zero ↦ false | suc j ↦ true ]) | negsuc k ↦ false ]
  | _ ↦ false
]

-- The settings come from a serialized protocol, so each may be any value.
pub record GateConfig : Type 0 where
  pub min_accuracy_gain : Json
  pub ci_lower_bound : Json
  pub max_cost_ratio : Json
  pub max_latency_ratio : Json
  pub max_cost_microunits : Json
  pub max_latency_seconds : Json
  pub require_per_environment_non_regression : Json

unfoldable pub in_unit : Float → Bool
in_unit x = le zero_float x && le x one_float

unfoldable pub negative : Float → Bool
negative x = lt x zero_float
