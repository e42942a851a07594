-- ===== src/Models/Usage.antt =====
-- `canonical_usage` of src/adaptive_agent/models.py, on a mapping from a JSON text. A value that is
-- no mapping is a ValueError.
pub mod Laws
use adaptive_agent.Prelude.{
  ℕ, ◌+◌, ◌-◌, Bool, String, Option, none, some, List, [], ◌∷◌, ◌≡◌, ltb, eqb, if◌then◌else◌,
}
use adaptive_agent.Json.{Json, null, boolean, int, float, str, arr, obj, Fields, end, field, get}
use adaptive_agent.Json.Number.{pos, negsuc}

pub record Usage : Type 0 where
  pub input_tokens : ℕ
  pub output_tokens : ℕ
  pub total_tokens : ℕ

-- The value of a field: a count, absent (or null), or a ValueError.
pub data Count : Type 0 where
  counted : ℕ → Count
  absent invalid : Count

unfoldable pub count_of : Option Json → Count
count_of none = absent
count_of (some null) = absent
count_of (some (int (pos n))) = counted n
count_of (some (int (negsuc n))) = invalid
count_of (some (boolean b)) = invalid
count_of (some (float x)) = invalid
count_of (some (str s)) = invalid
count_of (some (arr vs)) = invalid
count_of (some (obj fs)) = invalid

-- The first field that is present decides.
unfoldable pub first_count : Fields → List String → Count
unfolding count_of
first_count value [] = absent
first_count value (key ∷ keys) =
    let rest = first_count value keys in
    elim (count_of (get key value)) [ counted n ↦ counted n | invalid ↦ invalid | absent ↦ rest ]

abbrev pub input_keys : List String
input_keys = "inputTokens" ∷ "input_tokens" ∷ "promptTokens" ∷ "prompt_tokens" ∷ "input" ∷ []

abbrev pub output_keys : List String
output_keys =
    "outputTokens" ∷ "output_tokens" ∷ "completionTokens" ∷ "completion_tokens" ∷ "output" ∷ []

abbrev pub total_keys : List String
total_keys = "totalTokens" ∷ "total_tokens" ∷ []

-- The checks of the total, when input and output are known.
unfoldable pub with_total : ℕ → ℕ → Count → Option Usage
with_total i o absent = some (record { input_tokens = i; output_tokens = o; total_tokens = i + o })
with_total i o invalid = none
with_total i o (counted t) =
    if eqb t (i + o)
    then some (record { input_tokens = i; output_tokens = o; total_tokens = t })
    else none

-- The output that the total leaves, when it is not given: `total - input`, refused below zero.
unfoldable pub with_output : ℕ → Count → Count → Option Usage
unfolding with_total
with_output i (counted o) total = with_total i o total
with_output i invalid total = none
with_output i absent absent = with_total i 0 absent
with_output i absent invalid = none
with_output i absent (counted t) = if ltb t i then none else with_total i (t - i) (counted t)

unfoldable pub with_input : Count → Count → Count → Option Usage
unfolding with_output
with_input (counted i) output total = with_output i output total
with_input absent output total = with_output 0 output total
with_input invalid output total = none

-- `none` is a ValueError.
unfoldable pub canonical_usage : Json → Option Usage
unfolding with_input first_count
canonical_usage (obj value) =
    with_input (first_count value input_keys) (first_count value output_keys)
      (first_count value total_keys)
canonical_usage null = none
canonical_usage (boolean b) = none
canonical_usage (int n) = none
canonical_usage (float x) = none
canonical_usage (str s) = none
canonical_usage (arr vs) = none

-- The mapping that the source returns.
unfoldable pub usage_object : Usage → Json
usage_object u = obj (
    field "inputTokens" (int (pos u.input_tokens)) (
      field "outputTokens" (int (pos u.output_tokens))
        (field "totalTokens" (int (pos u.total_tokens)) end)))
