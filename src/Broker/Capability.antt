-- ===== src/Broker/Capability.antt =====
-- `Capability.covers` and `_scope_match` of src/adaptive_agent/broker.py.
use text.Mathlib.Text.{starts_with}
use adaptive_agent.Prelude.{
  ℕ, Bool, true, false, not, String, Option, none, some, ltb, ◌==◌, if◌then◌else◌,
}
use adaptive_agent.Json.{Json, str, arr, obj, Fields, end, field, get, as_number}
use adaptive_agent.Json.Number.{Float, le}
use adaptive_agent.Json.Equality.{equal, in_items}
use adaptive_agent.Models.Refs.{EffectClass, read, write, ToolSchema}
use adaptive_agent.Models.Tools.{ToolRequest, ToolError, forbidden, never}
use adaptive_agent.Environment.Schema.Keywords.{
  Verdict, valid, invalid, crashed, check, check_answer, enum_check,
}

-- `effect` is `none` for a text that is neither 'read' nor 'write'.
pub record Capability : Type 0 where
  pub run_id : String
  pub environment_id : String
  pub tool : String
  pub effect : Option EffectClass
  pub resource_scope : Fields
  pub expires_at : ℕ

-- isinstance(arg, (int, float)) and ok(arg, limit)
numeric_bound : (Float → Float → Bool) → Json → Json → Verdict
numeric_bound ok arg limit = elim (as_number arg) [
  | none ↦ invalid
  | some x ↦ elim (as_number limit) [ none ↦ crashed | some y ↦ check (ok x y) ]
]

-- isinstance(arg, str) and ok(text, arg)
text_test : (String → String → Option Bool) → Json → Json → Verdict
text_test ok (str s) (str t) = check_answer (ok t s)
text_test ok (str s) _ = crashed
text_test ok _ t = invalid

-- The test on an option, unless it is absent.
bounded : (Json → Verdict) → Option Json → Verdict
bounded f none = valid
bounded f (some v) = f v

text_scope : (String → String → Option Bool) → Fields → Json → Verdict
unfolding text_test
text_scope search scope arg = elim (get "pattern" scope) [
  | some p ↦ text_test search arg p
  | none ↦ elim (get "prefix" scope) [
    | some p ↦ text_test (λ prefix s. some (starts_with s prefix)) arg p
    | none ↦ valid
  ]
]

-- A dict of constraints: `enum` decides alone, then the bounds, then the pattern or the prefix.
dict_scope : (String → String → Option Bool) → Fields → Json → Verdict
unfolding numeric_bound bounded text_scope
dict_scope search scope arg = elim (get "enum" scope) [
  | some options ↦ enum_check arg options
  | none ↦ elim (bounded (numeric_bound (λ a b. le b a) arg) (get "min" scope)) [
    | valid ↦ elim (bounded (numeric_bound (λ a b. le a b) arg) (get "max" scope)) [
      | valid ↦ text_scope search scope arg
      | invalid ↦ invalid
      | crashed ↦ crashed
    ]
    | invalid ↦ invalid
    | crashed ↦ crashed
  ]
]

-- `valid` is True, `invalid` is False, and `crashed` is a TypeError or a re.error.
pub scope_match : (String → String → Option Bool) → Json → Json → Verdict
unfolding dict_scope
scope_match search (obj scope) arg = dict_scope search scope arg
scope_match search (arr options) arg = check (in_items arg options)
scope_match search scope arg = check (equal scope arg)

-- Every key of the scope is an argument that satisfies its constraint.
unfoldable pub scope_ok : (String → String → Option Bool) → Fields → Fields → Verdict
scope_ok search end arguments = valid
scope_ok search (field key scope rest) arguments = elim (get key arguments) [
  | none ↦ invalid
  | some arg ↦ elim (scope_match search scope arg) [
    | valid ↦ scope_ok search rest arguments
    | invalid ↦ invalid
    | crashed ↦ crashed
  ]
]

abbrev pub same_effect : EffectClass → Option EffectClass → Bool
same_effect e none = false
same_effect read (some read) = true
same_effect read (some write) = false
same_effect write (some read) = false
same_effect write (some write) = true

pub data Coverage : Type 0 where
  covered : Coverage
  refused : ToolError → Coverage
  crashed_coverage : Coverage

abbrev forbidden_error : ToolError
forbidden_error = record { code = forbidden; retry = never }

in_scope : Verdict → Coverage
in_scope valid = covered
in_scope invalid = refused forbidden_error
in_scope crashed = crashed_coverage

unfoldable pub covers :
    (String → String → Option Bool) → ℕ → Capability → String → ToolRequest → ToolSchema → Coverage
unfolding in_scope
covers search now cap env_id request schema =
    if ltb cap.expires_at now
    then refused forbidden_error
    else if not (cap.run_id == request.run_id)
    then refused forbidden_error
    else if not (cap.environment_id == env_id)
    then refused forbidden_error
    else if not (cap.tool == request.tool)
    then refused forbidden_error
    else if not (same_effect schema.effect cap.effect)
    then refused forbidden_error
    else in_scope (scope_ok search cap.resource_scope request.arguments)
