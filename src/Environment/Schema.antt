-- ===== src/Environment/Schema.antt =====
-- The schema validator of src/adaptive_agent/environment.py. `_validate` is split by groups of
-- keywords; `rec` is its recursive call. Messages and paths of errors are not modelled. `search`
-- stands for `re.search`, with `none` for a pattern that does not compile, and `multiple` for the test of `multipleOf` in float arithmetic.
pub mod Keywords
pub mod Laws
use adaptive_agent.Prelude.{
  ℕ, zero, suc, Bool, true, false, String, Option, none, some, if◌then◌else◌,
}
use adaptive_agent.Json.{
  Json, null, boolean, int, float, str, arr, obj, Items, nil, cons, Fields, end, field, get,
}
use adaptive_agent.Json.Number.{Float}
use adaptive_agent.Environment.Pointer.{resolve_ref}
use Keywords.{
  Verdict, valid, invalid, crashed, ◌then_check◌, when_has, all_of, any_of, one_of, negated, typed,
  const_check, enum_check, numeric, textual, Rec, sequence, mapping,
}

module _ (search : String → String → Option Bool) (multiple : Float → Float → Bool) where
  ref_check : Rec → Fields → Json → Json → Verdict
  ref_check rec root value (str ref) = elim (resolve_ref ref root) [
    | none ↦ invalid
    | some target ↦ rec value (obj target)
  ]
  ref_check rec root value _ = crashed

  composition : Rec → Fields → Json → Fields → Verdict
  unfolding ref_check
  composition rec root value schema =
      when_has "$ref" schema (ref_check rec root value)
      then_check when_has "allOf" schema (all_of rec value)
      then_check when_has "anyOf" schema (any_of rec value)
      then_check when_has "oneOf" schema (one_of rec value)
      then_check when_has "not" schema (negated rec value)

  scalar_checks : Json → Fields → Verdict
  scalar_checks value schema =
      typed value (get "type" schema)
      then_check when_has "const" schema (const_check value)
      then_check when_has "enum" schema (enum_check value)
      then_check numeric multiple value schema
      then_check textual search value schema

  -- The keywords of an object schema, in the order of the source.
  keywords : Rec → Fields → Json → Fields → Verdict
  keywords rec root value schema =
      composition rec root value schema
      then_check scalar_checks value schema
      then_check sequence rec value schema
      then_check mapping rec value schema

  -- The fuel is 65 - depth, so that the error "schema recursion depth exceeded" is its end.
  pub validate : ℕ → Fields → Json → Json → Verdict
  validate zero root value schema = invalid
  validate (suc fuel) root value (boolean true) = valid
  validate (suc fuel) root value (boolean false) = invalid
  validate (suc fuel) root value (obj schema) = keywords (validate fuel root) root value schema
  validate (suc fuel) root value _ = invalid

  root_of : Json → Fields
  root_of (obj schema) = schema
  root_of _ = end

  unfoldable pub validate_value : Json → Json → Verdict
  unfolding validate keywords composition scalar_checks root_of
  validate_value value schema = validate 65 (root_of schema) value schema
