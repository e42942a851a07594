-- ===== src/Environment/Schema/Keywords/Scalars.antt =====
-- `_TYPE_MAP`, `_check_type`, const, enum, and the numeric and string constraints.
use Prim.Native.String.{count}
use text.Mathlib.Text.{find?}
use adaptive_agent.Prelude.{Bool, true, false, not, String, Option, none, some, ◌==◌, if◌then◌else◌}
use adaptive_agent.Json.{
  Json, null, boolean, int, float, str, arr, obj, Items, nil, cons, Fields, has, as_number,
}
use adaptive_agent.Json.Number.{Float, pos, from_int, lt, le, same}
use adaptive_agent.Json.Equality.{equal, in_items}
use adaptive_agent.Environment.Schema.Keywords.Verdicts.{
  Verdict, valid, invalid, crashed, ◌then_check◌, check, check_answer, when_has,
}

is_number : Json → Bool
is_number (int n) = true
is_number (float x) = true
is_number _ = false

-- `_TYPE_MAP.get(name)` applied to a value; `none` for a name that the map lacks.
has_type : String → Json → Option Bool
unfolding is_number
has_type name value =
    if name == "object"
    then some (elim value [ obj fs ↦ true | _ ↦ false ])
    else if name == "array"
    then some (elim value [ arr xs ↦ true | _ ↦ false ])
    else if name == "string"
    then some (elim value [ str s ↦ true | _ ↦ false ])
    else if name == "integer"
    then some (elim value [ int n ↦ true | _ ↦ false ])
    else if name == "number"
    then some (is_number value)
    else if name == "boolean"
    then some (elim value [ boolean b ↦ true | _ ↦ false ])
    else if name == "null"
    then some (elim value [ null ↦ true | _ ↦ false ])
    else none

-- Unsupported names are an error alone and no match in a union.
one_type : Option Bool → Verdict
one_type none = invalid
one_type (some b) = check b

in_union : Json → Items → Verdict
unfolding has_type
in_union value nil = invalid
in_union value (cons t ts) =
    let rest = in_union value ts in
    elim t [
      | str name ↦ elim (has_type name value) [ some b ↦ if b then valid else rest | none ↦ rest ]
      | arr xs ↦ crashed
      | obj fs ↦ crashed
      | _ ↦ rest
    ]

unfoldable pub typed : Json → Option Json → Verdict
unfolding has_type one_type in_union
typed value none = valid
typed value (some (str name)) = one_type (has_type name value)
typed value (some (arr ts)) = in_union value ts
typed value (some _) = valid

unfoldable pub const_check : Json → Json → Verdict
const_check value expected = check (equal value expected)

substring : String → String → Bool
substring s t = elim (find? t s) [ none ↦ false | some i ↦ true ]

-- value in enum; a dict is searched by key, which an unhashable value cannot be.
unfoldable pub enum_check : Json → Json → Verdict
unfolding substring
enum_check value (arr xs) = check (in_items value xs)
enum_check value (obj fs) = elim value [
  | str k ↦ check (has k fs)
  | arr xs ↦ crashed
  | obj gs ↦ crashed
  | _ ↦ invalid
]
enum_check value (str t) = elim value [ str s ↦ check (substring s t) | _ ↦ crashed ]
enum_check value _ = crashed

-- A comparison with a bound of the schema; no text, list or dict compares with a number.
bound : (Float → Float → Bool) → Float → Json → Verdict
bound ok x limit = elim (as_number limit) [ none ↦ crashed | some y ↦ check (ok x y) ]

multiple_of : (Float → Float → Bool) → Float → Json → Verdict
multiple_of multiple x m = elim (as_number m) [
  | none ↦ invalid
  | some y ↦ if same y (from_int (pos 0)) then invalid else check (multiple x y)
]

number_checks : (Float → Float → Bool) → Float → Fields → Verdict
unfolding bound multiple_of
number_checks multiple x schema =
    when_has "minimum" schema (bound (λ a b. not (lt a b)) x)
    then_check when_has "maximum" schema (bound (λ a b. not (lt b a)) x)
    then_check when_has "exclusiveMinimum" schema (bound (λ a b. not (le a b)) x)
    then_check when_has "exclusiveMaximum" schema (bound (λ a b. not (le b a)) x)
    then_check when_has "multipleOf" schema (multiple_of multiple x)

unfoldable pub numeric : (Float → Float → Bool) → Json → Fields → Verdict
unfolding number_checks
numeric multiple (int n) schema = number_checks multiple (from_int n) schema
numeric multiple (float x) schema = number_checks multiple x schema
numeric multiple _ schema = valid

pattern_check : (String → String → Option Bool) → String → Json → Verdict
pattern_check search s (str pattern') = check_answer (search pattern' s)
pattern_check search s _ = crashed

unfoldable pub textual : (String → String → Option Bool) → Json → Fields → Verdict
unfolding bound pattern_check
textual search (str s) schema =
    let length = from_int (pos (count s)) in
    when_has "minLength" schema (bound (λ a b. not (lt a b)) length)
    then_check when_has "maxLength" schema (bound (λ a b. not (lt b a)) length)
    then_check when_has "pattern" schema (pattern_check search s)
textual search _ schema = valid
