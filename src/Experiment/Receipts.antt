-- ===== src/Experiment/Receipts.antt =====
-- `_as_mapping`, `_strings` and `_receipt` of src/adaptive_agent/experiment_lifecycle.py.
use adaptive_agent.Prelude.{
  Bool, true, false, not, ◌&&◌, ◌||◌, String, Option, none, some, List, [], ◌∷◌, ◌==◌, member,
  if◌then◌else◌,
}
use adaptive_agent.Json.{Json, boolean, str, arr, obj, Items, nil, cons, Fields, get}
use adaptive_agent.Models.Refs.{is_empty}
use adaptive_agent.Gate.Values.{or_null}
use adaptive_agent.Gate.Checks.{is_true}
use adaptive_agent.Experiment.Outcome.{
  Outcome, ok, failed, lifecycle_error, other_error, and_then, require,
}

-- receipt.get(key)
unfoldable pub at : String → Fields → Json
at key receipt = or_null (get key receipt)

unfoldable pub is_false : Json → Bool
is_false (boolean b) = not b
is_false _ = false

unfoldable pub as_mapping : Json → Outcome Fields
as_mapping (obj fs) = ok fs
as_mapping _ = failed lifecycle_error

-- The items, when all of them are non-empty strings.
unfoldable pub names_of : Items → Option (List String)
names_of nil = some []
names_of (cons (str s) vs) =
    let rest = names_of vs in
    if s == "" then none else elim rest [ none ↦ none | some names ↦ some (s ∷ names) ]
names_of (cons _ vs) = none

unfoldable pub strings_of : Bool → Json → Outcome (List String)
unfolding names_of
strings_of allow_empty (arr vs) = elim (names_of vs) [
  | none ↦ failed lifecycle_error
  | some names ↦ if not allow_empty && is_empty names then failed lifecycle_error else ok names
]
strings_of allow_empty _ = failed lifecycle_error

-- `status in {"complete", "valid", "passed"}`; a list or a mapping has no hash.
unfoldable pub is_complete : Json → Outcome Bool
is_complete (str s) = ok (member s ("complete" ∷ "valid" ∷ "passed" ∷ []))
is_complete (arr vs) = failed other_error
is_complete (obj fs) = failed other_error
is_complete _ = ok false

-- value == text
unfoldable pub is_text : String → Json → Bool
is_text s (str t) = t == s
is_text s _ = false

unfoldable pub in_partition : Option String → Fields → Bool
unfolding is_text at
in_partition none receipt = true
in_partition (some name) receipt = is_text name (at "partition" receipt)

-- The flag `sealed` is compared only for the final receipt, with True.
unfoldable pub sealed_as : Bool → Fields → Bool
unfolding is_true at
sealed_as false receipt = true
sealed_as true receipt = is_true (at "sealed" receipt)

-- The receipt is executed evidence, of the partition, and sealed if that is asked.
unfoldable pub check_receipt : Option String → Bool → Fields → Outcome (Unit {0})
unfolding at is_true strings_of is_complete in_partition sealed_as
check_receipt partition sealed receipt =
    and_then
      (require (
        is_true (at "executed" receipt)
        && not (is_true (at "workloadOnly" receipt) || is_true (at "synthetic" receipt))))
      (λ _. and_then (strings_of false (at "runIds" receipt)) (λ _.
        and_then (is_complete (at "status" receipt)) (λ complete.
          require (complete && in_partition partition receipt && sealed_as sealed receipt))))
