-- ===== src/Runs/Outcomes.antt =====
-- `record_trusted_outcome` of src/adaptive_agent/controller.py. The row of the table outcomes that
-- `record_outcome` then saves is left out; no operation here reads that table, and the event that
-- `record_outcome` would append is not, since there is a trusted outcome by then.
use adaptive_agent.Prelude.{
  Bool, true, false, not, ◌&&◌, String, Option, none, some, List, [], ◌∷◌, ◌==◌, if◌then◌else◌,
}
use adaptive_agent.Json.{
  Json, null, boolean, int, float, str, arr, obj, nil, cons, Fields, end, field, get,
}
use adaptive_agent.Json.Equality.{equal}
use adaptive_agent.Json.Number.{pos, from_int, same}
use adaptive_agent.Gate.Values.{or_null}
use adaptive_agent.Runs.Tables.{
  RunRow, TrustClass, evaluator_only, EvidenceRow, Tables, get_run_row, list_evidence,
}
use adaptive_agent.Runs.Control.{Result, raised, append_event, project}

-- bool(value)
unfoldable pub truthy : Json → Bool
truthy null = false
truthy (boolean b) = b
truthy (int n) = not (same (from_int n) (from_int (pos 0)))
truthy (float x) = not (same x (from_int (pos 0)))
truthy (str s) = not (s == "")
truthy (arr nil) = false
truthy (arr (cons v vs)) = true
truthy (obj end) = false
truthy (obj (field k v fs)) = true

-- payload[key] = value
unfoldable pub put : String → Json → Fields → Fields
put key value end = field key value end
put key value (field k v fs) =
    let rest = put key value fs in if k == key then field k value fs else field k v rest

-- The id of a response: a non-empty string.
unfoldable pub response_of : Fields → Option String
response_of payload = elim (or_null (get "responseId" payload)) [
  | str s ↦ (if s == "" then none else some s)
  | _ ↦ none
]

-- The last model response that has one, for rows in the order of their numbers.
unfoldable pub last_response : List EvidenceRow → Option String
unfolding response_of
last_response [] = none
last_response (e ∷ es) =
    let rest = last_response es in
    elim rest [
      | some s ↦ some s
      | none ↦ (if e.event_type == "model_response" then response_of e.payload else none)
    ]

unfoldable pub with_response : Tables → String → Fields → Fields
unfolding truthy put last_response
with_response t run_id payload =
    if truthy (or_null (get "responseId" payload))
    then payload
    else elim (last_response (list_evidence t run_id)) [
      | none ↦ payload
      | some s ↦ put "responseId" (str s) payload
    ]

unfoldable pub is_boolean : Json → Bool
is_boolean (boolean b) = true
is_boolean _ = false

-- An int that is no bool, and not negative.
unfoldable pub is_count : Json → Bool
is_count (int (pos n)) = true
is_count _ = false

abbrev pub or_default : Json → Option Json → Json
or_default d none = d
or_default d (some v) = v

-- The four fields are given, the pins are those of the run, and the flags and the count are valid.
unfoldable pub valid_outcome : RunRow → Fields → Bool
unfolding truthy is_boolean is_count
valid_outcome row payload =
    truthy (or_null (get "responseId" payload))
    && truthy (or_null (get "runId" payload))
    && truthy (or_null (get "taskId" payload))
    && truthy (or_null (get "environmentId" payload))
    && equal (or_null (get "runId" payload)) (str row.run_id)
    && equal (or_null (get "taskId" payload)) (str row.task_id)
    && equal (or_null (get "environmentId" payload)) (str row.environment_id)
    && is_boolean (or_null (get "passed" payload))
    && is_boolean (or_null (get "reliable" payload))
    && is_count (or_default (int (pos 0)) (get "safetyViolations" payload))
    && is_boolean (or_default (boolean true) (get "fixtureResetOk" payload))

-- The key with its value, if the value passes the test.
abbrev pub kept_if : (Json → Bool) → String → Fields → Fields → Fields
kept_if test key aggregate rest =
    let v = or_null (get key aggregate) in if test v then field key v rest else rest

unfoldable pub safe_aggregate : Fields → Fields
unfolding is_boolean is_count
safe_aggregate a = kept_if is_boolean "success" a (
    kept_if is_count "numTests" a (
      kept_if is_count "passCount" a
        (kept_if is_count "failCount" a (kept_if is_boolean "taskCompleted" a end))))

unfoldable pub with_aggregate : Fields → Fields
unfolding safe_aggregate put
with_aggregate payload = elim (or_null (get "aggregateEvaluation" payload)) [
  | obj a ↦ put "aggregateEvaluation" (obj (safe_aggregate a)) payload
  | _ ↦ payload
]

abbrev pub outcome_keys : List String
outcome_keys =
    "responseId" ∷ "runId" ∷ "taskId" ∷ "environmentId" ∷ "passed" ∷ "reliable" ∷ "safetyViolations"
    ∷ "fixtureResetOk" ∷ "score" ∷ "arm" ∷ "seed" ∷ "bundleHash" ∷ "aggregateEvaluation" ∷ []

-- The fields that are stored.
unfoldable pub canonical_outcome : Fields → Fields
unfolding with_aggregate put
canonical_outcome payload = project outcome_keys (
    with_aggregate
      (put "fixtureResetOk" (or_default (boolean true) (get "fixtureResetOk" payload)) payload))

unfoldable pub record_trusted_outcome : String → Fields → Tables → Result EvidenceRow × Tables
unfolding with_response valid_outcome canonical_outcome get_run_row
record_trusted_outcome run_id outcome t = elim (get_run_row t run_id) [
  | none ↦ (raised, t)
  | some row ↦
      let payload = with_response t run_id outcome in
      if not (valid_outcome row payload)
      then (raised, t)
      else append_event run_id "trusted_outcome" (canonical_outcome payload) TrustClass.evaluator
          evaluator_only t
]
