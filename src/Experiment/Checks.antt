-- ===== src/Experiment/Checks.antt =====
-- The checks that `run_experiment_lifecycle` of src/adaptive_agent/experiment_lifecycle.py makes on
-- the receipt of each phase, in the order of the source. `lower` is `str.lower` on a character.
use Prim.Native.Char.{Char}
use Prim.Native.String.{◌++◌ as str_append}
use adaptive_agent.Prelude.{
  Bool, true, false, not, ◌&&◌, ◌||◌, String, none, some, List, [], ◌∷◌, ◌++◌, ◌==◌, all, any,
  member,
}
use adaptive_agent.Json.{Json, arr, str, obj, nil, Fields, get}
use adaptive_agent.Json.Equality.{equal}
use adaptive_agent.Gate.Values.{or_null}
use adaptive_agent.Gate.Checks.{is_true}
use adaptive_agent.Experiment.Outcome.{Outcome, ok, failed, other_error, and_then, require}
use adaptive_agent.Experiment.Policy.{LifecyclePolicy}
use adaptive_agent.Experiment.Receipts.{
  at, is_false, as_mapping, strings_of, check_receipt, is_text,
}

abbrev pub subset : List String → List String → Bool
subset xs ys = all (λ x. member x ys) xs

-- set(xs) == set(ys)
abbrev pub same_set : List String → List String → Bool
same_set xs ys = subset xs ys && subset ys xs

-- set(xs) & set(ys) is empty
abbrev pub disjoint : List String → List String → Bool
disjoint xs ys = not (any (λ x. member x ys) xs)

-- receipt.get(key, [])
unfoldable pub list_at : String → Fields → Json
list_at key receipt = elim (get key receipt) [ none ↦ arr nil | some v ↦ v ]

unfoldable pub usable_pin : Json → Bool
usable_pin (str s) =
    not (member s ("" ∷ "unset" ∷ "un pinned" ∷ "image-unpinned" ∷ "core-planner-unset" ∷ []))
usable_pin _ = false

-- name[0].lower() + name[1:]; an empty name has no first character, an IndexError.
unfoldable pub lowered : (Char → String) → String → Outcome String
lowered lower String.[] = failed other_error
lowered lower (String.◌∷◌ c rest) = ok (str_append (lower c) rest)

unfoldable pub pin_value : (Char → String) → Fields → String → Outcome Json
unfolding lowered
pin_value lower pins name =
    and_then (lowered lower name)
      (λ other. ok (elim (get name pins) [ some v ↦ v | none ↦ or_null (get other pins) ]))

unfoldable pub check_pins : (Char → String) → Fields → List String → Outcome (Unit {0})
unfolding pin_value usable_pin
check_pins lower pins [] = ok tt
check_pins lower pins (name ∷ names) =
    let rest = check_pins lower pins names in
    and_then (pin_value lower pins name) (λ v. and_then (require (usable_pin v)) (λ _. rest))

-- The result is the mapping of pins.
unfoldable pub check_bootstrap : (Char → String) → LifecyclePolicy → Fields → Outcome Fields
unfolding check_pins strings_of list_at at is_true as_mapping
check_bootstrap lower p bootstrap = and_then (require (is_true (at "clean" bootstrap))) (λ _.
    and_then (as_mapping (at "pins" bootstrap)) (λ pins.
      and_then (check_pins lower pins p.required_pins) (λ _.
        and_then (strings_of false (at "developmentTaskIds" bootstrap)) (λ tasks.
          and_then (require (same_set tasks p.development_task_ids)) (λ _.
            and_then (strings_of true (list_at "exposedEnvironments" bootstrap)) (λ exposed.
              and_then (require (not (member p.reserved_transfer_environment exposed)))
                (λ _. ok pins)))))))

-- isinstance(learning, Mapping) and learning.get("actual") is True
unfoldable pub is_actual : Json → Bool
unfolding at is_true
is_actual (obj learning) = is_true (at "actual" learning)
is_actual _ = false

unfoldable pub check_development : LifecyclePolicy → Fields → Outcome (Unit {0})
unfolding check_receipt strings_of list_at at is_true is_actual
check_development p development =
    and_then (check_receipt (some "development") false development) (λ _.
      and_then (require (is_actual (at "learning" development))) (λ _.
        and_then (strings_of false (at "taskIds" development)) (λ tasks.
          and_then (require (same_set tasks p.development_task_ids)) (λ _.
            and_then (require (not (is_true (at "heldoutAccess" development)))) (λ _.
              and_then (strings_of true (list_at "exposedEnvironments" development))
                (λ exposed. require (not (member p.reserved_transfer_environment exposed))))))))

-- A non-empty string.
unfoldable pub is_named : Json → Bool
is_named (str s) = not (s == "")
is_named _ = false

unfoldable pub check_candidate : Fields → Fields → Fields → Outcome (Unit {0})
unfolding strings_of at is_true is_named
check_candidate pins development candidate =
    and_then (require (is_true (at "actual" candidate) && is_named (at "candidateId" candidate)))
      (λ _.
        and_then (require (equal (at "baseBundleHash" candidate) (at "activeBundleHash" pins)))
          (λ _. and_then (strings_of false (at "sourceRunIds" candidate)) (λ sources.
            and_then (strings_of false (at "runIds" development))
              (λ runs. require (subset sources runs)))))

-- The results are the run ids of the development and of the transfer.
unfoldable pub check_transfer :
    LifecyclePolicy → Fields → Fields → Outcome (List String × List String)
unfolding check_receipt strings_of at is_true is_false is_text
check_transfer p development transfer = and_then (check_receipt none false transfer) (λ _.
    and_then
      (require (
        is_text p.reserved_transfer_environment (at "environmentId" transfer)
        && is_true (at "resetBefore" transfer)
        && is_false (at "exposedToLearning" transfer)))
      (λ _. and_then (strings_of false (at "runIds" development)) (λ runs.
        and_then (strings_of false (at "runIds" transfer)) (λ transfer_runs.
          and_then (require (disjoint runs transfer_runs)) (λ _. ok (runs, transfer_runs))))))

unfoldable pub check_adaptation :
    LifecyclePolicy → List String → List String → Fields → Outcome (Unit {0})
unfolding check_receipt strings_of at is_true is_false is_text
check_adaptation p runs transfer_runs adaptation =
    and_then (check_receipt none false adaptation) (λ _.
      and_then
        (require (
          is_text p.reserved_transfer_environment (at "environmentId" adaptation)
          && is_true (at "resetBefore" adaptation)))
        (λ _. and_then (strings_of false (at "supportTaskIds" adaptation)) (λ support.
          and_then (require (same_set support p.adaptation_support_task_ids)) (λ _.
            and_then (require (is_false (at "queryExposedToLearning" adaptation))) (λ _.
              and_then (strings_of false (at "runIds" adaptation))
                (λ adaptation_runs. require (disjoint (runs ++ transfer_runs) adaptation_runs)))))))

unfoldable pub check_safety : LifecyclePolicy → Fields → Outcome (Unit {0})
unfolding strings_of at
check_safety p safety = and_then (strings_of false (at "registeredCaseIds" safety)) (λ registered.
    and_then (strings_of true (at "passedCaseIds" safety))
      (λ passed. require (same_set registered p.safety_case_ids && same_set passed registered)))

unfoldable pub check_validation : Fields → Outcome (Unit {0})
unfolding check_receipt at is_true
check_validation validation = and_then (check_receipt (some "validation") false validation) (λ _.
    require (is_true (at "heldOut" validation) && not (is_true (at "exposureLeak" validation))))

unfoldable pub check_final : Fields → Outcome (Unit {0})
unfolding check_receipt at is_true
check_final final = and_then (check_receipt (some "final") true final) (λ _. require (
    not (
      is_true (at "exposureLeak" final) || is_true (at "selectedCandidateAfterObservation" final))))
