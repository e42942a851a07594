-- ===== src/Experiment/Tests.antt =====
-- A run of the lifecycle of src/adaptive_agent/experiment_lifecycle.py with scripted callbacks.
use Prim.Native.Char.{Char}
use adaptive_agent.Prelude.{zero, suc, true, false, String, [], ◌∷◌, ◌≡◌, refl}
use adaptive_agent.Json.{Json, boolean, str, arr, obj, nil, cons, Fields, end, field, get}
use adaptive_agent.Json.Equality.{equal}
use adaptive_agent.Json.Number.{pos}
use adaptive_agent.Gate.Checks.{is_true, strings}
use adaptive_agent.Gate.Reasons.{dedup}
use adaptive_agent.Experiment.Outcome.{ok, failed, lifecycle_error, and_then, ◌>>=◌}
use adaptive_agent.Experiment.Policy.{LifecyclePolicy, check_policy, unique_names}
use adaptive_agent.Experiment.Receipts.{
  at, is_false, as_mapping, names_of, strings_of, is_complete, is_text, in_partition, sealed_as,
  check_receipt,
}
use adaptive_agent.Experiment.Checks.{
  list_at, usable_pin, lowered, pin_value, check_pins, check_bootstrap, is_actual,
  check_development, is_named, check_candidate, check_transfer, check_adaptation, check_safety,
  check_validation, check_final,
}
use adaptive_agent.Experiment.Lifecycle.{
  bootstrap_development, run_development, generate_candidate, run_transfer, run_adaptation,
  run_registered_safety, run_validation, run_final, returned, infrastructure, Callbacks, State,
  Completed, attempts, retry, run_experiment_lifecycle,
}
use adaptive_agent.Experiment.Complete.{Complete, run_experiment_lifecycle-Complete}
use adaptive_agent.Experiment.Order.{
  Scheduled, traced, all_phases, run_experiment_lifecycle-Schedule,
}

abbrev true_value : Json
true_value = boolean true

abbrev one : String → Json
one s = arr (cons (str s) nil)

abbrev policy : LifecyclePolicy
policy = record {
  development_task_ids = "task" ∷ [];
  reserved_transfer_environment = "held";
  adaptation_support_task_ids = "support" ∷ [];
  safety_case_ids = "EVAL-003" ∷ [];
  required_pins = "protocolHash" ∷ [];
  infrastructure_retries = pos 1;
}

abbrev first : Fields
first = field "clean" true_value (
    field "pins" (obj (field "protocolHash" (str "abc") end))
      (field "developmentTaskIds" (one "task") end))

abbrev base : String → Fields → Fields
base run fs =
    field "executed" true_value (field "runIds" (one run) (field "status" (str "complete") fs))

abbrev learned : Fields
learned = base "dev" (
    field "partition" (str "development")
      (field "learning" (obj (field "actual" true_value end)) (field "taskIds" (one "task") end)))

abbrev proposed : Fields
proposed =
    field "actual" true_value
      (field "candidateId" (str "cand") (field "sourceRunIds" (one "dev") end))

abbrev moved : Fields
moved = base "move" (
    field "environmentId" (str "held")
      (field "resetBefore" true_value (field "exposedToLearning" (boolean false) end)))

abbrev adapted : Fields
adapted = base "adapt" (
    field "environmentId" (str "held") (
      field "resetBefore" true_value (
        field "supportTaskIds" (one "support")
          (field "queryExposedToLearning" (boolean false) end))))

abbrev safe : Fields
safe = field "registeredCaseIds" (one "EVAL-003") (field "passedCaseIds" (one "EVAL-003") end)

abbrev checked : Fields
checked = base "val" (field "partition" (str "validation") (field "heldOut" true_value end))

abbrev sealed : Fields
sealed = base "fin" (field "partition" (str "final") (field "sealed" true_value end))

-- The first attempt of the bootstrap fails.
abbrev scripted : Callbacks (Unit {0})
scripted (bootstrap_development p) zero w = (infrastructure true, w)
scripted (bootstrap_development p) (suc n) w = (returned (obj first), w)
scripted (run_development b p) n w = (returned (obj learned), w)
scripted (generate_candidate d b) n w = (returned (obj proposed), w)
scripted (run_transfer c env reset exposed) n w = (returned (obj moved), w)
scripted (run_adaptation c env tasks reset) n w = (returned (obj adapted), w)
scripted (run_registered_safety c cases) n w = (returned (obj safe), w)
scripted (run_validation c) n w = (returned (obj checked), w)
scripted (run_final c) n w = (returned (obj sealed), w)

abbrev lower : Char → String
lower c = String.◌∷◌ c String.[]

abbrev begin : State (Unit {0})
begin = record { world = tt; log = [] }

abbrev result : Completed
result = record {
  bootstrap = first;
  development = learned;
  candidate = proposed;
  transfer = moved;
  adaptation = adapted;
  safety = safe;
  validation = checked;
  final = sealed;
}

policy_accepted : check_policy policy ≡ ok tt
unfolding check_policy unique_names strings dedup
policy_accepted = refl

completes : (run_experiment_lifecycle scripted lower policy begin).0 ≡ ok result
unfolding run_experiment_lifecycle ◌>>=◌ retry attempts as_mapping check_bootstrap and_then at get
    is_true check_pins pin_value lowered usable_pin strings_of names_of list_at check_development
    check_receipt is_complete in_partition sealed_as is_text is_actual check_candidate is_named
    equal check_transfer is_false check_adaptation check_safety check_validation check_final
completes = refl

no_retry_left :
    (run_experiment_lifecycle scripted lower
      (record policy { infrastructure_retries = pos 0 })
      begin).0
    ≡ failed lifecycle_error
unfolding run_experiment_lifecycle ◌>>=◌ retry attempts
no_retry_left = refl

run_experiment_lifecycle-Complete_example : Complete policy result
run_experiment_lifecycle-Complete_example =
    run_experiment_lifecycle-Complete scripted lower policy begin result completes

run_experiment_lifecycle-Schedule_example :
    Scheduled 1 all_phases []
      (run_experiment_lifecycle
        (traced scripted)
        lower
        policy
        (record { world = (tt, []); log = [] })).1.world.1
run_experiment_lifecycle-Schedule_example =
    run_experiment_lifecycle-Schedule scripted lower policy 1 tt refl
