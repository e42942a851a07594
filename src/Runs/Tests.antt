-- ===== src/Runs/Tests.antt =====
-- Runs of src/adaptive_agent/controller.py on small tables.
use Prim.Native.String.{len, ◌++◌}
use text.Mathlib.TextPositions.{len-append}
use adaptive_agent.Prelude.{
  ℕ, zero, suc, ◌+◌, String, ap, arith, eq_iff, ◌==◌, inl, inr, Bool-cases, true, false, Option,
  none, some, List, [], ◌∷◌, ◌≡◌, refl, subst,
}
use adaptive_agent.Json.{boolean, str, Fields, end, field, get}
use adaptive_agent.Json.Equality.{equal}
use adaptive_agent.Runs.Tables.{
  RunStatus, queued, cancelled, RunRow, TrustClass, to_operator, evaluator_only, EvidenceRow,
  Tables, save_run, get_run_row, get_run_by_idempotency_key, store_claim_run, next_event_sequence,
  append_evidence, list_evidence, ordered, insert_ordered,
}
use adaptive_agent.Runs.Control.{
  done, append_event, NewRun, new_record, get_run, set_run_status, cancel_run, claim_run, events,
  project,
}
use adaptive_agent.Runs.Operations.{
  Operation, cancel, claim, append, perform, perform_all, AllFresh,
}
use adaptive_agent.Runs.Evidence.{Kept, FreshIds, perform_all-Kept}
use adaptive_agent.Runs.Claims.{claim_run_once}
use adaptive_agent.Runs.Visible.{Projection, events-Projection}
use adaptive_agent.Runs.Repeated.{Repeats, create_run-Repeats}
use adaptive_agent.Runs.Outcomes.{
  record_trusted_outcome, truthy, put, response_of, last_response, with_response, is_boolean,
  is_count, valid_outcome, with_aggregate, canonical_outcome,
}
use adaptive_agent.Runs.Execute.{Act, outcome, Evaluation, execute_claimed}
use adaptive_agent.Runs.Executed.{Leaves, Settles}
use adaptive_agent.Runs.Endings.{
  Running, execute_claimed-Settles, execute_claimed_cancelled, execute_claimed_judged,
}

abbrev request : NewRun
request = record {
  task_id = "task";
  environment_id = "env";
  registered = true;
  bundle_hash = "hash";
  idempotency_key = "key";
  details = "";
}

abbrev tally : ℕ → String
tally zero = "evidence-"
tally (suc n) = tally n ++ "|"

abbrev empty_tables : Tables
empty_tables = record { runs = []; steps = []; evidence = []; evidence_ids = tally }

abbrev running_row : RunRow
running_row = record {
  run_id = "r";
  task_id = "task";
  environment_id = "env";
  bundle_hash = "hash";
  status = RunStatus.running;
  idempotency_key = "key";
  last_event_sequence = 0;
  completed_at = none;
  json = new_record "r" request;
}

abbrev queued_row : RunRow
queued_row = record running_row { status = queued }

abbrev waiting : Tables
waiting = record { runs = queued_row ∷ []; steps = []; evidence = []; evidence_ids = tally }

abbrev busy : Tables
busy = record { runs = running_row ∷ []; steps = []; evidence = []; evidence_ids = tally }

abbrev response : Operation
response =
    append "r" "model_response" (field "responseId" (str "m") end) TrustClass.system to_operator

abbrev quiet : Tables → Act
quiet t = record { performed = response ∷ []; error = none }

abbrev cancelling : Tables → Act
cancelling t = record { performed = cancel 7 "r" ∷ []; error = some "stopped" }

abbrev good : Fields
good = field "runId" (str "r") (
    field "taskId" (str "task") (
      field "environmentId" (str "env")
        (field "passed" (boolean true) (field "reliable" (boolean true) end))))

-- The run is cancelled while the evaluator runs.
abbrev late : Tables → Evaluation
late t = record { performed = cancel 8 "r" ∷ []; verdict = outcome true good }

no_key : get_run_by_idempotency_key empty_tables "key" ≡ none
unfolding get_run_by_idempotency_key
no_key = refl

no_run : get_run_row empty_tables "r" ≡ none
unfolding get_run_row
no_run = refl

create_run-Repeats_example : Repeats "r" request empty_tables no_key no_run refl
create_run-Repeats_example = create_run-Repeats "r" request empty_tables no_key no_run refl

claims_first :
    (claim_run "r" waiting).0
    ≡ done (true, some (record (new_record "r" request) { status = RunStatus.running }))
unfolding claim_run store_claim_run get_run_row get_run append_event next_event_sequence
claims_first = refl

abbrev later_operations : List Operation
later_operations = cancel 5 "r" ∷ claim "r" ∷ []

abbrev claimed_tables : Tables
claimed_tables = (claim_run "r" waiting).1

claim_run_once_example : claim_run "r" (perform_all later_operations claimed_tables) ≡ (
  done (false, get_run (perform_all later_operations claimed_tables) "r"),
  perform_all later_operations claimed_tables,
)
claim_run_once_example =
    claim_run_once "r" waiting
      (some (record (new_record "r" request) { status = RunStatus.running })) later_operations
      claims_first (tt, (tt, tt))

len-tally : (n : ℕ) → len (tally n) ≡ n + 9
len-tally zero = refl
len-tally (suc n) = omega (arith, len-append (tally n) "|", len-tally n)

tally-FreshIds : FreshIds tally []
tally-FreshIds = record {
  unused = λ n. refl;
  apart = λ m n h. elim (Bool-cases (tally m == tally n)) [
    | inl t ↦
        let same = ap len ((eq_iff (tally m) (tally n)).0 t) in
        absurd (omega (arith, h, same, len-tally m, len-tally n))
    | inr f ↦ f
  ];
}

perform_all-Kept_example : Kept waiting (perform_all later_operations waiting)
perform_all-Kept_example =
    perform_all-Kept later_operations waiting (tt, (tt, tt)) tt tally-FreshIds

events-Projection_example : Projection "r" 0 (events (perform_all later_operations waiting) "r" 0)
events-Projection_example = events-Projection (perform_all later_operations waiting) "r" 0

busy_row : get_run_row busy "r" ≡ some running_row
unfolding get_run_row
busy_row = refl

busy-Running : Running 7 "r" quiet (some late) busy
busy-Running = record { row = running_row; found = busy_row; running = refl }

late_fresh :
    (evaluator : Tables → Evaluation) (u : Tables)
    → some late ≡ some evaluator
    → AllFresh (evaluator u).performed u
late_fresh evaluator u e = subst (λ (o : Option (Tables → Evaluation)). FreshIn o u) e (tt, tt)
  where
    FreshIn : Option (Tables → Evaluation) → Tables → Type 0
    FreshIn none u = Unit {0}
    FreshIn (some f) u = AllFresh (f u).performed u

execute_claimed-Settles_example : Settles "r" (execute_claimed 7 "r" quiet (some late) busy)
execute_claimed-Settles_example =
    execute_claimed-Settles 7 "r" quiet (some late) busy busy-Running (λ u. (tt, tt)) late_fresh

abbrev cancelled_row : RunRow
cancelled_row = record running_row {
  status = cancelled;
  last_event_sequence = 1;
  completed_at = some 7;
  json = record (new_record "r" request) { status = cancelled; completed_at = some 7 };
}

is_cancelled_then :
    get_run_row (perform_all (cancelling busy).performed busy) "r" ≡ some cancelled_row
unfolding perform_all perform cancel_run get_run get_run_row set_run_status save_run append_event
    next_event_sequence append_evidence
is_cancelled_then = refl

runs_under_cancel : Running 7 "r" cancelling (some late) busy
runs_under_cancel = record { row = running_row; found = busy_row; running = refl }

execute_claimed_cancelled_example :
    Leaves "r" cancelled (execute_claimed 7 "r" cancelling (some late) busy)
execute_claimed_cancelled_example =
    execute_claimed_cancelled 7 "r" cancelling (some late) busy cancelled_row runs_under_cancel
      is_cancelled_then refl

abbrev answered : Tables
answered = perform_all (response ∷ []) busy

abbrev answered_row : RunRow
answered_row = record running_row { last_event_sequence = 1 }

is_answered : get_run_row answered "r" ≡ some answered_row
unfolding perform_all perform append_event next_event_sequence append_evidence get_run_row
is_answered = refl

abbrev stored_outcome : EvidenceRow
stored_outcome = record {
  evidence_id = "evidence-||";
  run_id = "r";
  sequence = 3;
  event_type = "trusted_outcome";
  payload = field "responseId" (str "m") (
      field "runId" (str "r") (
        field "taskId" (str "task") (
          field "environmentId" (str "env") (
            field "passed" (boolean true)
              (field "reliable" (boolean true) (field "fixtureResetOk" (boolean true) end))))));
  trust_class = TrustClass.evaluator;
  visibility = evaluator_only;
  redacted = false;
}

is_recorded :
    (record_trusted_outcome "r" good (perform_all (cancel 8 "r" ∷ []) answered)).0
    ≡ done stored_outcome
unfolding perform_all perform cancel_run get_run get_run_row set_run_status save_run append_event
    next_event_sequence append_evidence record_trusted_outcome with_response last_response
    response_of list_evidence ordered insert_ordered truthy put get valid_outcome is_boolean
    is_count equal canonical_outcome with_aggregate project
is_recorded = refl

execute_claimed_judged_example :
    Leaves "r" RunStatus.succeeded (execute_claimed 7 "r" quiet (some late) busy)
execute_claimed_judged_example =
    execute_claimed_judged 7 "r" quiet (some late) busy answered_row late (cancel 8 "r" ∷ []) true
      good stored_outcome busy-Running refl is_answered refl refl refl (tt, tt) (tt, tt) is_recorded
