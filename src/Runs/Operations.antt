-- ===== src/Runs/Operations.antt =====
-- The operations of src/adaptive_agent/controller.py on runs, in any order.
use adaptive_agent.Prelude.{ℕ, Bool, true, false, String, none, List, [], ◌∷◌, ◌≡◌, refl}
use adaptive_agent.Json.{Fields}
use adaptive_agent.Runs.Tables.{
  RunStatus, StepRow, StepStatus, TrustClass, Visibility, Tables, get_run_row,
}
use adaptive_agent.Runs.Control.{
  NewRun, append_event, create_run, set_run_status, cancel_run, claim_run, begin_step, finish_step,
  append_broker_result,
}
use adaptive_agent.Runs.History.{
  Writes, nothing, settle, once, both_writes, append_event-Writes, create_run-Writes,
  cancel_run-Writes, claim_run-Writes, begin_step-Writes, finish_step-Writes,
  append_broker_result-Writes,
}

-- `end_run` is the status that `execute_run` sets, succeeded or failed.
pub data Operation : Type 0 where
  create : String → NewRun → Operation
  cancel : ℕ → String → Operation
  claim : String → Operation
  end_run : ℕ → String → Bool → Operation
  begin : String → String → String → Operation
  finish : StepRow → StepStatus → String → Operation
  append : String → String → Fields → TrustClass → Visibility → Operation
  broker_result : String → Fields → Bool → Operation

abbrev pub ending : Bool → RunStatus
ending true = RunStatus.succeeded
ending false = RunStatus.failed

unfoldable pub perform : Operation → Tables → Tables
perform (create run_id q) t = (create_run run_id q t).1
perform (cancel now run_id) t = (cancel_run now run_id t).1
perform (claim run_id) t = (claim_run run_id t).1
perform (end_run now run_id passed) t = (set_run_status now run_id (ending passed) t).1
perform (begin step_id run_id kind) t = (begin_step step_id run_id kind t).1
perform (finish s status text) t = (finish_step s status text t).1
perform (append run_id event_type payload c v) t = (append_event run_id event_type payload c v t).1
perform (broker_result run_id payload development) t =
    (append_broker_result run_id payload development t).1

unfoldable pub perform_all : List Operation → Tables → Tables
unfolding perform
perform_all [] t = t
perform_all (o ∷ os) t = perform_all os (perform o t)

-- The random id of a new run is not in use.
abbrev pub Fresh : Operation → Tables → Type 0
Fresh (create run_id q) t = get_run_row t run_id ≡ none
Fresh _ t = Unit {0}

abbrev pub AllFresh : List Operation → Tables → Type 0
AllFresh [] t = Unit {0}
AllFresh (o ∷ os) t = Fresh o t × AllFresh os (perform o t)

pub perform-Writes : (o : Operation) (t : Tables) → Fresh o t → Writes t (perform o t)
unfolding perform
perform-Writes (create run_id q) t f = create_run-Writes run_id q t f
perform-Writes (cancel now run_id) t f = cancel_run-Writes now run_id t
perform-Writes (claim run_id) t f = claim_run-Writes run_id t
perform-Writes (end_run now run_id true) t f = once (settle now run_id RunStatus.succeeded refl)
perform-Writes (end_run now run_id false) t f = once (settle now run_id RunStatus.failed refl)
perform-Writes (begin step_id run_id kind) t f = begin_step-Writes step_id run_id kind t
perform-Writes (finish s status text) t f = finish_step-Writes s status text t
perform-Writes (append run_id event_type payload c v) t f =
    append_event-Writes run_id event_type payload c v t
perform-Writes (broker_result run_id payload development) t f =
    append_broker_result-Writes run_id payload development t

pub perform_all-Writes :
    (os : List Operation) (t : Tables) → AllFresh os t → Writes t (perform_all os t)
unfolding perform_all
perform_all-Writes [] t f = nothing
perform_all-Writes (o ∷ os) t (f, fs) =
    both_writes (perform-Writes o t f) (perform_all-Writes os (perform o t) fs)
