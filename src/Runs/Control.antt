-- ===== src/Runs/Control.antt =====
-- The operations of src/adaptive_agent/controller.py on runs, steps and events. An exception is
-- `raised`; `now` is the reading of the clock.
use adaptive_agent.Prelude.{
  ℕ, Bool, true, false, not, ◌&&◌, String, Option, none, some, List, [], ◌∷◌, ◌==◌, ltb, select,
  member, if◌then◌else◌,
}
use adaptive_agent.Json.{str, Fields, end, field, get}
use adaptive_agent.Runs.Tables.{
  RunStatus, queued, cancelled, timed_out, RunRecord, RunRow, StepStatus, StepRow, TrustClass,
  Visibility, to_learner, to_operator, evaluator_only, EvidenceRow, Tables, save_run, get_run_row,
  get_run_by_idempotency_key, store_claim_run, next_event_sequence, append_evidence,
  draw_evidence_id, save_step, update_step_status, list_evidence,
}

pub data Result {ℓ} (A : Type ℓ) : Type ℓ where
  done : A → Result A
  raised : Result A

abbrev pub is_learner : Visibility → Bool
is_learner to_learner = true
is_learner to_operator = false
is_learner evaluator_only = false

abbrev pub event_row : String → String → ℕ → String → Fields → TrustClass → Visibility → EvidenceRow
event_row id run_id n event_type payload trust_class visibility = record {
  evidence_id = id;
  run_id = run_id;
  sequence = n;
  event_type = event_type;
  payload = payload;
  trust_class = trust_class;
  visibility = visibility;
  redacted = is_learner visibility;
}

unfoldable pub append_event :
    String → String → Fields → TrustClass → Visibility → Tables → Result EvidenceRow × Tables
unfolding next_event_sequence append_evidence
append_event run_id event_type payload trust_class visibility t =
    if event_type == "model_observation"
    then (raised, t)
    else let (sequence, t') = next_event_sequence run_id t in
      elim sequence [
        | none ↦ (raised, t')
        | some n ↦
            let id = t'.evidence_ids 0 in
            let e = event_row id run_id n event_type payload trust_class visibility in
            (done e, append_evidence e (draw_evidence_id t'))
      ]

-- The columns decide over the stored record.
abbrev pub read_run : RunRow → RunRecord
read_run row = record row.json {
  status = row.status;
  last_event_sequence = row.last_event_sequence;
  completed_at = elim row.completed_at [ none ↦ row.json.completed_at | some at ↦ some at ];
}

unfoldable pub get_run : Tables → String → Option RunRecord
unfolding get_run_row
get_run t id = elim (get_run_row t id) [ none ↦ none | some row ↦ some (read_run row) ]

-- What `create_run` reads of the request, the task and the bundle.
pub record NewRun : Type 0 where
  pub task_id : String
  pub environment_id : String
  pub registered : Bool
  pub bundle_hash : String
  pub idempotency_key : String
  pub details : String

abbrev pub new_record : String → NewRun → RunRecord
new_record run_id q = record {
  run_id = run_id;
  status = queued;
  last_event_sequence = 0;
  completed_at = none;
  details = q.details;
}

abbrev pub new_row : String → NewRun → RunRow
new_row run_id q = record {
  run_id = run_id;
  task_id = q.task_id;
  environment_id = q.environment_id;
  bundle_hash = q.bundle_hash;
  status = queued;
  idempotency_key = q.idempotency_key;
  last_event_sequence = 0;
  completed_at = none;
  json = new_record run_id q;
}

abbrev pub created_payload : String → NewRun → Fields
created_payload run_id q =
    field "run_id" (str run_id) (field "skillBundleHash" (str q.bundle_hash) end)

unfoldable pub create_run : String → NewRun → Tables → Result RunRecord × Tables
unfolding get_run_by_idempotency_key save_run append_event
create_run run_id q t = elim (get_run_by_idempotency_key t q.idempotency_key) [
  | some existing ↦ (done existing.json, t)
  | none ↦
      if not q.registered
      then (raised, t)
      else let (event, t') =
          append_event run_id "run_created" (created_payload run_id q) TrustClass.system to_learner
            (save_run (new_row run_id q) t) in
        elim event [ raised ↦ (raised, t') | done e ↦ (done (new_record run_id q), t') ]
]

abbrev pub is_terminal : RunStatus → Bool
is_terminal queued = false
is_terminal RunStatus.running = false
is_terminal RunStatus.awaiting_approval = false
is_terminal RunStatus.succeeded = true
is_terminal RunStatus.failed = true
is_terminal cancelled = true
is_terminal timed_out = true

abbrev pub completion : ℕ → RunStatus → Option ℕ → Option ℕ
completion now status before = if is_terminal status then some now else before

abbrev pub settled_row : ℕ → RunStatus → RunRow → RunRow
settled_row now status row = record row {
  status = status;
  completed_at = completion now status row.json.completed_at;
  json = record row.json {
    status = status;
    completed_at = completion now status row.json.completed_at;
  };
}

-- A run that does not exist is a TypeError.
unfoldable pub set_run_status : ℕ → String → RunStatus → Tables → Result (Unit {0}) × Tables
unfolding get_run_row save_run
set_run_status now run_id status t = elim (get_run_row t run_id) [
  | none ↦ (raised, t)
  | some row ↦ (done tt, save_run (settled_row now status row) t)
]

-- A run that timed out is cancelled as well.
abbrev pub is_settled : RunStatus → Bool
is_settled queued = false
is_settled RunStatus.running = false
is_settled RunStatus.awaiting_approval = false
is_settled RunStatus.succeeded = true
is_settled RunStatus.failed = true
is_settled cancelled = true
is_settled timed_out = false

unfoldable pub cancel_run : ℕ → String → Tables → Result (Option RunRecord) × Tables
unfolding get_run set_run_status append_event
cancel_run now run_id t = elim (get_run t run_id) [
  | none ↦ (done none, t)
  | some run ↦
      if is_settled run.status
      then (done (some run), t)
      else let (_, t1) = set_run_status now run_id cancelled t in
        let (event, t2) =
          append_event run_id "run_cancelled" end TrustClass.operator to_operator t1 in
        elim event [ raised ↦ (raised, t2) | done e ↦ (done (get_run t2 run_id), t2) ]
]

-- The run is read before the event is appended.
unfoldable pub claim_run : String → Tables → Result (Bool × Option RunRecord) × Tables
unfolding store_claim_run get_run append_event
claim_run run_id t =
    let (claimed, t1) = store_claim_run run_id t in
    elim claimed [
      | none ↦ (done (false, none), t1)
      | some got ↦ elim got [
        | false ↦ (done (false, get_run t1 run_id), t1)
        | true ↦
            let (event, t2) =
              append_event run_id "run_started" (field "runId" (str run_id) end) TrustClass.system
                to_operator t1 in
            elim event [ raised ↦ (raised, t2) | done e ↦ (done (true, get_run t1 run_id), t2) ]
      ]
    ]

abbrev pub step_kinds : List String
step_kinds = "retrieve" ∷ "execute" ∷ "tool" ∷ "child" ∷ "evaluate" ∷ []

abbrev pub step_row : String → String → ℕ → String → StepRow
step_row step_id run_id n kind = record {
  step_id = step_id;
  run_id = run_id;
  sequence = n;
  kind = kind;
  status = StepStatus.running;
}

-- The rest of `begin_step`, under a kind of StepKind.
unfoldable pub begin_kind : String → String → String → Tables → Result StepRow × Tables
unfolding next_event_sequence save_step append_event
begin_kind step_id run_id kind t =
    let (sequence, t1) = next_event_sequence run_id t in
    elim sequence [
      | none ↦ (raised, t1)
      | some n ↦
          let s = step_row step_id run_id n kind in
          let (event, t2) =
            append_event run_id "step_started"
              (field "step_id" (str step_id) (field "kind" (str kind) end)) TrustClass.system
              to_learner (save_step s t1) in
          elim event [ raised ↦ (raised, t2) | done e ↦ (done s, t2) ]
    ]

unfoldable pub begin_step : String → String → String → Tables → Result StepRow × Tables
unfolding begin_kind
begin_step step_id run_id kind t =
    if member kind step_kinds then begin_kind step_id run_id kind t else (raised, t)

-- `status_text` is the text of the status in the event.
unfoldable pub finish_step : StepRow → StepStatus → String → Tables → Result StepRow × Tables
unfolding update_step_status append_event
finish_step s status status_text t =
    let (event, t') =
      append_event s.run_id "step_finished"
        (field "step_id" (str s.step_id) (field "status" (str status_text) end)) TrustClass.system
        to_learner (update_step_status s.step_id status t) in
    elim event [ raised ↦ (raised, t') | done e ↦ (done (record s { status = status }), t') ]

-- {key: payload[key] for key in keys if key in payload}
unfoldable pub project : List String → Fields → Fields
project [] payload = end
project (key ∷ keys) payload =
    let rest = project keys payload in
    elim (get key payload) [ none ↦ rest | some v ↦ field key v rest ]

abbrev pub safe_keys : List String
safe_keys = "callId" ∷ "status" ∷ "effect" ∷ "toolVersion" ∷ []

unfoldable pub append_broker_result : String → Fields → Bool → Tables → Result EvidenceRow × Tables
unfolding append_event project
append_broker_result run_id payload development t =
    let (event, t1) = append_event run_id "tool_result" payload TrustClass.broker to_operator t in
    elim event [
      | raised ↦ (raised, t1)
      | done e ↦
          if not development
          then (done e, t1)
          else let (second, t2) =
              append_event run_id "learning_evidence_projection" (project safe_keys payload)
                TrustClass.broker to_learner t1 in
            elim second [ raised ↦ (raised, t2) | done d ↦ (done e, t2) ]
    ]

abbrev pub is_public : Visibility → Bool
is_public to_learner = true
is_public to_operator = true
is_public evaluator_only = false

-- The rows that `events` shows, of which each is the id, the type and the data of an event.
unfoldable pub events : Tables → String → ℕ → List EvidenceRow
unfolding list_evidence
events t run_id after =
    select (λ e. ltb after e.sequence && is_public e.visibility) (list_evidence t run_id)
