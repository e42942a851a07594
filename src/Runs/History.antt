-- ===== src/Runs/History.antt =====
-- Any sequence of the operations of src/adaptive_agent/controller.py on runs, steps and events, by
-- one or more callers, as a sequence of single writes of the tables.
use adaptive_agent.Prelude.{
  ℕ, Bool, true, String, none, some, ◌≡◌, refl, arith, ◌==◌, member, ◌⊎◌, inl, inr, Bool-cases,
  Option-cases, subst,
}
use adaptive_agent.Json.{Fields, str, end, field}
use adaptive_agent.Runs.Tables.{
  RunStatus, cancelled, to_learner, to_operator, RunRow, StepStatus, StepRow, TrustClass,
  Visibility, EvidenceRow, Tables, save_run, get_run_row, get_run_by_idempotency_key,
  store_claim_run, next_event_sequence, append_evidence, draw_evidence_id, save_step,
  update_step_status,
}
use adaptive_agent.Runs.Control.{
  Result, done, raised, project, safe_keys, step_kinds, event_row, step_row, append_event, NewRun,
  new_row, created_payload, create_run, is_terminal, set_run_status, cancel_run, claim_run,
  begin_kind, begin_step, finish_step, append_broker_result, get_run, is_settled,
}

pub data Write (t : Tables) : Tables → Type 0 where
  add :
      (row : RunRow)
      → get_run_row t row.run_id ≡ none
      → get_run_by_idempotency_key t row.idempotency_key ≡ none
      → Write t (save_run row t)
  settle :
      (now : ℕ) (id : String) (status : RunStatus)
      → is_terminal status ≡ true
      → Write t (set_run_status now id status t).1
  claim : (id : String) → Write t (store_claim_run id t).1
  number : (id : String) → Write t (next_event_sequence id t).1
  record_evidence :
      (e : EvidenceRow)
      → (next_event_sequence e.run_id t).0 ≡ some e.sequence
      → e.evidence_id ≡ (next_event_sequence e.run_id t).1.evidence_ids 0
      → Write t (append_evidence e (draw_evidence_id (next_event_sequence e.run_id t).1))
  record_step :
      (s : StepRow)
      → (next_event_sequence s.run_id t).0 ≡ some s.sequence
      → Write t (save_step s (next_event_sequence s.run_id t).1)
  update_step : (id : String) (status : StepStatus) → Write t (update_step_status id status t)

pub data Writes (t : Tables) : Tables → Type 0 where
  nothing : Writes t t
  after : {u v : Tables} → Writes t u → Write u v → Writes t v

pub once : {t u : Tables} → Write t u → Writes t u
once w = after nothing w

pub both_writes : {t u v : Tables} → Writes t u → Writes u v → Writes t v
both_writes a nothing = a
both_writes a (after b w) = after (both_writes a b) w

pub append_event-Writes :
    (run_id event_type : String) (payload : Fields) (c : TrustClass) (v : Visibility) (t : Tables)
    → Writes t (append_event run_id event_type payload c v t).1
unfolding append_event
append_event-Writes run_id event_type payload c v t =
    elim (Bool-cases (event_type == "model_observation")) [
      | inl b ↦ subst (Writes t) (ground (arith, b)) nothing
      | inr b ↦ elim (Option-cases (next_event_sequence run_id t).0) [
        | inl e ↦ subst (Writes t) (ground (arith, b, e)) (once (number run_id))
        | inr (n, e) ↦ subst (Writes t) (ground (arith, b, e)) (
            once (
              record_evidence
                (event_row ((next_event_sequence run_id t).1.evidence_ids 0) run_id n event_type
                  payload c v)
                e refl))
      ]
    ]

pub create_run-Writes :
    (run_id : String) (q : NewRun) (t : Tables)
    → get_run_row t run_id ≡ none
    → Writes t (create_run run_id q t).1
unfolding create_run
create_run-Writes run_id q t fresh =
    elim (Option-cases (get_run_by_idempotency_key t q.idempotency_key)) [
      | inr (row, e) ↦ subst (Writes t) (ground (arith, e)) nothing
      | inl e ↦ elim (Bool-cases q.registered) [
        | inr f ↦ subst (Writes t) (ground (arith, e, f)) nothing
        | inl r ↦ subst (Writes t) (ground (arith, e, r)) (
            both_writes (once (add (new_row run_id q) fresh e)) (
              append_event-Writes run_id "run_created" (created_payload run_id q) TrustClass.system
                to_learner (save_run (new_row run_id q) t)))
      ]
    ]

pub cancel_run-Writes :
    (now : ℕ) (run_id : String) (t : Tables) → Writes t (cancel_run now run_id t).1
unfolding cancel_run
cancel_run-Writes now run_id t = elim (Option-cases (get_run t run_id)) [
  | inl e ↦ subst (Writes t) (ground (arith, e)) nothing
  | inr (run, e) ↦ elim (Bool-cases (is_settled run.status)) [
    | inl s ↦ subst (Writes t) (ground (arith, e, s)) nothing
    | inr s ↦ subst (Writes t) (ground (arith, e, s)) (
        both_writes (once (settle now run_id cancelled refl)) (
          append_event-Writes run_id "run_cancelled" end TrustClass.operator to_operator
            (set_run_status now run_id cancelled t).1))
  ]
]

pub Result-cases {ℓ} : {A : Type ℓ} (r : Result A) → (r ≡ raised) ⊎ ((a : A) × (r ≡ done a))
Result-cases raised = inl refl
Result-cases (done a) = inr (a, refl)

pub claim_run-Writes : (run_id : String) (t : Tables) → Writes t (claim_run run_id t).1
unfolding claim_run
claim_run-Writes run_id t = elim (Option-cases (store_claim_run run_id t).0) [
  | inl e ↦ subst (Writes t) (ground (arith, e)) (once (claim run_id))
  | inr (got, e) ↦ elim (Bool-cases got) [
    | inr f ↦ subst (Writes t) (ground (arith, e, f)) (once (claim run_id))
    | inl g ↦ subst (Writes t) (ground (arith, e, g)) (
        both_writes (once (claim run_id)) (
          append_event-Writes run_id "run_started" (field "runId" (str run_id) end)
            TrustClass.system to_operator (store_claim_run run_id t).1))
  ]
]

begin_kind-Writes :
    (step_id run_id kind : String) (t : Tables) → Writes t (begin_kind step_id run_id kind t).1
unfolding begin_kind
begin_kind-Writes step_id run_id kind t = elim (Option-cases (next_event_sequence run_id t).0) [
  | inl e ↦ subst (Writes t) (ground (arith, e)) (once (number run_id))
  | inr (n, e) ↦
      let t1 = save_step (step_row step_id run_id n kind) (next_event_sequence run_id t).1 in
      subst (Writes t) (ground (arith, e)) (
        both_writes (once (record_step (step_row step_id run_id n kind) e)) (
          append_event-Writes run_id "step_started"
            (field "step_id" (str step_id) (field "kind" (str kind) end)) TrustClass.system
            to_learner t1))
]

pub begin_step-Writes :
    (step_id run_id kind : String) (t : Tables) → Writes t (begin_step step_id run_id kind t).1
unfolding begin_step
begin_step-Writes step_id run_id kind t = elim (Bool-cases (member kind step_kinds)) [
  | inl m ↦ subst (Writes t) (ground (arith, m)) (begin_kind-Writes step_id run_id kind t)
  | inr m ↦ subst (Writes t) (ground (arith, m)) nothing
]

pub finish_step-Writes :
    (s : StepRow) (status : StepStatus) (text : String) (t : Tables)
    → Writes t (finish_step s status text t).1
unfolding finish_step
finish_step-Writes s status text t =
    let t1 = update_step_status s.step_id status t in
    subst (Writes t) (ground arith) (
      both_writes (once (update_step s.step_id status)) (
        append_event-Writes s.run_id "step_finished"
          (field "step_id" (str s.step_id) (field "status" (str text) end)) TrustClass.system
          to_learner t1))

pub append_broker_result-Writes :
    (run_id : String) (payload : Fields) (development : Bool) (t : Tables)
    → Writes t (append_broker_result run_id payload development t).1
unfolding append_broker_result
append_broker_result-Writes run_id payload development t =
    let first = append_event run_id "tool_result" payload TrustClass.broker to_operator t in
    let w = append_event-Writes run_id "tool_result" payload TrustClass.broker to_operator t in
    elim (Result-cases first.0) [
      | inl e ↦ subst (Writes t) (ground (arith, e)) w
      | inr (d, e) ↦ elim (Bool-cases development) [
        | inr f ↦ subst (Writes t) (ground (arith, e, f)) w
        | inl f ↦ subst (Writes t) (ground (arith, e, f)) (
            both_writes w (
              append_event-Writes run_id "learning_evidence_projection" (project safe_keys payload)
                TrustClass.broker to_learner first.1))
      ]
    ]
