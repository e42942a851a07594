-- ===== src/Broker/Keeps.antt =====
-- Invariants of the tables that the operations of src/adaptive_agent/broker.py keep.
use adaptive_agent.Prelude.{
  ℕ, Bool, false, String, Option, none, some, List, [], ◌∷◌, ◌++◌, ◌≡◌, refl, arith, Bool-cases,
  inl, inr,
}
use adaptive_agent.Json.Number.{ℤ}
use adaptive_agent.Models.Refs.{EffectClass, ToolSchema}
use adaptive_agent.Models.Tools.{ToolRequest, ToolError, ToolResult}
use adaptive_agent.Environment.Registry.{Registry}
use adaptive_agent.Store.ToolCalls.{
  ToolCall, Approval, Tables, collides, Prepared, prepared, conflict, integrity_error, duplicate,
  consume_approval_and_prepare, prepare_tool_call, save_tool_result, mark_call_outcome_unknown,
  put_artifact, issue_approval, list_unreconciled_calls,
}
use adaptive_agent.Store.ToolCalls
use adaptive_agent.Store.ToolCalls.Laws.{Consumption, Consumption-of_prepared, consume_unchanged}
use adaptive_agent.Broker.Capability.{Capability}
use adaptive_agent.Broker.Dispatch.{
  Clock, Host, Provider, State, Admission, admitted, denied, crashed_admission, Next, go, replayed,
  stop, broken, prepare, prepare_approved, prepare_plain, prepared_write, needs_approval, call_of,
}
use adaptive_agent.Broker.Request.{
  request_tool_call, after_admit, after_replay, execute, refuse, continue, with_evidence,
  error_result,
}
use adaptive_agent.Broker.Reconcile.{reconcile_call, reconcile_calls, reconcile_run}
use adaptive_agent.Broker.History.{Event, run, run_induction}

-- A predicate that no write of the broker breaks.
pub record Closed {ℓ} (P : Tables → Type ℓ) : Type ℓ where
  pub artifact :
      (t : Tables) (a : List (String × ToolResult)) → P t → P (record t { artifacts = a })
  pub insert :
      (c : ToolCall) (t : Tables)
      → collides c t.calls ≡ false
      → P t
      → P (record t { calls = t.calls ++ c ∷ [] })
  pub consumption :
      (now : ℕ) (token : String) (c : ToolCall) (t t' : Tables)
      → Consumption now token c t t'
      → P t
      → P t'
  pub save :
      (call_id : String) (r : ToolResult) (t : Tables) → P t → P (save_tool_result call_id r t)
  pub mark :
      (call_id : String) (r : ToolResult) (t : Tables)
      → P t
      → P (mark_call_outcome_unknown call_id r t)
  pub issue : (a : Approval) (t t' : Tables) → issue_approval a t ≡ some t' → P t → P t'

pub tables-prepared_write : (r : Prepared × Tables) → (prepared_write r).1 ≡ r.1
unfolding prepared_write
tables-prepared_write (prepared, t) = refl
tables-prepared_write (conflict, t) = refl
tables-prepared_write (integrity_error, t) = refl
tables-prepared_write (ToolCalls.invalid, t) = refl
tables-prepared_write (duplicate, t) = refl

module _ {ℓ} {P : Tables → Type ℓ} (k : Closed P) where
  evidence_keeps : (h : Host) (r : ToolResult) (t : Tables) → P t → P (with_evidence h r t).1
  unfolding with_evidence put_artifact
  evidence_keeps h r t v = ground (arith, k.artifact t (t.artifacts ++ (h.digest r, r) ∷ []) v)

  plain_keeps :
      (existing : Bool) (c : ToolCall) (request : ToolRequest) (t : Tables)
      → P t
      → P (prepare_plain existing c request t).1
  unfolding prepare_plain prepare_tool_call
  plain_keeps existing c request t v = elim (Bool-cases (collides c t.calls)) [
    | inl e ↦ rw e v
    | inr e ↦ rw e (k.insert c t e v)
  ]

  consume_keeps :
      (now : ℕ) (token : String) (c : ToolCall) (t : Tables)
      → P t
      → P (consume_approval_and_prepare now token c t).1
  consume_keeps now token c t v = elim (consume_unchanged now token c t) [
    | inl e ↦ rw e v
    | inr e ↦ k.consumption now token c t _ (Consumption-of_prepared now token c t e) v
  ]

  approved_keeps :
      (now : ℕ) (o : Option String) (c : ToolCall) (t : Tables)
      → P t
      → P (prepare_approved now o c t).1
  unfolding prepare_approved
  approved_keeps now none c t v = v
  approved_keeps now (some token) c t v = ground (
    arith,
    v,
    tables-prepared_write (consume_approval_and_prepare now token c t),
    consume_keeps now token c t v,
  )

  prepare_keeps :
      (now : ℕ) (e : EffectClass) (dry existing : Bool) (env_id : String) (request : ToolRequest)
      (t : Tables)
      → P t
      → P (prepare now e dry existing env_id request t).1
  unfolding prepare
  prepare_keeps now e dry existing env_id request t v = elim (Bool-cases (needs_approval e dry)) [
    | inl y ↦ rw y (approved_keeps now request.approval_token (call_of env_id request) t v)
    | inr n ↦ rw n (plain_keeps existing (call_of env_id request) request t v)
  ]

  module _ {W : Type 0} (h : Host) (p : Provider W) (registry : Registry) (clock : Clock)
      (request : ToolRequest) where
    refuse_keeps :
        (version : String) (e : ToolError) (s : State W)
        → P s.tables
        → P (refuse h p registry clock request version e s).1.tables
    unfolding refuse error_result
    refuse_keeps version e s v = evidence_keeps h _ s.tables v

    pub execute_keeps :
        (dry : Bool) (schema : ToolSchema) (s : State W)
        → P s.tables
        → P (execute h p registry clock dry schema request s).1.tables
    unfolding execute
    execute_keeps dry schema s v = k.save request.call_id _ _ (evidence_keeps h _ s.tables v)

    pub continue_keeps :
        (dry : Bool) (schema : ToolSchema) (w : W) (r : Next (Unit {0}) × Tables)
        → P r.1
        → P (continue h p registry clock dry schema request w r).1.tables
    unfolding continue
    continue_keeps dry schema w (go u, t) v = execute_keeps dry schema _ v
    continue_keeps dry schema w (replayed r, t) v = v
    continue_keeps dry schema w (stop e, t) v =
        refuse_keeps schema.version e (record { tables = t; world = w }) v
    continue_keeps dry schema w (broken, t) v = v

    after_replay_keeps :
        (env_id : String) (dry : Bool) (schema : ToolSchema) (s : State W) (n : Next Bool)
        → P s.tables
        → P (after_replay h p registry clock env_id dry schema request s n).1.tables
    unfolding after_replay
    after_replay_keeps env_id dry schema s (stop e) v = refuse_keeps schema.version e s v
    after_replay_keeps env_id dry schema s broken v = v
    after_replay_keeps env_id dry schema s (replayed r) v = v
    after_replay_keeps env_id dry schema s (go existing) v =
        continue_keeps dry schema s.world _
          (prepare_keeps clock.consumed schema.effect dry existing env_id request s.tables v)

    after_admit_keeps :
        (env_id : String) (dry : Bool) (s : State W) (a : Admission)
        → P s.tables
        → P (after_admit h p registry clock env_id request dry s a).1.tables
    unfolding after_admit
    after_admit_keeps env_id dry s crashed_admission v = v
    after_admit_keeps env_id dry s (denied version e) v = refuse_keeps version e s v
    after_admit_keeps env_id dry s (admitted schema) v = after_replay_keeps env_id dry schema s _ v

    pub request_keeps :
        (env_id : String) (cap : Capability) (budget : Option ℤ) (dry : Bool) (s : State W)
        → P s.tables
        → P (request_tool_call h p registry clock env_id request cap budget dry s).1.tables
    unfolding request_tool_call
    request_keeps env_id cap budget dry s v = after_admit_keeps env_id dry s _ v

  module _ {W : Type 0} (h : Host) (p : Provider W) where
    reconcile_calls_keeps :
        (now : ℕ) (w : W) (cs : List ToolCall) (t : Tables)
        → P t
        → P (reconcile_calls h p now w cs t).1
    unfolding reconcile_calls reconcile_call
    reconcile_calls_keeps now w [] t v = v
    reconcile_calls_keeps now w (c ∷ cs) t v =
        reconcile_calls_keeps now w cs _ (k.mark c.call_id _ _ (evidence_keeps h _ t v))

    reconcile_keeps :
        (s : State W) (now : ℕ) (run_id : String)
        → P s.tables
        → P (reconcile_run h p now run_id s).1.tables
    unfolding reconcile_run
    reconcile_keeps s now run_id v =
        reconcile_calls_keeps now s.world (list_unreconciled_calls s.tables.calls run_id) s.tables v

    pub run_keeps :
        (registry : Registry) (events : List Event) (s : State W)
        → P s.tables
        → P (run h p registry s events).tables
    run_keeps registry =
        run_induction h p registry P
          (λ s clock env_id request cap budget dry v.
            request_keeps h p registry clock request env_id cap budget dry s v)
          (λ s now run_id v. reconcile_keeps s now run_id v) (λ a t v t' e. k.issue a t t' e v)
