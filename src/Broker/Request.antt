-- ===== src/Broker/Request.antt =====
-- The execution in `ToolBroker.request_tool_call` of src/adaptive_agent/broker.py, and the call as
-- a whole.
use adaptive_agent.Prelude.{Bool, true, false, String, Option, none, some, ◌≡◌, arith}
use adaptive_agent.Json.{str, boolean, obj, end, field}
use adaptive_agent.Json.Number.{ℤ}
use adaptive_agent.Models.Refs.{ArtifactRef, EffectClass, read, write, ToolSchema}
use adaptive_agent.Models.Tools
use adaptive_agent.Models.Tools.{
  ToolRequest, outcome_unknown, after_reconciliation, ToolError, ok, error, Effect, confirmed,
  unknown, ToolResult,
}
use adaptive_agent.Environment.Registry.{Registry}
use adaptive_agent.Store.ToolCalls.{Tables, save_tool_result, put_artifact}
use adaptive_agent.Broker.Capability.{Capability}
use adaptive_agent.Broker.Dispatch.{
  Clock, Host, Execution, outcome, answer, unsupported, raised, Provider, State, Reply, returned,
  failed, admitted, denied, crashed_admission, Admission, admit, Next, go, replayed, stop, broken,
  replay, prepare,
}

abbrev pub no_evidence : String → ArtifactRef
no_evidence id = record {
  id = id;
  version = "0";
  sha256 = "0000000000000000000000000000000000000000000000000000000000000000";
}

unfoldable pub pending_result : Clock → String → String → ToolResult
pending_result clock call_id version = record {
  call_id = call_id;
  tool_version = version;
  observed_at = clock.observed;
  broker_evidence_ref = no_evidence "pending";
  status = error;
  output = none;
  error = some (record { code = outcome_unknown; retry = after_reconciliation });
  effect = unknown;
}

-- `_provider_outcome` and the construction of the result; an exception, also that of an
-- unsupported value, is an unknown outcome.
unfoldable pub result_of : Clock → String → String → EffectClass → Execution → ToolResult
unfolding pending_result
result_of clock call_id version effect (outcome output status observed e) =
    record (pending_result clock call_id version) {
      status = status;
      output = some output;
      error = e;
      effect = observed;
    }
result_of clock call_id version effect (answer fs) = record (pending_result clock call_id version) {
  status = ok;
  output = some (obj fs);
  error = none;
  effect = elim effect [ write ↦ confirmed | read ↦ Tools.none ];
}
result_of clock call_id version effect unsupported = pending_result clock call_id version
result_of clock call_id version effect raised = pending_result clock call_id version

unfoldable pub dry_outcome : String → Execution
dry_outcome tool =
    outcome (obj (field "dryRun" (boolean true) (field "tool" (str tool) end))) ok Tools.none none

module _ (h : Host) where
  -- A result whose evidence is the artifact that holds it.
  unfoldable pub with_evidence : ToolResult → Tables → ToolResult × Tables
  with_evidence r t =
      let (ref, t') = put_artifact h.digest r t in (record r { broker_evidence_ref = ref }, t')

  pub calls-with_evidence : (r : ToolResult) (t : Tables) → (with_evidence r t).1.calls ≡ t.calls
  unfolding with_evidence put_artifact
  calls-with_evidence r t = ground arith

  unfoldable pub error_result : Clock → String → String → ToolError → Tables → ToolResult × Tables
  unfolding with_evidence
  error_result clock call_id version e t =
      with_evidence
        (record {
          call_id = call_id;
          tool_version = version;
          observed_at = clock.observed;
          broker_evidence_ref = no_evidence "none";
          status = error;
          output = none;
          error = some e;
          effect = Tools.none;
        })
        t

module _ {W : Type 0} (h : Host) (p : Provider W) (registry : Registry) where
  unfoldable pub run_provider : Bool → ToolRequest → W → Execution × W
  unfolding dry_outcome
  run_provider true request w = (dry_outcome request.tool, w)
  run_provider false request w = p.execute w request.run_id request.tool request.arguments

  unfoldable pub refuse : Clock → ToolRequest → String → ToolError → State W → Reply × State W
  refuse clock request version e s =
      let (r, t) = error_result h clock request.call_id version e s.tables in
      (returned r, record s { tables = t })

  -- The provider acts, and what is known of the outcome is stored.
  unfoldable pub execute : Clock → Bool → ToolSchema → ToolRequest → State W → Reply × State W
  unfolding run_provider
  execute clock dry_run schema request s =
      let (e, w) = run_provider dry_run request s.world in
      let raw = result_of clock request.call_id schema.version (p.effect request.tool) e in
      let (r, t) = with_evidence h raw s.tables in
      (returned r, record { tables = save_tool_result request.call_id r t; world = w })

  -- After the preparation.
  unfoldable pub continue :
      Clock → Bool → ToolSchema → ToolRequest → W → Next (Unit {0}) × Tables → Reply × State W
  unfolding refuse
  continue clock dry_run schema request w (go u, t) =
      execute clock dry_run schema request (record { tables = t; world = w })
  continue clock dry_run schema request w (replayed r, t) =
      (returned r, record { tables = t; world = w })
  continue clock dry_run schema request w (stop e, t) =
      refuse clock request schema.version e (record { tables = t; world = w })
  continue clock dry_run schema request w (broken, t) = (failed, record { tables = t; world = w })

  -- After the look at the stored call of the same key.
  unfoldable pub after_replay :
      Clock → String → Bool → ToolSchema → ToolRequest → State W → Next Bool → Reply × State W
  unfolding refuse continue
  after_replay clock env_id dry_run schema request s (stop e) =
      refuse clock request schema.version e s
  after_replay clock env_id dry_run schema request s broken = (failed, s)
  after_replay clock env_id dry_run schema request s (replayed r) = (returned r, s)
  after_replay clock env_id dry_run schema request s (go existing) =
      continue clock dry_run schema request s.world
        (prepare clock.consumed schema.effect dry_run existing env_id request s.tables)

  -- After the checks that need no stored call.
  unfoldable pub after_admit :
      Clock → String → ToolRequest → Bool → State W → Admission → Reply × State W
  unfolding refuse after_replay
  after_admit clock env_id request dry_run s crashed_admission = (failed, s)
  after_admit clock env_id request dry_run s (denied version e) = refuse clock request version e s
  after_admit clock env_id request dry_run s (admitted schema) =
      after_replay clock env_id dry_run schema request s
        (replay (p.effect request.tool) s.tables.calls request)

  unfoldable pub request_tool_call :
      Clock → String → ToolRequest → Capability → Option ℤ → Bool → State W → Reply × State W
  unfolding after_admit
  request_tool_call clock env_id request cap budget dry_run s =
      after_admit clock env_id request dry_run s
        (admit h registry clock.checked env_id request cap budget)
