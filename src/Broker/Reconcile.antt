-- ===== src/Broker/Reconcile.antt =====
-- `ToolBroker.reconcile_run` of src/adaptive_agent/broker.py.
pub mod Laws
use adaptive_agent.Prelude.{
  ℕ, Bool, true, false, String, Option, none, some, List, [], ◌∷◌, ◌==◌, if◌then◌else◌,
}
use adaptive_agent.Models.Refs.{read, write}
use adaptive_agent.Models.Tools
use adaptive_agent.Models.Tools.{
  ToolResult, outcome_unknown, never, safe_read, ok, error, unknown, Retry,
}
use adaptive_agent.Store.ToolCalls.{
  ToolCall, Tables, list_unreconciled_calls, mark_call_outcome_unknown,
}
use adaptive_agent.Broker.Dispatch.{Host, Provider, State}
use adaptive_agent.Broker.Request.{no_evidence, with_evidence}

pub data Verdict : Type 0 where
  confirmed no_effect other : Verdict

-- The texts that the provider answers; any text but the two is treated alike.
read_verdict : String → Verdict
read_verdict v =
    if v == "confirmed" then confirmed else if v == "no_effect" then no_effect else other

-- verdict in ("confirmed", "no_effect")
abbrev pub is_terminal : Verdict → Bool
is_terminal confirmed = true
is_terminal no_effect = true
is_terminal other = false

module _ {W : Type 0} (h : Host) (p : Provider W) where
  -- Reads had no side effect; for writes the provider is asked.
  unfoldable pub verdict_of : W → ToolCall → Verdict
  unfolding read_verdict
  verdict_of w c = elim (p.effect c.tool) [
    | read ↦ no_effect
    | write ↦ read_verdict (p.reconcile w c.run_id c.tool c.arguments c.idempotency_key)
  ]

  retry_error : Retry → Option Tools.ToolError
  retry_error retry = some (record { code = outcome_unknown; retry = retry })

  unfoldable pub reconciled_result : ℕ → ToolCall → Verdict → ToolResult
  unfolding retry_error
  reconciled_result now c v = record {
    call_id = c.call_id;
    tool_version = p.version c.tool;
    observed_at = now;
    broker_evidence_ref = no_evidence "reconcile";
    status = elim v [ confirmed ↦ ok | _ ↦ error ];
    output = none;
    error = elim v [
      | confirmed ↦ none
      | no_effect ↦ retry_error safe_read
      | other ↦ retry_error never
    ];
    effect = elim v [ confirmed ↦ Tools.confirmed | no_effect ↦ Tools.none | other ↦ unknown ];
  }

  unfoldable pub reconcile_call : ℕ → W → ToolCall → Tables → Tables
  reconcile_call now w c t =
      let (r, t') = with_evidence h (reconciled_result now c (verdict_of w c)) t in
      mark_call_outcome_unknown c.call_id r t'

  -- The loop over the rows that were unresolved when it began.
  unfoldable pub reconcile_calls : ℕ → W → List ToolCall → Tables → List String × Tables
  unfolding reconcile_call
  reconcile_calls now w [] t = ([], t)
  reconcile_calls now w (c ∷ cs) t =
      let (resolved, t') = reconcile_calls now w cs (reconcile_call now w c t) in
      (if is_terminal (verdict_of w c) then c.call_id ∷ resolved else resolved, t')

  unfoldable pub reconcile_run : ℕ → String → State W → List String × State W
  unfolding reconcile_calls
  reconcile_run now run_id s =
      let (resolved, t) =
        reconcile_calls now s.world (list_unreconciled_calls s.tables.calls run_id) s.tables in
      (resolved, record s { tables = t })
