-- ===== src/Broker/Replay.antt =====
-- Idempotency of `request_tool_call` in src/adaptive_agent/broker.py.
use adaptive_agent.Prelude.{
  Bool, true, false, not, ◌||◌, String, Option, none, some, ◌≡◌, refl, arith, ◌==◌, eq_iff, inl,
  inr, Bool-cases, ap, ◌∙◌,
}
use adaptive_agent.Json.{obj, same_text_iff}
use adaptive_agent.Json.Canonical.{sort_fields}
use adaptive_agent.Json.Number.{ℤ}
use adaptive_agent.Models.Refs.{read, write, ToolSchema}
use adaptive_agent.Models.Tools.{
  ToolRequest, ToolResult, ToolError, error, idempotency_conflict, outcome_unknown,
  after_reconciliation,
}
use adaptive_agent.Environment.Registry.{Registry}
use adaptive_agent.Store.ToolCalls.{
  ToolCall, same_arguments, get_tool_call_by_idempotency, put_artifact,
}
use adaptive_agent.Broker.Capability.{Capability}
use adaptive_agent.Broker.Dispatch.{
  Clock, Host, Provider, State, Reply, returned, admitted, admit, replay, fail_with, Next, go,
  replayed, stop,
}
use adaptive_agent.Broker.Request.{
  request_tool_call, after_admit, after_replay, refuse, with_evidence, error_result,
}

-- The stored call is for the same tool and arguments.
abbrev pub SameContent : ToolCall → ToolRequest → Type 0
SameContent c request = (c.tool ≡ request.tool) × (c.arguments ≡ sort_fields request.arguments)

same_content :
    (c : ToolCall) (request : ToolRequest)
    → SameContent c request
    → (not (same_arguments c.arguments (sort_fields request.arguments))
        || not (c.tool == request.tool))
      ≡ false
same_content c request (e, f) = ground (
  arith,
  eq_iff c.tool request.tool,
  (same_text_iff (obj c.arguments) (obj (sort_fields request.arguments))).1,
)

tests_agree :
    (c : ToolCall) (request : ToolRequest)
    → (not (same_arguments c.arguments (sort_fields request.arguments))
        || not (c.tool == request.tool))
      ≡ false
    → SameContent c request
tests_agree c request e = (
  (eq_iff c.tool request.tool).0 (ground arith),
  let same : obj c.arguments ≡ obj (sort_fields request.arguments) =
        (same_text_iff (obj c.arguments) (obj (sort_fields request.arguments))).0 (ground arith) in
      cc,
)

other_content :
    (c : ToolCall) (request : ToolRequest)
    → ¬ SameContent c request
    → (not (same_arguments c.arguments (sort_fields request.arguments))
        || not (c.tool == request.tool))
      ≡ true
other_content c request ne =
    elim (Bool-cases (
      not (same_arguments c.arguments (sort_fields request.arguments))
      || not (c.tool == request.tool))) [
        | inl e ↦ e
        | inr e ↦ absurd (ne (tests_agree c request e))
      ]

-- The reply is this error, the world is as it was, and so are the stored calls and approvals.
pub record RefusedWith {W : Type 0} (e : ToolError) (s : State W) (out : Reply × State W)
    : Type 0 where
  pub result : ToolResult
  pub reply_is : out.0 ≡ returned result
  pub is_error : result.status ≡ error
  pub error_is : result.error ≡ some e
  pub world_kept : out.1.world ≡ s.world
  pub calls_kept : out.1.tables.calls ≡ s.tables.calls
  pub approvals_kept : out.1.tables.approvals ≡ s.tables.approvals

module _ {W : Type 0} (h : Host) (p : Provider W) (registry : Registry) (clock : Clock)
    (env_id : String) (request : ToolRequest) (cap : Capability) (budget : Option ℤ) (dry : Bool)
    (s : State W) (schema : ToolSchema)
    (admission : admit h registry clock.checked env_id request cap budget ≡ admitted schema)
    (c : ToolCall)
    (stored : get_tool_call_by_idempotency s.tables.calls request.run_id request.idempotency_key
      ≡ some c) where
  pub by_replay :
      (n : Next Bool)
      → replay (p.effect request.tool) s.tables.calls request ≡ n
      → request_tool_call h p registry clock env_id request cap budget dry s
        ≡ after_replay h p registry clock env_id dry schema request s n
  unfolding request_tool_call
  by_replay n e =
      ap (after_admit h p registry clock env_id request dry s) admission
      ∙ ap (after_replay h p registry clock env_id dry schema request s) e

  -- An admitted request whose run, key, tool and arguments have a stored result gets that result under its
  -- own call id, and neither the tables nor the provider's world change.
  pub stored_result_replayed :
      (prior : ToolResult)
      → SameContent c request
      → c.result ≡ some prior
      → request_tool_call h p registry clock env_id request cap budget dry s
        ≡ (returned (record prior { call_id = request.call_id }), s)
  unfolding after_replay
  stored_result_replayed prior same e =
      by_replay (replayed (record prior { call_id = request.call_id })) found
    where
      found :
          replay (p.effect request.tool) s.tables.calls request
          ≡ replayed (record prior { call_id = request.call_id })
      found = unfold replay in ground (arith, stored, same_content c request same)

  refuse-RefusedWith :
      (version : String) (e : ToolError)
      → RefusedWith e s (refuse h p registry clock request version e s)
  unfolding refuse error_result with_evidence put_artifact
  refuse-RefusedWith version e = record {
    result = _;
    reply_is = refl;
    is_error = refl;
    error_is = refl;
    world_kept = refl;
    calls_kept = ground arith;
    approvals_kept = ground arith;
  }

  -- An admitted request whose run and key are stored with another tool or other arguments is refused as a
  -- conflict; the world, the stored calls and the approvals stay as they were.
  pub other_content_refused :
      ¬ SameContent c request
      → RefusedWith
          (fail_with idempotency_conflict)
          s
          (request_tool_call h p registry clock env_id request cap budget dry s)
  unfolding after_replay
  other_content_refused ne =
      rw (by_replay (stop (fail_with idempotency_conflict)) found)
        (refuse-RefusedWith schema.version (fail_with idempotency_conflict))
    where
      found :
          replay (p.effect request.tool) s.tables.calls request
          ≡ stop (fail_with idempotency_conflict)
      found = unfold replay in ground (arith, stored, other_content c request ne)

  -- An admitted request that repeats a stored write without a result is refused until the write is
  -- reconciled; the world, the stored calls and the approvals stay as they were.
  pub unresolved_write_refused :
      SameContent c request
      → c.result ≡ none
      → p.effect request.tool ≡ write
      → RefusedWith
          (record { code = outcome_unknown; retry = after_reconciliation })
          s
          (request_tool_call h p registry clock env_id request cap budget dry s)
  unfolding after_replay
  unresolved_write_refused same e w =
      rw (by_replay (stop unresolved) found) (refuse-RefusedWith schema.version unresolved)
    where
      unresolved : ToolError
      unresolved = record { code = outcome_unknown; retry = after_reconciliation }

      found : replay (p.effect request.tool) s.tables.calls request ≡ stop unresolved
      found = unfold replay in ground (arith, stored, same_content c request same, w)

  pub replay_unresolved_read :
      SameContent c request
      → c.result ≡ none
      → p.effect request.tool ≡ read
      → replay (p.effect request.tool) s.tables.calls request ≡ go true
  unfolding replay
  replay_unresolved_read same e w = ground (arith, stored, same_content c request same, w)
