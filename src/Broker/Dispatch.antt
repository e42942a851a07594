-- ===== src/Broker/Dispatch.antt =====
-- The checks and the preparation of `ToolBroker.request_tool_call` in
-- src/adaptive_agent/broker.py.
use adaptive_agent.Prelude.{
  ℕ, zero, Bool, true, false, not, ◌&&◌, ◌||◌, String, Option, none, some, ◌==◌, if◌then◌else◌,
  List,
}
use adaptive_agent.Json.{Json, Fields}
use adaptive_agent.Json.Number.{ℤ, pos, negsuc, Float}
use adaptive_agent.Json.Canonical.{sort_fields}
use adaptive_agent.Models.Refs.{EffectClass, read, write, ToolSchema}
use adaptive_agent.Models.Tools.{
  ToolRequest, ToolErrorCode, invalid_input, forbidden, budget_exhausted, tool_unavailable,
  outcome_unknown, idempotency_conflict, never, after_reconciliation, ToolError, ResultStatus,
  Effect, ToolResult,
}
use adaptive_agent.Environment.Registry.{Registry, get_tool_schema, validate_arguments}
use adaptive_agent.Environment.Schema.Keywords.{valid, invalid, crashed}
use adaptive_agent.Store.ToolCalls.{
  ToolCall, Tables, same_arguments, get_tool_call_by_idempotency, prepare_tool_call, Prepared,
  prepared, conflict, integrity_error, consume_approval_and_prepare,
}
use adaptive_agent.Store.ToolCalls
use adaptive_agent.Broker.Capability.{Capability, covered, refused, crashed_coverage, covers}

-- The readings of the clock during one call, in their order.
pub record Clock : Type 0 where
  pub checked : ℕ
  pub consumed : ℕ
  pub observed : ℕ

-- What the broker uses of the host: `re.search`, with `none` for the re.error of a pattern that does
-- not compile; float arithmetic; and the digest of a result.
pub record Host : Type 0 where
  pub search : String → String → Option Bool
  pub multiple : Float → Float → Bool
  pub digest : ToolResult → String

-- What `provider.execute` does: it returns a ProviderExecutionOutcome, a dict or another value,
-- or it raises.
pub data Execution : Type 0 where
  outcome : Json → ResultStatus → Effect → Option ToolError → Execution
  answer : Fields → Execution
  unsupported raised : Execution

-- A tool provider with its own state, under the contract that ToolProvider documents for all of its
-- methods but `execute`: `effect` is 'read' or 'write', `version` is a text, and `reconcile` asks
-- whether a call landed and returns 'confirmed', 'no_effect' or another text. These three return,
-- and act on nothing.
pub record Provider (W : Type 0) : Type 0 where
  pub execute : W → String → String → Fields → Execution × W
  pub effect : String → EffectClass
  pub version : String → String
  pub reconcile : W → String → String → Fields → String → String

pub record State (W : Type 0) : Type 0 where
  pub tables : Tables
  pub world : W

-- A call returns a result, or an exception leaves it.
pub data Reply : Type 0 where
  returned : ToolResult → Reply
  failed : Reply

abbrev pub fail_with : ToolErrorCode → ToolError
fail_with code = record { code = code; retry = never }

pub data Admission : Type 0 where
  admitted : ToolSchema → Admission
  denied : String → ToolError → Admission
  crashed_admission : Admission

-- budget_remaining.get("tool_calls", 0) <= 0, unless there is no budget.
unfoldable pub exhausted : Option ℤ → Bool
exhausted none = false
exhausted (some (pos zero)) = true
exhausted (some (pos n)) = false
exhausted (some (negsuc n)) = true

-- The checks before the store is read: registration, capability, arguments, budget.
unfoldable pub admit :
    Host → Registry → ℕ → String → ToolRequest → Capability → Option ℤ → Admission
admit h registry now env_id request cap budget =
    elim (get_tool_schema registry env_id request.tool) [
      | none ↦ denied "unknown" (fail_with tool_unavailable)
      | some schema ↦ elim (covers h.search now cap env_id request schema) [
        | crashed_coverage ↦ crashed_admission
        | refused e ↦ denied schema.version e
        | covered ↦ elim (validate_arguments h.search h.multiple schema request.arguments) [
          | crashed ↦ crashed_admission
          | invalid ↦ denied schema.version (fail_with invalid_input)
          | valid ↦
              if exhausted budget
              then denied schema.version (fail_with budget_exhausted)
              else admitted schema
        ]
      ]
    ]

-- The row that the call prepares.
unfoldable pub call_of : String → ToolRequest → ToolCall
call_of env_id request = record {
  call_id = request.call_id;
  run_id = request.run_id;
  step_id = request.step_id;
  environment_id = env_id;
  tool = request.tool;
  arguments = sort_fields request.arguments;
  idempotency_key = request.idempotency_key;
  approval_token = none;
  result = none;
  effect = none;
}

pub data Next {ℓ} (A : Type ℓ) : Type ℓ where
  go : A → Next A
  replayed : ToolResult → Next A
  stop : ToolError → Next A
  broken : Next A

-- The stored call of the same run and key: a replay, a conflict, an unresolved write, or none of
-- these. The flag says whether there is such a call.
unfoldable pub replay : EffectClass → List ToolCall → ToolRequest → Next Bool
replay provider_effect calls request =
    elim (get_tool_call_by_idempotency calls request.run_id request.idempotency_key) [
      | none ↦ go false
      | some existing ↦
          if not (same_arguments existing.arguments (sort_fields request.arguments))
            || not (existing.tool == request.tool)
          then stop (fail_with idempotency_conflict)
          else elim existing.result [
            | some prior ↦ replayed (record prior { call_id = request.call_id })
            | none ↦ elim provider_effect [
              | write ↦ stop (record { code = outcome_unknown; retry = after_reconciliation })
              | read ↦ go true
            ]
          ]
    ]

-- After a lost race: the stored result, if there is one by now.
unfoldable pub lost_race : List ToolCall → ToolRequest → Next (Unit {0})
lost_race calls request =
    elim (get_tool_call_by_idempotency calls request.run_id request.idempotency_key) [
      | none ↦ stop (fail_with idempotency_conflict)
      | some existing ↦ elim existing.result [
        | some prior ↦ replayed (record prior { call_id = request.call_id })
        | none ↦ stop (fail_with idempotency_conflict)
      ]
    ]

unfoldable pub prepared_write : Prepared × Tables → Next (Unit {0}) × Tables
prepared_write (prepared, t) = (go tt, t)
prepared_write (conflict, t) = (stop (fail_with idempotency_conflict), t)
prepared_write (integrity_error, t) = (broken, t)
prepared_write (ToolCalls.invalid, t) = (stop (fail_with forbidden), t)
prepared_write (ToolCalls.duplicate, t) = (stop (fail_with forbidden), t)

unfoldable pub prepare_plain : Bool → ToolCall → ToolRequest → Tables → Next (Unit {0}) × Tables
unfolding lost_race
prepare_plain existing c request t =
    let (fresh, t') = prepare_tool_call c t in
    (if not fresh && not existing then lost_race t'.calls request else go tt, t')

unfoldable pub prepare_approved : ℕ → Option String → ToolCall → Tables → Next (Unit {0}) × Tables
unfolding prepared_write
prepare_approved now none c t = (stop (fail_with forbidden), t)
prepare_approved now (some token) c t =
    if token == ""
    then (stop (fail_with forbidden), t)
    else prepared_write (consume_approval_and_prepare now token c t)

abbrev pub needs_approval : EffectClass → Bool → Bool
needs_approval write dry_run = not dry_run
needs_approval read dry_run = false

-- A write that is not a dry run consumes its approval with the preparation. Any other call is
-- prepared alone, and goes on where a stored unresolved read keeps it from being prepared.
unfoldable pub prepare :
    ℕ → EffectClass → Bool → Bool → String → ToolRequest → Tables → Next (Unit {0}) × Tables
unfolding prepare_plain prepare_approved
prepare now schema_effect dry_run existing env_id request t =
    if needs_approval schema_effect dry_run
    then prepare_approved now request.approval_token (call_of env_id request) t
    else prepare_plain existing (call_of env_id request) request t
