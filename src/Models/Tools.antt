-- ===== src/Models/Tools.antt =====
-- ToolRequest, ToolError and ToolResult of src/adaptive_agent/models.py. Messages and the random
-- correlation ids are not modelled; times are numbers.
use adaptive_agent.Prelude.{ℕ, String, Option}
use adaptive_agent.Json.{Json, Fields}
use adaptive_agent.Models.Refs.{ArtifactRef}

pub record ToolRequest : Type 0 where
  pub run_id : String
  pub step_id : String
  pub call_id : String
  pub tool : String
  pub arguments : Fields
  pub idempotency_key : String
  pub approval_token : Option String

pub data ToolErrorCode : Type 0 where
  invalid_input forbidden version_conflict budget_exhausted tool_unavailable : ToolErrorCode
  outcome_unknown idempotency_conflict : ToolErrorCode

pub data Retry : Type 0 where
  never safe_read after_reconciliation : Retry

pub record ToolError : Type 0 where
  pub code : ToolErrorCode
  pub retry : Retry

pub data ResultStatus : Type 0 where
  ok error : ResultStatus

-- The effect that a result reports.
pub data Effect : Type 0 where
  none confirmed unknown : Effect

pub record ToolResult : Type 0 where
  pub call_id : String
  pub tool_version : String
  pub observed_at : ℕ
  pub broker_evidence_ref : ArtifactRef
  pub status : ResultStatus
  pub output : Option Json
  pub error : Option ToolError
  pub effect : Effect
