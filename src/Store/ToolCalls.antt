-- ===== src/Store/ToolCalls.antt =====
-- The tables tool_calls and approvals of src/adaptive_agent/store.py, and the artifacts that hold
-- tool results. `digest` stands for the SHA-256 of the canonical JSON text of a result.
pub mod Laws
use Prim.Native.String.{slice, ◌++◌ as str_append}
use adaptive_agent.Prelude.{
  ℕ, Bool, true, false, not, ◌&&◌, ◌||◌, String, Option, none, some, List, [], ◌∷◌, ◌++◌, map, ltb,
  ◌==◌, if◌then◌else◌, any, find_first, select,
}
use adaptive_agent.Json.{Json, obj, Fields, same_text}
use adaptive_agent.Models.Refs.{ArtifactRef}
use adaptive_agent.Models.Tools
use adaptive_agent.Models.Tools.{ToolResult, Effect}

-- `arguments` is the sorted value of the column arguments_json, `result` of result_json.
pub record ToolCall : Type 0 where
  pub call_id : String
  pub run_id : String
  pub step_id : String
  pub environment_id : String
  pub tool : String
  pub arguments : Fields
  pub idempotency_key : String
  pub approval_token : Option String
  pub result : Option ToolResult
  pub effect : Option Effect

pub record Approval : Type 0 where
  pub token : String
  pub run_id : String
  pub environment_id : String
  pub tool : String
  pub idempotency_key : String
  pub arguments : Fields
  pub consumed : Bool
  pub consumed_call_id : Option String
  pub expires_at : ℕ

pub record Tables : Type 0 where
  pub calls : List ToolCall
  pub approvals : List Approval
  pub artifacts : List (String × ToolResult)

abbrev pub same_arguments : Fields → Fields → Bool
same_arguments a b = same_text (obj a) (obj b)

abbrev pub keyed : String → String → ToolCall → Bool
keyed run_id key c = c.run_id == run_id && c.idempotency_key == key

abbrev pub identified : String → ToolCall → Bool
identified call_id c = c.call_id == call_id

unfoldable pub get_tool_call : List ToolCall → String → Option ToolCall
get_tool_call calls call_id = find_first (identified call_id) calls

unfoldable pub get_tool_call_by_idempotency : List ToolCall → String → String → Option ToolCall
get_tool_call_by_idempotency calls run_id key = find_first (keyed run_id key) calls

-- PRIMARY KEY (call_id), UNIQUE (run_id, idempotency_key)
unfoldable pub collides : ToolCall → List ToolCall → Bool
collides c calls = any (identified c.call_id) calls || any (keyed c.run_id c.idempotency_key) calls

-- The row is added, or the IntegrityError is caught and the answer is false.
unfoldable pub prepare_tool_call : ToolCall → Tables → Bool × Tables
unfolding collides
prepare_tool_call c t =
    if collides c t.calls then (false, t) else (true, record t { calls = t.calls ++ c ∷ [] })

pub data Prepared : Type 0 where
  prepared invalid duplicate conflict integrity_error : Prepared

abbrev pub consume : String → String → Approval → Approval
consume token call_id a =
    if a.token == token then record a { consumed = true; consumed_call_id = some call_id } else a

-- The approval is for this run, tool, key and arguments. Its environment is not compared.
unfoldable pub matches : Approval → ToolCall → Bool
matches a c =
    a.run_id == c.run_id
    && a.tool == c.tool
    && a.idempotency_key == c.idempotency_key
    && same_arguments a.arguments c.arguments

unfoldable pub find_approval : List Approval → String → Option Approval
find_approval approvals token = find_first (λ a. a.token == token) approvals

-- The writes of the transaction: the approval is consumed and the row added, or the key of the
-- row is taken and both are rolled back.
consume_and_insert : String → ToolCall → Tables → Prepared × Tables
unfolding collides
consume_and_insert token c t = if collides c t.calls then (integrity_error, t) else (
  prepared,
  record t {
    approvals = map (consume token c.call_id) t.approvals;
    calls = t.calls ++ record c { approval_token = some token } ∷ [];
  },
)

unfoldable pub consume_approval_and_prepare : ℕ → String → ToolCall → Tables → Prepared × Tables
unfolding matches find_approval consume_and_insert get_tool_call_by_idempotency
consume_approval_and_prepare now token c t = elim (find_approval t.approvals token) [
  | none ↦ (invalid, t)
  | some a ↦
      if a.consumed
      then (invalid, t)
      else if ltb a.expires_at now
      then (invalid, t)
      else if not (matches a c)
      then (invalid, t)
      else elim (get_tool_call_by_idempotency t.calls c.run_id c.idempotency_key) [
        | some existing ↦
            (if same_arguments existing.arguments c.arguments then duplicate else conflict, t)
        | none ↦ consume_and_insert token c t
      ]
]

abbrev pub unused : Approval → Approval
unused a = record a { consumed = false; consumed_call_id = none }

-- `none` is the IntegrityError of a token that exists.
unfoldable pub issue_approval : Approval → Tables → Option Tables
issue_approval a t =
    if any (λ b. b.token == a.token) t.approvals
    then none
    else some (record t { approvals = t.approvals ++ unused a ∷ [] })

abbrev pub with_result : String → ToolResult → ToolCall → ToolCall
with_result call_id r c =
    if c.call_id == call_id then record c { result = some r; effect = some r.effect } else c

-- UPDATE … WHERE call_id = ?
unfoldable pub save_tool_result : String → ToolResult → Tables → Tables
save_tool_result call_id r t = record t { calls = map (with_result call_id r) t.calls }

abbrev pub is_none {ℓ} : {A : Type ℓ} → Option A → Bool
is_none none = true
is_none (some a) = false

unfoldable pub list_unreconciled_calls : List ToolCall → String → List ToolCall
list_unreconciled_calls calls run_id = select (λ c. c.run_id == run_id && is_none c.result) calls

abbrev pub with_unknown : String → ToolResult → ToolCall → ToolCall
with_unknown call_id r c =
    if c.call_id == call_id && is_none c.result
    then record c { result = some r; effect = some Tools.unknown }
    else c

-- UPDATE … SET effect = 'unknown' WHERE call_id = ? AND result_json IS NULL. The answer, whether
-- a row was changed, is dropped by the only caller.
unfoldable pub mark_call_outcome_unknown : String → ToolResult → Tables → Tables
mark_call_outcome_unknown call_id r t = record t { calls = map (with_unknown call_id r) t.calls }

module _ (digest : ToolResult → String) where
  -- A file named by its digest is written once.
  unfoldable pub put_artifact : ToolResult → Tables → ArtifactRef × Tables
  put_artifact r t =
      let sha = digest r in
      let ref : ArtifactRef = record {
        id = str_append "art_" (slice sha 0 16);
        version = "1";
        sha256 = sha;
      } in
      let stored = any (λ (entry : String × ToolResult). entry.0 == sha) t.artifacts in
      (ref, if stored then t else record t { artifacts = t.artifacts ++ (sha, r) ∷ [] })
