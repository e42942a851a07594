-- ===== src/Environment/Registry.antt =====
-- EnvironmentRegistry of src/adaptive_agent/environment.py. The table of environments and the
-- artifacts that its rows refer to are read together, as a list of manifests keyed by id.
pub mod Laws
use adaptive_agent.Prelude.{
  ℕ, Bool, true, false, not, ◌&&◌, ◌||◌, String, Option, none, some, List, [], ◌∷◌, eqb, ◌==◌,
  if◌then◌else◌, find_first, member,
}
use adaptive_agent.Json.{Json, boolean, obj, Fields}
use adaptive_agent.Json.Number.{Float}
use adaptive_agent.Models.Refs.{ArtifactRef, ToolSchema, EnvironmentManifest, is_empty}
use adaptive_agent.Environment.Schema.{validate_value}
use adaptive_agent.Environment.Schema.Keywords.{Verdict}

abbrev pub Registry : Type 0
Registry = List EnvironmentManifest

-- INSERT OR REPLACE by the primary key.
unfoldable pub put_manifest : EnvironmentManifest → Registry → Registry
put_manifest m [] = m ∷ []
put_manifest m (n ∷ ns) =
    if n.environment_id == m.environment_id then m ∷ ns else n ∷ put_manifest m ns

unfoldable pub get_manifest : Registry → String → Option EnvironmentManifest
get_manifest r env_id = find_first (λ m. m.environment_id == env_id) r

unfoldable pub get_tool_schema : Registry → String → String → Option ToolSchema
unfolding get_manifest
get_tool_schema r env_id tool_name = elim (get_manifest r env_id) [
  | none ↦ none
  | some m ↦ find_first (λ ts. ts.name == tool_name) m.tool_schemas
]

unfoldable pub is_schema : Json → Bool
is_schema (obj fs) = true
is_schema (boolean b) = true
is_schema _ = false

-- The loop over the tools: no name twice, and schemas that are objects or booleans.
unfoldable pub tools_ok : List String → List ToolSchema → Bool
unfolding is_schema
tools_ok seen [] = true
tools_ok seen (ts ∷ rest) =
    not (member ts.name seen)
    && is_schema ts.input_schema
    && is_schema ts.output_schema
    && tools_ok (ts.name ∷ seen) rest

-- True when no SchemaValidationError is raised.
unfoldable pub validate_manifest : EnvironmentManifest → Bool
unfolding tools_ok
validate_manifest m =
    eqb m.schema_version 1
    && not (m.environment_id == "")
    && not (is_empty m.tool_schemas)
    && not (m.policy_ref.sha256 == "")
    && not (m.evaluator_ref.sha256 == "")
    && not (m.reset_ref.sha256 == "")
    && tools_ok [] m.tool_schemas

-- `none` is the SchemaValidationError of an invalid manifest.
unfoldable pub register : Registry → EnvironmentManifest → Option Registry
unfolding put_manifest
register r m = if validate_manifest m then some (put_manifest m r) else none

module _ (search : String → String → Option Bool) (multiple : Float → Float → Bool) where
  unfoldable pub validate_arguments : ToolSchema → Fields → Verdict
  validate_arguments ts arguments = validate_value search multiple (obj arguments) ts.input_schema
