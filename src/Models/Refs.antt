-- ===== src/Models/Refs.antt =====
-- ArtifactRef, ToolSchema and EnvironmentManifest of src/adaptive_agent/models.py.
use adaptive_agent.Prelude.{ℕ, Bool, true, false, not, ◌&&◌, String, List, [], ◌∷◌, all, member}
use adaptive_agent.Json.{Json}

pub record ArtifactRef : Type 0 where
  pub id : String
  pub version : String
  pub sha256 : String

-- The two literals of ToolSchema.effect.
pub data EffectClass : Type 0 where
  read write : EffectClass

pub record ToolSchema : Type 0 where
  pub name : String
  pub version : String
  pub input_schema : Json
  pub output_schema : Json
  pub effect : EffectClass

pub record EnvironmentManifest : Type 0 where
  pub schema_version : ℕ
  pub environment_id : String
  pub version : String
  pub docs : List ArtifactRef
  pub tool_schemas : List ToolSchema
  pub policy_ref : ArtifactRef
  pub evaluator_ref : ArtifactRef
  pub reset_ref : ArtifactRef
  pub execution_modes : List String
  pub capabilities : List String

abbrev pub is_empty {ℓ} : {A : Type ℓ} → List A → Bool
is_empty [] = true
is_empty (x ∷ xs) = false

-- The model validator of EnvironmentManifest: true when no ValueError is raised.
unfoldable pub validate_boundary : EnvironmentManifest → Bool
validate_boundary m =
    not (is_empty m.docs)
    && not (is_empty m.tool_schemas)
    && not (is_empty m.execution_modes)
    && all (λ mode. member mode ("interactive" ∷ "batch" ∷ "dry_run" ∷ "replay" ∷ []))
        m.execution_modes
