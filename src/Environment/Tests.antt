-- ===== src/Environment/Tests.antt =====
-- The registry and the validator of src/adaptive_agent/environment.py on concrete values.
use adaptive_agent.Prelude.{Option, Bool, true, false, String, none, some, [], ◌∷◌, ◌≡◌, refl, ◌==◌}
use adaptive_agent.Json.{
  boolean, int, str, obj, arr, nil, cons, Fields, end, field, get, has, count, as_number,
}
use adaptive_agent.Json.Number.{Float, pos, lt, le, same}
use adaptive_agent.Models.Refs.{ArtifactRef, read, write, ToolSchema, EnvironmentManifest}
use adaptive_agent.Environment.Pointer.{resolve_ref}
use adaptive_agent.Environment.Schema.{validate_value}
use adaptive_agent.Environment.Schema.Keywords.{
  typed, numeric, textual, sequence, mapping, iterate, valid, invalid, Listed,
}
use adaptive_agent.Environment.Schema.Laws.{validate_value-self_ref, validate_value-closed}
use adaptive_agent.Environment.Registry.{
  register, get_tool_schema, validate_manifest, tools_ok, is_schema, put_manifest,
}
use adaptive_agent.Environment.Registry.Laws.{Holds, register-get_tool_schema}

abbrev search : String → String → Option Bool
search pattern s = some (pattern == s)

abbrev multiple : Float → Float → Bool
multiple x y = true

-- {"$ref": "#/loop", "loop": {"$ref": "#/loop"}}
abbrev node : Fields
node = field "$ref" (str "#/loop") end

abbrev looping : Fields
looping = field "$ref" (str "#/loop") (field "loop" (obj node) end)

resolved : resolve_ref "#/loop" looping ≡ some node
unfolding resolve_ref get
resolved = refl

validate_value-self_ref_example : validate_value search multiple (str "x") (obj looping) ≡ invalid
validate_value-self_ref_example =
    validate_value-self_ref search multiple looping node (str "x") "#/loop" (unfold get in refl)
      resolved (unfold get in refl)

abbrev props : Fields
props = field "amount" (obj (field "type" (str "integer") end)) (field "note" (boolean true) end)

abbrev closed : Fields
closed = field "type" (str "object") (
    field "additionalProperties" (boolean false)
      (field "properties" (obj props) (field "required" (arr (cons (str "amount") nil)) end)))

abbrev seven : Fields
seven = field "amount" (int (pos 7)) end

seven_valid : validate_value search multiple (obj seven) (obj closed) ≡ valid
unfolding validate_value get typed numeric textual sequence mapping iterate has same as_number count
    le lt
seven_valid = refl

extra_invalid :
    validate_value search multiple (obj (field "other" (int (pos 1)) seven)) (obj closed) ≡ invalid
unfolding validate_value get typed numeric textual sequence mapping iterate has same as_number count
    le lt
extra_invalid = refl

validate_value-closed_example :
    ((k : String) → has k seven ≡ true → has k props ≡ true)
    × ((k : String) → Listed k (cons (str "amount") nil) → has k seven ≡ true)
validate_value-closed_example =
    validate_value-closed search multiple seven closed props (cons (str "amount") nil)
      (unfold get in refl) (unfold get in refl) (unfold get in refl) seven_valid

abbrev reference : ArtifactRef
reference = record { id = "r"; version = "1"; sha256 = "aa" }

abbrev pay : ToolSchema
pay = record {
  name = "pay";
  version = "1";
  input_schema = obj closed;
  output_schema = boolean true;
  effect = write;
}

abbrev look : ToolSchema
look = record pay { name = "look"; effect = read }

abbrev shop : EnvironmentManifest
shop = record {
  schema_version = 1;
  environment_id = "shop";
  version = "1";
  docs = reference ∷ [];
  tool_schemas = pay ∷ look ∷ [];
  policy_ref = reference;
  evaluator_ref = reference;
  reset_ref = reference;
  execution_modes = "interactive" ∷ [];
  capabilities = [];
}

registered : register [] shop ≡ some (shop ∷ [])
unfolding register validate_manifest tools_ok is_schema put_manifest
registered = refl

twice_refused : register [] (record shop { tool_schemas = pay ∷ pay ∷ [] }) ≡ none
unfolding register validate_manifest tools_ok is_schema put_manifest
twice_refused = refl

register-get_tool_schema_example :
    ((ts : ToolSchema)
      → Holds ts (pay ∷ look ∷ [])
      → get_tool_schema (shop ∷ []) "shop" ts.name ≡ some ts)
    × ((env_id tool_name : String)
        → ("shop" == env_id) ≡ false
        → get_tool_schema (shop ∷ []) env_id tool_name ≡ get_tool_schema [] env_id tool_name)
register-get_tool_schema_example = register-get_tool_schema [] (shop ∷ []) shop registered
