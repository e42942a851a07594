-- ===== src/Environment/Schema/Laws.antt =====
-- What the arguments that pass the validator of src/adaptive_agent/environment.py are known to
-- satisfy, and that a schema with an alias that leads back to itself rejects every value.
use adaptive_agent.Prelude.{Option, ℕ, zero, suc, Bool, true, false, String, some, ◌≡◌, refl, arith}
use adaptive_agent.Json.{Json, boolean, str, arr, obj, Items, Fields, get, has}
use adaptive_agent.Json.Number.{Float}
use adaptive_agent.Environment.Pointer.{resolve_ref}
use adaptive_agent.Environment.Schema.{keywords, composition, ref_check, validate, validate_value}
use adaptive_agent.Environment.Schema.Keywords.{
  valid, invalid, Rec, mapping, Listed, mapping-closed, mapping-required,
}

module _ (search : String → String → Option Bool) (multiple : Float → Float → Bool) where
  mapping_of_keywords :
      (rec : Rec) (root : Fields) (value : Json) (schema : Fields)
      → keywords search multiple rec root value schema ≡ valid
      → mapping rec value schema ≡ valid
  unfolding keywords
  mapping_of_keywords rec root value schema h = ground arith

  ref_of_keywords :
      (rec : Rec) (root : Fields) (value : Json) (schema : Fields) (ref : String) (target : Fields)
      → get "$ref" schema ≡ some (str ref)
      → resolve_ref ref root ≡ some target
      → rec value (obj target) ≡ invalid
      → keywords search multiple rec root value schema ≡ invalid
  unfolding keywords composition ref_check
  ref_of_keywords rec root value schema ref target p q r = ground arith

  -- An alias that stands where it leads to rejects every value, whatever the fuel.
  self_ref_invalid :
      (fuel : ℕ) (root node : Fields) (value : Json) (ref : String)
      → get "$ref" node ≡ some (str ref)
      → resolve_ref ref root ≡ some node
      → validate search multiple fuel root value (obj node) ≡ invalid
  unfolding validate
  self_ref_invalid zero root node value ref p q = refl
  self_ref_invalid (suc fuel) root node value ref p q =
      ref_of_keywords (validate search multiple fuel root) root value node ref node p q
        (self_ref_invalid fuel root node value ref p q)

  -- On a schema whose alias leads to a schema with that same alias the validator rejects every
  -- value.
  pub validate_value-self_ref :
      (root node : Fields) (value : Json) (ref : String)
      → get "$ref" root ≡ some (str ref)
      → resolve_ref ref root ≡ some node
      → get "$ref" node ≡ some (str ref)
      → validate_value search multiple value (obj root) ≡ invalid
  unfolding validate_value
  validate_value-self_ref root node value ref r q p =
      unfold validate in
      ref_of_keywords (validate search multiple 64 root) root value root ref node r q
        (self_ref_invalid 64 root node value ref p q)

  -- An object that passes a closed schema (`additionalProperties` false, `properties` an object)
  -- has declared keys only, and every key that the schema's list `required` names.
  pub validate_value-closed :
      (args schema props : Fields) (required : Items)
      → get "additionalProperties" schema ≡ some (boolean false)
      → get "properties" schema ≡ some (obj props)
      → get "required" schema ≡ some (arr required)
      → validate_value search multiple (obj args) (obj schema) ≡ valid
      → ((k : String) → has k args ≡ true → has k props ≡ true)
        × ((k : String) → Listed k required → has k args ≡ true)
  unfolding validate_value
  validate_value-closed args schema props required a p r h =
      let m = mapping_of_keywords (validate search multiple 64 schema) schema (obj args) schema h in
      (
        λ k q. mapping-closed _ args schema props k a p m q,
        λ k l. mapping-required _ args schema required k r m l,
      )
