-- ===== src/Environment/Pointer.antt =====
-- `_resolve_ref` of src/adaptive_agent/environment.py: local aliases '#/$defs/name'.
use Prim.Native.Char.{Char, code}
use Prim.Native.String.{slice, len}
use text.Mathlib.Text.{starts_with}
use adaptive_agent.Prelude.{
  eqb, ◌&&◌, not, String, Option, none, some, List, [], ◌∷◌, if◌then◌else◌,
}
use adaptive_agent.Json.{Json, obj, Fields, get}

-- s.split("/")
split : String → List String
split String.[] = "" ∷ []
split (String.◌∷◌ c s) = elim (split s) [
  | [] ↦ []
  | part ∷ rest ↦ if eqb (code c) b'/' then "" ∷ part ∷ rest else (String.◌∷◌ c part) ∷ rest
]

-- s.replace("~" + digit, by)
replace : Char → Char → String → String
replace digit by String.[] = ""
replace digit by (String.◌∷◌ c String.[]) = String.◌∷◌ c ""
replace digit by (String.◌∷◌ c (String.◌∷◌ d s)) =
    let found = String.◌∷◌ by (replace digit by s) in
    let other = String.◌∷◌ c (replace digit by (String.◌∷◌ d s)) in
    if eqb (code c) b'~' && eqb (code d) (code digit) then found else other

walk : List String → Json → Option Json
walk [] node = some node
walk (part ∷ parts) (obj fs) = elim (get (replace "0" "~" (replace "1" "/" part)) fs) [
  | none ↦ none
  | some node ↦ walk parts node
]
walk (part ∷ parts) _ = none

schema_at : Option Json → Option Fields
schema_at (some (obj fs)) = some fs
schema_at _ = none

-- `none`: the SchemaValidationError of an alias that is external, unresolvable or no schema.
unfoldable pub resolve_ref : String → Fields → Option Fields
unfolding split replace walk schema_at
resolve_ref ref root =
    if not (starts_with ref "#/")
    then none
    else schema_at (walk (split (slice ref 2 (len ref))) (obj root))
