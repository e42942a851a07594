-- ===== src/Environment/Schema/Keywords/Verdicts.antt =====
-- The outcomes of a check, and how checks follow one another.
use adaptive_agent.Prelude.{Bool, String, Option, none, some, if◌then◌else◌}
use adaptive_agent.Json.{
  Json, null, boolean, int, float, str, arr, obj, Items, nil, cons, Fields, end, field, get,
}

-- `invalid` is a SchemaValidationError; `crashed` is any other exception, such as the TypeError
-- of a comparison between a number and a text, which no handler of the validator catches.
pub data Verdict : Type 0 where
  valid invalid crashed : Verdict

infixr 6 ◌then_check◌
abbrev pub ◌then_check◌ : Verdict → Verdict → Verdict
valid then_check v = v
invalid then_check v = invalid
crashed then_check v = crashed

-- The recursive call: a value and a schema.
abbrev pub Rec : Type 0
Rec = Json → Json → Verdict

abbrev pub check : Bool → Verdict
check b = if b then valid else invalid

-- The answer of `re.search`, or its re.error.
abbrev pub check_answer : Option Bool → Verdict
check_answer none = crashed
check_answer (some b) = check b

abbrev pub present : Option Json → (Json → Verdict) → Verdict
present none f = valid
present (some v) f = f v

-- if key in schema: f(schema[key])
abbrev pub when_has : String → Fields → (Json → Verdict) → Verdict
when_has key schema f = present (get key schema) f

chars : String → Items
chars String.[] = nil
chars (String.◌∷◌ c s) = cons (str (String.◌∷◌ c "")) (chars s)

names : Fields → Items
names end = nil
names (field k v fs) = cons (str k) (names fs)

-- What a `for` loop takes from a value: the items of a list, the keys of a dict, the characters
-- of a string; anything else is a TypeError.
unfoldable pub iterate : Json → Option Items
unfolding chars names
iterate (arr xs) = some xs
iterate (obj fs) = some (names fs)
iterate (str s) = some (chars s)
iterate null = none
iterate (boolean b) = none
iterate (int n) = none
iterate (float x) = none

abbrev pub over : Option Items → (Items → Verdict) → Verdict
over none f = crashed
over (some xs) f = f xs

abbrev pub for_each : (Json → Verdict) → Items → Verdict
for_each f nil = valid
for_each f (cons x xs) = f x then_check for_each f xs

-- The first item that passes ends the loop; if there is none the value is invalid.
abbrev pub for_some : (Json → Verdict) → Items → Verdict
for_some f nil = invalid
for_some f (cons x xs) =
    let rest = for_some f xs in elim (f x) [ valid ↦ valid | invalid ↦ rest | crashed ↦ crashed ]
