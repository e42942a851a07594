-- ===== src/Environment/Schema/Keywords/Containers.antt =====
-- Composition, and the constraints on arrays and objects.
use adaptive_agent.Prelude.{
  ℕ, suc, Bool, true, false, not, ◌||◌, String, Option, none, some, eqb, ◌==◌, if◌then◌else◌, ◌≡◌,
  ◌⊎◌, inl, inr, arith, eq_iff,
}
use adaptive_agent.Json.{
  Json, null, boolean, int, float, str, arr, obj, Items, nil, cons, Fields, end, field, get, has,
  count, as_number, same_text,
}
use adaptive_agent.Json.Canonical.{sort_keys}
use adaptive_agent.Json.Number.{Float, pos, from_int, lt, same}
use adaptive_agent.Environment.Schema.Keywords.Verdicts.{
  Verdict, valid, invalid, crashed, ◌then_check◌, Rec, check, present, when_has, iterate, over,
  for_each, for_some,
}

unfoldable pub all_of : Rec → Json → Json → Verdict
all_of rec value subs = over (iterate subs) (for_each (rec value))

unfoldable pub any_of : Rec → Json → Json → Verdict
any_of rec value subs = over (iterate subs) (for_some (rec value))

count_matches : Rec → Json → ℕ → Items → Verdict
count_matches rec value matches nil = check (eqb matches 1)
count_matches rec value matches (cons sub subs) =
    let hit = count_matches rec value (suc matches) subs in
    let miss = count_matches rec value matches subs in
    elim (rec value sub) [ valid ↦ hit | invalid ↦ miss | crashed ↦ crashed ]

unfoldable pub one_of : Rec → Json → Json → Verdict
unfolding count_matches
one_of rec value subs = over (iterate subs) (count_matches rec value 0)

unfoldable pub negated : Rec → Json → Json → Verdict
negated rec value sub = elim (rec value sub) [
  | valid ↦ invalid
  | invalid ↦ valid
  | crashed ↦ crashed
]

-- Truth of a value under `if`.
truthy : Json → Bool
truthy null = false
truthy (boolean b) = b
truthy (int n) = not (same (from_int n) (from_int (pos 0)))
truthy (float x) = not (same x (from_int (pos 0)))
truthy (str s) = not (s == "")
truthy (arr nil) = false
truthy (arr (cons x xs)) = true
truthy (obj end) = false
truthy (obj (field k v fs)) = true

is_truthy : Option Json → Bool
unfolding truthy
is_truthy none = false
is_truthy (some v) = truthy v

among_texts : Json → Items → Bool
among_texts x nil = false
among_texts x (cons y ys) = same_text (sort_keys x) (sort_keys y) || among_texts x ys

distinct_items : Items → Bool
unfolding among_texts
distinct_items nil = true
distinct_items (cons x xs) = if among_texts x xs then false else distinct_items xs

length_bound : (Float → Float → Bool) → ℕ → Json → Verdict
length_bound ok n limit = elim (as_number limit) [
  | none ↦ crashed
  | some y ↦ check (ok (from_int (pos n)) y)
]

-- schema.get(key), where an explicit null counts as absent.
given : Option Json → (Json → Verdict) → Verdict
given none f = valid
given (some null) f = valid
given (some v) f = f v

unfoldable pub sequence : Rec → Json → Fields → Verdict
unfolding is_truthy distinct_items length_bound given
sequence rec (arr xs) schema =
    when_has "minItems" schema (length_bound (λ a b. not (lt a b)) (count xs))
    then_check when_has "maxItems" schema (length_bound (λ a b. not (lt b a)) (count xs))
    then_check (if is_truthy (get "uniqueItems" schema) then check (distinct_items xs) else valid)
    then_check given (get "items" schema) (λ items. for_each (λ x. rec x items) xs)
    then_check given (get "contains" schema) (λ contains. for_some (λ x. rec x contains) xs)
sequence rec _ schema = valid

-- key in value, for a key of any type: only a string is a key, and a list or dict has no hash.
key_in : Fields → Json → Verdict
key_in fs (str k) = check (has k fs)
key_in fs (arr xs) = crashed
key_in fs (obj gs) = crashed
key_in fs _ = invalid

-- schema.get(key, default)
or_default : Json → Option Json → Json
or_default d none = d
or_default d (some v) = v

declared : Rec → Fields → Fields → Verdict
declared rec value end = valid
declared rec value (field k sub props) =
    present (get k value) (λ v. rec v sub) then_check declared rec value props

-- schema.get("properties", {}) is read as a dict: a value of another type has no `.items`.
properties_check : Rec → Fields → Json → (Fields → Verdict) → Verdict
unfolding declared
properties_check rec value (obj props) next = declared rec value props then_check next props
properties_check rec value _ next = crashed

each_additional : (String → Json → Verdict) → Fields → Fields → Verdict
each_additional f props end = valid
each_additional f props (field k v fs) =
    (if has k props then valid else f k v) then_check each_additional f props fs

additional_check : Rec → Fields → Json → Fields → Verdict
unfolding each_additional
additional_check rec value (boolean false) props = each_additional (λ k v. invalid) props value
additional_check rec value (obj extra) props =
    each_additional (λ k v. rec v (obj extra)) props value
additional_check rec value _ props = valid

each_name : Rec → Json → Fields → Verdict
each_name rec pnames end = valid
each_name rec pnames (field k v fs) = rec (str k) pnames then_check each_name rec pnames fs

dependents : Fields → Fields → Verdict
unfolding key_in
dependents value end = valid
dependents value (field k needed deps) =
    (if has k value then over (iterate needed) (for_each (key_in value)) else valid)
    then_check dependents value deps

dependents_check : Fields → Json → Verdict
unfolding dependents
dependents_check value (obj deps) = dependents value deps
dependents_check value _ = crashed

unfoldable pub mapping : Rec → Json → Fields → Verdict
unfolding key_in or_default properties_check additional_check given each_name dependents_check
mapping rec (obj value) schema =
    over (iterate (or_default (arr nil) (get "required" schema))) (for_each (key_in value))
    then_check properties_check rec value (or_default (obj end) (get "properties" schema)) (λ props.
      additional_check rec value (or_default (boolean true) (get "additionalProperties" schema))
        props
      then_check given (get "propertyNames" schema) (λ pnames. each_name rec pnames value)
      then_check dependents_check value (or_default (obj end) (get "dependentRequired" schema)))
mapping rec _ schema = valid

-- `required` lists the text `k`.
abbrev pub Listed : String → Items → Type 0
Listed k nil = ⊥
Listed k (cons x xs) = (x ≡ str k) ⊎ Listed k xs

each_additional-has :
    (value props : Fields) (k : String)
    → each_additional (λ j v. invalid) props value ≡ valid
    → has k value ≡ true
    → has k props ≡ true
unfolding each_additional has
each_additional-has end props k h p = cc
each_additional-has (field j v fs) props k h p =
    ground (arith, eq_iff j k, each_additional-has fs props k)

pub mapping-closed :
    (rec : Rec) (value schema props : Fields) (k : String)
    → get "additionalProperties" schema ≡ some (boolean false)
    → get "properties" schema ≡ some (obj props)
    → mapping rec (obj value) schema ≡ valid
    → has k value ≡ true
    → has k props ≡ true
unfolding mapping properties_check additional_check or_default
mapping-closed rec value schema props k a p h q = ground (arith, each_additional-has value props k)

for_each-key_in :
    (value : Fields) (xs : Items) (k : String)
    → for_each (key_in value) xs ≡ valid
    → Listed k xs
    → has k value ≡ true
unfolding key_in
for_each-key_in value nil k h l = elim l [ ]
for_each-key_in value (cons x xs) k h (inl e) = ground arith
for_each-key_in value (cons x xs) k h (inr l) = ground (arith, for_each-key_in value xs k)

pub mapping-required :
    (rec : Rec) (value schema : Fields) (required : Items) (k : String)
    → get "required" schema ≡ some (arr required)
    → mapping rec (obj value) schema ≡ valid
    → Listed k required
    → has k value ≡ true
unfolding mapping or_default iterate
mapping-required rec value schema required k r h l =
    ground (arith, for_each-key_in value required k)
