-- ===== src/Retrieval/Sources.antt =====
-- SourceRecord of src/adaptive_agent/retrieval.py, its checks and `SourceRecord.from_mapping`.
-- `digest` stands for the SHA-256 of a text. An error is `none`.
use adaptive_agent.Prelude.{
  Bool, true, false, not, ◌&&◌, String, Option, none, some, List, [], ◌∷◌, ◌==◌, member,
  if◌then◌else◌,
}
use adaptive_agent.Json.{Json, null, boolean, str, arr, obj, Items, nil, cons, Fields, end, get}
use adaptive_agent.Gate.Values.{or_null}

pub data SourceKind : Type 0 where
  public_doc live_evidence task_state skill : SourceKind

pub record SourceRecord : Type 0 where
  pub source_id : String
  pub kind : SourceKind
  pub content : String
  pub content_hash : String
  pub environment_id : Option String
  pub run_id : Option String
  pub partition : Json
  pub visibility : String
  pub trust_class : String
  pub verified : Bool
  pub active : Bool
  pub citations : List String
  pub metadata : Fields

-- value == text
unfoldable pub is_string : String → Json → Bool
is_string s (str t) = t == s
is_string s _ = false

-- The value is a string of the list.
unfoldable pub one_of : List String → Json → Bool
one_of ss (str t) = member t ss
one_of ss _ = false

-- A metadata field `authority` is a bool, if there is one.
unfoldable pub authority_ok : Fields → Bool
authority_ok metadata = elim (get "authority" metadata) [
  | none ↦ true
  | some v ↦ elim v [ boolean b ↦ true | _ ↦ false ]
]

unfoldable pub has_authority : Fields → Bool
has_authority metadata = elim (or_null (get "authority" metadata)) [ boolean b ↦ b | _ ↦ false ]

unfoldable pub kind_ok : SourceRecord → SourceKind → Bool
unfolding one_of has_authority
kind_ok s live_evidence =
    one_of ("training" ∷ "development" ∷ "validation" ∷ "final" ∷ []) s.partition
kind_ok s skill = not (has_authority s.metadata)
kind_ok s public_doc = not (s.visibility == "evaluator_only")
kind_ok s task_state = true

unfoldable pub kind_of : Json → Option SourceKind
kind_of (str s) =
    if s == "public_doc"
    then some public_doc
    else if s == "live_evidence"
    then some live_evidence
    else if s == "task_state"
    then some task_state
    else if s == "skill"
    then some skill
    else none
kind_of _ = none

-- value.get(first, value.get(second, default))
unfoldable pub either_key : String → String → Json → Fields → Json
either_key first second d value = elim (get first value) [
  | some v ↦ v
  | none ↦ elim (get second value) [ some v ↦ v | none ↦ d ]
]

unfoldable pub as_string : Json → Option String
as_string (str s) = some s
as_string _ = none

unfoldable pub as_bool : Json → Option Bool
as_bool (boolean b) = some b
as_bool _ = none

-- None or a string.
unfoldable pub as_id : Json → Option (Option String)
as_id null = some none
as_id (str s) = some (some s)
as_id _ = none

unfoldable pub string_items : Items → Option (List String)
string_items nil = some []
string_items (cons (str s) vs) =
    let rest = string_items vs in elim rest [ none ↦ none | some ss ↦ some (s ∷ ss) ]
string_items (cons _ vs) = none

unfoldable pub as_strings : Json → Option (List String)
unfolding string_items
as_strings (arr vs) = string_items vs
as_strings _ = none

unfoldable pub as_fields : Json → Option Fields
as_fields (obj fs) = some fs
as_fields _ = none

infixl 5 ◌>>=◌
unfoldable pub ◌>>=◌ : {A B : Type 0} → Option A → (A → Option B) → Option B
none >>= f = none
some a >>= f = f a

module _ (digest : String → String) where
  -- The checks of `__post_init__`.
  unfoldable pub is_valid : SourceRecord → Bool
  unfolding authority_ok kind_ok
  is_valid s =
      not (s.source_id == "")
      && not (s.content == "")
      && s.content_hash == digest s.content
      && authority_ok s.metadata
      && member s.visibility ("learner" ∷ "operator" ∷ "evaluator_only" ∷ [])
      && kind_ok s s.kind

  unfoldable pub construct : SourceRecord → Option SourceRecord
  unfolding is_valid
  construct s = if is_valid s then some s else none

  unfoldable pub from_mapping : Json → Option SourceRecord
  from_mapping v = do
    value ← as_fields v
    kind ← kind_of (or_null (get "kind" value))
    content ← as_string (or_null (get "content" value))
    hash ← as_string (either_key "contentHash" "content_hash" null value)
    verified ← as_bool (either_key "verified" "verified" (boolean false) value)
    active ← as_bool (either_key "active" "active" (boolean true) value)
    citations ← as_strings (either_key "citations" "citations" (arr nil) value)
    metadata ← as_fields (either_key "metadata" "metadata" (obj end) value)
    source_id ← as_string (either_key "sourceId" "source_id" (str "") value)
    visibility ← as_string (either_key "visibility" "visibility" (str "learner") value)
    trust ← as_string (either_key "trustClass" "trust_class" (str "operator") value)
    environment ← as_id (either_key "environmentId" "environment_id" null value)
    run ← as_id (either_key "runId" "run_id" null value)
    construct (record {
      source_id = source_id;
      kind = kind;
      content = content;
      content_hash = hash;
      environment_id = environment;
      run_id = run;
      partition = or_null (get "partition" value);
      visibility = visibility;
      trust_class = trust;
      verified = verified;
      active = active;
      citations = citations;
      metadata = metadata;
    })
