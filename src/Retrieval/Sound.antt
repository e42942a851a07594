-- ===== src/Retrieval/Sound.antt =====
-- What holds of every SourceRecord that src/adaptive_agent/retrieval.py reads from a mapping.
use adaptive_agent.Prelude.{
  Bool, true, false, String, Option, none, some, List, [], ◌∷◌, ◌≡◌, refl, arith, inl, inr,
  Bool-cases, eq_iff, subst, member, ◌≢◌,
}
use adaptive_agent.Json.{Json, null, boolean, str, arr, obj, nil, Fields, end, get}
use adaptive_agent.Gate.Values.{or_null}
use adaptive_agent.Retrieval.Sources.{
  public_doc, live_evidence, skill, SourceRecord, one_of, authority_ok, has_authority, kind_ok,
  kind_of, either_key, as_string, as_bool, as_id, as_strings, as_fields, is_valid, construct,
  from_mapping, ◌>>=◌,
}

-- The checks of `__post_init__`: the id and the content are given; the hash is that of the content;
-- the authority of the metadata is a bool, if there is one; the visibility is one of the three;
-- evidence names a partition; a skill carries no authority; and a document is not for the evaluator
-- only.
pub record Sound (digest : String → String) (s : SourceRecord) : Type 0 where
  pub named : s.source_id ≢ ""
  pub filled : s.content ≢ ""
  pub hashed : s.content_hash ≡ digest s.content
  pub authority : (v : Json) → get "authority" s.metadata ≡ some v → (b : Bool) × (v ≡ boolean b)
  pub visible : member s.visibility ("learner" ∷ "operator" ∷ "evaluator_only" ∷ []) ≡ true
  pub partitioned :
      s.kind ≡ live_evidence
      → (p : String) × (s.partition ≡ str p)
        × (member p ("training" ∷ "development" ∷ "validation" ∷ "final" ∷ []) ≡ true)
  pub powerless : s.kind ≡ skill → get "authority" s.metadata ≢ some (boolean true)
  pub shareable : s.kind ≡ public_doc → s.visibility ≢ "evaluator_only"

authority_ok-boolean :
    (metadata : Fields) (v : Json)
    → authority_ok metadata ≡ true
    → get "authority" metadata ≡ some v
    → (b : Bool) × (v ≡ boolean b)
unfolding authority_ok
authority_ok-boolean metadata v h e = go v (ground (arith, h, e))
  where
    go :
        (w : Json)
        → (let t : Bool = (elim w [ boolean b ↦ true | _ ↦ false ]) in t) ≡ true
        → (b : Bool) × (w ≡ boolean b)
    go (boolean b) k = (b, refl)
    go _ k = cc

one_of-str :
    (ss : List String) (v : Json)
    → one_of ss v ≡ true
    → (p : String) × (v ≡ str p) × (member p ss ≡ true)
unfolding one_of
one_of-str ss (str p) h = (p, refl, h)
one_of-str ss _ h = cc

has_authority-true :
    (metadata : Fields)
    → get "authority" metadata ≡ some (boolean true)
    → has_authority metadata ≡ false
    → ⊥
unfolding has_authority
has_authority-true metadata e h = ground (arith, e, h)

is_valid-Sound :
    (digest : String → String) (s : SourceRecord) → is_valid digest s ≡ true → Sound digest s
unfolding is_valid kind_ok
is_valid-Sound digest s h = record {
  named = λ e. ground (arith, h, (eq_iff s.source_id "").1 e);
  filled = λ e. ground (arith, h, (eq_iff s.content "").1 e);
  hashed = (eq_iff s.content_hash (digest s.content)).0 (ground (arith, h));
  authority = λ v. authority_ok-boolean s.metadata v (ground (arith, h));
  visible = ground (arith, h);
  partitioned = λ k.
      one_of-str ("training" ∷ "development" ∷ "validation" ∷ "final" ∷ []) s.partition
        (ground (arith, h, k));
  powerless = λ k e. has_authority-true s.metadata e (ground (arith, h, k));
  shareable = λ k e. ground (arith, h, k, (eq_iff s.visibility "evaluator_only").1 e);
}

-- A record that is read from a mapping: each field is what stands under the key, or under its other
-- spelling, or the default.
pub record ReadFrom (digest : String → String) (value : Json) (s : SourceRecord) : Type 0 where
  pub fields : Fields
  pub mapping : value ≡ obj fields
  pub kind : kind_of (or_null (get "kind" fields)) ≡ some s.kind
  pub content : as_string (or_null (get "content" fields)) ≡ some s.content
  pub hash : as_string (either_key "contentHash" "content_hash" null fields) ≡ some s.content_hash
  pub verified : as_bool (either_key "verified" "verified" (boolean false) fields) ≡ some s.verified
  pub active : as_bool (either_key "active" "active" (boolean true) fields) ≡ some s.active
  pub citations :
      as_strings (either_key "citations" "citations" (arr nil) fields) ≡ some s.citations
  pub metadata : as_fields (either_key "metadata" "metadata" (obj end) fields) ≡ some s.metadata
  pub source_id : as_string (either_key "sourceId" "source_id" (str "") fields) ≡ some s.source_id
  pub visibility :
      as_string (either_key "visibility" "visibility" (str "learner") fields) ≡ some s.visibility
  pub trust_class :
      as_string (either_key "trustClass" "trust_class" (str "operator") fields) ≡ some s.trust_class
  pub environment_id :
      as_id (either_key "environmentId" "environment_id" null fields) ≡ some s.environment_id
  pub run_id : as_id (either_key "runId" "run_id" null fields) ≡ some s.run_id
  pub partition : or_null (get "partition" fields) ≡ s.partition
  pub sound : Sound digest s

as_fields-obj : (v : Json) (fs : Fields) → as_fields v ≡ some fs → v ≡ obj fs
unfolding as_fields
as_fields-obj (obj gs) fs h = ground (arith, h)
as_fields-obj _ fs h = cc

construct-some :
    {P : Type 0} (digest : String → String) (s r : SourceRecord)
    → construct digest s ≡ some r
    → (s ≡ r → Sound digest s → P)
    → P
unfolding construct
construct-some digest s r h k = elim (Bool-cases (is_valid digest s)) [
  | inl t ↦ k (ground (arith, h, t)) (is_valid-Sound digest s t)
  | inr f ↦ ground (arith, h, f)
]

>>=-some {ℓ} :
    {A B : Type 0} {b : B} {P : Type ℓ} (m : Option A) (f : A → Option B)
    → (m >>= f) ≡ some b
    → ((a : A) → m ≡ some a → f a ≡ some b → P)
    → P
unfolding ◌>>=◌
>>=-some none f h k = cc
>>=-some (some a) f h k = k a refl h

-- A record that is read from a mapping has the fields that the mapping gives and passes the checks
-- of its type: id and content are there, the hash is that of the content, an authority is a bool, the
-- visibility is known, and what its kind asks for holds.
pub from_mapping-ReadFrom :
    (digest : String → String) (value : Json) (s : SourceRecord)
    → from_mapping digest value ≡ some s
    → ReadFrom digest value s
unfolding from_mapping
from_mapping-ReadFrom digest value s h = >>=-some _ _ h λ fs e1 h. >>=-some _ _ h λ _ e2 h.
    >>=-some _ _ h λ _ e3 h. >>=-some _ _ h λ _ e4 h. >>=-some _ _ h λ _ e5 h.
      >>=-some _ _ h λ _ e6 h. >>=-some _ _ h λ _ e7 h. >>=-some _ _ h λ _ e8 h.
        >>=-some _ _ h λ _ e9 h. >>=-some _ _ h λ _ e10 h. >>=-some _ _ h λ _ e11 h.
          >>=-some _ _ h λ _ e12 h. >>=-some _ _ h λ _ e13 h. construct-some digest _ s h λ q sound.
            subst (ReadFrom digest value) q (record {
              fields = fs;
              mapping = as_fields-obj value fs e1;
              kind = e2;
              content = e3;
              hash = e4;
              verified = e5;
              active = e6;
              citations = e7;
              metadata = e8;
              source_id = e9;
              visibility = e10;
              trust_class = e11;
              environment_id = e12;
              run_id = e13;
              partition = refl;
              sound = sound;
            })
