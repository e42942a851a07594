-- ===== src/Retrieval/Search.antt =====
-- AccessFilteredRetriever of src/adaptive_agent/retrieval.py. The score is the overlap divided by a
-- number that is the same for all sources, so sources are ranked by the overlap. `words` stands for
-- `re.findall` on the folded text.
use Prim.Native.String.{compare}
use Prim.Native.Nat.{Ordering}
use adaptive_agent.Prelude.{
  ℕ, zero, suc, Bool, true, false, not, ◌&&◌, ◌||◌, String, Option, none, some, List, [], ◌∷◌, ◌++◌,
  map, ◌==◌, eqb, ltb, length, any, select, member, if◌then◌else◌,
}
use adaptive_agent.Json.{boolean, Fields, get}
use adaptive_agent.Gate.Values.{or_null}
use adaptive_agent.Gate.Checks.{strings}
use adaptive_agent.Retrieval.Sources.{
  SourceKind, public_doc, live_evidence, task_state, skill, SourceRecord, is_string,
}

-- The arguments of a search that limit it. A run of an exposure set is an environment and a run.
pub record Scope : Type 0 where
  pub environment_id : String
  pub run_id : String
  pub skill_ids : Option (List String)
  pub source_runs : Option (List (String × String))

unfoldable pub same_id : Option String → String → Bool
same_id none id = false
same_id (some s) id = s == id

-- The source's environment is not given, or passes the test.
unfoldable pub no_other : (String → Bool) → Option String → Bool
no_other test none = true
no_other test (some s) = test s

-- (environment, run) in runs
unfoldable pub in_runs : List (String × String) → SourceRecord → Bool
unfolding same_id
in_runs runs s =
    any (λ (r : String × String). same_id s.environment_id r.0 && same_id s.run_id r.1) runs

unfoldable pub skill_ok : Option (List String) → SourceRecord → Bool
unfolding is_string
skill_ok ids s =
    is_string "active" (or_null (get "bundleState" s.metadata))
    && elim ids [ none ↦ true | some names ↦ member s.source_id names ]

-- What each kind asks for; `bound` says that the source is of an admitted run.
unfoldable pub kind_allowed : Option (List String) → Bool → SourceRecord → SourceKind → Bool
unfolding is_string skill_ok
kind_allowed ids bound s public_doc = member s.trust_class ("operator" ∷ "system" ∷ [])
kind_allowed ids bound s live_evidence =
    bound
    && is_string "development" s.partition
    && member s.trust_class ("broker" ∷ "evaluator" ∷ "system" ∷ [])
kind_allowed ids bound s task_state = bound && member s.trust_class ("system" ∷ "broker" ∷ [])
kind_allowed ids bound s skill = skill_ok ids s

unfoldable pub allowed : Scope → SourceRecord → Bool
unfolding kind_allowed no_other in_runs same_id
allowed scope s = s.active && s.verified && s.visibility == "learner" && elim scope.source_runs [
  | some runs ↦
      no_other (λ env. any (λ (r : String × String). r.0 == env) runs) s.environment_id
      && kind_allowed scope.skill_ids (in_runs runs s) s s.kind
  | none ↦
      no_other (λ env. env == scope.environment_id) s.environment_id
      && kind_allowed scope.skill_ids (same_id s.run_id scope.run_id) s s.kind
]

-- A context item; the environment and the run are those of the source.
pub record ContextItem : Type 0 where
  pub source_id : String
  pub kind : SourceKind
  pub excerpt : String
  pub content_hash : String
  pub overlap : ℕ
  pub environment_id : Option String
  pub run_id : Option String
  pub failure : Bool

pub record RetrievalResult : Type 0 where
  pub docs : List ContextItem
  pub evidence : List ContextItem
  pub task_state : List ContextItem
  pub skills : List ContextItem

abbrev pub is_evidence : SourceKind → Bool
is_evidence live_evidence = true
is_evidence _ = false

unfoldable pub is_refuted : Fields → Bool
is_refuted metadata = elim (or_null (get "outcomePassed" metadata)) [
  | boolean b ↦ not b
  | _ ↦ false
]

abbrev pub stop_words : List String
stop_words = "the" ∷ "and" ∷ "for" ∷ "with" ∷ "from" ∷ []

abbrev pub no_later : String → String → Bool
no_later a b = elim (compare a b) [ Ordering.gt ↦ false | _ ↦ true ]

abbrev pub ranked : ContextItem → ContextItem → Bool
ranked a b = ltb b.overlap a.overlap || eqb a.overlap b.overlap && no_later a.source_id b.source_id

-- Failures first.
abbrev pub failures_ranked : ContextItem → ContextItem → Bool
failures_ranked a b = a.failure && not b.failure || (a.failure || not b.failure) && ranked a b

-- sorted(), which is stable.
module _ {A : Type 0} (before : A → A → Bool) where
  unfoldable pub insert : A → List A → List A
  insert a [] = a ∷ []
  insert a (b ∷ bs) = let rest = insert a bs in if before a b then a ∷ b ∷ bs else b ∷ rest

  unfoldable pub sorted : List A → List A
  unfolding insert
  sorted [] = []
  sorted (a ∷ rest) = insert a (sorted rest)

-- xs[:n]
unfoldable pub take {ℓ} : {A : Type ℓ} → ℕ → List A → List A
take zero xs = []
take (suc n) [] = []
take (suc n) (x ∷ xs) = x ∷ take n xs

-- The run that was noted last for the source id, or "".
unfoldable pub run_of : List SourceRecord → String → String
run_of [] id = ""
run_of (s ∷ ss) id =
    let rest = run_of ss id in
    if any (λ (d : SourceRecord). d.source_id == id) ss
    then rest
    else if s.source_id == id
    then elim s.run_id [ none ↦ "" | some r ↦ r ]
    else ""

unfoldable pub per_run :
    ℕ → (ContextItem → String) → List String → List ContextItem → List ContextItem
unfolding take sorted
per_run n key [] items = []
per_run n key (run ∷ runs) items =
    take n (sorted failures_ranked (select (λ i. key i == run) items)) ++ per_run n key runs items

module _ (words : String → List String) where
  unfoldable pub tokens : String → List String
  unfolding strings
  tokens text = strings (select (λ w. not (member w stop_words)) (words text))

  unfoldable pub item_of : List String → SourceRecord → ContextItem
  unfolding tokens is_refuted
  item_of query s = record {
    source_id = s.source_id;
    kind = s.kind;
    excerpt = s.content;
    content_hash = s.content_hash;
    overlap = length (select (λ w. member w (tokens s.content)) query);
    environment_id = s.environment_id;
    run_id = s.run_id;
    failure = is_evidence s.kind && is_refuted s.metadata;
  }

  -- Sources without any word of the query are left out, but for evidence.
  unfoldable pub relevant : List String → SourceRecord → Bool
  unfolding item_of
  relevant query s =
      not
        (eqb (item_of query s).overlap 0 && not (eqb (length query) 0) && not (is_evidence s.kind))

  unfoldable pub kept : Scope → List String → List SourceRecord → List SourceRecord
  unfolding allowed relevant
  kept scope query sources = select (λ s. allowed scope s && relevant query s) sources

  unfoldable pub bucket : (SourceRecord → Bool) → List String → List SourceRecord → List ContextItem
  unfolding item_of sorted
  bucket test query sources = sorted ranked (map (item_of query) (select test sources))

  unfoldable pub evidence_of : ℕ → Scope → List SourceRecord → List ContextItem → List ContextItem
  unfolding take per_run run_of strings sorted
  evidence_of n scope sources items = elim scope.source_runs [
    | none ↦ take n items
    | some runs ↦
        let noted = select (λ s. is_evidence s.kind) sources in
        let key : ContextItem → String = λ i. run_of noted i.source_id in
        per_run n key (sorted no_later (strings (map key items))) items
  ]

  -- n is `max_items_per_kind`.
  unfoldable pub search : ℕ → Scope → String → List SourceRecord → RetrievalResult
  unfolding tokens kept bucket take evidence_of
  search n scope query_text all_sources =
      let query = tokens query_text in
      let sources = kept scope query all_sources in
      record {
        docs = take n (bucket (λ s. elim s.kind [ public_doc ↦ true | _ ↦ false ]) query sources);
        evidence = evidence_of n scope sources (bucket (λ s. is_evidence s.kind) query sources);
        task_state =
            take n (bucket (λ s. elim s.kind [ task_state ↦ true | _ ↦ false ]) query sources);
        skills = take n (bucket (λ s. elim s.kind [ skill ↦ true | _ ↦ false ]) query sources);
      }

-- The last source with the id.
unfoldable pub available : List SourceRecord → String → Option SourceRecord
available [] id = none
available (s ∷ ss) id =
    let rest = available ss id in
    elim rest [ some d ↦ some d | none ↦ (if s.source_id == id then some s else none) ]

unfoldable pub collect : List SourceRecord → List String → Option (List SourceRecord)
unfolding available
collect sources [] = some []
collect sources (id ∷ ids) =
    let rest = collect sources ids in
    elim (available sources id) [
      | none ↦ none
      | some s ↦ elim rest [ none ↦ none | some ss ↦ some (s ∷ ss) ]
    ]

-- `none` is a RetrievalError: no citation, or one that is not available.
unfoldable pub require_development_evidence :
    Scope → List String → List SourceRecord → Option (List SourceRecord)
unfolding collect allowed strings
require_development_evidence scope ids sources =
    let requested = strings ids in
    let open_skills : Scope = record scope { skill_ids = none } in
    if eqb (length requested) 0
    then none
    else collect (select (λ s. is_evidence s.kind && allowed open_skills s) sources) requested
