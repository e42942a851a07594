-- ===== src/Retrieval/Admitted.antt =====
-- What `_allowed` of src/adaptive_agent/retrieval.py asks of a source.
use adaptive_agent.Prelude.{
  Bool, true, ◌&&◌, String, none, some, List, [], ◌∷◌, ◌≡◌, refl, arith, ◌==◌, ap, eq_refl, ◌∙◌,
  ◌⊎◌, Option, any, member, inl, inr, Bool-cases, eq_iff,
}
use adaptive_agent.Json.{Json, str, get}
use adaptive_agent.Gate.Values.{or_null}
use adaptive_agent.Retrieval.Sources.{
  SourceKind, public_doc, live_evidence, skill, SourceRecord, is_string,
}
use adaptive_agent.Retrieval.Search.{
  Scope, same_id, no_other, in_runs, skill_ok, kind_allowed, allowed,
}

-- An environment and a run of the exposure set, which are those of the source.
pub record Declared (runs : List (String × String)) (s : SourceRecord) : Type 0 where
  pub environment : String
  pub run : String
  pub of_environment : s.environment_id ≡ some environment
  pub of_run : s.run_id ≡ some run
  pub listed : any (λ (r : String × String). r.0 == environment && r.1 == run) runs ≡ true

is_string-str : (t : String) (v : Json) → is_string t v ≡ true → v ≡ str t
unfolding is_string
is_string-str t (str u) h = ap str ((eq_iff u t).0 h)
is_string-str t _ h = cc

same_id-some : (o : Option String) (id : String) → same_id o id ≡ true → o ≡ some id
unfolding same_id
same_id-some none id h = cc
same_id-some (some s) id h = ap some ((eq_iff s id).0 h)

no_other-cases :
    (test : String → Bool) (o : Option String)
    → no_other test o ≡ true
    → (o ≡ none) ⊎ ((e : String) × (o ≡ some e) × (test e ≡ true))
unfolding no_other
no_other-cases test none h = inl refl
no_other-cases test (some e) h = inr (e, refl, h)

active_state : (o : Option Json) → is_string "active" (or_null o) ≡ true → o ≡ some (str "active")
unfolding is_string
active_state none h = cc
active_state (some v) h = ap some (is_string-str "active" v h)

in_runs-Declared :
    (runs : List (String × String)) (s : SourceRecord) → in_runs runs s ≡ true → Declared runs s
unfolding in_runs
in_runs-Declared [] s h = cc
in_runs-Declared ((env, run) ∷ runs) s h =
    elim (Bool-cases (same_id s.environment_id env && same_id s.run_id run)) [
      | inl t ↦ record {
        environment = env;
        run = run;
        of_environment = same_id-some s.environment_id env (ground (arith, t));
        of_run = same_id-some s.run_id run (ground (arith, t));
        listed = ground (arith, eq_refl env, eq_refl run);
      }
      | inr f ↦
          let d = in_runs-Declared runs s (ground (arith, h, f)) in
          record {
            environment = d.environment;
            run = d.run;
            of_environment = d.of_environment;
            of_run = d.of_run;
            listed = ground (arith, d.listed);
          }
    ]

near_environment :
    (id : String) (o : Option String)
    → no_other (λ env. env == id) o ≡ true
    → (o ≡ none) ⊎ (o ≡ some id)
near_environment id o h = elim (no_other-cases (λ env. env == id) o h) [
  | inl e ↦ inl e
  | inr (env, e, t) ↦ inr (e ∙ ap some ((eq_iff env id).0 t))
]

-- A source that may be shown in the scope: active, verified and for learners; of no environment or
-- of one in the scope; a document that operators or the system vouch for; evidence of the
-- development partition, and a task state, of an admitted run and of a trusted class; or a skill of
-- an active bundle that is among the skills allowed, if these are listed.
pub record Admitted (scope : Scope) (s : SourceRecord) : Type 0 where
  pub active : s.active ≡ true
  pub verified : s.verified ≡ true
  pub for_learners : s.visibility ≡ "learner"
  pub in_environment :
      scope.source_runs ≡ none
      → (s.environment_id ≡ none) ⊎ (s.environment_id ≡ some scope.environment_id)
  pub declared_environment :
      (runs : List (String × String))
      → scope.source_runs ≡ some runs
      → (s.environment_id ≡ none)
        ⊎ ((env : String) × (s.environment_id ≡ some env)
            × (any (λ (r : String × String). r.0 == env) runs ≡ true))
  pub trusted_doc : s.kind ≡ public_doc → member s.trust_class ("operator" ∷ "system" ∷ []) ≡ true
  pub development : s.kind ≡ live_evidence → s.partition ≡ str "development"
  pub trusted_evidence :
      s.kind ≡ live_evidence → member s.trust_class ("broker" ∷ "evaluator" ∷ "system" ∷ []) ≡ true
  pub own_run : s.kind ≡ live_evidence → scope.source_runs ≡ none → s.run_id ≡ some scope.run_id
  pub declared_run :
      (runs : List (String × String))
      → s.kind ≡ live_evidence
      → scope.source_runs ≡ some runs
      → Declared runs s
  pub trusted_state :
      s.kind ≡ SourceKind.task_state → member s.trust_class ("system" ∷ "broker" ∷ []) ≡ true
  pub own_state :
      s.kind ≡ SourceKind.task_state → scope.source_runs ≡ none → s.run_id ≡ some scope.run_id
  pub declared_state :
      (runs : List (String × String))
      → s.kind ≡ SourceKind.task_state
      → scope.source_runs ≡ some runs
      → Declared runs s
  pub active_skill : s.kind ≡ skill → get "bundleState" s.metadata ≡ some (str "active")
  pub listed_skill :
      (ids : List String)
      → s.kind ≡ skill
      → scope.skill_ids ≡ some ids
      → member s.source_id ids ≡ true

pub allowed-Admitted :
    (scope : Scope) (s : SourceRecord) → allowed scope s ≡ true → Admitted scope s
unfolding allowed kind_allowed skill_ok
allowed-Admitted scope s h = record {
  active = ground (arith, h);
  verified = ground (arith, h);
  for_learners = (eq_iff s.visibility "learner").0 (ground (arith, h));
  in_environment =
      λ e. near_environment scope.environment_id s.environment_id (ground (arith, h, e));
  declared_environment = λ runs e. no_other-cases _ s.environment_id (ground (arith, h, e));
  trusted_doc = λ k. ground (arith, h, k);
  development = λ k. is_string-str "development" s.partition (ground (arith, h, k));
  trusted_evidence = λ k. ground (arith, h, k);
  own_run = λ k e. same_id-some s.run_id scope.run_id (ground (arith, h, k, e));
  declared_run = λ runs k e. in_runs-Declared runs s (ground (arith, h, k, e));
  trusted_state = λ k. ground (arith, h, k);
  own_state = λ k e. same_id-some s.run_id scope.run_id (ground (arith, h, k, e));
  declared_state = λ runs k e. in_runs-Declared runs s (ground (arith, h, k, e));
  active_skill = λ k. active_state (get "bundleState" s.metadata) (ground (arith, h, k));
  listed_skill = λ ids k e. ground (arith, h, k, e);
}
