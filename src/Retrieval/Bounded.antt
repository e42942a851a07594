-- ===== src/Retrieval/Bounded.antt =====
-- The sizes of the results of src/adaptive_agent/retrieval.py.
use adaptive_agent.Prelude.{ℕ, ◌*◌, ◌≤◌, String, none, some, List, map, ◌≡◌, ◌==◌, length, select}
use adaptive_agent.Gate.Checks.{strings}
use adaptive_agent.Retrieval.Sources.{SourceRecord}
use adaptive_agent.Retrieval.Search.{
  Scope, ContextItem, RetrievalResult, is_evidence, failures_ranked, sorted, take, run_of, tokens,
  kept, bucket,
}
use adaptive_agent.Retrieval.Distinct.{Distinct}

-- The items that the key gives the run.
abbrev pub of_key : (ContextItem → String) → String → List ContextItem → List ContextItem
of_key key run items = select (λ i. key i == run) items

module _ (n : ℕ) (key : ContextItem → String) (run : String) (items : List ContextItem) where
  group : String → List ContextItem
  group other = take n (sorted failures_ranked (of_key key other items))

-- The run that is noted for an item.
abbrev pub noted_run : List SourceRecord → ContextItem → String
noted_run found i = run_of (select (λ (s : SourceRecord). is_evidence s.kind) found) i.source_id

abbrev pub evidence_run :
    (String → List String) → Scope → String → List SourceRecord → ContextItem → String
evidence_run words scope query_text sources =
    noted_run (kept words scope (tokens words query_text) sources)

-- The runs of the evidence that a search finds, each once.
abbrev pub evidence_runs : (String → List String) → Scope → String → List SourceRecord → List String
evidence_runs words scope query_text sources =
    let query = tokens words query_text in
    let found = kept words scope query sources in
    let noted = select (λ (s : SourceRecord). is_evidence s.kind) found in
    strings (
      map (λ (i : ContextItem). run_of noted i.source_id)
        (bucket words (λ s. is_evidence s.kind) query found))

-- At most n items of each kind; of evidence, when runs are declared, n of each single run, and so n for
-- each of the runs together.
pub record Within (n : ℕ) (scope : Scope) (key : ContextItem → String) (runs : List String)
    (r : RetrievalResult) : Type 0 where
  pub docs : length r.docs ≤ n
  pub task_state : length r.task_state ≤ n
  pub skills : length r.skills ≤ n
  pub evidence : scope.source_runs ≡ none → length r.evidence ≤ n
  pub by_run :
      (declared : List (String × String)) (run : String)
      → scope.source_runs ≡ some declared
      → length (of_key key run r.evidence) ≤ n
  pub in_all :
      (declared : List (String × String))
      → scope.source_runs ≡ some declared
      → length r.evidence ≤ n * length runs
