-- ===== src/Retrieval/Admission.antt =====
-- Which sources of src/adaptive_agent/retrieval.py reach a learner's context.
use adaptive_agent.Prelude.{
  ℕ, zero, suc, Bool, true, ◌&&◌, String, List, [], ◌∷◌, ◌++◌, map, ◌≡◌, refl, arith, ◌==◌, select,
  inl, inr, Bool-cases, Option-cases, subst,
}
use adaptive_agent.Gate.Checks.{strings}
use adaptive_agent.Retrieval.Sources.{SourceKind, public_doc, live_evidence, skill, SourceRecord}
use adaptive_agent.Retrieval.Admitted.{Admitted, allowed-Admitted}
use adaptive_agent.Retrieval.Search.{
  Scope, allowed, ContextItem, RetrievalResult, is_evidence, ranked, failures_ranked, no_later,
  insert, sorted, take, run_of, per_run, tokens, item_of, relevant, kept, bucket, evidence_of,
  search,
}

abbrev pub Each {ℓ} : {A : Type ℓ} → (A → Type 0) → List A → Type 0
Each P [] = Unit {0}
Each P (x ∷ xs) = P x × Each P xs

module _ {A : Type 0} (P : A → Type 0) where
  pub select-Each : (test : A → Bool) (xs : List A) → Each P xs → Each P (select test xs)
  select-Each test [] u = tt
  select-Each test (x ∷ xs) (p, u) = elim (Bool-cases (test x)) [
    | inl t ↦ ground (arith, t, select-Each test xs u)
    | inr f ↦ ground (arith, f, select-Each test xs u)
  ]

  insert-Each :
      (before : A → A → Bool) (x : A) (xs : List A) → P x → Each P xs → Each P (insert before x xs)
  unfolding insert
  insert-Each before x [] p u = (p, tt)
  insert-Each before x (y ∷ ys) p (q, u) = elim (Bool-cases (before x y)) [
    | inl t ↦ ground (arith, t)
    | inr f ↦ ground (arith, f, insert-Each before x ys p u)
  ]

  pub sorted-Each : (before : A → A → Bool) (xs : List A) → Each P xs → Each P (sorted before xs)
  unfolding sorted
  sorted-Each before [] u = tt
  sorted-Each before (x ∷ xs) (p, u) =
      insert-Each before x (sorted before xs) p (sorted-Each before xs u)

  pub take-Each : (n : ℕ) (xs : List A) → Each P xs → Each P (take n xs)
  unfolding take
  take-Each zero xs u = tt
  take-Each (suc n) [] u = tt
  take-Each (suc n) (x ∷ xs) (p, u) = (p, take-Each n xs u)

  append-Each : (xs ys : List A) → Each P xs → Each P ys → Each P (xs ++ ys)
  append-Each [] ys u v = v
  append-Each (x ∷ xs) ys (p, u) v = (p, append-Each xs ys u v)

-- A test that selects adds what it shows.
pub select_both :
    {A : Type 0} (P Q : A → Type 0) (test : A → Bool)
    → ((x : A) → P x → test x ≡ true → Q x)
    → (xs : List A) → Each P xs
    → Each Q (select test xs)
select_both P Q test f [] u = tt
select_both P Q test f (x ∷ xs) (p, u) = elim (Bool-cases (test x)) [
  | inl t ↦ ground (arith, t, f x p t, select_both P Q test f xs u)
  | inr n ↦ ground (arith, n, select_both P Q test f xs u)
]

pub per_run-Each :
    (P : ContextItem → Type 0) (n : ℕ) (key : ContextItem → String) (runs : List String)
    (items : List ContextItem)
    → Each P items
    → Each P (per_run n key runs items)
unfolding per_run
per_run-Each P n key [] items u = tt
per_run-Each P n key (run ∷ runs) items u =
    append-Each P (take n (sorted failures_ranked (select (λ i. key i == run) items)))
      (per_run n key runs items)
      (take-Each P n _
        (sorted-Each P failures_ranked _ (select-Each P (λ i. key i == run) items u)))
      (per_run-Each P n key runs items u)

-- The item shows an admitted source: its content under its own id and hash.
pub record Shows (words : String → List String) (P : SourceRecord → Type 0) (scope : Scope)
    (query : List String) (k : SourceKind) (i : ContextItem) : Type 0 where
  pub source : SourceRecord
  pub given : P source
  pub admitted : Admitted scope source
  pub of_kind : source.kind ≡ k
  pub item : i ≡ item_of words query source

module _ (words : String → List String) (P : SourceRecord → Type 0) (scope : Scope)
    (query : List String) where
  map-Shows :
      (k : SourceKind) (sources : List SourceRecord)
      → Each (λ s. P s × Admitted scope s × (s.kind ≡ k)) sources
      → Each (Shows words P scope query k) (map (item_of words query) sources)
  map-Shows k [] u = tt
  map-Shows k (s ∷ ss) ((p, a, e), u) =
      (record { source = s; given = p; admitted = a; of_kind = e; item = refl }, map-Shows k ss u)

  kept-Admitted :
      (sources : List SourceRecord)
      → Each P sources
      → Each (λ s. P s × Admitted scope s) (kept words scope query sources)
  unfolding kept
  kept-Admitted sources u =
      select_both P (λ s. P s × Admitted scope s) (λ s. allowed scope s && relevant words query s)
        (λ s p h. (p, allowed-Admitted scope s (ground (arith, h)))) sources u

  bucket-Shows :
      (k : SourceKind) (test : SourceRecord → Bool)
      → ((s : SourceRecord) → test s ≡ true → s.kind ≡ k)
      → (sources : List SourceRecord) → Each (λ s. P s × Admitted scope s) sources
      → Each (Shows words P scope query k) (bucket words test query sources)
  unfolding bucket
  bucket-Shows k test f sources u = sorted-Each (Shows words P scope query k) ranked _ (
      map-Shows k (select test sources) (
        select_both (λ s. P s × Admitted scope s) (λ s. P s × Admitted scope s × (s.kind ≡ k)) test
          (λ s p h. (p.0, p.1, f s h)) sources u))

-- Every item of a search result, of each kind, shows a source of that kind that is among the given
-- ones and admitted in the scope.
pub record AllShown (words : String → List String) (P : SourceRecord → Type 0) (scope : Scope)
    (query : List String) (r : RetrievalResult) : Type 0 where
  pub docs : Each (Shows words P scope query public_doc) r.docs
  pub evidence : Each (Shows words P scope query live_evidence) r.evidence
  pub task_state : Each (Shows words P scope query SourceKind.task_state) r.task_state
  pub skills : Each (Shows words P scope query skill) r.skills

module _ (words : String → List String) (P : SourceRecord → Type 0) (scope : Scope)
    (query : List String) where
  evidence_of-Shows :
      (n : ℕ) (sources : List SourceRecord) (items : List ContextItem)
      → Each (Shows words P scope query live_evidence) items
      → Each (Shows words P scope query live_evidence) (evidence_of words n scope sources items)
  unfolding evidence_of
  evidence_of-Shows n sources items u = elim (Option-cases scope.source_runs) [
    | inl e ↦ ground (arith, e, take-Each (Shows words P scope query live_evidence) n items u)
    | inr (runs, e) ↦
        let noted = select (λ s. is_evidence s.kind) sources in
        let key : ContextItem → String = λ i. run_of noted i.source_id in
        subst (Each (Shows words P scope query live_evidence)) (ground (arith, e)) (
          per_run-Each (Shows words P scope query live_evidence) n key
            (sorted no_later (strings (map key items))) items u)
  ]

-- Whatever holds of all given sources, and so membership among them, holds of the source that an
-- item of the result shows, and that source is admitted in the scope of the search: by its
-- visibility, trust class, environment, run, partition, and skill, as its kind asks for.
pub search-AllShown :
    (words : String → List String) (P : SourceRecord → Type 0) (n : ℕ) (scope : Scope)
    (query_text : String) (sources : List SourceRecord)
    → Each P sources
    → AllShown words P scope (tokens words query_text) (search words n scope query_text sources)
unfolding search
search-AllShown words P n scope query_text sources u =
    let query = tokens words query_text in
    let admitted = kept-Admitted words P scope query sources u in
    record {
      docs =
          take-Each _ n _
            (bucket-Shows words P scope query public_doc _ (λ s h. ground arith) _ admitted);
      evidence =
          evidence_of-Shows words P scope query n (kept words scope query sources) _
            (bucket-Shows words P scope query live_evidence _ (λ s h. ground arith) _ admitted);
      task_state = take-Each _ n _ (
          bucket-Shows words P scope query SourceKind.task_state _ (λ s h. ground arith) _
            admitted);
      skills =
          take-Each _ n _
            (bucket-Shows words P scope query skill _ (λ s h. ground arith) _ admitted);
    }
