-- ===== src/Store/TaskRuns/Bindings.antt =====
-- The task, the inputs and the owner of a row of task_runs of src/adaptive_agent/store.py stay.
use adaptive_agent.Prelude.{
  Bool, true, false, String, Option, some, List, [], ◌∷◌, ◌≡◌, refl, arith, inl, inr, Bool-cases,
  Option-cases, eq_refl, subst, ◌≢◌, eq_iff,
}
use adaptive_agent.Store.ToolCalls.Laws.{find_first-append_some, find_first-map}
use adaptive_agent.Store.TaskRuns.{
  TaskRun, same_option, is_run, get_task_run, same_task, same_inputs, claim_row, claim_task_run,
  BenchmarkTask, claim_benchmark_task_run, with_status, update_task_run_status, release_task_run,
}

pub data Operation : Type 0 where
  claim : String → String → String → String → Operation
  claim_benchmark : BenchmarkTask → Operation
  update : String → String → Option String → Operation
  release : String → String → String → Option String → Operation

unfoldable pub perform : Operation → List TaskRun → List TaskRun
perform (claim id environment_id task_id partition) rows =
    (claim_task_run id environment_id task_id partition rows).1
perform (claim_benchmark b) rows = (claim_benchmark_task_run b rows).1
perform (update id status state) rows = update_task_run_status id status state rows
perform (release id owner_id status state) rows = (release_task_run id owner_id status state rows).1

unfoldable pub perform_all : List Operation → List TaskRun → List TaskRun
perform_all [] rows = rows
perform_all (o ∷ os) rows = perform_all os (perform o rows)

-- The two rows differ at most in status and state.
pub record SameBinding (a b : TaskRun) : Type 0 where
  pub task : same_task b a ≡ true
  pub benchmark_id : b.benchmark_id ≡ a.benchmark_id
  pub arm : b.arm ≡ a.arm
  pub seed : b.seed ≡ a.seed
  pub owner_id : b.owner_id ≡ a.owner_id

-- There is a row under the id, bound as the given one.
pub record Bound (id : String) (first : TaskRun) (rows : List TaskRun) : Type 0 where
  pub row : TaskRun
  pub found : get_task_run rows id ≡ some row
  pub same : SameBinding first row

with_status-SameBinding :
    (id status : String) (state : Option String) (a b : TaskRun)
    → SameBinding a b
    → SameBinding a (with_status id status state b)
with_status-SameBinding id status state a b s = record {
  task = ground (arith, s.task);
  benchmark_id = ground (arith, s.benchmark_id);
  arm = ground (arith, s.arm);
  seed = ground (arith, s.seed);
  owner_id = ground (arith, s.owner_id);
}

update-Bound :
    (id i status : String) (state : Option String) (first : TaskRun) (rows : List TaskRun)
    → Bound id first rows
    → Bound id first (update_task_run_status i status state rows)
unfolding update_task_run_status get_task_run
update-Bound id i status state first rows b = record {
  row = with_status i status state b.row;
  found =
      find_first-map (is_run id) (with_status i status state) (λ r. ground arith) rows b.row
        b.found;
  same = with_status-SameBinding i status state first b.row b.same;
}

claim_row-Bound :
    (id : String) (first : TaskRun) (same : TaskRun → TaskRun → Bool) (row : TaskRun)
    (rows : List TaskRun)
    → Bound id first rows
    → Bound id first (claim_row same row rows).1
unfolding claim_row get_task_run
claim_row-Bound id first same row rows b = elim (Option-cases (get_task_run rows row.task_run_id)) [
  | inl n ↦ subst (Bound id first) (ground (arith, n)) (record {
    row = b.row;
    found = find_first-append_some (is_run id) rows (row ∷ []) b.row b.found;
    same = b.same;
  })
  | inr (existing, e) ↦ elim (Bool-cases (same existing row)) [
    | inl t ↦ subst (Bound id first) (ground (arith, e, t)) b
    | inr f ↦ subst (Bound id first) (ground (arith, e, f)) b
  ]
]

release-Bound :
    (id first_id owner status : String) (state : Option String) (first : TaskRun)
    (rows : List TaskRun)
    → Bound id first rows
    → Bound id first (release_task_run first_id owner status state rows).1
unfolding release_task_run
release-Bound id i owner status state first rows b = elim (Option-cases (get_task_run rows i)) [
  | inl n ↦ subst (Bound id first) (ground (arith, n)) b
  | inr (row, e) ↦ elim (Bool-cases (same_option row.owner_id (some owner))) [
    | inl t ↦
        subst (Bound id first) (ground (arith, e, t)) (update-Bound id i status state first rows b)
    | inr f ↦ subst (Bound id first) (ground (arith, e, f)) b
  ]
]

perform-Bound :
    (id : String) (first : TaskRun) (o : Operation) (rows : List TaskRun)
    → Bound id first rows
    → Bound id first (perform o rows)
unfolding perform claim_task_run claim_benchmark_task_run
perform-Bound id first (claim i e t p) rows b = claim_row-Bound id first same_task _ rows b
perform-Bound id first (claim_benchmark task) rows b = claim_row-Bound id first same_inputs _ rows b
perform-Bound id first (update i status state) rows b = update-Bound id i status state first rows b
perform-Bound id first (release i owner status state) rows b =
    release-Bound id i owner status state first rows b

-- Whatever claims, updates and releases follow one another, a task run that is in the table stays
-- bound to its task, its benchmark inputs and its owner.
pub perform_all-Bound :
    (id : String) (first : TaskRun) (os : List Operation) (rows : List TaskRun)
    → Bound id first rows
    → Bound id first (perform_all os rows)
unfolding perform_all
perform_all-Bound id first [] rows b = b
perform_all-Bound id first (o ∷ os) rows b =
    perform_all-Bound id first os (perform o rows) (perform-Bound id first o rows b)

-- A task run that one owner claimed is released by no other, whatever came between: the release is
-- refused and changes nothing.
pub foreign_release_refused :
    (id owner other status : String) (state : Option String) (first : TaskRun) (os : List Operation)
    (rows : List TaskRun)
    → get_task_run rows id ≡ some first
    → first.owner_id ≡ some owner
    → owner ≢ other
    → release_task_run id other status state (perform_all os rows) ≡ (false, perform_all os rows)
unfolding release_task_run
foreign_release_refused id owner other status state first os rows e o n =
    let b = perform_all-Bound id first os rows (record {
      row = first;
      found = e;
      same = record {
        task =
            ground
              (arith, eq_refl first.environment_id, eq_refl first.task_id, eq_refl first.partition);
        benchmark_id = refl;
        arm = refl;
        seed = refl;
        owner_id = refl;
      };
    }) in
    ground (arith, b.found, b.same.owner_id, o, n, eq_iff owner other)
