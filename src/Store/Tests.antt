-- ===== src/Store/Tests.antt =====
-- Runs of the tables of src/adaptive_agent/store.py on small inputs.
use adaptive_agent.Prelude.{
  ℕ, true, false, String, none, some, List, [], ◌∷◌, ◌≡◌, refl, arith, any, ltb,
}
use adaptive_agent.Store.Allocations.{
  Allocation, reserved, nothing, value_error, conflicts, insert_allocation, next_free, nth,
  reserve_allocation, takes,
}
use adaptive_agent.Store.Allocations.Given.{Given, run_reservations-Given}
use adaptive_agent.Store.Allocations.Laws.{Ending, reserve_allocation-Ending}
use adaptive_agent.Store.Allocations.History.{run_reservations, requests, requests_served}
use adaptive_agent.Json.Number.{pos}
use adaptive_agent.Store.TaskRuns.{
  TaskRun, BenchmarkTask, get_task_run, claim_row, claim_benchmark_task_run, release_task_run,
  claimed, bound,
}
use adaptive_agent.Store.TaskRuns.Bindings
use adaptive_agent.Store.TaskRuns.Bindings.{
  Operation, update, release, Bound, perform_all-Bound, foreign_release_refused,
}

abbrev panels : List (List String)
panels = ("t1" ∷ []) ∷ ("t2" ∷ "t3" ∷ []) ∷ []

abbrev first_row : Allocation
first_row = record { scope_id = "s"; allocation_id = "a"; panel_index = 0; task_ids = "t1" ∷ [] }

reserve_second : (reserve_allocation "s" "b" panels 2 (first_row ∷ [])).0 ≡ reserved 1
unfolding reserve_allocation next_free nth insert_allocation conflicts
reserve_second = refl

reserve_too_few : (reserve_allocation "s" "b" panels 3 []).0 ≡ value_error
unfolding reserve_allocation next_free nth insert_allocation conflicts
reserve_too_few = refl

reserve_again : (reserve_allocation "s" "a" panels 2 (first_row ∷ [])).0 ≡ nothing
unfolding reserve_allocation next_free nth insert_allocation conflicts
reserve_again = refl

abbrev ids : List String
ids = "a" ∷ "b" ∷ []

reserve_allocation-Ending_example :
    Ending "s" "b" panels 2 (first_row ∷ []) (reserve_allocation "s" "b" panels 2 (first_row ∷ []))
reserve_allocation-Ending_example = reserve_allocation-Ending "s" "b" panels 2 (first_row ∷ [])

run_reservations-Given_example :
    Given
      (requests "s" panels 2 ids)
      (run_reservations (requests "s" panels 2 ids) (first_row ∷ [])).0
      (first_row ∷ [])
      (run_reservations (requests "s" panels 2 ids) (first_row ∷ [])).1
run_reservations-Given_example = run_reservations-Given (requests "s" panels 2 ids) (first_row ∷ [])

first_filled : (j : ℕ) → any (takes "s" j) (first_row ∷ []) ≡ ltb j 1
first_filled j = ground arith

requests_served_example :
    (run_reservations (requests "s" panels 2 ("b" ∷ [])) (first_row ∷ [])).0 ≡ reserved 1 ∷ []
requests_served_example =
    requests_served "s" panels 2 1 ("b" ∷ []) (first_row ∷ []) first_filled (refl, refl, tt)
      (omega arith) (omega arith)

abbrev task : BenchmarkTask
task = record {
  task_run_id = "t";
  benchmark_id = "b";
  environment_id = "env";
  task_id = "task";
  partition = "final";
  arm = some "baseline";
  seed = some (pos 3);
  owner_id = "me";
}

abbrev task_row : TaskRun
task_row = record {
  task_run_id = "t";
  environment_id = "env";
  task_id = "task";
  partition = "final";
  benchmark_id = some "b";
  arm = some "baseline";
  seed = some (pos 3);
  owner_id = some "me";
  status = "running";
  state = "{}";
}

claims_task : claim_benchmark_task_run task [] ≡ (claimed true task_row, task_row ∷ [])
unfolding claim_benchmark_task_run claim_row get_task_run
claims_task = refl

other_seed : (claim_benchmark_task_run (record task { seed = none }) (task_row ∷ [])).0 ≡ bound
unfolding claim_benchmark_task_run claim_row get_task_run
other_seed = refl

owner_releases : (release_task_run "t" "me" "done" none (task_row ∷ [])).0 ≡ true
unfolding release_task_run get_task_run
owner_releases = refl

abbrev task_operations : List Operation
task_operations = update "t" "failed" none ∷ release "t" "you" "done" none ∷ []

finds_task : get_task_run (task_row ∷ []) "t" ≡ some task_row
unfolding get_task_run
finds_task = refl

perform_all-Bound_example :
    Bound "t" task_row (Bindings.perform_all task_operations (task_row ∷ []))
perform_all-Bound_example = perform_all-Bound "t" task_row task_operations (task_row ∷ []) (record {
  row = task_row;
  found = finds_task;
  same = record { task = refl; benchmark_id = refl; arm = refl; seed = refl; owner_id = refl };
})

foreign_release_refused_example :
    release_task_run "t" "you" "done" none (Bindings.perform_all task_operations (task_row ∷ []))
    ≡ (false, Bindings.perform_all task_operations (task_row ∷ []))
foreign_release_refused_example =
    foreign_release_refused "t" "me" "you" "done" none task_row task_operations (task_row ∷ [])
      finds_task refl (λ e. cc e)
