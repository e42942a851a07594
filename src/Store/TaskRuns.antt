-- ===== src/Store/TaskRuns.antt =====
-- The table task_runs of src/adaptive_agent/store.py. `state` is the column state_json; the time of
-- a row is left out.
pub mod Bindings
use adaptive_agent.Prelude.{
  Bool, true, false, not, ◌&&◌, String, Option, none, some, List, [], ◌∷◌, ◌++◌, map, ◌==◌, eqb,
  select, find_first, if◌then◌else◌,
}
use adaptive_agent.Json.Number.{ℤ, pos, negsuc}

pub record TaskRun : Type 0 where
  pub task_run_id : String
  pub environment_id : String
  pub task_id : String
  pub partition : String
  pub benchmark_id : Option String
  pub arm : Option String
  pub seed : Option ℤ
  pub owner_id : Option String
  pub status : String
  pub state : String

abbrev pub same_option : Option String → Option String → Bool
same_option none none = true
same_option none (some b) = false
same_option (some a) none = false
same_option (some a) (some b) = a == b

abbrev pub same_int : ℤ → ℤ → Bool
same_int (pos a) (pos b) = eqb a b
same_int (pos a) (negsuc b) = false
same_int (negsuc a) (pos b) = false
same_int (negsuc a) (negsuc b) = eqb a b

abbrev pub same_seed : Option ℤ → Option ℤ → Bool
same_seed none none = true
same_seed none (some b) = false
same_seed (some a) none = false
same_seed (some a) (some b) = same_int a b

abbrev pub is_run : String → TaskRun → Bool
is_run id row = row.task_run_id == id

unfoldable pub get_task_run : List TaskRun → String → Option TaskRun
get_task_run rows id = find_first (is_run id) rows

-- The flag of a claim with its row, or the ValueError of an id that is bound to other inputs.
pub data Claim : Type 0 where
  claimed : Bool → TaskRun → Claim
  bound : Claim

abbrev pub same_task : TaskRun → TaskRun → Bool
same_task a b =
    a.environment_id == b.environment_id && a.task_id == b.task_id && a.partition == b.partition

abbrev pub same_inputs : TaskRun → TaskRun → Bool
same_inputs a b =
    same_task a b
    && same_option a.benchmark_id b.benchmark_id
    && same_option a.arm b.arm
    && same_seed a.seed b.seed

-- A new row is added, or the row that exists is returned if it passes the test.
unfoldable pub claim_row :
    (TaskRun → TaskRun → Bool) → TaskRun → List TaskRun → Claim × List TaskRun
unfolding get_task_run
claim_row same row rows = elim (get_task_run rows row.task_run_id) [
  | none ↦ (claimed true row, rows ++ row ∷ [])
  | some existing ↦ if same existing row then (claimed false existing, rows) else (bound, rows)
]

unfoldable pub claim_task_run :
    String → String → String → String → List TaskRun → Claim × List TaskRun
unfolding claim_row
claim_task_run id environment_id task_id partition rows =
    claim_row same_task
      (record {
        task_run_id = id;
        environment_id = environment_id;
        task_id = task_id;
        partition = partition;
        benchmark_id = none;
        arm = none;
        seed = none;
        owner_id = none;
        status = "running";
        state = "{}";
      })
      rows

-- What a benchmark claims.
pub record BenchmarkTask : Type 0 where
  pub task_run_id : String
  pub benchmark_id : String
  pub environment_id : String
  pub task_id : String
  pub partition : String
  pub arm : Option String
  pub seed : Option ℤ
  pub owner_id : String

unfoldable pub claim_benchmark_task_run : BenchmarkTask → List TaskRun → Claim × List TaskRun
unfolding claim_row
claim_benchmark_task_run b rows =
    claim_row same_inputs
      (record {
        task_run_id = b.task_run_id;
        environment_id = b.environment_id;
        task_id = b.task_id;
        partition = b.partition;
        benchmark_id = some b.benchmark_id;
        arm = b.arm;
        seed = b.seed;
        owner_id = some b.owner_id;
        status = "running";
        state = "{}";
      })
      rows

-- COALESCE(?, state_json)
abbrev pub coalesce : Option String → String → String
coalesce none old = old
coalesce (some new) old = new

abbrev pub with_status : String → String → Option String → TaskRun → TaskRun
with_status id status state row =
    if row.task_run_id == id
    then record row { status = status; state = coalesce state row.state }
    else row

unfoldable pub update_task_run_status :
    String → String → Option String → List TaskRun → List TaskRun
update_task_run_status id status state rows = map (with_status id status state) rows

unfoldable pub release_task_run :
    String → String → String → Option String → List TaskRun → Bool × List TaskRun
unfolding get_task_run update_task_run_status
release_task_run id owner_id status state rows = elim (get_task_run rows id) [
  | none ↦ (false, rows)
  | some row ↦
      if same_option row.owner_id (some owner_id)
      then (true, update_task_run_status id status state rows)
      else (false, rows)
]

abbrev pub wanted : Option String → Option String → Bool
wanted none value = true
wanted (some a) value = same_option value (some a)

-- The filters of `list_task_runs`, of which those that are none select all.
pub record Filters : Type 0 where
  pub environment_id : Option String
  pub partition : Option String
  pub status : Option String
  pub benchmark_id : Option String
  pub arm : Option String
  pub owner_id : Option String

unfoldable pub list_task_runs : Filters → List TaskRun → List TaskRun
list_task_runs f rows =
    select
      (λ (row : TaskRun).
        wanted f.environment_id (some row.environment_id)
        && wanted f.partition (some row.partition)
        && wanted f.status (some row.status)
        && wanted f.benchmark_id row.benchmark_id
        && wanted f.arm row.arm
        && wanted f.owner_id row.owner_id)
      rows
