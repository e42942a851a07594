-- ===== src/Runs/Execute.antt =====
-- `execute_run` of src/adaptive_agent/controller.py. While the driver acts or the evaluator runs,
-- they and other callers may perform any operations; an exception has a text, which is left out for
-- the exceptions of `record_trusted_outcome`.
use adaptive_agent.Prelude.{
  ℕ, Bool, true, false, not, String, Option, none, some, List, if◌then◌else◌,
}
use adaptive_agent.Json.{Fields, str, end, field}
use adaptive_agent.Runs.Tables.{RunStatus, cancelled, RunRecord, TrustClass, to_operator, Tables}
use adaptive_agent.Runs.Control.{
  Result, done, raised, append_event, get_run, set_run_status, claim_run,
}
use adaptive_agent.Runs.Operations.{Operation, perform_all, ending}
use adaptive_agent.Runs.Outcomes.{record_trusted_outcome}

-- The operations performed meanwhile, and the text of the exception if the driver raises one.
pub record Act : Type 0 where
  pub performed : List Operation
  pub error : Option String

-- An outcome with the mapping that is built of its metadata, or an exception.
pub data Verdict : Type 0 where
  outcome : Bool → Fields → Verdict
  failure : String → Verdict

pub record Evaluation : Type 0 where
  pub performed : List Operation
  pub verdict : Verdict

abbrev pub is_running : RunStatus → Bool
is_running RunStatus.running = true
is_running _ = false

abbrev pub is_cancelled : RunStatus → Bool
is_cancelled cancelled = true
is_cancelled _ = false

-- The handler of an exception.
unfoldable pub fail_run : ℕ → String → String → Tables → Result (Option RunRecord) × Tables
unfolding append_event get_run set_run_status
fail_run now run_id error t =
    let (event, t1) =
      append_event run_id "run_failed" (field "error" (str error) end) TrustClass.system to_operator
        t in
    elim event [
      | raised ↦ (raised, t1)
      | done e ↦ elim (get_run t1 run_id) [
        | none ↦ (done none, t1)
        | some run ↦
            if is_cancelled run.status
            then (done (some run), t1)
            else let (_, t2) = set_run_status now run_id RunStatus.failed t1 in
              (done (get_run t2 run_id), t2)
      ]
    ]

-- The end of a run whose outcome is known.
unfoldable pub finish_run : ℕ → String → Bool → Tables → Result (Option RunRecord) × Tables
unfolding set_run_status get_run
finish_run now run_id passed t =
    let (_, t1) = set_run_status now run_id (ending passed) t in (done (get_run t1 run_id), t1)

unfoldable pub judge : ℕ → String → Evaluation → Tables → Result (Option RunRecord) × Tables
unfolding perform_all record_trusted_outcome finish_run fail_run
judge now run_id evaluation t =
    let t1 = perform_all evaluation.performed t in
    elim evaluation.verdict [
      | failure error ↦ fail_run now run_id error t1
      | outcome passed payload ↦
          let (event, t2) = record_trusted_outcome run_id payload t1 in
          elim event [
            | raised ↦ fail_run now run_id "" t2
            | done e ↦ finish_run now run_id passed t2
          ]
    ]

module _ (now : ℕ) (run_id : String) (driver : Tables → Act)
    (evaluate : Option (Tables → Evaluation)) where
  -- After the driver: a cancelled run stays as it is.
  unfoldable pub after_act : Tables → Result (Option RunRecord) × Tables
  unfolding get_run judge finish_run
  after_act t = elim (get_run t run_id) [
    | none ↦ (done none, t)
    | some run ↦ if is_cancelled run.status then (done (some run), t) else elim evaluate [
      | none ↦ finish_run now run_id true t
      | some evaluator ↦ judge now run_id (evaluator t) t
    ]
  ]

  unfoldable pub execute_claimed : Tables → Result (Option RunRecord) × Tables
  unfolding get_run perform_all fail_run after_act
  execute_claimed t = elim (get_run t run_id) [
    | none ↦ (done none, t)
    | some run ↦
        if not (is_running run.status)
        then (done (some run), t)
        else let act = driver t in
          let t1 = perform_all act.performed t in
          elim act.error [ some error ↦ fail_run now run_id error t1 | none ↦ after_act t1 ]
  ]

  unfoldable pub execute_run : Bool → Tables → Result (Option RunRecord) × Tables
  unfolding claim_run execute_claimed
  execute_run true t = execute_claimed t
  execute_run false t =
      let (claim, t1) = claim_run run_id t in
      elim claim [
        | raised ↦ (raised, t1)
        | done got ↦ if not got.0 then (done got.1, t1) else execute_claimed t1
      ]
