-- ===== src/Runs/Endings.antt =====
-- How every run of `execute_run` of src/adaptive_agent/controller.py ends.
use adaptive_agent.Prelude.{
  ℕ, Bool, true, false, String, Option, none, some, List, ◌≡◌, refl, arith, inl, inr, Bool-cases,
  Option-cases, subst,
}
use adaptive_agent.Json.{Fields}
use adaptive_agent.Runs.Tables.{
  RunStatus, cancelled, RunRow, EvidenceRow, Tables, get_run_row, is_queued,
}
use adaptive_agent.Runs.Control.{done, read_run, get_run}
use adaptive_agent.Runs.History.{Result-cases}
use adaptive_agent.Runs.Operations.{Operation, perform_all, AllFresh, perform_all-Writes, ending}
use adaptive_agent.Runs.Claims.{Started, Writes-Started}
use adaptive_agent.Runs.Outcomes.{record_trusted_outcome}
use adaptive_agent.Runs.Execute.{
  Act, Verdict, outcome, failure, Evaluation, is_running, is_cancelled, judge, after_act,
  execute_claimed,
}
use adaptive_agent.Runs.Executed.{
  Leaves, Settles, finish_run-Leaves, fail_run-Settles, finish_run-Settles, fail_run_cancelled,
  cancelled_of, record_trusted_outcome-Writes,
}

not_queued : (status : RunStatus) → is_running status ≡ true → is_queued status ≡ false
not_queued status h = ground arith

module _ (now : ℕ) (id : String) where
  judged_outcome :
      (os : List Operation) (passed : Bool) (payload : Fields) (t : Tables)
      → Started (perform_all os t) id
      → Settles id (judge now id (record { performed = os; verdict = outcome passed payload }) t)
  unfolding judge
  judged_outcome os passed payload t s =
      let t1 = perform_all os t in
      let t2 = (record_trusted_outcome id payload t1).1 in
      let s2 : Started t2 id = Writes-Started (record_trusted_outcome-Writes id payload t1) s in
      elim (Result-cases (record_trusted_outcome id payload t1).0) [
        | inl e ↦ subst (Settles id) (ground (arith, e)) (fail_run-Settles now id "" t2 s2)
        | inr (event, e) ↦
            subst (Settles id) (ground (arith, e)) (finish_run-Settles now id passed t2 s2)
      ]

  judge-Settles :
      (evaluation : Evaluation) (t : Tables)
      → AllFresh evaluation.performed t
      → Started t id
      → Settles id (judge now id evaluation t)
  unfolding judge
  judge-Settles evaluation t f s =
      go evaluation.verdict (Writes-Started (perform_all-Writes evaluation.performed t f) s)
    where
      go :
          (v : Verdict)
          → Started (perform_all evaluation.performed t) id
          → Settles id (judge now id (record { performed = evaluation.performed; verdict = v }) t)
      go (failure error) s1 = fail_run-Settles now id error (perform_all evaluation.performed t) s1
      go (outcome passed payload) s1 = judged_outcome evaluation.performed passed payload t s1

  -- After the driver, a cancelled run is returned as it is.
  after_act_cancelled :
      (driver : Tables → Act) (evaluate : Option (Tables → Evaluation)) (t : Tables) (row : RunRow)
      → get_run_row t id ≡ some row
      → is_cancelled row.status ≡ true
      → Leaves id cancelled (after_act now id driver evaluate t)
  unfolding after_act get_run
  after_act_cancelled driver evaluate t row e c = record {
    run = read_run row;
    result = ground (arith, e, c);
    stored = ground (arith, e, c);
    has_status = cancelled_of row.status c;
  }

  module _ (driver : Tables → Act) (evaluate : Option (Tables → Evaluation)) where
    after_act-Settles :
        (t : Tables)
        → ((evaluator : Tables → Evaluation)
            → evaluate ≡ some evaluator
            → AllFresh (evaluator t).performed t)
        → Started t id
        → Settles id (after_act now id driver evaluate t)
    unfolding after_act get_run
    after_act-Settles t f s = elim (Bool-cases (is_cancelled s.row.status)) [
      | inl c ↦ record {
        status = cancelled;
        ended = inr (inr refl);
        leaves = after_act_cancelled driver evaluate t s.row s.found c;
      }
      | inr c ↦ elim (Option-cases evaluate) [
        | inl e ↦
            subst (Settles id) (ground (arith, s.found, c, e)) (finish_run-Settles now id true t s)
        | inr (evaluator, e) ↦
            subst (Settles id) (ground (arith, s.found, c, e))
              (judge-Settles (evaluator t) t (f evaluator e) s)
      ]
    ]

    -- The run is there and is running.
    pub record Running (t : Tables) : Type 0 where
      pub row : RunRow
      pub found : get_run_row t id ≡ some row
      pub running : is_running row.status ≡ true

    begun :
        (t : Tables)
        → Running t
        → AllFresh (driver t).performed t
        → Started (perform_all (driver t).performed t) id
    begun t r f =
        Writes-Started (perform_all-Writes (driver t).performed t f)
          (record { row = r.row; found = r.found; started = not_queued r.row.status r.running })

    -- When a running run is executed, the call returns it succeeded, failed or cancelled, and so it
    -- is stored, whatever the driver and the evaluator do, raise or find, and whatever other callers
    -- do meanwhile, if the ids of new runs are fresh.
    pub execute_claimed-Settles :
        (t : Tables)
        → Running t
        → ((u : Tables) → AllFresh (driver u).performed u)
        → ((evaluator : Tables → Evaluation) (u : Tables)
            → evaluate ≡ some evaluator
            → AllFresh (evaluator u).performed u)
        → Settles id (execute_claimed now id driver evaluate t)
    unfolding execute_claimed get_run
    execute_claimed-Settles t r f g =
        let t1 = perform_all (driver t).performed t in
        let s = begun t r (f t) in
        elim (Option-cases (driver t).error) [
          | inl e ↦
              subst (Settles id) (ground (arith, r.found, r.running, e))
                (after_act-Settles t1 (λ evaluator q. g evaluator t1 q) s)
          | inr (error, e) ↦
              subst (Settles id) (ground (arith, r.found, r.running, e))
                (fail_run-Settles now id error t1 s)
        ]

    -- A run that is cancelled while its driver acts is left cancelled, and is returned so, whether
    -- the driver returns or raises, and whatever the evaluator would say.
    pub execute_claimed_cancelled :
        (t : Tables) (row : RunRow)
        → Running t
        → get_run_row (perform_all (driver t).performed t) id ≡ some row
        → is_cancelled row.status ≡ true
        → Leaves id cancelled (execute_claimed now id driver evaluate t)
    unfolding execute_claimed get_run
    execute_claimed_cancelled t row r e c =
        let t1 = perform_all (driver t).performed t in
        elim (Option-cases (driver t).error) [
          | inl n ↦
              subst (Leaves id cancelled) (ground (arith, r.found, r.running, n))
                (after_act_cancelled driver evaluate t1 row e c)
          | inr (error, n) ↦
              subst (Leaves id cancelled) (ground (arith, r.found, r.running, n))
                (fail_run_cancelled now id error t1 row e c)
        ]

    -- When the driver returned and the run is not cancelled then, and the evaluator's outcome is
    -- recorded, the run is left succeeded or failed as the outcome says, whatever was done while the
    -- evaluator ran: a cancellation that came meanwhile is overwritten.
    pub execute_claimed_judged :
        (t : Tables) (row : RunRow) (evaluator : Tables → Evaluation) (os : List Operation)
        (passed : Bool) (payload : Fields) (event : EvidenceRow)
        → Running t
        → (driver t).error ≡ none
        → get_run_row (perform_all (driver t).performed t) id ≡ some row
        → is_cancelled row.status ≡ false
        → evaluate ≡ some evaluator
        → evaluator (perform_all (driver t).performed t)
          ≡ record { performed = os; verdict = outcome passed payload }
        → AllFresh os (perform_all (driver t).performed t)
        → AllFresh (driver t).performed t
        → (record_trusted_outcome id payload
            (perform_all os (perform_all (driver t).performed t))).0
          ≡ done event
        → Leaves id (ending passed) (execute_claimed now id driver evaluate t)
    unfolding execute_claimed after_act judge get_run
    execute_claimed_judged t row evaluator os passed payload event r n e c q v f g k =
        let t1 = perform_all (driver t).performed t in
        let t2 = perform_all os t1 in
        let s1 = begun t r g in
        let s2 = Writes-Started (perform_all-Writes os t1 f) s1 in
        let s3 = Writes-Started (record_trusted_outcome-Writes id payload t2) s2 in
        subst (Leaves id (ending passed)) (ground (arith, r.found, r.running, n, e, c, q, v, k))
          (finish_run-Leaves now id passed (record_trusted_outcome id payload t2).1 s3)
