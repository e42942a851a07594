-- ===== src/Runs/Executed.antt =====
-- How `execute_run` of src/adaptive_agent/controller.py leaves its run.
use adaptive_agent.Prelude.{
  ℕ, Bool, true, false, String, Option, some, ◌≡◌, ◌⊎◌, refl, arith, ◌==◌, find_first, inl, inr,
  Bool-cases, Option-cases, sym, ap, ◌∙◌, subst, eq_iff, eq_refl,
}
use adaptive_agent.Store.ToolCalls.Laws.{find_first-map, find_first-holds}
use adaptive_agent.Json.{Fields, str, end, field}
use adaptive_agent.Runs.Tables.{
  RunStatus, cancelled, RunRecord, RunRow, TrustClass, evaluator_only, to_operator, EvidenceRow,
  Tables, of_run, put_over, advance, get_run_row, next_event_sequence, append_evidence,
}
use adaptive_agent.Runs.Control.{
  Result, done, event_row, append_event, read_run, get_run, settled_row, set_run_status,
}
use adaptive_agent.Runs.History.{Writes, nothing, append_event-Writes}
use adaptive_agent.Runs.Operations.{ending}
use adaptive_agent.Runs.Claims.{Started, runs-set_run_status}
use adaptive_agent.Runs.Outcomes.{
  record_trusted_outcome, with_response, valid_outcome, canonical_outcome,
}
use adaptive_agent.Runs.Execute.{is_cancelled, fail_run, finish_run}

-- The call returns the run as it is stored, with the status.
pub record Leaves (id : String) (status : RunStatus) (out : Result (Option RunRecord) × Tables)
    : Type 0 where
  pub run : RunRecord
  pub result : out.0 ≡ done (some run)
  pub stored : get_run out.1 id ≡ some run
  pub has_status : run.status ≡ status

set_run_status-found :
    (now : ℕ) (id : String) (status : RunStatus) (t : Tables) (row : RunRow)
    → get_run_row t id ≡ some row
    → get_run_row (set_run_status now id status t).1 id ≡ some (settled_row now status row)
unfolding get_run_row
set_run_status-found now id status t row e =
    let own = find_first-holds (of_run id) t.runs row e in
    let new = settled_row now status row in
    let rows = runs-set_run_status now id status t row e in
    let same : (i : String) (r : RunRow) → of_run i (put_over new r) ≡ of_run i r =
      λ i r. ground (arith, eq_iff r.run_id new.run_id) in
    let there = find_first-map (of_run id) (put_over new) (same id) t.runs row e in
    subst (λ rs. find_first (of_run id) rs ≡ some new) (sym rows)
      (there ∙ ap some (over row new refl))
  where
    over : (r n : RunRow) → n.run_id ≡ r.run_id → put_over n r ≡ n
    over r n q = ground (arith, q, eq_refl r.run_id, eq_refl n.run_id)

pub finish_run-Leaves :
    (now : ℕ) (id : String) (passed : Bool) (t : Tables)
    → Started t id
    → Leaves id (ending passed) (finish_run now id passed t)
unfolding finish_run get_run
finish_run-Leaves now id passed t s =
    let found = set_run_status-found now id (ending passed) t s.row s.found in
    record {
      run = read_run (settled_row now (ending passed) s.row);
      result = ground (arith, found);
      stored = ground (arith, found);
      has_status = refl;
    }

-- An event of a run that is there is appended, and the status of the run stays.
record Appended (id : String) (row : RunRow) (out : Result EvidenceRow × Tables) : Type 0 where
  event : EvidenceRow
  result : out.0 ≡ done event
  found : get_run_row out.1 id ≡ some (advance id row)

append_event-Appended :
    (id event_type : String) (payload : Fields) (c : TrustClass) (t : Tables) (row : RunRow)
    → (event_type == "model_observation") ≡ false
    → get_run_row t id ≡ some row
    → Appended id row (append_event id event_type payload c to_operator t)
unfolding append_event next_event_sequence append_evidence get_run_row
append_event-Appended id event_type payload c t row o e =
    let there = find_first-map (of_run id) (advance id) (λ r. ground arith) t.runs row e in
    record {
      event =
          event_row (t.evidence_ids 0) id (advance id row).last_event_sequence event_type payload c
            to_operator;
      result = ground (arith, o, there);
      found = ground (arith, o, there);
    }

pub cancelled_of : (status : RunStatus) → is_cancelled status ≡ true → status ≡ cancelled
cancelled_of status h = ground arith

module _ (now : ℕ) (id error : String) (t : Tables) where
  failed_event :
      (row : RunRow)
      → get_run_row t id ≡ some row
      → Appended id row (
          append_event id "run_failed"
            (field "error" (str error) end)
            TrustClass.system
            to_operator
            t)
  failed_event row e =
      append_event-Appended id "run_failed" (field "error" (str error) end) TrustClass.system t row
        refl e

  -- A run that was cancelled stays cancelled when an exception is handled.
  pub fail_run_cancelled :
      (row : RunRow)
      → get_run_row t id ≡ some row
      → is_cancelled row.status ≡ true
      → Leaves id cancelled (fail_run now id error t)
  unfolding fail_run get_run
  fail_run_cancelled row e c =
      let a = failed_event row e in
      record {
        run = read_run (advance id row);
        result = ground (arith, a.result, a.found, c);
        stored = ground (arith, a.result, a.found, c);
        has_status = ground (arith, cancelled_of row.status c);
      }

  fail_run_fails :
      (row : RunRow)
      → get_run_row t id ≡ some row
      → is_cancelled row.status ≡ false
      → Leaves id RunStatus.failed (fail_run now id error t)
  unfolding fail_run get_run
  fail_run_fails row e c =
      let a = failed_event row e in
      let t1 =
        (append_event id "run_failed" (field "error" (str error) end) TrustClass.system to_operator
          t).1 in
      let found = set_run_status-found now id RunStatus.failed t1 (advance id row) a.found in
      record {
        run = read_run (settled_row now RunStatus.failed (advance id row));
        result = ground (arith, a.result, a.found, c, found);
        stored = ground (arith, a.result, a.found, c, found);
        has_status = refl;
      }

-- The run is left succeeded, failed or cancelled.
pub record Settles (id : String) (out : Result (Option RunRecord) × Tables) : Type 0 where
  pub status : RunStatus
  pub ended : (status ≡ RunStatus.succeeded) ⊎ ((status ≡ RunStatus.failed) ⊎ (status ≡ cancelled))
  pub leaves : Leaves id status out

pub fail_run-Settles :
    (now : ℕ) (id error : String) (t : Tables) → Started t id → Settles id (fail_run now id error t)
fail_run-Settles now id error t s = elim (Bool-cases (is_cancelled s.row.status)) [
  | inl c ↦ record {
    status = cancelled;
    ended = inr (inr refl);
    leaves = fail_run_cancelled now id error t s.row s.found c;
  }
  | inr c ↦ record {
    status = RunStatus.failed;
    ended = inr (inl refl);
    leaves = fail_run_fails now id error t s.row s.found c;
  }
]

ending-cases :
    (passed : Bool)
    → (ending passed ≡ RunStatus.succeeded)
      ⊎ ((ending passed ≡ RunStatus.failed) ⊎ (ending passed ≡ cancelled))
ending-cases true = inl refl
ending-cases false = inr (inl refl)

pub finish_run-Settles :
    (now : ℕ) (id : String) (passed : Bool) (t : Tables)
    → Started t id
    → Settles id (finish_run now id passed t)
finish_run-Settles now id passed t s = record {
  status = ending passed;
  ended = ending-cases passed;
  leaves = finish_run-Leaves now id passed t s;
}

pub record_trusted_outcome-Writes :
    (id : String) (payload : Fields) (t : Tables) → Writes t (record_trusted_outcome id payload t).1
unfolding record_trusted_outcome
record_trusted_outcome-Writes id payload t = elim (Option-cases (get_run_row t id)) [
  | inl e ↦ subst (Writes t) (ground (arith, e)) nothing
  | inr (row, e) ↦
      let p = with_response t id payload in
      elim (Bool-cases (valid_outcome row p)) [
        | inr v ↦ subst (Writes t) (ground (arith, e, v)) nothing
        | inl v ↦ subst (Writes t) (ground (arith, e, v)) (
            append_event-Writes id "trusted_outcome" (canonical_outcome p) TrustClass.evaluator
              evaluator_only t)
      ]
]
