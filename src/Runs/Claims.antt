-- ===== src/Runs/Claims.antt =====
-- A run of src/adaptive_agent/controller.py is claimed at most once.
use adaptive_agent.Prelude.{
  ℕ, true, false, String, Option, none, some, List, [], ◌∷◌, ◌++◌, map, ◌≡◌, refl, arith, any,
  find_first, inl, inr, Bool-cases, Option-cases, sym, subst, eq_iff,
}
use adaptive_agent.Store.ToolCalls.Laws.{
  find_first-append_some, find_first-map, find_first-holds, any-false_of_find, any-true_of_find,
}
use adaptive_agent.Json.{str, end, field}
use adaptive_agent.Runs.Tables.{
  RunStatus, RunRecord, TrustClass, to_operator, RunRow, Tables, of_run, put_over, start, advance,
  save_run, get_run_row, store_claim_run, next_event_sequence, append_evidence, save_step,
  update_step_status, is_queued,
}
use adaptive_agent.Runs.Control.{done, settled_row, is_terminal, set_run_status, claim_run, get_run}
use adaptive_agent.Runs.History.{
  Write, add, settle, claim, number, record_evidence, record_step, update_step, Writes, nothing,
  after, append_event-Writes,
}
use adaptive_agent.Runs.Operations.{Operation, perform_all, AllFresh, perform_all-Writes}

-- The run is there and is no longer queued.
pub record Started (t : Tables) (id : String) : Type 0 where
  pub row : RunRow
  pub found : get_run_row t id ≡ some row
  pub started : is_queued row.status ≡ false

-- A write of the rows that keeps their ids and queues none.
record KeepsStarted (f : RunRow → RunRow) : Type 0 where
  same : (id : String) (row : RunRow) → of_run id (f row) ≡ of_run id row
  started : (row : RunRow) → is_queued row.status ≡ false → is_queued (f row).status ≡ false

map-Started :
    {t t' : Tables} {id : String} (f : RunRow → RunRow)
    → KeepsStarted f
    → t'.runs ≡ map f t.runs
    → Started t id
    → Started t' id
unfolding get_run_row
map-Started {t} {t'} {id} f k e s = record {
  row = f s.row;
  found =
      subst (λ rows. find_first (of_run id) rows ≡ some (f s.row)) (sym e)
        (find_first-map (of_run id) f (k.same id) t.runs s.row s.found);
  started = k.started s.row s.started;
}

same-Started : {t t' : Tables} {id : String} → t'.runs ≡ t.runs → Started t id → Started t' id
unfolding get_run_row
same-Started {id = id} e s = record {
  row = s.row;
  found = subst (λ rows. find_first (of_run id) rows ≡ some s.row) (sym e) s.found;
  started = s.started;
}

start-KeepsStarted : (id : String) → KeepsStarted (start id)
start-KeepsStarted id = record { same = λ i row. ground arith; started = λ row h. ground arith }

advance-KeepsStarted : (id : String) → KeepsStarted (advance id)
advance-KeepsStarted id = record { same = λ i row. ground arith; started = λ row h. ground arith }

not_queued : (status : RunStatus) → is_terminal status ≡ true → is_queued status ≡ false
not_queued status h = ground arith

put_over-KeepsStarted : (new : RunRow) → is_queued new.status ≡ false → KeepsStarted (put_over new)
put_over-KeepsStarted new q = record {
  same = λ i row. ground (arith, eq_iff row.run_id new.run_id);
  started = λ row h. ground arith;
}

pub runs-set_run_status :
    (now : ℕ) (id : String) (status : RunStatus) (t : Tables) (row : RunRow)
    → get_run_row t id ≡ some row
    → (set_run_status now id status t).1.runs ≡ map (put_over (settled_row now status row)) t.runs
unfolding set_run_status save_run get_run_row
runs-set_run_status now id status t row e =
    let own : row.run_id ≡ id =
      (eq_iff row.run_id id).0 (find_first-holds (of_run id) t.runs row e) in
    let there : any (of_run row.run_id) t.runs ≡ true =
      subst (λ i. any (of_run i) t.runs ≡ true) (sym own)
        (any-true_of_find (of_run id) t.runs row e) in
    ground (arith, e, there)

settle-Started :
    (now : ℕ) (id other : String) (status : RunStatus) (t : Tables)
    → is_terminal status ≡ true
    → Started t other
    → Started (set_run_status now id status t).1 other
unfolding set_run_status
settle-Started now id other status t e s = elim (Option-cases (get_run_row t id)) [
  | inl n ↦ same-Started (ground (arith, n)) s
  | inr (row, f) ↦
      map-Started (put_over (settled_row now status row))
        (put_over-KeepsStarted (settled_row now status row) (not_queued status e))
        (runs-set_run_status now id status t row f) s
]

claim-Started :
    (id other : String) (t : Tables) → Started t other → Started (store_claim_run id t).1 other
unfolding store_claim_run
claim-Started id other t s = elim (Option-cases (get_run_row t id)) [
  | inl n ↦ same-Started (ground (arith, n)) s
  | inr (row, f) ↦ elim (Bool-cases (is_queued row.status)) [
    | inl q ↦ map-Started (start id) (start-KeepsStarted id) (ground (arith, f, q)) s
    | inr q ↦ same-Started (ground (arith, f, q)) s
  ]
]

add-Started :
    (row : RunRow) (id : String) (t : Tables)
    → get_run_row t row.run_id ≡ none
    → Started t id
    → Started (save_run row t) id
unfolding save_run get_run_row
add-Started row id t f s = record {
  row = s.row;
  found =
      let e : (save_run row t).runs ≡ t.runs ++ row ∷ [] =
        ground (arith, any-false_of_find (of_run row.run_id) t.runs f) in
      subst (λ rows. find_first (of_run id) rows ≡ some s.row) (sym e)
        (find_first-append_some (of_run id) t.runs (row ∷ []) s.row s.found);
  started = s.started;
}

Write-Started : {t t' : Tables} {id : String} → Write t t' → Started t id → Started t' id
unfolding save_step update_step_status append_evidence next_event_sequence
Write-Started {t} {id = i} (add row f g) s = add-Started row i t f s
Write-Started {t} {id = i} (settle now id status e) s = settle-Started now id i status t e s
Write-Started {t} {id = i} (claim id) s = claim-Started id i t s
Write-Started {t} (number id) s =
    map-Started (advance id) (advance-KeepsStarted id) (ground arith) s
Write-Started {t} (record_evidence e h i) s =
    map-Started (advance e.run_id) (advance-KeepsStarted e.run_id) (ground arith) s
Write-Started {t} (record_step d h) s =
    map-Started (advance d.run_id) (advance-KeepsStarted d.run_id) (ground arith) s
Write-Started {t} (update_step id status) s = same-Started refl s

pub Writes-Started : {t t' : Tables} {id : String} → Writes t t' → Started t id → Started t' id
Writes-Started nothing s = s
Writes-Started (after ws w) s = Write-Started w (Writes-Started ws s)

-- The store gives a run out only once, and then it is started.
store_claim_run-Started :
    (id : String) (t : Tables)
    → (store_claim_run id t).0 ≡ some true
    → Started (store_claim_run id t).1 id
unfolding store_claim_run get_run_row
store_claim_run-Started id t h = elim (Option-cases (get_run_row t id)) [
  | inl n ↦ ground (arith, n, h)
  | inr (row, f) ↦ elim (Bool-cases (is_queued row.status)) [
    | inr q ↦ ground (arith, f, q, h)
    | inl q ↦
        let own = find_first-holds (of_run id) t.runs row f in
        let there =
          find_first-map (of_run id) (start id) ((start-KeepsStarted id).same id) t.runs row f in
        let rows : (store_claim_run id t).1.runs ≡ map (start id) t.runs = ground (arith, f, q) in
        record {
          row = start id row;
          found = subst (λ rs. find_first (of_run id) rs ≡ some (start id row)) (sym rows) there;
          started = ground (arith, own);
        }
  ]
]

claim_run_refused :
    (id : String) (t : Tables) → Started t id → claim_run id t ≡ (done (false, get_run t id), t)
unfolding claim_run store_claim_run
claim_run_refused id t s = ground (arith, s.found, s.started)

claim_run-Started :
    (id : String) (t : Tables) (r : Option RunRecord)
    → (claim_run id t).0 ≡ done (true, r)
    → Started (claim_run id t).1 id
unfolding claim_run
claim_run-Started id t r h = elim (Option-cases (store_claim_run id t).0) [
  | inl n ↦ ground (arith, n, h)
  | inr (got, e) ↦ elim (Bool-cases got) [
    | inr f ↦ ground (arith, e, f, h)
    | inl g ↦
        subst (λ u. Started u id) (ground (arith, e, g))
          (Writes-Started
            (append_event-Writes id "run_started" (field "runId" (str id) end) TrustClass.system
              to_operator (store_claim_run id t).1)
            (store_claim_run-Started id t (ground (arith, e, g))))
  ]
]

-- When one caller has claimed a run, every later claim of it is refused and changes nothing,
-- whatever operations on runs come between, if the ids of new runs are fresh.
pub claim_run_once :
    (id : String) (t : Tables) (r : Option RunRecord) (os : List Operation)
    → (claim_run id t).0 ≡ done (true, r)
    → AllFresh os (claim_run id t).1
    → claim_run id (perform_all os (claim_run id t).1) ≡ (
      done (false, get_run (perform_all os (claim_run id t).1) id),
      perform_all os (claim_run id t).1,
    )
claim_run_once id t r os h f =
    claim_run_refused id (perform_all os (claim_run id t).1)
      (Writes-Started (perform_all-Writes os (claim_run id t).1 f) (claim_run-Started id t r h))
