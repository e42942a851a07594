-- ===== src/Runs/Numbering.antt =====
-- The sequence numbers of evidence in src/adaptive_agent/store.py, under the operations of
-- src/adaptive_agent/controller.py.
use mathlib.Core.Path.{fun_ext}
use adaptive_agent.Prelude.{
  ℕ, ◌+◌, ◌≤◌, ◌<◌, true, String, none, some, List, [], ◌∷◌, ◌++◌, map, ◌≡◌, refl, arith, ◌==◌, any,
  find_first, inl, inr, Bool-cases, Option-cases, sym, ◌∙◌, subst, eq_iff,
}
use adaptive_agent.Store.ToolCalls.Laws.{
  find_first-append_some, find_first-map, find_first-map_none, find_first-holds, any-false_of_find,
  any-true_of_find,
}
use adaptive_agent.Runs.Tables.{
  RunStatus, RunRow, Tables, of_run, put_over, start, advance, save_run, get_run_row,
  store_claim_run, next_event_sequence, is_queued,
}
use adaptive_agent.Runs.Control.{settled_row, set_run_status}

-- The run is there, with a counter that is at least n.
pub record Counts (runs : List RunRow) (id : String) (n : ℕ) : Type 0 where
  pub row : RunRow
  pub found : find_first (of_run id) runs ≡ some row
  pub reached : n ≤ row.last_event_sequence

unfoldable pub Grows : List RunRow → List RunRow → Type 0
Grows rows rows' = (id : String) (n : ℕ) → Counts rows id n → Counts rows' id n

-- A write of the rows that keeps the ids and does not lower a counter.
record Raises (runs : List RunRow) (f : RunRow → RunRow) : Type 0 where
  same : (id : String) (row : RunRow) → of_run id (f row) ≡ of_run id row
  raised :
      (id : String) (row : RunRow)
      → find_first (of_run id) runs ≡ some row
      → row.last_event_sequence ≤ (f row).last_event_sequence

map-Grows : (runs : List RunRow) (f : RunRow → RunRow) → Raises runs f → Grows runs (map f runs)
unfolding Grows
map-Grows runs f r id n c = record {
  row = f c.row;
  found = find_first-map (of_run id) f (r.same id) runs c.row c.found;
  reached = omega (arith, c.reached, r.raised id c.row c.found);
}

start-Raises : (runs : List RunRow) (id : String) → Raises runs (start id)
start-Raises runs id = record { same = λ i row. ground arith; raised = λ i row e. ground arith }

advance-Raises : (runs : List RunRow) (id : String) → Raises runs (advance id)
advance-Raises runs id = record { same = λ i row. ground arith; raised = λ i row e. ground arith }

-- The rows found under two ids that one row carries are one row.
found_once :
    (runs : List RunRow) (i j : String) (row old : RunRow)
    → find_first (of_run i) runs ≡ some row
    → find_first (of_run j) runs ≡ some old
    → (row.run_id == j) ≡ true
    → row ≡ old
found_once runs i j row old e found same =
    let p : row.run_id ≡ j = (eq_iff row.run_id j).0 same in
    let q : row.run_id ≡ i = (eq_iff row.run_id i).0 (find_first-holds (of_run i) runs row e) in
    let e' : find_first (of_run j) runs ≡ some row =
      subst (λ k. find_first (of_run k) runs ≡ some row) (sym q ∙ p) e in
    cc (e', found)

put_over-Raises :
    (runs : List RunRow) (new old : RunRow)
    → find_first (of_run new.run_id) runs ≡ some old
    → new.last_event_sequence ≡ old.last_event_sequence
    → Raises runs (put_over new)
put_over-Raises runs new old found same_count = record {
  same = λ i row. ground (arith, eq_iff row.run_id new.run_id);
  raised = λ i row e. elim (Bool-cases (row.run_id == new.run_id)) [
    | inl t ↦ ground (arith, t, same_count, found_once runs i new.run_id row old e found t)
    | inr f ↦ ground (arith, f)
  ];
}

same_rows : (runs : List RunRow) → Grows runs runs
unfolding Grows
same_rows runs id n c = c

append-Grows : (runs : List RunRow) (row : RunRow) → Grows runs (runs ++ row ∷ [])
unfolding Grows
append-Grows runs row id n c = record {
  row = c.row;
  found = find_first-append_some (of_run id) runs (row ∷ []) c.row c.found;
  reached = c.reached;
}

any-of_find :
    (runs : List RunRow) (id : String) (row : RunRow)
    → find_first (of_run id) runs ≡ some row
    → any (of_run id) runs ≡ true
any-of_find runs id row e = any-true_of_find (of_run id) runs row e

save_run-Grows :
    (row old : RunRow) (t : Tables)
    → get_run_row t row.run_id ≡ some old
    → row.last_event_sequence ≡ old.last_event_sequence
    → Grows t.runs (save_run row t).runs
unfolding save_run get_run_row
save_run-Grows row old t found same =
    subst (Grows t.runs) (ground (arith, any-of_find t.runs row.run_id old found))
      (map-Grows t.runs (put_over row) (put_over-Raises t.runs row old found same))

id_of_found :
    (t : Tables) (id : String) (row : RunRow) → get_run_row t id ≡ some row → row.run_id ≡ id
unfolding get_run_row
id_of_found t id row e = (eq_iff row.run_id id).0 (find_first-holds (of_run id) t.runs row e)

pub set_run_status-Grows :
    (now : ℕ) (id : String) (status : RunStatus) (t : Tables)
    → Grows t.runs (set_run_status now id status t).1.runs
unfolding set_run_status
set_run_status-Grows now id status t = elim (Option-cases (get_run_row t id)) [
  | inl e ↦ subst (Grows t.runs) (ground (arith, e)) (same_rows t.runs)
  | inr (row, e) ↦
      let own : get_run_row t row.run_id ≡ some row =
        subst (λ i. get_run_row t i ≡ some row) (sym (id_of_found t id row e)) e in
      subst (Grows t.runs) (ground (arith, e))
        (save_run-Grows (settled_row now status row) row t own refl)
]

pub store_claim_run-Grows : (id : String) (t : Tables) → Grows t.runs (store_claim_run id t).1.runs
unfolding store_claim_run
store_claim_run-Grows id t = elim (Option-cases (get_run_row t id)) [
  | inl e ↦ subst (Grows t.runs) (ground (arith, e)) (same_rows t.runs)
  | inr (row, e) ↦ elim (Bool-cases (is_queued row.status)) [
    | inl q ↦
        subst (Grows t.runs) (ground (arith, e, q))
          (map-Grows t.runs (start id) (start-Raises t.runs id))
    | inr q ↦ subst (Grows t.runs) (ground (arith, e, q)) (same_rows t.runs)
  ]
]

pub add-Grows :
    (row : RunRow) (t : Tables)
    → get_run_row t row.run_id ≡ none
    → Grows t.runs (save_run row t).runs
unfolding save_run get_run_row
add-Grows row t fresh =
    subst (Grows t.runs) (ground (arith, any-false_of_find (of_run row.run_id) t.runs fresh))
      (append-Grows t.runs row)

runs-next_event_sequence :
    (id : String) (t : Tables) → (next_event_sequence id t).1.runs ≡ map (advance id) t.runs
unfolding next_event_sequence
runs-next_event_sequence id t = ground arith

pub evidence-next_event_sequence :
    (id : String) (t : Tables) → (next_event_sequence id t).1.evidence ≡ t.evidence
unfolding next_event_sequence
evidence-next_event_sequence id t = ground arith

pub evidence_ids-next_event_sequence :
    (id : String) (t : Tables) → (next_event_sequence id t).1.evidence_ids ≡ t.evidence_ids
unfolding next_event_sequence
evidence_ids-next_event_sequence id t = fun_ext (λ n. ground arith)

pub next_event_sequence-Grows :
    (id : String) (t : Tables) → Grows t.runs (next_event_sequence id t).1.runs
unfolding next_event_sequence
next_event_sequence-Grows id t =
    subst (Grows t.runs) (sym (runs-next_event_sequence id t))
      (map-Grows t.runs (advance id) (advance-Raises t.runs id))

-- A number that is drawn is above the counter before, and is the counter after.
pub record Drawn (id : String) (n : ℕ) (t : Tables) : Type 0 where
  pub above : (m : ℕ) → Counts t.runs id m → m < n
  pub counts : Counts (next_event_sequence id t).1.runs id n

advanced :
    (id : String) (row : RunRow) (t : Tables)
    → get_run_row t id ≡ some row
    → find_first (of_run id) (map (advance id) t.runs) ≡ some (advance id row)
unfolding get_run_row
advanced id row t e =
    find_first-map (of_run id) (advance id) ((advance-Raises t.runs id).same id) t.runs row e

pub next_event_sequence-Drawn :
    (id : String) (n : ℕ) (t : Tables) → (next_event_sequence id t).0 ≡ some n → Drawn id n t
unfolding next_event_sequence get_run_row
next_event_sequence-Drawn id n t h = elim (Option-cases (get_run_row t id)) [
  | inl e ↦
      let gone =
        find_first-map_none (of_run id) (advance id) ((advance-Raises t.runs id).same id) t.runs
          e in
      ground (arith, gone, h)
  | inr (row, e) ↦
      let found = advanced id row t e in
      let own : (row.run_id == id) ≡ true = find_first-holds (of_run id) t.runs row e in
      let next : n ≡ row.last_event_sequence + 1 = ground (arith, found, own, h) in
      record {
        above = λ m c. ground (arith, next, c.found, c.reached, e);
        counts =
            subst (λ rows. Counts rows id n) (sym (runs-next_event_sequence id t))
              (record { row = advance id row; found = found; reached = ground (arith, own, next) });
      }
]
