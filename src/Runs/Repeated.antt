-- ===== src/Runs/Repeated.antt =====
-- Runs that are created twice, in src/adaptive_agent/controller.py.
use adaptive_agent.Prelude.{
  true, String, none, some, [], ◌∷◌, ◌++◌, map, ◌≡◌, arith, ◌==◌, find_first, sym, subst, eq_refl,
}
use adaptive_agent.Store.ToolCalls.Laws.{find_first-append_none, find_first-map, any-false_of_find}
use adaptive_agent.Runs.Tables.{
  Tables, of_run, advance, save_run, get_run_row, get_run_by_idempotency_key, next_event_sequence,
  append_evidence,
}
use adaptive_agent.Runs.Control.{
  done, append_event, NewRun, new_row, new_record, create_run, get_run,
}

-- A creation under a key that is used returns the stored record and changes nothing.
module _ (run_id : String) (q : NewRun) (t : Tables)
    (unused : get_run_by_idempotency_key t q.idempotency_key ≡ none)
    (fresh : get_run_row t run_id ≡ none) (registered : q.registered ≡ true) where
  abbrev saved : Tables
  saved = save_run (new_row run_id q) t

  rows-saved : saved.runs ≡ t.runs ++ new_row run_id q ∷ []
  unfolding save_run get_run_row
  rows-saved = ground (arith, any-false_of_find (of_run run_id) t.runs fresh)

  found_by_id : get_run_row saved run_id ≡ some (new_row run_id q)
  unfolding get_run_row
  found_by_id =
      subst (λ rows. find_first (of_run run_id) rows ≡ some (new_row run_id q)) (sym rows-saved)
        (find_first-append_none (of_run run_id) t.runs (new_row run_id q) fresh (eq_refl run_id))

  found_by_key : get_run_by_idempotency_key saved q.idempotency_key ≡ some (new_row run_id q)
  unfolding get_run_by_idempotency_key
  found_by_key =
      subst
        (λ rows.
          find_first (λ row. row.idempotency_key == q.idempotency_key) rows
          ≡ some (new_row run_id q))
        (sym rows-saved)
        (find_first-append_none (λ row. row.idempotency_key == q.idempotency_key) t.runs
          (new_row run_id q) unused (eq_refl q.idempotency_key))

  abbrev created : Tables
  created = (create_run run_id q t).1

  advanced_id :
      find_first (of_run run_id) (map (advance run_id) saved.runs)
      ≡ some (advance run_id (new_row run_id q))
  unfolding get_run_row
  advanced_id =
      find_first-map (of_run run_id) (advance run_id) (λ row. ground arith) saved.runs
        (new_row run_id q) found_by_id

  advanced_key :
      find_first (λ row. row.idempotency_key == q.idempotency_key) (map (advance run_id) saved.runs)
      ≡ some (advance run_id (new_row run_id q))
  unfolding get_run_by_idempotency_key
  advanced_key =
      find_first-map (λ row. row.idempotency_key == q.idempotency_key) (advance run_id)
        (λ row. ground arith) saved.runs (new_row run_id q) found_by_key

  result : (create_run run_id q t).0 ≡ done (new_record run_id q)
  unfolding create_run append_event next_event_sequence get_run_row
  result = ground (arith, unused, registered, advanced_id)

  rows-created : created.runs ≡ map (advance run_id) saved.runs
  unfolding create_run append_event next_event_sequence get_run_row append_evidence
  rows-created = ground (arith, unused, registered, advanced_id)

  -- What a first creation returns and stores, and what a creation under the same key does then.
  pub record Repeats : Type 0 where
    pub first : (create_run run_id q t).0 ≡ done (new_record run_id q)
    pub stored :
        get_run created run_id ≡ some (record (new_record run_id q) { last_event_sequence = 1 })
    pub again :
        (other : String) (r : NewRun)
        → r.idempotency_key ≡ q.idempotency_key
        → create_run other r created ≡ (done (new_record run_id q), created)

  -- A run that is created under a new key is queued, with one event. A second creation under that
  -- key changes nothing and returns the record as it was first returned, whose event number is 0 and
  -- not that of the run. This is so whatever the second request contains: other content under the
  -- key is not refused as a conflict.
  pub create_run-Repeats : Repeats
  unfolding create_run get_run get_run_row get_run_by_idempotency_key
  create_run-Repeats = record {
    first = result;
    stored = ground (arith, rows-created, advanced_id, eq_refl run_id);
    again = λ other r e. ground (arith, rows-created, advanced_key, e);
  }
