-- ===== src/Runs/Tables.antt =====
-- The tables runs, steps and evidence of src/adaptive_agent/store.py. The payload of an evidence
-- row stands for its hash and for the artifact that it names. The random ids of runs and of steps are
-- arguments; those of evidence rows, of which an operation draws several, are a stream in the tables.
use adaptive_agent.Prelude.{
  ℕ, suc, ◌+◌, Bool, true, false, not, ◌&&◌, ◌||◌, String, Option, none, some, List, [], ◌∷◌, ◌++◌,
  map, ◌==◌, eqb, leb, any, select, find_first, if◌then◌else◌,
}
use adaptive_agent.Json.{Fields}

pub data RunStatus : Type 0 where
  queued running awaiting_approval succeeded failed cancelled timed_out : RunStatus

-- `details` stands for the fields that are only stored.
pub record RunRecord : Type 0 where
  pub run_id : String
  pub status : RunStatus
  pub last_event_sequence : ℕ
  pub completed_at : Option ℕ
  pub details : String

-- A row of runs; `json` is the record in run_json.
pub record RunRow : Type 0 where
  pub run_id : String
  pub task_id : String
  pub environment_id : String
  pub bundle_hash : String
  pub status : RunStatus
  pub idempotency_key : String
  pub last_event_sequence : ℕ
  pub completed_at : Option ℕ
  pub json : RunRecord

pub data StepStatus : Type 0 where
  planned running awaiting_approval succeeded failed cancelled outcome_unknown : StepStatus

pub record StepRow : Type 0 where
  pub step_id : String
  pub run_id : String
  pub sequence : ℕ
  pub kind : String
  pub status : StepStatus

pub data TrustClass : Type 0 where
  learner operator evaluator broker system : TrustClass

pub data Visibility : Type 0 where
  to_learner to_operator evaluator_only : Visibility

pub record EvidenceRow : Type 0 where
  pub evidence_id : String
  pub run_id : String
  pub sequence : ℕ
  pub event_type : String
  pub payload : Fields
  pub trust_class : TrustClass
  pub visibility : Visibility
  pub redacted : Bool

-- `evidence_ids` is what `new_id` will draw for evidence rows, in order.
pub record Tables : Type 0 where
  pub runs : List RunRow
  pub steps : List StepRow
  pub evidence : List EvidenceRow
  pub evidence_ids : ℕ → String

abbrev pub of_run : String → RunRow → Bool
of_run id row = row.run_id == id

abbrev pub put_over : RunRow → RunRow → RunRow
put_over new old = if old.run_id == new.run_id then new else old

-- INSERT OR REPLACE. A row is saved under a key that is new, or under its own key, so that the
-- uniqueness of the keys replaces no other row.
unfoldable pub save_run : RunRow → Tables → Tables
save_run row t = record t {
  runs = if any (of_run row.run_id) t.runs then map (put_over row) t.runs else t.runs ++ row ∷ [];
}

unfoldable pub get_run_row : Tables → String → Option RunRow
get_run_row t id = find_first (of_run id) t.runs

unfoldable pub get_run_by_idempotency_key : Tables → String → Option RunRow
get_run_by_idempotency_key t key = find_first (λ row. row.idempotency_key == key) t.runs

abbrev pub is_queued : RunStatus → Bool
is_queued queued = true
is_queued _ = false

abbrev pub start : String → RunRow → RunRow
start id row =
    if row.run_id == id
    then record row {
      status = RunStatus.running;
      json = record row.json { status = RunStatus.running };
    }
    else row

-- `none`: there is no such run; `some true`: this caller claimed it.
unfoldable pub store_claim_run : String → Tables → Option Bool × Tables
unfolding get_run_row
store_claim_run id t = elim (get_run_row t id) [
  | none ↦ (none, t)
  | some row ↦
      if not (is_queued row.status)
      then (some false, t)
      else (some true, record t { runs = map (start id) t.runs })
]

abbrev pub advance : String → RunRow → RunRow
advance id row =
    if row.run_id == id
    then record row { last_event_sequence = row.last_event_sequence + 1 }
    else row

-- `none` is the KeyError of a run that does not exist.
unfoldable pub next_event_sequence : String → Tables → Option ℕ × Tables
unfolding get_run_row
next_event_sequence id t =
    let t' : Tables = record t { runs = map (advance id) t.runs } in
    elim (get_run_row t' id) [ none ↦ (none, t') | some row ↦ (some row.last_event_sequence, t') ]

abbrev pub same_place : String → ℕ → EvidenceRow → Bool
same_place id n e = e.run_id == id && eqb e.sequence n

abbrev pub evidence_replaced : EvidenceRow → EvidenceRow → Bool
evidence_replaced e d = d.evidence_id == e.evidence_id || same_place e.run_id e.sequence d

-- INSERT OR REPLACE, with PRIMARY KEY evidence_id and UNIQUE (run_id, sequence).
unfoldable pub append_evidence : EvidenceRow → Tables → Tables
append_evidence e t = record t {
  evidence = select (λ d. not (evidence_replaced e d)) t.evidence ++ e ∷ [];
}

-- The next id is taken.
abbrev pub draw_evidence_id : Tables → Tables
draw_evidence_id t = record t { evidence_ids = λ n. t.evidence_ids (suc n) }

abbrev pub step_replaced : StepRow → StepRow → Bool
step_replaced s d = d.step_id == s.step_id || d.run_id == s.run_id && eqb d.sequence s.sequence

-- INSERT OR REPLACE, with UNIQUE (run_id, sequence).
unfoldable pub save_step : StepRow → Tables → Tables
save_step s t = record t { steps = select (λ d. not (step_replaced s d)) t.steps ++ s ∷ [] }

unfoldable pub update_step_status : String → StepStatus → Tables → Tables
update_step_status id status t = record t {
  steps =
      map (λ (d : StepRow). if d.step_id == id then record d { status = status } else d) t.steps;
}

-- ORDER BY sequence
unfoldable pub insert_ordered : EvidenceRow → List EvidenceRow → List EvidenceRow
insert_ordered e [] = e ∷ []
insert_ordered e (d ∷ ds) =
    let rest = insert_ordered e ds in if leb e.sequence d.sequence then e ∷ d ∷ ds else d ∷ rest

unfoldable pub ordered : List EvidenceRow → List EvidenceRow
unfolding insert_ordered
ordered [] = []
ordered (e ∷ es) = insert_ordered e (ordered es)

unfoldable pub list_evidence : Tables → String → List EvidenceRow
unfolding ordered
list_evidence t id = ordered (select (λ e. e.run_id == id) t.evidence)
