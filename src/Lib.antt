-- ===== src/Lib.antt =====
-- Verification of adaptive-agent, the control plane of an agent that acts on environments through
-- tools, learns skill bundles, and promotes a candidate bundle only past a frozen gate.
--
-- The parts, and the files that model them:
--
-- Json: the values that `json.loads` returns, the comparisons of Python on them, and the text of
-- `json.dumps(_, sort_keys=True)` as the value with its keys sorted. Two texts are equal just when
-- these values are, so a column that holds such a text holds the value. A finite float is the
-- fraction m / 2 ^ k that it is, so comparisons are exact, as in Python.
--
-- Models: the records of src/adaptive_agent/models.py that the parts exchange. Messages and random
-- correlation ids are left out; times are numbers.
--
-- Environment: src/adaptive_agent/environment.py. Environment/Pointer is `_resolve_ref`,
-- Environment/Schema is `_validate` and `validate_value`, by groups of keywords in
-- Environment/Schema/Keywords, and Environment/Registry is EnvironmentRegistry with the table that
-- `Store.register_environment` writes. The validator recurs on a fuel of 65 - depth: the source
-- stops at a depth above 64 with an error of its own, so the end of the fuel is that error and no
-- run is cut short.
--
-- Store: the tables tool_calls and approvals of src/adaptive_agent/store.py with the methods of
-- Store on them, each one transaction: `prepare_tool_call`, `consume_approval_and_prepare`,
-- `save_tool_result`, `list_unreconciled_calls`, `mark_call_outcome_unknown`, `issue_approval`.
--
-- Models/Usage: `canonical_usage` of src/adaptive_agent/models.py.
--
-- Store/Allocations: the table evaluator_allocations, `Store.reserve_allocation` and
-- `Store.get_allocation`, and any sequence of reservations. Store/TaskRuns: the table task_runs with
-- its claims, updates and releases.
--
-- Experiment: src/adaptive_agent/experiment_lifecycle.py. Experiment/Policy is LifecyclePolicy,
-- Experiment/Receipts and Experiment/Checks are the checks of the receipts, and
-- Experiment/Lifecycle is `_retry`, which recurs on the retries that are left, and
-- `run_experiment_lifecycle`, in code that carries the state of the callbacks and the retry log.
--
-- Runs: src/adaptive_agent/controller.py. Runs/Tables is the tables runs, steps and evidence of
-- src/adaptive_agent/store.py with the methods of Store on them, Runs/Control the operations
-- `create_run`, `cancel_run`, `claim_run`, `begin_step`, `finish_step`, `append_event`,
-- `append_broker_result` and `events`, Runs/Outcomes `record_trusted_outcome`, and Runs/Execute
-- `execute_run`, where the driver and the evaluator are parameters that may perform any operations.
-- Runs/History takes each operation apart into single writes, and Runs/Operations runs operations in
-- any order. The evidence ids that an operation draws are a stream in the tables; a step that reuses
-- an id is excluded by a hypothesis where it matters.
--
-- Retrieval: src/adaptive_agent/retrieval.py. Retrieval/Sources is SourceRecord with
-- `from_mapping`, and Retrieval/Search is AccessFilteredRetriever with `_allowed`, `search` and
-- `require_development_evidence`.
--
-- Broker: src/adaptive_agent/broker.py. Broker/Capability is `Capability.covers` and
-- `_scope_match`; Broker/Dispatch and Broker/Request are `ToolBroker.request_tool_call`, its
-- checks (`admit`), the look at the stored call (`replay`), the preparation (`prepare`) and the
-- execution (`execute`); Broker/Reconcile is `reconcile_run`; Broker/History runs calls,
-- reconciliations and new approvals in any order on one store. The broker uses Environment for
-- schemas and arguments and Store for its tables.
--
-- Gate: src/adaptive_agent/performance_gate.py, the decision `evaluate_performance_gate`: each
-- check is the list of reasons that it appends.
--
-- Promotion: src/adaptive_agent/candidate.py over the tables skill_bundles, active_history,
-- candidates and promotions of the store (Promotion/Memory). Promotion/Candidates is the
-- validation, submission, evaluation state and rollback of candidates, Promotion/Promote is
-- `promote`, which asks Gate, and Promotion/History runs these operations in any order.
-- Promotion/Protocols is `freeze_protocol` and `_load_frozen_gate` over the table frozen_protocols,
-- from which a promotion loads its gate.
--
-- What is a parameter: the regular expressions of `re.search`, re.error included, and the float arithmetic of
-- `multipleOf` (Host.search, Host.multiple), the SHA-256 of a result (Host.digest), the tool
-- provider with its own state (Provider), the readings of the clock during a call (Clock), and
-- rounding float arithmetic in the gate (Arithmetic), and what a candidate's validation reads of
-- other tables and of the text of procedures (Reads), the callbacks of an experiment (Callbacks),
-- `str.lower` of a character, the SHA-256 and the words of a text in a search, and the driver and the
-- evaluator of a run. An exception that no handler catches is the
-- outcome `crashed` or `failed`. Of a provider only `execute` may raise or act; `effect`, `version` and
-- `reconcile` keep the contract that ToolProvider documents, which is to answer.
--
-- What is not modelled: the parsing of reports by `_view_report` and the stored report, so that
-- `promote_candidate` takes the view of a report as an argument;
-- the metric objects that the gate reads by attributes (only mappings are); a capability of an
-- effect that is neither read nor write is one whose effect is absent; the row of the table outcomes
-- that `record_outcome` saves, and the envelopes of events for display; the rows of evidence that the learning
-- runtime adds under ids of its own; the remaining methods of the
-- controller; the evaluation, learning, planning and runtime modules, the HTTP interface and the
-- console, which are around these parts; two processes that interleave inside one call of the
-- broker or between the reads and writes of one operation on a run.
pub mod Broker
pub mod Environment
pub mod Experiment
pub mod Gate
pub mod Json
pub mod Models
pub mod Prelude
pub mod Promotion
pub mod Retrieval
pub mod Runs
pub mod Store
