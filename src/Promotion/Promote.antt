-- ===== src/Promotion/Promote.antt =====
-- `promote`, `_validate_report` and `_check_gate` of src/adaptive_agent/candidate.py. The table
-- frozen_protocols, which a promotion only reads, is an argument.
use adaptive_agent.Prelude.{
  Bool, true, false, not, ◌&&◌, String, Option, none, some, List, [], ◌∷◌, ◌==◌, if◌then◌else◌,
}
use adaptive_agent.Json.{Json, boolean, str, obj, Fields, end, field, get}
use adaptive_agent.Gate.Values.{Arithmetic, GateConfig, or_null}
use adaptive_agent.Gate.Checks.{all_true}
use adaptive_agent.Gate.Decision.{Report, evaluate_performance_gate}
use adaptive_agent.Promotion.Memory.{
  CandidateState, validated, evaluating, promoted, rejected, quarantined, superseded,
  CandidateProposal, Decision, promote, reject, quarantine, Promotion, Memory, get_bundle_by_hash,
  save_promotion, Swap, swapped, stale, swap_error, cas_active_bundle,
}
use adaptive_agent.Promotion.Protocols
use adaptive_agent.Promotion.Protocols.{FrozenProtocol, load_frozen_gate}
use adaptive_agent.Promotion.Candidates.{read_candidate, sync_candidate, prior_hash}

-- A report as the manager views it; `paired_runs` says whether there are any; `per_environment`,
-- `evaluator_refs` and `partition_hashes` are what `uncertainty` has under these keys, and the keys of
-- the first are distinct.
pub record View : Type 0 where
  pub protocol_hash : String
  pub candidate_hash : String
  pub base_hash : String
  pub provenance : String
  pub paired_runs : Bool
  pub accuracy : Json
  pub reliability : Json
  pub mean_cost : Json
  pub p95_latency : Json
  pub safety_violations : Json
  pub suspicious : Bool
  pub safety_results : Fields
  pub uncertainty : Fields
  pub per_environment : List (String × Fields)
  pub evaluator_refs : List String
  pub partition_hashes : Fields
  pub serialized_contract : Bool
  pub required_environments : List String
  pub required_safety_case_ids : List String

abbrev pub is_text : Option Json → String → Bool
is_text (some (str s)) t = s == t
is_text _ t = false

abbrev pub is_hash : Option String → String → Bool
is_hash none t = false
is_hash (some s) t = not (s == "") && t == s

abbrev pub no_fields : Fields → Bool
no_fields end = true
no_fields (field k v fs) = false

-- What `_load_frozen_gate` reads of the view.
abbrev pub loading : View → Protocols.Report
loading v = record {
  protocol_hash = v.protocol_hash;
  provenance = v.provenance;
  evaluator_refs = v.evaluator_refs;
  partition_hashes = v.partition_hashes;
  comparison = or_null (get "comparison" v.uncertainty);
  serialized_contract = v.serialized_contract;
  required_environments = v.required_environments;
  required_safety_case_ids = v.required_safety_case_ids;
}

-- True when no PromotionError is raised.
unfoldable pub validate_report : CandidateProposal → View → Bool
validate_report p v =
    is_hash p.candidate_bundle_hash v.candidate_hash
    && v.base_hash == p.base_bundle_hash
    && not (no_fields v.safety_results)
    && v.paired_runs
    && not (v.provenance == "")
    && is_text (get "comparison" v.uncertainty) "validation"

abbrev read_json : String → Fields → Json
read_json key fs = or_null (get key fs)

abbrev or_else : Option Json → Json → Json
or_else none v = v
or_else (some u) v = u

arm_summary : Json → Json → Json → Json → Json → Json
arm_summary accuracy reliability cost latency count = obj (
    field "accuracy" accuracy (
      field "reliability" reliability (
        field "meanCostMicrounits" cost
          (field "p95LatencySeconds" latency (field "count" count end)))))

environment_arm : Json → Json → Json → Json
environment_arm accuracy reliability count =
    obj (field "accuracy" accuracy (field "reliability" reliability (field "count" count end)))

environment_cell : Fields → Json
unfolding environment_arm
environment_cell values = obj (
    field "B0"
      (environment_arm (read_json "baseline_accuracy" values)
        (read_json "baseline_reliability" values) (read_json "baseline_count" values))
      (field "L"
        (environment_arm (read_json "candidate_accuracy" values)
          (read_json "candidate_reliability" values) (read_json "candidate_count" values))
        end))

environment_cells : List (String × Fields) → Fields
unfolding environment_cell
environment_cells [] = end
environment_cells ((env, values) ∷ rest) =
    field env (environment_cell values) (environment_cells rest)

text_of : Option Json → Option String
text_of (some (str s)) = some s
text_of _ = none

-- The arguments of the gate. A comparison that is no text is unequal to the one expected.
unfoldable pub gate_report : View → Report
unfolding arm_summary environment_cells text_of
gate_report v = record {
  expected_comparison = "validation";
  comparison = text_of (get "comparison" v.uncertainty);
  baseline_summary =
      arm_summary (read_json "baseline_accuracy" v.uncertainty)
        (or_else (get "baseline_reliability" v.uncertainty) v.reliability)
        (read_json "baseline_cost" v.uncertainty) (read_json "baseline_latency" v.uncertainty)
        (read_json "baseline_count" v.uncertainty);
  candidate_summary =
      arm_summary v.accuracy v.reliability v.mean_cost v.p95_latency
        (read_json "candidate_count" v.uncertainty);
  accuracy_ci_lower = read_json "ci_lower" v.uncertainty;
  environment_cells = some (environment_cells v.per_environment);
  required_environments = v.required_environments;
  required_safety_case_ids = v.required_safety_case_ids;
  safety_passed = boolean (all_true v.safety_results && not (no_fields v.safety_results));
  safety_violations = v.safety_violations;
  safety_case_results = some v.safety_results;
  integrity_failures = [];
}

abbrev pub can_promote : CandidateState → Bool
can_promote evaluating = true
can_promote validated = true
can_promote _ = false

abbrev decided_state : Decision → CandidateState
decided_state promote = promoted
decided_state reject = rejected
decided_state quarantine = quarantined

abbrev pub bundle_hash : CandidateProposal → String
bundle_hash p = elim p.candidate_bundle_hash [ none ↦ "" | some s ↦ s ]

abbrev pub decision_row : String → CandidateProposal → Memory → Decision → Option String → Promotion
decision_row decision_id p m d new = record {
  decision_id = decision_id;
  candidate_hash = bundle_hash p;
  base_hash = p.base_bundle_hash;
  prior_active_hash = prior_hash m;
  new_active_hash = new;
  decision = d;
}

-- After the swap: a pointer that moved supersedes the candidate.
unfoldable pub after_swap : CandidateProposal → Swap × Memory → Option Decision × Memory
unfolding sync_candidate
after_swap p (swapped, m) = (some promote, m)
after_swap p (stale, m) = (none, sync_candidate (record p { state = superseded }) m)
after_swap p (swap_error, m) = (none, m)

unfoldable pub decide :
    String → String → CandidateProposal → Decision → Memory → Option Decision × Memory
unfolding after_swap sync_candidate save_promotion
decide decision_id id p promote m = elim (get_bundle_by_hash m (bundle_hash p)) [
  | none ↦ (none, m)
  | some row ↦ after_swap p (
      cas_active_bundle (prior_hash m) (bundle_hash p) id promoted
        (some (record p { state = promoted }))
        (decision_row decision_id p m promote (some (bundle_hash p))) m)
]
decide decision_id id p d m = (
  some d,
  sync_candidate (record p { state = decided_state d })
      (save_promotion (decision_row decision_id p m d none) m),
)

module _ (a : Arithmetic) where
  unfoldable pub check_gate : View → GateConfig → Decision
  check_gate v gate =
      if v.suspicious
      then quarantine
      else if (evaluate_performance_gate a gate (gate_report v)).passed
      then promote
      else reject

  unfoldable pub promote_viewed :
      String → String → View → GateConfig → CandidateProposal → Memory → Option Decision × Memory
  unfolding check_gate decide
  promote_viewed decision_id id v gate p m =
      if not (v.base_hash == prior_hash m)
      then (none, sync_candidate (record p { state = superseded }) m)
      else decide decision_id id p (check_gate v gate) m

  -- `none` is an exception.
  unfoldable pub promote_candidate :
      String → String → View → List FrozenProtocol → Memory → Option Decision × Memory
  unfolding promote_viewed load_frozen_gate
  promote_candidate decision_id id v rows m = elim (read_candidate m id) [
    | none ↦ (none, m)
    | some p ↦
        if not (can_promote p.state)
        then (none, m)
        else if not (validate_report p v)
        then (none, m)
        else elim (load_frozen_gate rows (loading v)) [
          | none ↦ (none, m)
          | some g ↦ promote_viewed decision_id id v g p m
        ]
  ]
