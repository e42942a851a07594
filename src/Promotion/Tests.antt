-- ===== src/Promotion/Tests.antt =====
-- Submission, promotion and rollback of src/adaptive_agent/candidate.py on concrete bundles.
use adaptive_agent.Prelude.{true, false, none, some, List, [], ◌∷◌, ◌≡◌, refl, ◌==◌}
use adaptive_agent.Json.{boolean, int, float, str, Fields, end, field, get, keys}
use adaptive_agent.Json.Number.{finite, pos, lt, le, same}
use adaptive_agent.Gate.Values.{number, item, metric, counted, in_unit, negative}
use adaptive_agent.Gate.Reasons.{dedup, fromkeys}
use adaptive_agent.Gate.Checks.{
  is_true, violations, strings, same_names, unusable, all_true, violation_reasons, case_reasons,
  setting, setting_reasons, config_reasons, metric_reasons, summary_reasons, gain_reasons, outside,
  range_reasons, limit_reasons, safety_reasons,
}
use adaptive_agent.Gate.Environments.{
  cell_reasons, regression, compared, one_environment, each_environment, required_reasons,
  environment_reasons,
}
use adaptive_agent.Gate.Decision.{
  is_comparison, integrity_reasons, cost_reasons, latency_reasons, metric_part, found,
  evaluate_performance_gate,
}
use adaptive_agent.Gate.Fixtures.{minus, quotient, exact, half, config}
use adaptive_agent.Promotion.Memory
use adaptive_agent.Promotion.Memory.{
  SkillBundle, BundleRow, CandidateState, draft, validated, CandidateProposal, CandidateRow, Memory,
  get_candidate, cas_active_bundle, swap, get_active_bundle, get_bundle_by_hash,
  append_active_history, update_candidate, save_candidate, save_promotion, save_bundle,
  is_in_active_lineage,
}
use adaptive_agent.Promotion.Candidates.{
  Reads, read_candidate, sync_candidate, prior_hash, validate_candidate, submit_candidate, rollback,
  rollback_row, swap_done,
}
use adaptive_agent.Promotion.Promote.{
  View, promote_candidate, validate_report, promote_viewed, check_gate, gate_report, decide,
  after_swap,
}
use adaptive_agent.Promotion.Protocols.{
  FrozenProtocol, load_frozen_gate, get_frozen_protocol, identity_ok, partitions_ok,
}
use adaptive_agent.Promotion.History.{
  Action, submits, evaluates, quarantines, promotes, rolls_back, run_actions,
}
use adaptive_agent.Promotion.Swaps.{Swapped}
use adaptive_agent.Promotion.Approval.{Approved, promote_candidate-Approved}
use adaptive_agent.Promotion.Pointer.{rollback-Swapped, submit_deactivates}
use adaptive_agent.Promotion.Lineage.Steps.{Lineage}
use adaptive_agent.Promotion.Lineage.{run_actions-Lineage}

abbrev base : SkillBundle
base = record {
  bundle_id = "b0";
  parent = none;
  procedures = [];
  payload = "";
  content_hash = "h0";
}

abbrev learned : SkillBundle
learned = record {
  bundle_id = "b1";
  parent = some "b0";
  procedures = "look first" ∷ [];
  payload = "";
  content_hash = "h1";
}

abbrev proposal : CandidateProposal
proposal = record {
  candidate_id = "c";
  base_bundle_hash = "h0";
  candidate_bundle_hash = some "h1";
  edit_operations = [];
  changed_artifact_hashes = [];
  supporting_evidence_ids = "e" ∷ [];
  state = validated;
}

abbrev memory : Memory
memory = record {
  bundles =
      record { bundle = base; is_active = true }
      ∷ record { bundle = learned; is_active = false }
      ∷ [];
  history = record { content_hash = "h0"; decision_id = "genesis" } ∷ [];
  candidates = record { id = "c"; json = some proposal; state = validated } ∷ [];
  promotions = [];
}

abbrev shop_cell : Fields
shop_cell = field "baseline_accuracy" half (
    field "baseline_reliability" (int (pos 1)) (
      field "baseline_count" (int (pos 4)) (
        field "candidate_accuracy" (int (pos 1)) (
          field "candidate_reliability" (int (pos 1))
            (field "candidate_count" (int (pos 4)) end)))))

abbrev statistics : Fields
statistics = field "comparison" (str "validation") (
    field "baseline_accuracy" half (
      field "baseline_cost" (int (pos 1)) (
        field "baseline_latency" (int (pos 1)) (
          field "baseline_count" (int (pos 4)) (
            field "candidate_count" (int (pos 4))
              (field "ci_lower" (float (finite (pos 1) 4)) end))))))

abbrev view : View
view = record {
  candidate_hash = "h1";
  base_hash = "h0";
  protocol_hash = "frozen";
  provenance = "evaluator";
  paired_runs = true;
  accuracy = int (pos 1);
  reliability = int (pos 1);
  mean_cost = int (pos 2);
  p95_latency = int (pos 2);
  safety_violations = int (pos 0);
  suspicious = false;
  safety_results = field "case" (boolean true) end;
  uncertainty = statistics;
  per_environment = ("shop", shop_cell) ∷ [];
  required_environments = "shop" ∷ [];
  required_safety_case_ids = "case" ∷ [];
  evaluator_refs = [];
  partition_hashes = end;
  serialized_contract = false;
}

abbrev protocols : List FrozenProtocol
protocols =
    record {
      protocol_hash = "frozen";
      gate = config;
      evaluator_id = "evaluator";
      evaluator_refs = [];
      fixture_hashes = end;
      partition_hashes = end;
      protocol_inputs = end;
      active = true;
    }
    ∷ []

promoted_now : (promote_candidate exact "d1" "c" view protocols memory).0 ≡ some Memory.promote
unfolding minus quotient evaluate_performance_gate found fromkeys dedup integrity_reasons
    config_reasons setting_reasons setting is_comparison summary_reasons metric_reasons
    safety_reasons violations violation_reasons case_reasons strings same_names unusable all_true
    is_true metric_part gain_reasons range_reasons outside limit_reasons cost_reasons
    latency_reasons environment_reasons required_reasons cell_reasons each_environment
    one_environment compared regression number item metric counted in_unit negative get keys lt le
    same promote_candidate read_candidate get_candidate validate_report promote_viewed check_gate
    load_frozen_gate get_frozen_protocol identity_ok partitions_ok gate_report decide after_swap
    sync_candidate cas_active_bundle swap get_active_bundle get_bundle_by_hash append_active_history
    update_candidate save_candidate save_promotion
promoted_now = refl

promote_candidate-Approved_example :
    Approved exact "c" view protocols memory
      (promote_candidate exact "d1" "c" view protocols memory).1
promote_candidate-Approved_example =
    promote_candidate-Approved exact "d1" "c" view protocols memory promoted_now

-- After a promotion of h1.
abbrev later : Memory
later = record memory {
  bundles =
      record { bundle = base; is_active = false }
      ∷ record { bundle = learned; is_active = true }
      ∷ [];
  history =
      record { content_hash = "h0"; decision_id = "genesis" }
      ∷ record { content_hash = "h1"; decision_id = "d1" }
      ∷ [];
}

rolled : (rollback "d2" "h0" later).0 ≡ true
unfolding rollback rollback_row swap_done is_in_active_lineage promote_candidate read_candidate
    get_candidate validate_report promote_viewed check_gate gate_report decide after_swap
    sync_candidate cas_active_bundle swap get_active_bundle get_bundle_by_hash append_active_history
    update_candidate save_candidate save_promotion
rolled = refl

rollback-Swapped_example :
    (is_in_active_lineage later "h0" ≡ true)
    × ((prior_hash later == "h0") ≡ false)
    × Swapped (prior_hash later) "h0" later (rollback "d2" "h0" later).1
rollback-Swapped_example = rollback-Swapped "d2" "h0" later rolled

abbrev reads : Reads
reads = record {
  evidence_provenance =
      λ id. some (record { partition = "development"; trust_class = "broker"; run_id = "r" });
  has_trusted_outcome = λ run. true;
  has_artifact = λ hash. true;
  digest = λ b. b.payload;
  lines = λ text. 1;
  contains = λ pattern text. pattern == text;
}

-- A new bundle under the id of the active one.
abbrev renewed : SkillBundle
renewed = record base { payload = "h2"; content_hash = "" }

abbrev drafted : CandidateProposal
drafted = record proposal { state = draft; candidate_bundle_hash = none }

drafted_valid : validate_candidate reads drafted renewed memory ≡ true
unfolding validate_candidate get_active_bundle
drafted_valid = refl

submit_deactivates_example :
    get_active_bundle (submit_candidate reads drafted renewed memory).1 ≡ none
submit_deactivates_example = submit_deactivates reads drafted renewed memory drafted_valid refl

abbrev actions : List Action
actions =
    evaluates "c"
    ∷ promotes "d1" "c" view protocols
    ∷ rolls_back "d2" "h0"
    ∷ submits reads drafted renewed
    ∷ quarantines "c"
    ∷ []

run_actions-Lineage_example : Lineage (run_actions exact memory actions)
run_actions-Lineage_example = run_actions-Lineage exact actions memory refl
