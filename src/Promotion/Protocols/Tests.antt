-- ===== src/Promotion/Protocols/Tests.antt =====
-- Protocols of src/adaptive_agent/candidate.py that are frozen and loaded.
use adaptive_agent.Prelude.{true, false, String, none, some, List, [], ◌∷◌, ◌≡◌, refl}
use adaptive_agent.Json.{null, boolean, str, end, field, get, size}
use adaptive_agent.Json.Equality.{equal}
use adaptive_agent.Gate.Values.{GateConfig}
use adaptive_agent.Promotion.Protocols.{
  Freeze, Report, frozen_row, freeze_protocol, wrong_fixtures, save_frozen_protocol,
  load_frozen_gate, get_frozen_protocol, identity_ok, partitions_ok, deactivate_protocol,
}
use adaptive_agent.Promotion.Protocols.Frozen.{
  Operation, freeze, deactivate, perform_all, LoadedAsFrozen, freeze_protocol-LoadedAsFrozen,
}

abbrev gate : GateConfig
gate = record {
  min_accuracy_gain = null;
  ci_lower_bound = null;
  max_cost_ratio = null;
  max_latency_ratio = null;
  max_cost_microunits = null;
  max_latency_seconds = null;
  require_per_environment_non_regression = boolean true;
}

abbrev digest : GateConfig → String
digest g = "digest"

abbrev request : Freeze
request = record {
  gate_hash = "";
  gate = gate;
  evaluator_id = "evaluator";
  evaluator_refs = "ref" ∷ [];
  fixture_hashes = none;
  partition_hashes = field "final" (str "p") end;
  protocol_inputs = end;
}

abbrev report : Report
report = record {
  protocol_hash = "digest";
  provenance = "other";
  evaluator_refs = "ref" ∷ [];
  partition_hashes = field "final" (str "p") end;
  comparison = null;
  serialized_contract = false;
  required_environments = [];
  required_safety_case_ids = [];
}

freezes : (freeze_protocol digest request []).0 ≡ some "digest"
unfolding freeze_protocol wrong_fixtures save_frozen_protocol
freezes = refl

abbrev later : List Operation
later = deactivate "unknown" ∷ freeze (record request { evaluator_id = "thief" }) ∷ []

loads :
    load_frozen_gate (perform_all digest later (freeze_protocol digest request []).1) report
    ≡ some gate
unfolding load_frozen_gate perform_all freeze_protocol wrong_fixtures save_frozen_protocol
    get_frozen_protocol identity_ok partitions_ok deactivate_protocol equal size get
loads = refl

refuses_foreign :
    load_frozen_gate
      (freeze_protocol digest request []).1
      (record report { evaluator_refs = "foreign" ∷ [] })
    ≡ none
unfolding load_frozen_gate freeze_protocol wrong_fixtures save_frozen_protocol get_frozen_protocol
    identity_ok
refuses_foreign = refl

freeze_protocol-LoadedAsFrozen_example : LoadedAsFrozen (frozen_row "digest" request) report gate
freeze_protocol-LoadedAsFrozen_example =
    freeze_protocol-LoadedAsFrozen digest request "digest" later [] report gate freezes refl loads
