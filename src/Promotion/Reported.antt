-- ===== src/Promotion/Reported.antt =====
-- What a report that `_validate_report` and `_load_frozen_gate` of src/adaptive_agent/candidate.py
-- accept is about.
use adaptive_agent.Prelude.{
  true, false, String, Option, none, some, List, ◌≡◌, ◌≢◌, inl, inr, arith, sym, ap, ◌∙◌, subst,
  eq_iff, Option-cases, Bool-cases, find_first,
}
use adaptive_agent.Json.{Json, str, obj, get}
use adaptive_agent.Store.ToolCalls.Laws.{find_first-holds}
use adaptive_agent.Models.Refs.{is_empty}
use adaptive_agent.Json.Equality.{equal}
use adaptive_agent.Promotion.Protocols
use adaptive_agent.Promotion.Protocols.{
  FrozenProtocol, hashed_as, get_frozen_protocol, identity_ok, partitions_ok, allocation_ok,
  is_there, same_names, track1_protocol_hash, load_frozen_gate,
}
use adaptive_agent.Gate.Values.{GateConfig}
use adaptive_agent.Promotion.Memory.{CandidateProposal}
use adaptive_agent.Promotion.Promote.{View, validate_report, loading, is_text, is_hash, no_fields}

-- What `_validate_report` asks for: the report is about the candidate's bundle and its base; it has
-- safety results, runs and a provenance; and it compares on the validation partition.
pub record Reported (p : CandidateProposal) (v : View) : Type 0 where
  pub candidate : p.candidate_bundle_hash ≡ some v.candidate_hash
  pub filled : v.candidate_hash ≢ ""
  pub base : v.base_hash ≡ p.base_bundle_hash
  pub has_safety_results : no_fields v.safety_results ≡ false
  pub has_runs : v.paired_runs ≡ true
  pub attributed : v.provenance ≢ ""
  pub compared : get "comparison" v.uncertainty ≡ some (str "validation")

is_hash-some : (o : Option String) (t : String) → is_hash o t ≡ true → (o ≡ some t) × (t ≢ "")
is_hash-some none t h = cc
is_hash-some (some s) t h =
    let e : t ≡ s = (eq_iff t s).0 (ground (arith, h)) in
    (ap some (sym e), λ k. ground (arith, h, (eq_iff s "").1 (sym e ∙ k)))

is_text-some : (o : Option Json) (t : String) → is_text o t ≡ true → o ≡ some (str t)
is_text-some none t h = cc
is_text-some (some (str s)) t h = ap (λ u. some (str u)) ((eq_iff s t).0 h)
is_text-some (some _) t h = cc

pub validate_report-Reported :
    (p : CandidateProposal) (v : View) → validate_report p v ≡ true → Reported p v
unfolding validate_report
validate_report-Reported p v h =
    let (same, filled) =
      is_hash-some p.candidate_bundle_hash v.candidate_hash (ground (arith, h)) in
    record {
      candidate = same;
      filled = filled;
      base = (eq_iff v.base_hash p.base_bundle_hash).0 (ground (arith, h));
      has_safety_results = ground (arith, h);
      has_runs = ground (arith, h);
      attributed = λ e. ground (arith, h, (eq_iff v.provenance "").1 e);
      compared = is_text-some (get "comparison" v.uncertainty) "validation" (ground (arith, h));
    }

-- The settings are those of the active protocol that is registered under the report's hash, which is
-- the canonical one once that is registered. The report's evaluator, its partition hashes if there
-- are any on both sides, and the allocation of a serialized report are the registered ones.
pub record FrozenFor (rows : List FrozenProtocol) (v : View) (g : GateConfig) : Type 0 where
  pub protocol : FrozenProtocol
  pub registered : find_first (hashed_as v.protocol_hash) rows ≡ some protocol
  pub in_force : protocol.active ≡ true
  pub under_hash : protocol.protocol_hash ≡ v.protocol_hash
  pub canonical :
      is_there (get_frozen_protocol rows track1_protocol_hash) ≡ true
      → v.protocol_hash ≡ track1_protocol_hash
  pub settings : g ≡ protocol.gate
  pub by_provenance : is_empty protocol.evaluator_refs ≡ true → v.provenance ≡ protocol.evaluator_id
  pub by_refs :
      is_empty protocol.evaluator_refs ≡ false
      → (is_empty v.evaluator_refs ≡ false)
        × (same_names v.evaluator_refs protocol.evaluator_refs ≡ true)
  pub partitions :
      Protocols.no_fields protocol.partition_hashes ≡ false
      → Protocols.no_fields v.partition_hashes ≡ false
      → equal (obj v.partition_hashes) (obj protocol.partition_hashes) ≡ true
  pub allocation : v.serialized_contract ≡ true → allocation_ok protocol (loading v) ≡ true

get_frozen_protocol-some :
    (rows : List FrozenProtocol) (hash : String) (row : FrozenProtocol)
    → get_frozen_protocol rows hash ≡ some row
    → (find_first (hashed_as hash) rows ≡ some row) × (row.active ≡ true)
unfolding get_frozen_protocol
get_frozen_protocol-some rows hash row h = elim (Option-cases (find_first (hashed_as hash) rows)) [
  | inl e ↦ ground (arith, h, e)
  | inr (found, e) ↦ elim (Bool-cases found.active) [
    | inr f ↦ ground (arith, h, e, f)
    | inl t ↦
        let q : found ≡ row = ground (arith, h, e, t) in
        subst (λ r. (find_first (hashed_as hash) rows ≡ some r) × (r.active ≡ true)) q (e, t)
  ]
]

pub load_frozen_gate-FrozenFor :
    (rows : List FrozenProtocol) (v : View) (g : GateConfig)
    → load_frozen_gate rows (loading v) ≡ some g
    → FrozenFor rows v g
unfolding load_frozen_gate identity_ok partitions_ok
load_frozen_gate-FrozenFor rows v g h =
    elim (Option-cases (get_frozen_protocol rows v.protocol_hash)) [
      | inl e ↦ ground (arith, h, e)
      | inr (row, e) ↦
          let (found, active) = get_frozen_protocol-some rows v.protocol_hash row e in
          record {
            protocol = row;
            registered = found;
            in_force = active;
            under_hash =
                (eq_iff row.protocol_hash v.protocol_hash).0
                  (find_first-holds (hashed_as v.protocol_hash) rows row found);
            canonical =
                λ c. (eq_iff v.protocol_hash track1_protocol_hash).0 (ground (arith, h, e, c));
            settings = ground (arith, h, e);
            by_provenance = λ n. (eq_iff v.provenance row.evaluator_id).0 (ground (arith, h, e, n));
            by_refs = λ n. (ground (arith, h, e, n), ground (arith, h, e, n));
            partitions = λ m n. ground (arith, h, e, m, n);
            allocation = λ c. ground (arith, h, e, c);
          }
    ]
