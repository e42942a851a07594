-- ===== src/Promotion/Candidates.antt =====
-- CandidateManager of src/adaptive_agent/candidate.py. Each operation returns the memory that it
-- leaves, and whether it ended without an exception.
use adaptive_agent.Prelude.{
  ℕ, Bool, true, false, not, ◌&&◌, ◌||◌, String, Option, none, some, List, [], ◌∷◌, ltb, ◌==◌,
  if◌then◌else◌, all, any, length, member,
}
use Prim.Native.String.{◌++◌ as str_append}
use adaptive_agent.Models.Refs.{is_empty}
use adaptive_agent.Promotion.Memory.{
  SkillBundle, CandidateState, draft, validated, evaluating, quarantined, rolled_back,
  CandidateProposal, promote, Promotion, Memory, save_bundle, get_bundle_by_hash, get_active_bundle,
  append_active_history, is_in_active_lineage, get_candidate, update_candidate, save_candidate,
  Swap, swapped, cas_active_bundle, same_active,
}

-- What the store knows of a piece of evidence.
pub record Provenance : Type 0 where
  pub partition : String
  pub trust_class : String
  pub run_id : String

-- The tables and library functions that a validation reads: `evidence_provenance`,
-- `has_trusted_outcome`, `has_artifact`, the SHA-256 of a bundle without its hash, the number of
-- lines that are not blank, and `pattern in text`.
pub record Reads : Type 0 where
  pub evidence_provenance : String → Option Provenance
  pub has_trusted_outcome : String → Bool
  pub has_artifact : String → Bool
  pub digest : SkillBundle → String
  pub lines : String → ℕ
  pub contains : String → String → Bool

abbrev forbidden_patterns : List String
forbidden_patterns =
    "import os" ∷ "import sys" ∷ "__import__" ∷ "subprocess" ∷ "eval(" ∷ "exec(" ∷ "open("
    ∷ "socket" ∷ []

abbrev trusted_components : List String
trusted_components = "broker" ∷ "evaluator" ∷ "promotion" ∷ "policy" ∷ "store" ∷ "coordinator" ∷ []

module _ (h : Reads) where
  evidence_ok : String → Bool
  evidence_ok id = elim (h.evidence_provenance id) [
    | none ↦ false
    | some p ↦
        p.partition == "development"
        && member p.trust_class ("learner" ∷ "broker" ∷ "system" ∷ [])
        && h.has_trusted_outcome p.run_id
  ]

  validate_evidence : CandidateProposal → Bool
  unfolding evidence_ok
  validate_evidence p =
      not (is_empty p.supporting_evidence_ids) && all evidence_ok p.supporting_evidence_ids

  procedure_ok : String → Bool
  procedure_ok text =
      not (ltb 200 (h.lines text))
      && not (any (λ pattern. h.contains pattern text) forbidden_patterns)

  -- bundle.content_hash = recompute_bundle_hash(bundle)
  unfoldable pub hashed : SkillBundle → SkillBundle
  hashed b = record b { content_hash = h.digest b }

  -- A hash that is not there is "".
  agrees : String → String → Bool
  agrees given computed = given == "" || given == computed

  abbrev hash_of : Option String → String
  hash_of none = ""
  hash_of (some s) = s

  is_draft : CandidateState → Bool
  is_draft draft = true
  is_draft _ = false

  -- True when no CandidateValidationError is raised.
  unfoldable pub validate_candidate : CandidateProposal → SkillBundle → Memory → Bool
  unfolding validate_evidence procedure_ok agrees is_draft
  validate_candidate p b m =
      is_draft p.state
      && agrees b.content_hash (h.digest b)
      && agrees (hash_of p.candidate_bundle_hash) (h.digest b)
      && not (ltb 3 (length p.changed_artifact_hashes))
      && all h.has_artifact p.changed_artifact_hashes
      && all procedure_ok b.procedures
      && validate_evidence p
      && not (any (λ op. any (λ name. h.contains name op) trusted_components) p.edit_operations)
      && same_active (get_active_bundle m) p.base_bundle_hash

  unfoldable pub initialize_active_bundle : SkillBundle → Memory → Memory
  unfolding hashed
  initialize_active_bundle b m =
      append_active_history (hashed b).content_hash "genesis" (save_bundle (hashed b) true m)

-- The row is updated, or inserted if there is none.
unfoldable pub sync_candidate : CandidateProposal → Memory → Memory
sync_candidate p m = elim (get_candidate m p.candidate_id) [
  | some row ↦ update_candidate p.candidate_id p.state (some p) m
  | none ↦ save_candidate p m
]

-- `none`: no such candidate, or its text is no proposal.
unfoldable pub read_candidate : Memory → String → Option CandidateProposal
read_candidate m id = elim (get_candidate m id) [
  | none ↦ none
  | some row ↦ elim row.json [ none ↦ none | some p ↦ some (record p { state = row.state }) ]
]

module _ (h : Reads) where
  unfoldable pub submit_candidate : CandidateProposal → SkillBundle → Memory → Bool × Memory
  unfolding validate_candidate sync_candidate hashed
  submit_candidate p b m =
      if validate_candidate h p b m
      then (
        true,
        save_bundle (hashed h b) false (
            sync_candidate
              (record p { candidate_bundle_hash = some (h.digest b); state = validated }) m),
      )
      else (false, m)

abbrev pub is_validated : CandidateState → Bool
is_validated validated = true
is_validated _ = false

unfoldable pub start_evaluation : String → Memory → Bool × Memory
unfolding read_candidate sync_candidate
start_evaluation id m = elim (read_candidate m id) [
  | none ↦ (false, m)
  | some p ↦
      if is_validated p.state
      then (true, sync_candidate (record p { state = evaluating }) m)
      else (false, m)
]

unfoldable pub quarantine_candidate : String → Memory → Bool × Memory
unfolding read_candidate sync_candidate
quarantine_candidate id m = elim (read_candidate m id) [
  | none ↦ (false, m)
  | some p ↦ (true, sync_candidate (record p { state = quarantined }) m)
]

abbrev pub prior_hash : Memory → String
prior_hash m = elim (get_active_bundle m) [ none ↦ "" | some row ↦ row.bundle.content_hash ]

unfoldable pub rollback_row : String → String → Memory → Promotion
rollback_row decision_id target m = record {
  decision_id = decision_id;
  candidate_hash = target;
  base_hash = target;
  prior_active_hash = prior_hash m;
  new_active_hash = some target;
  decision = promote;
}

unfoldable pub swap_done : Swap → Bool
swap_done swapped = true
swap_done _ = false

-- `decision_id` is the new id of the decision.
unfoldable pub rollback : String → String → Memory → Bool × Memory
unfolding rollback_row swap_done
rollback decision_id target m =
    if not (is_in_active_lineage m target) then (false, m) else elim (get_bundle_by_hash m target) [
      | none ↦ (false, m)
      | some row ↦
          if prior_hash m == target
          then (false, m)
          else let (s, m') =
              cas_active_bundle (prior_hash m) target (str_append "rollback:" target) rolled_back
                none (rollback_row decision_id target m) m in
            (swap_done s, m')
    ]
