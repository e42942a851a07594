-- ===== src/Promotion/Approval.antt =====
-- What a promotion by `promote` of src/adaptive_agent/candidate.py stands on.
use adaptive_agent.Prelude.{
  Bool, true, false, not, String, Option, none, some, List, ◌≡◌, ◌⊎◌, inl, inr, refl, ◌==◌,
  if◌then◌else◌, sym, subst, eq_iff,
}
use adaptive_agent.Promotion.Protocols.{FrozenProtocol, load_frozen_gate}
use adaptive_agent.Gate.Values.{Arithmetic, GateConfig}
use adaptive_agent.Gate.Decision.{evaluate_performance_gate}
use adaptive_agent.Promotion.Memory
use adaptive_agent.Promotion.Memory.{
  SkillBundle, BundleRow, CandidateState, evaluating, validated, CandidateProposal, CandidateRow,
  get_candidate, save_candidate, Promotion, Decision, reject, quarantine, Memory, activate,
  save_bundle, get_bundle_by_hash, get_active_bundle, is_in_active_lineage, Swap, swapped, stale,
  swap_error, swap, cas_active_bundle, append_active_history, update_candidate, same_active,
}
use adaptive_agent.Promotion.Candidates.{read_candidate, sync_candidate, prior_hash}
use adaptive_agent.Promotion.Promote.{
  View, validate_report, gate_report, check_gate, promote_viewed, promote_candidate, decide,
  after_swap, bundle_hash, can_promote, loading,
}
use adaptive_agent.Promotion.Reported.{
  Reported, validate_report-Reported, FrozenFor, load_frozen_gate-FrozenFor,
}
use adaptive_agent.Promotion.Swaps.{Swapped, cas-Swapped}

module _ (decision_id id : String) (p : CandidateProposal) (m : Memory) where
  after_swap-promoted :
      (out : Swap × Memory)
      → (after_swap p out).0 ≡ some Memory.promote
      → (out.0 ≡ swapped) × ((after_swap p out).1 ≡ out.1)
  unfolding after_swap
  after_swap-promoted (swapped, m') h = (refl, refl)
  after_swap-promoted (stale, m') h = cc
  after_swap-promoted (swap_error, m') h = cc

  decide-promoted :
      (d : Decision)
      → (decide decision_id id p d m).0 ≡ some Memory.promote
      → (d ≡ Memory.promote)
        × Swapped (prior_hash m) (bundle_hash p) m (decide decision_id id p d m).1
  unfolding decide
  decide-promoted reject h = cc
  decide-promoted quarantine h = cc
  decide-promoted Memory.promote h =
      (refl, go (get_bundle_by_hash m (bundle_hash p)) _ (λ e. cas-Swapped _ _ _ _ _ _ m e) h)
    where
      go :
          (o : Option BundleRow) (out : Swap × Memory)
          → (out.0 ≡ swapped → Swapped (prior_hash m) (bundle_hash p) m out.1)
          → let done : Option Decision × Memory = (elim o [
            | none ↦ (none, m)
            | some row ↦ after_swap p out
          ]) in
            done.0 ≡ some Memory.promote → Swapped (prior_hash m) (bundle_hash p) m done.1
      go none out k h = cc
      go (some row) out k h =
          let (e, same) = after_swap-promoted out h in
          subst (λ m'. Swapped (prior_hash m) (bundle_hash p) m m') (sym same) (k e)

-- What stands behind a promotion.
pub record Approved (a : Arithmetic) (id : String) (v : View) (rows : List FrozenProtocol)
    (m m' : Memory) : Type 0 where
  pub proposal : CandidateProposal
  pub settings : GateConfig
  pub read : read_candidate m id ≡ some proposal
  pub open_state : (proposal.state ≡ evaluating) ⊎ (proposal.state ≡ validated)
  pub reported : Reported proposal v
  pub frozen : FrozenFor rows v settings
  pub base_active : v.base_hash ≡ prior_hash m
  pub clean : v.suspicious ≡ false
  pub passed : (evaluate_performance_gate a settings (gate_report v)).passed ≡ true
  pub swap_made : Swapped (prior_hash m) (bundle_hash proposal) m m'

can_promote-cases : (s : CandidateState) → can_promote s ≡ true → (s ≡ evaluating) ⊎ (s ≡ validated)
can_promote-cases evaluating h = inl refl
can_promote-cases validated h = inr refl
can_promote-cases _ h = cc

module _ (a : Arithmetic) (decision_id id : String) (v : View) (rows : List FrozenProtocol) where
  check_gate-promote :
      (g : GateConfig)
      → check_gate a v g ≡ Memory.promote
      → (v.suspicious ≡ false) × ((evaluate_performance_gate a g (gate_report v)).passed ≡ true)
  unfolding check_gate
  check_gate-promote g h = go v.suspicious (evaluate_performance_gate a g (gate_report v)).passed h
    where
      go :
          (b c : Bool)
          → (if b then quarantine else if c then Memory.promote else reject) ≡ Memory.promote
          → (b ≡ false) × (c ≡ true)
      go true c h = cc
      go false true h = (refl, refl)
      go false false h = cc

  promote_viewed-Approved :
      (g : GateConfig) (p : CandidateProposal) (m : Memory)
      → (promote_viewed a decision_id id v g p m).0 ≡ some Memory.promote
      → read_candidate m id ≡ some p
      → can_promote p.state ≡ true
      → validate_report p v ≡ true
      → load_frozen_gate rows (loading v) ≡ some g
      → Approved a id v rows m (promote_viewed a decision_id id v g p m).1
  unfolding promote_viewed
  promote_viewed-Approved g p m h r c k f = go (v.base_hash == prior_hash m) refl h
    where
      go :
          (b : Bool)
          → (v.base_hash == prior_hash m) ≡ b
          → let out : Option Decision × Memory =
              (if not b
                then (none, sync_candidate (record p { state = Memory.superseded }) m)
                else decide decision_id id p (check_gate a v g) m) in
            out.0 ≡ some Memory.promote → Approved a id v rows m out.1
      go false e h = cc
      go true e h =
          let (d, s) = decide-promoted decision_id id p m (check_gate a v g) h in
          let (clean, passed) = check_gate-promote g d in
          record {
            proposal = p;
            settings = g;
            read = r;
            open_state = can_promote-cases p.state c;
            reported = validate_report-Reported p v k;
            frozen = load_frozen_gate-FrozenFor rows v g f;
            base_active = (eq_iff v.base_hash (prior_hash m)).0 e;
            clean = clean;
            passed = passed;
            swap_made = s;
          }

  -- A promotion stands on an open candidate as stored; on a report about that candidate's bundle and
  -- base, with safety results, runs and a provenance; on the settings frozen under the report's
  -- protocol, under which the gate passes; on a base that is the active bundle; and on code that is
  -- not suspicious. It leaves the candidate's bundle active.
  pub promote_candidate-Approved :
      (m : Memory)
      → (promote_candidate a decision_id id v rows m).0 ≡ some Memory.promote
      → Approved a id v rows m (promote_candidate a decision_id id v rows m).1
  unfolding promote_candidate
  promote_candidate-Approved m h =
      go (read_candidate m id) (load_frozen_gate rows (loading v)) refl refl h
    where
      go :
          (o : Option CandidateProposal) (gate : Option GateConfig)
          → read_candidate m id ≡ o
          → load_frozen_gate rows (loading v) ≡ gate
          → let out : Option Decision × Memory = (elim o [
            | none ↦ (none, m)
            | some p ↦
                if not (can_promote p.state)
                then (none, m)
                else if not (validate_report p v)
                then (none, m)
                else elim gate [
                  | none ↦ (none, m)
                  | some g ↦ promote_viewed a decision_id id v g p m
                ]
          ]) in
            out.0 ≡ some Memory.promote → Approved a id v rows m out.1
      go none gate e f h = cc
      go (some p) gate e f h =
          checked p gate e f (can_promote p.state) (validate_report p v) refl refl h
        where
          checked :
              (p : CandidateProposal) (gate : Option GateConfig)
              → read_candidate m id ≡ some p
              → load_frozen_gate rows (loading v) ≡ gate
              → (b c : Bool) → can_promote p.state ≡ b
              → validate_report p v ≡ c
              → let out : Option Decision × Memory =
                  (if not b then (none, m) else if not c then (none, m) else elim gate [
                    | none ↦ (none, m)
                    | some g ↦ promote_viewed a decision_id id v g p m
                  ]) in
                out.0 ≡ some Memory.promote → Approved a id v rows m out.1
          checked p gate e f false c j k h = cc
          checked p gate e f true false j k h = cc
          checked p none e f true true j k h = cc
          checked p (some g) e f true true j k h = promote_viewed-Approved g p m h e j k f
