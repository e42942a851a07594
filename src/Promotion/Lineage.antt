-- ===== src/Promotion/Lineage.antt =====
-- The approved lineage of src/adaptive_agent/candidate.py: what is active was seeded, promoted or
-- restored.
pub mod Steps
use adaptive_agent.Prelude.{
  Bool, true, false, not, ◌||◌, String, Option, none, some, List, [], ◌∷◌, ◌++◌, map, ◌≡◌, refl,
  sym, subst, arith, ◌==◌, if◌then◌else◌, all, any, select, eq_iff, inl, inr, Bool-cases,
}
use adaptive_agent.Gate.Values.{Arithmetic, GateConfig}
use adaptive_agent.Promotion.Memory
use adaptive_agent.Promotion.Memory.{
  SkillBundle, BundleRow, CandidateState, CandidateProposal, CandidateRow, Promotion, Decision,
  reject, quarantine, Memory, Activation, activate, save_bundle, get_bundle_by_hash,
  get_active_bundle, get_candidate, Swap, swapped, stale, swap_error, swap, cas_active_bundle,
  append_active_history, update_candidate, save_candidate, save_promotion, is_in_active_lineage,
  replaced,
}
use adaptive_agent.Promotion.Candidates.{
  Reads, read_candidate, sync_candidate, prior_hash, swap_done, rollback_row, rollback,
  submit_candidate, validate_candidate, hashed, is_validated, start_evaluation,
  quarantine_candidate,
}
use adaptive_agent.Promotion.Protocols.{FrozenProtocol, load_frozen_gate}
use adaptive_agent.Promotion.Promote.{
  loading, View, validate_report, check_gate, promote_viewed, promote_candidate, decide, after_swap,
  bundle_hash, decision_row, can_promote,
}
use adaptive_agent.Promotion.Swaps.{cas_cases}
use adaptive_agent.Promotion.History.{
  Action, submits, evaluates, quarantines, promotes, rolls_back, act, run_actions,
}
use Steps.{
  Lineage, sync-Lineage, save_promotion-Lineage, cas-Lineage, submit-Lineage, start-Lineage,
  quarantine-Lineage, rollback-Lineage,
}

module _ (decision_id id : String) (p : CandidateProposal) (m : Memory) (l : Lineage m) where
  after_swap-Lineage : (out : Swap × Memory) → Lineage out.1 → Lineage (after_swap p out).1
  unfolding after_swap
  after_swap-Lineage (swapped, m') k = k
  after_swap-Lineage (stale, m') k = sync-Lineage _ m' k
  after_swap-Lineage (swap_error, m') k = k

  decide-Lineage : (d : Decision) → Lineage (decide decision_id id p d m).1
  unfolding decide
  decide-Lineage reject =
      sync-Lineage (record p { state = Memory.rejected })
        (save_promotion (decision_row decision_id p m reject none) m)
        (save_promotion-Lineage (decision_row decision_id p m reject none) m l)
  decide-Lineage quarantine =
      sync-Lineage (record p { state = Memory.quarantined })
        (save_promotion (decision_row decision_id p m quarantine none) m)
        (save_promotion-Lineage (decision_row decision_id p m quarantine none) m l)
  decide-Lineage Memory.promote =
      let row = decision_row decision_id p m Memory.promote (some (bundle_hash p)) in
      let json : Option CandidateProposal = some (record p { state = Memory.promoted }) in
      go (get_bundle_by_hash m (bundle_hash p))
        (cas_active_bundle (prior_hash m) (bundle_hash p) id Memory.promoted json row m)
        (cas-Lineage (prior_hash m) (bundle_hash p) id Memory.promoted json row m l)
    where
      go :
          (o : Option BundleRow) (out : Swap × Memory)
          → Lineage out.1
          → let done : Option Decision × Memory = (elim o [
            | none ↦ (none, m)
            | some row ↦ after_swap p out
          ]) in
            Lineage done.1
      go none out k = l
      go (some row) out k = after_swap-Lineage out k

  promote_viewed-Lineage :
      (a : Arithmetic) (v : View) (g : GateConfig)
      → Lineage (promote_viewed a decision_id id v g p m).1
  unfolding promote_viewed
  promote_viewed-Lineage a v g = go (v.base_hash == prior_hash m)
    where
      go :
          (b : Bool)
          → let out : Option Decision × Memory =
              (if not b
                then (none, sync_candidate (record p { state = Memory.superseded }) m)
                else decide decision_id id p (check_gate a v g) m) in
            Lineage out.1
      go false = sync-Lineage _ m l
      go true = decide-Lineage (check_gate a v g)

promote-Lineage :
    (a : Arithmetic) (decision_id id : String) (v : View) (rows : List FrozenProtocol) (m : Memory)
    → Lineage m
    → Lineage (promote_candidate a decision_id id v rows m).1
unfolding promote_candidate
promote-Lineage a decision_id id v rows m l =
    go (read_candidate m id) (load_frozen_gate rows (loading v))
  where
    checked :
        (p : CandidateProposal) (gate : Option GateConfig) (b c : Bool)
        → let out : Option Decision × Memory =
            (if not b then (none, m) else if not c then (none, m) else elim gate [
              | none ↦ (none, m)
              | some g ↦ promote_viewed a decision_id id v g p m
            ]) in
          Lineage out.1
    checked p gate false c = l
    checked p gate true false = l
    checked p none true true = l
    checked p (some g) true true = promote_viewed-Lineage decision_id id p m l a v g

    go :
        (o : Option CandidateProposal) (gate : Option GateConfig)
        → let out : Option Decision × Memory = (elim o [
          | none ↦ (none, m)
          | some p ↦
              if not (can_promote p.state)
              then (none, m)
              else if not (validate_report p v)
              then (none, m)
              else elim gate [ none ↦ (none, m) | some g ↦ promote_viewed a decision_id id v g p m ]
        ]) in
          Lineage out.1
    go none gate = l
    go (some p) gate = checked p gate (can_promote p.state) (validate_report p v)

act-Lineage : (a : Arithmetic) (m : Memory) (x : Action) → Lineage m → Lineage (act a m x)
unfolding act
act-Lineage a m (submits h p b) l = submit-Lineage h p b m l
act-Lineage a m (evaluates id) l = start-Lineage id m l
act-Lineage a m (quarantines id) l = quarantine-Lineage id m l
act-Lineage a m (promotes decision_id id v rows) l = promote-Lineage a decision_id id v rows m l
act-Lineage a m (rolls_back decision_id target) l = rollback-Lineage decision_id target m l

-- Whatever submissions, evaluations, promotions, quarantines and rollbacks follow one another,
-- every active bundle is in the active history, if that was so before.
pub run_actions-Lineage :
    (a : Arithmetic) (xs : List Action) (m : Memory) → Lineage m → Lineage (run_actions a m xs)
unfolding run_actions
run_actions-Lineage a [] m l = l
run_actions-Lineage a (x ∷ xs) m l = run_actions-Lineage a xs (act a m x) (act-Lineage a m x l)
