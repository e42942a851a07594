-- ===== src/Promotion/Pointer.antt =====
-- The active pointer under `rollback` and `submit_candidate` of src/adaptive_agent/candidate.py.
use adaptive_agent.Prelude.{
  Bool, true, false, not, ◌||◌, String, Option, none, some, List, [], ◌∷◌, ◌++◌, ◌≡◌, refl, arith,
  ◌==◌, if◌then◌else◌, all, find_first, select,
}
use adaptive_agent.Promotion.Memory
use adaptive_agent.Promotion.Memory.{
  SkillBundle, BundleRow, CandidateState, CandidateProposal, CandidateRow, get_candidate,
  save_candidate, Promotion, Decision, reject, quarantine, Memory, activate, save_bundle,
  get_bundle_by_hash, get_active_bundle, is_in_active_lineage, Swap, swapped, stale, swap_error,
  swap, cas_active_bundle, append_active_history, update_candidate, same_active,
}
use adaptive_agent.Promotion.Candidates.{
  Reads, sync_candidate, prior_hash, swap_done, rollback, submit_candidate, validate_candidate,
  hashed,
}
use adaptive_agent.Promotion.Swaps.{Swapped, cas-Swapped, swap_done_of}

-- A rollback that ends without an exception found its target in the approved lineage, and leaves
-- it active, with the pointer moved from another bundle.
pub rollback-Swapped :
    (decision_id target : String) (m : Memory)
    → (rollback decision_id target m).0 ≡ true
    → (is_in_active_lineage m target ≡ true)
      × ((prior_hash m == target) ≡ false)
      × Swapped (prior_hash m) target m (rollback decision_id target m).1
unfolding rollback
rollback-Swapped decision_id target m h =
    go (is_in_active_lineage m target) (get_bundle_by_hash m target) (prior_hash m == target) _ refl
      refl (λ e. cas-Swapped _ _ _ _ _ _ m e) h
  where
    go :
        (b : Bool) (o : Option BundleRow) (c : Bool) (out : Swap × Memory)
        → is_in_active_lineage m target ≡ b
        → (prior_hash m == target) ≡ c
        → (out.0 ≡ swapped → Swapped (prior_hash m) target m out.1)
        → let done : Bool × Memory =
            (if not b then (false, m) else elim o [
              | none ↦ (false, m)
              | some row ↦ if c then (false, m) else (swap_done out.0, out.1)
            ]) in
          done.0 ≡ true
          → (is_in_active_lineage m target ≡ true)
            × ((prior_hash m == target) ≡ false)
            × Swapped (prior_hash m) target m done.1
    go false o c out e f k h = cc
    go true none c out e f k h = cc
    go true (some row) true out e f k h = cc
    go true (some row) false out e f k h = (e, f, k (swap_done_of out.0 h))

none_active :
    (b : SkillBundle) (rows : List BundleRow)
    → all (λ (row : BundleRow). not row.is_active || row.bundle.bundle_id == b.bundle_id) rows
      ≡ true
    → find_first
        (λ r. r.is_active)
        (select (λ row. not (Memory.replaced b row)) rows
          ++ record { bundle = b; is_active = false } ∷ [])
      ≡ none
none_active b [] h = refl
none_active b (row ∷ rows) h = ground (arith, none_active b rows)

bundles-sync_candidate :
    (p : CandidateProposal) (m : Memory) → (sync_candidate p m).bundles ≡ m.bundles
unfolding sync_candidate update_candidate save_candidate
bundles-sync_candidate p m = go (get_candidate m p.candidate_id)
  where
    go :
        (o : Option CandidateRow)
        → let m' : Memory = (elim o [
          | some row ↦ update_candidate p.candidate_id p.state (some p) m
          | none ↦ save_candidate p m
        ]) in
          m'.bundles ≡ m.bundles
    go none = refl
    go (some row) = refl

-- A valid candidate whose bundle has the id of the active bundle takes its place inactive: after
-- its submission no bundle is active.
pub submit_deactivates :
    (h : Reads) (p : CandidateProposal) (b : SkillBundle) (m : Memory)
    → validate_candidate h p b m ≡ true
    → all (λ (row : BundleRow). not row.is_active || row.bundle.bundle_id == b.bundle_id) m.bundles
      ≡ true
    → get_active_bundle (submit_candidate h p b m).1 ≡ none
unfolding submit_candidate save_bundle get_active_bundle hashed
submit_deactivates h p b m ok same = go (validate_candidate h p b m) ok
  where
    go :
        (ok : Bool)
        → ok ≡ true
        → let out : Bool × Memory =
            (if ok
              then (
                true,
                save_bundle (hashed h b) false (
                    sync_candidate
                      (record p {
                        candidate_bundle_hash = some (h.digest b);
                        state = Memory.validated;
                      })
                      m),
              )
              else (false, m)) in
          find_first (λ r. r.is_active) out.1.bundles ≡ none
    go false e = cc
    go true e =
        rw
          (bundles-sync_candidate
            (record p { candidate_bundle_hash = some (h.digest b); state = Memory.validated }) m)
          (none_active (hashed h b) m.bundles same)
