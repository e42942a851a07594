-- ===== src/Promotion/Lineage/Steps.antt =====
-- The operations of src/adaptive_agent/candidate.py keep the approved lineage.
use adaptive_agent.Prelude.{
  Bool, true, false, not, ◌||◌, String, Option, none, some, List, [], ◌∷◌, ◌++◌, map, ◌≡◌, refl,
  sym, subst, arith, ◌==◌, if◌then◌else◌, all, any, select, eq_iff, inl, inr, Bool-cases,
}
use adaptive_agent.Promotion.Memory
use adaptive_agent.Promotion.Memory.{
  SkillBundle, BundleRow, CandidateState, CandidateProposal, CandidateRow, Promotion, Decision,
  reject, quarantine, Memory, Activation, activate, save_bundle, get_bundle_by_hash,
  get_active_bundle, get_candidate, Swap, swapped, stale, swap_error, swap, cas_active_bundle,
  append_active_history, update_candidate, save_candidate, save_promotion, is_in_active_lineage,
  replaced,
}
use adaptive_agent.Promotion.Candidates.{
  Reads, read_candidate, sync_candidate, prior_hash, swap_done, rollback_row, rollback,
  submit_candidate, validate_candidate, hashed, is_validated, start_evaluation,
  quarantine_candidate,
}
use adaptive_agent.Promotion.Swaps.{cas_cases}

abbrev approved : List Activation → BundleRow → Bool
approved history row =
    not row.is_active || any (λ (a : Activation). a.content_hash == row.bundle.content_hash) history

-- Every active bundle is in the active history.
abbrev pub Lineage : Memory → Type 0
Lineage m = all (approved m.history) m.bundles ≡ true

all-select {ℓ} :
    {A : Type ℓ} (q p : A → Bool) (xs : List A) → all q xs ≡ true → all q (select p xs) ≡ true
all-select q p [] h = refl
all-select q p (x ∷ xs) h = ground (arith, all-select q p xs)

all-append_last {ℓ} :
    {A : Type ℓ} (q : A → Bool) (xs : List A) (y : A)
    → all q xs ≡ true
    → q y ≡ true
    → all q (xs ++ y ∷ []) ≡ true
all-append_last q [] y h e = ground arith
all-append_last q (x ∷ xs) y h e = ground (arith, all-append_last q xs y)

any-append_last {ℓ} :
    {A : Type ℓ} (q : A → Bool) (xs : List A) (y : A) → q y ≡ true → any q (xs ++ y ∷ []) ≡ true
any-append_last q [] y e = ground arith
any-append_last q (x ∷ xs) y e = ground (arith, any-append_last q xs y e)

approved-activate :
    (new decision_id : String) (history : List Activation) (rows : List BundleRow)
    → all
        (approved (history ++ record { content_hash = new; decision_id = decision_id } ∷ []))
        (map (activate new) rows)
      ≡ true
approved-activate new decision_id history [] = refl
approved-activate new decision_id history (row ∷ rows) =
    elim (Bool-cases (row.bundle.content_hash == new)) [
      | inl e ↦ ground (
        arith,
        e,
        approved-activate new decision_id history rows,
        any-append_last (λ (a : Activation). a.content_hash == row.bundle.content_hash) history
            (record { content_hash = new; decision_id = decision_id })
            ((eq_iff new row.bundle.content_hash).1
              (sym ((eq_iff row.bundle.content_hash new).0 e))),
      )
      | inr e ↦ ground (arith, e, approved-activate new decision_id history rows)
    ]

pub sync-Lineage : (p : CandidateProposal) (m : Memory) → Lineage m → Lineage (sync_candidate p m)
unfolding sync_candidate update_candidate save_candidate
sync-Lineage p m h = go (get_candidate m p.candidate_id)
  where
    go :
        (o : Option CandidateRow)
        → Lineage (elim o [
          | some row ↦ update_candidate p.candidate_id p.state (some p) m
          | none ↦ save_candidate p m
        ])
    go none = h
    go (some row) = h

pub save_promotion-Lineage : (d : Promotion) (m : Memory) → Lineage m → Lineage (save_promotion d m)
unfolding save_promotion
save_promotion-Lineage d m h = h

swap-Lineage :
    (new id : String) (state : CandidateState) (json : Option CandidateProposal) (d : Promotion)
    (m : Memory)
    → Lineage (swap new id state json d m)
unfolding swap append_active_history update_candidate
swap-Lineage new id state json d m = approved-activate new d.decision_id m.history m.bundles

pub cas-Lineage :
    (expected new id : String) (state : CandidateState) (json : Option CandidateProposal)
    (d : Promotion) (m : Memory)
    → Lineage m
    → Lineage (cas_active_bundle expected new id state json d m).1
cas-Lineage expected new id state json d m h = elim (cas_cases expected new id state json d m) [
  | inl (same, e) ↦ subst Lineage (sym same) h
  | inr k ↦ subst (λ out. Lineage out.1) (sym k.out_is) (swap-Lineage new id state json d m)
]

pub submit-Lineage :
    (h : Reads) (p : CandidateProposal) (b : SkillBundle) (m : Memory)
    → Lineage m
    → Lineage (submit_candidate h p b m).1
unfolding submit_candidate
submit-Lineage h p b m l = go (validate_candidate h p b m)
  where
    saved : (m : Memory) (b : SkillBundle) → Lineage m → Lineage (save_bundle b false m)
    saved m b l =
        unfold save_bundle in
        all-append_last (approved m.history) (select (λ row. not (replaced b row)) m.bundles)
          (record { bundle = b; is_active = false })
          (all-select (approved m.history) (λ row. not (replaced b row)) m.bundles l) refl

    go :
        (ok : Bool)
        → let out : Bool × Memory =
            (if ok
              then (
                true,
                save_bundle (hashed h b) false (
                    sync_candidate
                      (record p {
                        candidate_bundle_hash = some (h.digest b);
                        state = Memory.validated;
                      })
                      m),
              )
              else (false, m)) in
          Lineage out.1
    go true = saved _ (hashed h b) (sync-Lineage _ m l)
    go false = l

pub start-Lineage : (id : String) (m : Memory) → Lineage m → Lineage (start_evaluation id m).1
unfolding start_evaluation
start-Lineage id m l = go (read_candidate m id)
  where
    checked :
        (p : CandidateProposal) (b : Bool)
        → let out : Bool × Memory =
            (if b
              then (true, sync_candidate (record p { state = Memory.evaluating }) m)
              else (false, m)) in
          Lineage out.1
    checked p true = sync-Lineage _ m l
    checked p false = l

    go :
        (o : Option CandidateProposal)
        → let out : Bool × Memory = (elim o [
          | none ↦ (false, m)
          | some p ↦
              if is_validated p.state
              then (true, sync_candidate (record p { state = Memory.evaluating }) m)
              else (false, m)
        ]) in
          Lineage out.1
    go none = l
    go (some p) = checked p (is_validated p.state)

pub quarantine-Lineage :
    (id : String) (m : Memory) → Lineage m → Lineage (quarantine_candidate id m).1
unfolding quarantine_candidate
quarantine-Lineage id m l = go (read_candidate m id)
  where
    go :
        (o : Option CandidateProposal)
        → let out : Bool × Memory = (elim o [
          | none ↦ (false, m)
          | some p ↦ (true, sync_candidate (record p { state = Memory.quarantined }) m)
        ]) in
          Lineage out.1
    go none = l
    go (some p) = sync-Lineage _ m l

pub rollback-Lineage :
    (decision_id target : String) (m : Memory)
    → Lineage m
    → Lineage (rollback decision_id target m).1
unfolding rollback
rollback-Lineage decision_id target m l =
    go (is_in_active_lineage m target) (get_bundle_by_hash m target) (prior_hash m == target) _
      (cas-Lineage (prior_hash m) target _ _ _ (rollback_row decision_id target m) m l)
  where
    go :
        (b : Bool) (o : Option BundleRow) (c : Bool) (out : Swap × Memory)
        → Lineage out.1
        → let done : Bool × Memory =
            (if not b then (false, m) else elim o [
              | none ↦ (false, m)
              | some row ↦ if c then (false, m) else (swap_done out.0, out.1)
            ]) in
          Lineage done.1
    go false o c out k = l
    go true none c out k = l
    go true (some row) true out k = l
    go true (some row) false out k = k
