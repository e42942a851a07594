-- ===== src/Promotion/Swaps.antt =====
-- What `Store.cas_active_bundle` of src/adaptive_agent/store.py does to the active pointer.
use adaptive_agent.Prelude.{
  Bool, true, false, not, String, Option, none, some, List, [], ◌∷◌, map, ◌≡◌, ◌⊎◌, refl, arith,
  ◌==◌, if◌then◌else◌, any, find_first, eq_iff, inl, inr, Bool-cases,
}
use adaptive_agent.Promotion.Memory.{
  BundleRow, CandidateState, CandidateProposal, Promotion, Memory, activate, get_bundle_by_hash,
  get_active_bundle, Swap, swapped, stale, swap_error, swap, cas_active_bundle,
  append_active_history, update_candidate, same_active,
}
use adaptive_agent.Promotion.Candidates.{swap_done}

-- The row that is active after the swap has the hash of the target.
active_after :
    (new : String) (rows : List BundleRow) (row : BundleRow)
    → find_first (λ r. r.bundle.content_hash == new) rows ≡ some row
    → (found : BundleRow) × (find_first (λ r. r.is_active) (map (activate new) rows) ≡ some found)
      × (found.bundle.content_hash ≡ new)
active_after new [] row h = cc
active_after new (r ∷ rs) row h = elim (Bool-cases (r.bundle.content_hash == new)) [
  | inl e ↦ (activate new r, ground (arith, e), (eq_iff r.bundle.content_hash new).0 e)
  | inr e ↦
      let (found, f, g) = active_after new rs row (ground (arith, h, e)) in
      (found, ground (arith, f, e), g)
]

-- A swap that is made: the pointer was as expected, and is at the target afterwards.
pub record Swapped (expected new : String) (m m' : Memory) : Type 0 where
  pub was : same_active (get_active_bundle m) expected ≡ true
  pub row : BundleRow
  pub found : get_active_bundle m' ≡ some row
  pub now : row.bundle.content_hash ≡ new

-- A swap is refused and changes nothing, or its conditions hold and everything is written.
pub record Made (expected new candidate_id : String) (state : CandidateState)
    (json : Option CandidateProposal) (d : Promotion) (m : Memory) (out : Swap × Memory)
    : Type 0 where
  pub was : same_active (get_active_bundle m) expected ≡ true
  pub row : BundleRow
  pub known : get_bundle_by_hash m new ≡ some row
  pub out_is : out ≡ (swapped, swap new candidate_id state json d m)

abbrev pub Refused : Memory → Swap × Memory → Type 0
Refused m out = (out.1 ≡ m) × ((out.0 ≡ stale) ⊎ (out.0 ≡ swap_error))

module _ (expected new candidate_id : String) (state : CandidateState)
    (json : Option CandidateProposal) (d : Promotion) (m : Memory) where
  pub cas_cases :
      Refused m (cas_active_bundle expected new candidate_id state json d m)
      ⊎ Made expected new candidate_id state json d m
          (cas_active_bundle expected new candidate_id state json d m)
  unfolding cas_active_bundle
  cas_cases =
      go (same_active (get_active_bundle m) expected) (get_bundle_by_hash m new)
        (any (λ e. e.decision_id == d.decision_id) m.promotions) refl refl
    where
      go :
          (b : Bool) (o : Option BundleRow) (taken : Bool)
          → same_active (get_active_bundle m) expected ≡ b
          → get_bundle_by_hash m new ≡ o
          → let out : Swap × Memory =
              (if not b then (stale, m) else elim o [
                | none ↦ (stale, m)
                | some row ↦
                    if taken
                    then (swap_error, m)
                    else (swapped, swap new candidate_id state json d m)
              ]) in
            Refused m out ⊎ Made expected new candidate_id state json d m out
      go false o taken e f = inl (refl, inl refl)
      go true none taken e f = inl (refl, inl refl)
      go true (some row) true e f = inl (refl, inr refl)
      go true (some row) false e f = inr (record { was = e; row = row; known = f; out_is = refl })

  pub cas-Swapped :
      (cas_active_bundle expected new candidate_id state json d m).0 ≡ swapped
      → Swapped expected new m (cas_active_bundle expected new candidate_id state json d m).1
  unfolding swap append_active_history update_candidate get_active_bundle get_bundle_by_hash
  cas-Swapped h = elim cas_cases [
    | inl (same, inl e) ↦ cc
    | inl (same, inr e) ↦ cc
    | inr k ↦
        let (found, f, g) = active_after new m.bundles k.row k.known in
        rw (k.out_is) (record { was = k.was; row = found; found = f; now = g })
  ]

pub swap_done_of : (s : Swap) → swap_done s ≡ true → s ≡ swapped
unfolding swap_done
swap_done_of swapped h = refl
swap_done_of stale h = cc
swap_done_of swap_error h = cc
