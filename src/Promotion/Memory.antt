-- ===== src/Promotion/Memory.antt =====
-- The tables skill_bundles, active_history, candidates and promotions of
-- src/adaptive_agent/store.py. Times are the order of the rows, and the texts of reasons are left
-- out.
use adaptive_agent.Prelude.{
  Bool, false, not, ◌||◌, String, Option, none, some, List, [], ◌∷◌, ◌++◌, map, ◌==◌, if◌then◌else◌,
  any, find_first, select,
}

-- A bundle with the procedures of its skills; `payload` stands for its other fields.
pub record SkillBundle : Type 0 where
  pub bundle_id : String
  pub parent : Option String
  pub procedures : List String
  pub payload : String
  pub content_hash : String

-- A row of skill_bundles, whose bundle_json is the bundle.
pub record BundleRow : Type 0 where
  pub bundle : SkillBundle
  pub is_active : Bool

pub data CandidateState : Type 0 where
  draft validated evaluating promoted rejected quarantined superseded rolled_back : CandidateState

pub record CandidateProposal : Type 0 where
  pub candidate_id : String
  pub base_bundle_hash : String
  pub candidate_bundle_hash : Option String
  pub edit_operations : List String
  pub changed_artifact_hashes : List String
  pub supporting_evidence_ids : List String
  pub state : CandidateState

-- A row of candidates. `none` is a candidate_json that is no proposal, which a rollback writes.
pub record CandidateRow : Type 0 where
  pub id : String
  pub json : Option CandidateProposal
  pub state : CandidateState

pub data Decision : Type 0 where
  promote reject quarantine : Decision

pub record Promotion : Type 0 where
  pub decision_id : String
  pub candidate_hash : String
  pub base_hash : String
  pub prior_active_hash : String
  pub new_active_hash : Option String
  pub decision : Decision

pub record Activation : Type 0 where
  pub content_hash : String
  pub decision_id : String

pub record Memory : Type 0 where
  pub bundles : List BundleRow
  pub history : List Activation
  pub candidates : List CandidateRow
  pub promotions : List Promotion

-- A row that a new bundle replaces: the same primary key, or the same unique hash.
abbrev pub replaced : SkillBundle → BundleRow → Bool
replaced b row = row.bundle.bundle_id == b.bundle_id || row.bundle.content_hash == b.content_hash

-- INSERT OR REPLACE
unfoldable pub save_bundle : SkillBundle → Bool → Memory → Memory
save_bundle b active m = record m {
  bundles =
      select (λ row. not (replaced b row)) m.bundles
      ++ record { bundle = b; is_active = active } ∷ [];
}

unfoldable pub get_bundle_by_hash : Memory → String → Option BundleRow
get_bundle_by_hash m hash = find_first (λ row. row.bundle.content_hash == hash) m.bundles

unfoldable pub get_active_bundle : Memory → Option BundleRow
get_active_bundle m = find_first (λ row. row.is_active) m.bundles

unfoldable pub append_active_history : String → String → Memory → Memory
append_active_history hash decision_id m = record m {
  history = m.history ++ record { content_hash = hash; decision_id = decision_id } ∷ [];
}

unfoldable pub is_in_active_lineage : Memory → String → Bool
is_in_active_lineage m hash = any (λ (a : Activation). a.content_hash == hash) m.history

abbrev pub activate : String → BundleRow → BundleRow
activate hash row = record row { is_active = row.bundle.content_hash == hash }

abbrev pub with_candidate :
    String → CandidateState → Option CandidateProposal → CandidateRow → CandidateRow
with_candidate id state json row =
    if row.id == id then record row { json = json; state = state } else row

unfoldable pub get_candidate : Memory → String → Option CandidateRow
get_candidate m id = find_first (λ (row : CandidateRow). row.id == id) m.candidates

unfoldable pub update_candidate :
    String → CandidateState → Option CandidateProposal → Memory → Memory
update_candidate id state json m = record m {
  candidates = map (with_candidate id state json) m.candidates;
}

unfoldable pub save_candidate : CandidateProposal → Memory → Memory
save_candidate p m = record m {
  candidates =
      select (λ row. not (row.id == p.candidate_id)) m.candidates
      ++ record { id = p.candidate_id; json = some p; state = p.state } ∷ [];
}

-- INSERT OR REPLACE
unfoldable pub save_promotion : Promotion → Memory → Memory
save_promotion d m = record m {
  promotions = select (λ e. not (e.decision_id == d.decision_id)) m.promotions ++ d ∷ [];
}

pub data Swap : Type 0 where
  swapped stale swap_error : Swap

abbrev pub same_active : Option BundleRow → String → Bool
same_active none hash = false
same_active (some row) hash = row.bundle.content_hash == hash

-- The writes of the swap, all in one transaction.
unfoldable pub swap :
    String → String → CandidateState → Option CandidateProposal → Promotion → Memory → Memory
unfolding update_candidate append_active_history
swap new candidate_id state json d m = append_active_history new d.decision_id (
    update_candidate candidate_id state json
      (record m { bundles = map (activate new) m.bundles; promotions = m.promotions ++ d ∷ [] }))

-- A decision id that is taken is an IntegrityError, and everything is rolled back.
unfoldable pub cas_active_bundle :
    String
    → String
    → String
    → CandidateState
    → Option CandidateProposal
    → Promotion
    → Memory
    → Swap × Memory
unfolding swap get_active_bundle get_bundle_by_hash
cas_active_bundle expected new candidate_id state json d m =
    if not (same_active (get_active_bundle m) expected)
    then (stale, m)
    else elim (get_bundle_by_hash m new) [
      | none ↦ (stale, m)
      | some row ↦
          if any (λ e. e.decision_id == d.decision_id) m.promotions
          then (swap_error, m)
          else (swapped, swap new candidate_id state json d m)
    ]
