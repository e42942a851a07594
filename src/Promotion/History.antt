-- ===== src/Promotion/History.antt =====
-- Sequences of operations of src/adaptive_agent/candidate.py on one store.
use adaptive_agent.Prelude.{String, List, [], ◌∷◌}
use adaptive_agent.Gate.Values.{Arithmetic}
use adaptive_agent.Promotion.Memory.{SkillBundle, CandidateProposal, Memory}
use adaptive_agent.Promotion.Candidates.{
  Reads, submit_candidate, start_evaluation, quarantine_candidate, rollback,
}
use adaptive_agent.Promotion.Protocols.{FrozenProtocol}
use adaptive_agent.Promotion.Promote.{View, promote_candidate}

pub data Action : Type 0 where
  submits : Reads → CandidateProposal → SkillBundle → Action
  evaluates quarantines : String → Action
  promotes : String → String → View → List FrozenProtocol → Action
  rolls_back : String → String → Action

module _ (a : Arithmetic) where
  unfoldable pub act : Memory → Action → Memory
  act m (submits h p b) = (submit_candidate h p b m).1
  act m (evaluates id) = (start_evaluation id m).1
  act m (quarantines id) = (quarantine_candidate id m).1
  act m (promotes decision_id id v rows) = (promote_candidate a decision_id id v rows m).1
  act m (rolls_back decision_id target) = (rollback decision_id target m).1

  unfoldable pub run_actions : Memory → List Action → Memory
  run_actions m [] = m
  run_actions m (x ∷ xs) = run_actions (act m x) xs
