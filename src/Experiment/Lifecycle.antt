-- ===== src/Experiment/Lifecycle.antt =====
-- `_retry` and `run_experiment_lifecycle` of src/adaptive_agent/experiment_lifecycle.py. The
-- callbacks are a parameter, a function of the call, the attempt and a state of their own.
use Prim.Native.Char.{Char}
use adaptive_agent.Prelude.{ℕ, zero, suc, Bool, true, false, String, List, [], ◌∷◌, ◌++◌}
use adaptive_agent.Json.{Json, Fields}
use adaptive_agent.Json.Number.{ℤ, pos, negsuc}
use adaptive_agent.Experiment.Outcome.{
  ok, failed, lifecycle_error, other_error, unreachable, Action, lift, ◌>>=◌, ◌>>◌,
}
use adaptive_agent.Experiment.Policy.{LifecyclePolicy}
use adaptive_agent.Experiment.Receipts.{as_mapping}
use adaptive_agent.Experiment.Checks.{
  check_bootstrap, check_development, check_candidate, check_transfer, check_adaptation,
  check_safety, check_validation, check_final,
}

pub data Phase : Type 0 where
  bootstrap development candidate transfer adaptation safety validation final : Phase

-- The methods of LifecycleCallbacks with their arguments, but for the attempt.
pub data Call : Type 0 where
  bootstrap_development : LifecyclePolicy → Call
  run_development : Fields → LifecyclePolicy → Call
  generate_candidate : Fields → Fields → Call
  run_transfer : Fields → String → Bool → Bool → Call
  run_adaptation : Fields → String → List String → Bool → Call
  run_registered_safety : Fields → List String → Call
  run_validation : Fields → Call
  run_final : Fields → Call

abbrev pub phase_of : Call → Phase
phase_of (bootstrap_development p) = bootstrap
phase_of (run_development b p) = development
phase_of (generate_candidate d b) = candidate
phase_of (run_transfer c env reset exposed) = transfer
phase_of (run_adaptation c env tasks reset) = adaptation
phase_of (run_registered_safety c cases) = safety
phase_of (run_validation c) = validation
phase_of (run_final c) = final

-- A callback returns, raises InfrastructureFailure with its flag `retryable`, or raises another
-- exception.
pub data Answer : Type 0 where
  returned : Json → Answer
  infrastructure : Bool → Answer
  raised : Answer

abbrev pub Callbacks : Type 0 → Type 0
Callbacks W = Call → ℕ → W → Answer × W

-- An entry of the retry log.
pub record Retry : Type 0 where
  pub phase : Phase
  pub attempt : ℕ
  pub retryable : Bool

-- The state of the callbacks and the retry log.
pub record State (W : Type 0) : Type 0 where
  pub world : W
  pub log : List Retry

pub record Completed : Type 0 where
  pub bootstrap : Fields
  pub development : Fields
  pub candidate : Fields
  pub transfer : Fields
  pub adaptation : Fields
  pub safety : Fields
  pub validation : Fields
  pub final : Fields

module _ {W : Type 0} (callbacks : Callbacks W) where
  abbrev pub logged : Call → ℕ → Bool → W → State W → State W
  logged call attempt retryable w s = record {
    world = w;
    log = s.log ++ record { phase = phase_of call; attempt = attempt; retryable = retryable } ∷ [];
  }

  -- The attempts from `attempt` on, of which `left` follow this one.
  unfoldable pub attempts : Call → ℕ → ℕ → Action (State W) Fields
  unfolding as_mapping
  attempts call attempt zero s =
      let (answer, w) = callbacks call attempt s.world in
      elim answer [
        | returned v ↦ (as_mapping v, record s { world = w })
        | raised ↦ (failed other_error, record s { world = w })
        | infrastructure retryable ↦ (failed lifecycle_error, logged call attempt retryable w s)
      ]
  attempts call attempt (suc left) s =
      let (answer, w) = callbacks call attempt s.world in
      elim answer [
        | returned v ↦ (as_mapping v, record s { world = w })
        | raised ↦ (failed other_error, record s { world = w })
        | infrastructure retryable ↦ elim retryable [
          | true ↦ attempts call (suc attempt) left (logged call attempt true w s)
          | false ↦ (failed lifecycle_error, logged call attempt false w s)
        ]
      ]

  -- A negative count leaves the loop without a round.
  unfoldable pub retry : ℤ → Call → Action (State W) Fields
  unfolding attempts
  retry (pos n) call = attempts call 0 n
  retry (negsuc n) call = lift (failed unreachable)

  module _ (lower : Char → String) (p : LifecyclePolicy) where
    unfoldable pub run_experiment_lifecycle : Action (State W) Completed
    unfolding retry check_bootstrap check_development check_candidate check_transfer
        check_adaptation check_safety check_validation check_final
    run_experiment_lifecycle = do
      b ← retry p.infrastructure_retries (bootstrap_development p)
      pins ← lift (check_bootstrap lower p b)
      d ← retry p.infrastructure_retries (run_development b p)
      lift (check_development p d)
      c ← retry p.infrastructure_retries (generate_candidate d b)
      lift (check_candidate pins d c)
      t ← retry p.infrastructure_retries (run_transfer c p.reserved_transfer_environment true false)
      runs ← lift (check_transfer p d t)
      a ←
          retry p.infrastructure_retries
            (run_adaptation c p.reserved_transfer_environment p.adaptation_support_task_ids true)
      lift (check_adaptation p runs.0 runs.1 a)
      s ← retry p.infrastructure_retries (run_registered_safety c p.safety_case_ids)
      lift (check_safety p s)
      v ← retry p.infrastructure_retries (run_validation c)
      lift (check_validation v)
      f ← retry p.infrastructure_retries (run_final c)
      lift (check_final f)
      lift (
          ok (record {
            bootstrap = b;
            development = d;
            candidate = c;
            transfer = t;
            adaptation = a;
            safety = s;
            validation = v;
            final = f;
          }))
