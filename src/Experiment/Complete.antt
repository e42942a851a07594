-- ===== src/Experiment/Complete.antt =====
-- What a completed run of `run_experiment_lifecycle` of src/adaptive_agent/experiment_lifecycle.py
-- shows of its receipts.
use Prim.Native.Char.{Char}
use adaptive_agent.Prelude.{
  true, false, String, none, some, List, ◌++◌, ◌≡◌, subst, sym, ◌∙◌, member,
}
use adaptive_agent.Json.{Fields}
use adaptive_agent.Gate.Checks.{is_true}
use adaptive_agent.Experiment.Outcome.{ok, >>=-ok, ok_injective}
use adaptive_agent.Experiment.Policy.{LifecyclePolicy}
use adaptive_agent.Experiment.Receipts.{at, is_false, is_text}
use adaptive_agent.Experiment.Checks.{
  subset, check_bootstrap, check_development, check_candidate, check_transfer, check_adaptation,
  check_safety, check_validation, check_final,
}
use adaptive_agent.Experiment.Facts.{
  Executed, Hidden, Tasks, Runs, CasesPassed, member_of_subset, member_of_disjoint,
  check_bootstrap-Hidden, check_development-Hidden, check_candidate-Sourced, check_transfer-Runs,
  check_adaptation-Runs, check_safety-CasesPassed, check_validation-Executed, check_final-Executed,
}
use adaptive_agent.Experiment.Lifecycle.{Callbacks, State, Completed, run_experiment_lifecycle}

-- The checks of all phases, on the receipts of the result.
record Passed (lower : Char → String) (p : LifecyclePolicy) (r : Completed) : Type 0 where
  pins : Fields
  runs : List String × List String
  bootstrap : check_bootstrap lower p r.bootstrap ≡ ok pins
  development : check_development p r.development ≡ ok tt
  candidate : check_candidate pins r.development r.candidate ≡ ok tt
  transfer : check_transfer p r.development r.transfer ≡ ok runs
  adaptation : check_adaptation p runs.0 runs.1 r.adaptation ≡ ok tt
  safety : check_safety p r.safety ≡ ok tt
  validation : check_validation r.validation ≡ ok tt
  final : check_final r.final ≡ ok tt

run-Passed :
    {W : Type 0} (callbacks : Callbacks W) (lower : Char → String) (p : LifecyclePolicy)
    (s : State W) (r : Completed)
    → (run_experiment_lifecycle callbacks lower p s).0 ≡ ok r
    → Passed lower p r
unfolding run_experiment_lifecycle
run-Passed callbacks lower p s r h = >>=-ok _ _ h λ b _ _ h. >>=-ok _ _ h λ pins _ e1 h.
    >>=-ok _ _ h λ d _ _ h. >>=-ok _ _ h λ _ _ e2 h. >>=-ok _ _ h λ c _ _ h.
      >>=-ok _ _ h λ _ _ e3 h. >>=-ok _ _ h λ t _ _ h. >>=-ok _ _ h λ runs _ e4 h.
        >>=-ok _ _ h λ a _ _ h. >>=-ok _ _ h λ _ _ e5 h. >>=-ok _ _ h λ s _ _ h.
          >>=-ok _ _ h λ _ _ e6 h. >>=-ok _ _ h λ v _ _ h. >>=-ok _ _ h λ _ _ e7 h.
            >>=-ok _ _ h λ f _ _ h. >>=-ok _ _ h λ _ _ e8 h.
              subst (Passed lower p) (ok_injective h) (record {
                pins = pins;
                runs = runs;
                bootstrap = e1;
                development = e2;
                candidate = e3;
                transfer = e4;
                adaptation = e5;
                safety = e6;
                validation = e7;
                final = e8;
              })

-- What a completed experiment shows.
pub record Complete (p : LifecyclePolicy) (r : Completed) : Type 0 where
  pub clean : is_true (at "clean" r.bootstrap) ≡ true
  pub unseen_before : Hidden p.reserved_transfer_environment r.bootstrap
  pub development : Executed (some "development") false r.development
  pub tasks : Tasks "taskIds" p.development_task_ids r.development
  pub unseen : Hidden p.reserved_transfer_environment r.development
  pub sources : List String
  pub development_runs : List String
  pub transfer_runs : List String
  pub adaptation_runs : List String
  pub of_sources : Runs "sourceRunIds" r.candidate sources
  pub of_development : Runs "runIds" r.development development_runs
  pub of_transfer : Runs "runIds" r.transfer transfer_runs
  pub of_adaptation : Runs "runIds" r.adaptation adaptation_runs
  pub sourced : (x : String) → member x sources ≡ true → member x development_runs ≡ true
  pub transfer : Executed none false r.transfer
  pub reserved : is_text p.reserved_transfer_environment (at "environmentId" r.transfer) ≡ true
  pub unexposed : is_false (at "exposedToLearning" r.transfer) ≡ true
  pub apart_transfer :
      (x : String) → member x development_runs ≡ true → member x transfer_runs ≡ false
  pub adaptation : Executed none false r.adaptation
  pub support : Tasks "supportTaskIds" p.adaptation_support_task_ids r.adaptation
  pub apart_adaptation :
      (x : String)
      → member x (development_runs ++ transfer_runs) ≡ true
      → member x adaptation_runs ≡ false
  pub safety : CasesPassed p.safety_case_ids r.safety
  pub validation :
      Executed (some "validation") false r.validation
      × (is_true (at "exposureLeak" r.validation) ≡ false)
  pub final : Executed (some "final") true r.final × (is_true (at "exposureLeak" r.final) ≡ false)

subset_to :
    (xs : List String) {ys zs : List String} → ys ≡ zs → subset xs ys ≡ true → subset xs zs ≡ true
subset_to xs e h = subst (λ ys. subset xs ys ≡ true) e h

same-Runs :
    {key : String} {receipt : Fields} {xs ys : List String}
    → Runs key receipt xs
    → Runs key receipt ys
    → xs ≡ ys
same-Runs a b = ok_injective (sym a.listed ∙ b.listed)

Complete-Passed :
    {lower : Char → String} {p : LifecyclePolicy} {r : Completed} → Passed lower p r → Complete p r
Complete-Passed {lower} {p} {r} k =
    let (unseen_before, clean) = check_bootstrap-Hidden lower p r.bootstrap k.pins k.bootstrap in
    let (dev, tasks, unseen) = check_development-Hidden p r.development k.development in
    let (_, (sources, cited, s, c, within)) =
      check_candidate-Sourced k.pins r.development r.candidate k.candidate in
    let (moved, env, hidden, d, t, apart) =
      check_transfer-Runs p r.development r.transfer k.runs k.transfer in
    let (adapted, support, (own, a, fresh)) =
      check_adaptation-Runs p k.runs.0 k.runs.1 r.adaptation k.adaptation in
    record {
      clean = clean;
      unseen_before = unseen_before;
      development = dev;
      tasks = tasks;
      unseen = unseen;
      sources = sources;
      development_runs = k.runs.0;
      transfer_runs = k.runs.1;
      adaptation_runs = own;
      of_sources = s;
      of_development = d;
      of_transfer = t;
      of_adaptation = a;
      sourced =
          λ x m. member_of_subset x sources k.runs.0 (subset_to sources (same-Runs c d) within) m;
      transfer = moved;
      reserved = env;
      unexposed = hidden;
      apart_transfer = λ x m. member_of_disjoint x k.runs.0 k.runs.1 apart m;
      adaptation = adapted;
      support = support;
      apart_adaptation = λ x m. member_of_disjoint x (k.runs.0 ++ k.runs.1) own fresh m;
      safety = check_safety-CasesPassed p r.safety k.safety;
      validation = check_validation-Executed r.validation k.validation;
      final = check_final-Executed r.final k.final;
    }

-- A lifecycle that completes has executed, non-synthetic receipts for development, transfer,
-- adaptation, validation and a sealed final run; the development tasks of the policy, with the
-- reserved environment in no list of exposed environments before the candidate is made; a candidate
-- that cites development runs only; a transfer on the reserved environment and an adaptation whose
-- runs repeat no earlier run; and every registered safety case passed.
pub run_experiment_lifecycle-Complete :
    {W : Type 0} (callbacks : Callbacks W) (lower : Char → String) (p : LifecyclePolicy)
    (s : State W) (r : Completed)
    → (run_experiment_lifecycle callbacks lower p s).0 ≡ ok r
    → Complete p r
run_experiment_lifecycle-Complete callbacks lower p s r h =
    Complete-Passed (run-Passed callbacks lower p s r h)
