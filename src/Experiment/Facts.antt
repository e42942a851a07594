-- ===== src/Experiment/Facts.antt =====
-- What the checks of src/adaptive_agent/experiment_lifecycle.py show of each receipt.
use Prim.Native.Char.{Char}
use adaptive_agent.Prelude.{
  Bool, true, false, not, ◌&&◌, String, Option, none, some, List, [], ◌∷◌, ◌++◌, ◌≡◌, arith, member,
  eq_iff, subst,
}
use adaptive_agent.Json.{Fields}
use adaptive_agent.Json.Equality.{equal}
use adaptive_agent.Gate.Checks.{is_true}
use adaptive_agent.Experiment.Outcome.{ok, and_then-ok, require-ok, ok_injective}
use adaptive_agent.Experiment.Policy.{LifecyclePolicy}
use adaptive_agent.Experiment.Receipts.{
  at, is_false, strings_of, check_receipt, is_text, in_partition, sealed_as,
}
use adaptive_agent.Experiment.Checks.{
  subset, same_set, disjoint, list_at, check_bootstrap, check_development, check_candidate,
  check_transfer, check_adaptation, check_safety, check_validation, check_final,
}

pub member_of_subset :
    (x : String) (xs ys : List String)
    → subset xs ys ≡ true
    → member x xs ≡ true
    → member x ys ≡ true
member_of_subset x [] ys h m = cc
member_of_subset x (y ∷ xs) ys h m = ground (arith, member_of_subset x xs ys, eq_iff y x)

pub member_of_disjoint :
    (x : String) (xs ys : List String)
    → disjoint xs ys ≡ true
    → member x xs ≡ true
    → member x ys ≡ false
member_of_disjoint x [] ys h m = cc
member_of_disjoint x (y ∷ xs) ys h m = ground (arith, member_of_disjoint x xs ys, eq_iff y x)

-- Executed evidence: neither a plan nor synthetic, of the partition, and sealed if that is asked.
pub record Executed (partition : Option String) (sealed : Bool) (receipt : Fields) : Type 0 where
  pub executed : is_true (at "executed" receipt) ≡ true
  pub real :
      (is_true (at "workloadOnly" receipt) ≡ false) × (is_true (at "synthetic" receipt) ≡ false)
  pub in_partition : in_partition partition receipt ≡ true
  pub sealed_as : sealed_as sealed receipt ≡ true

pub check_receipt-Executed :
    (partition : Option String) (sealed : Bool) (receipt : Fields)
    → check_receipt partition sealed receipt ≡ ok tt
    → Executed partition sealed receipt
unfolding check_receipt
check_receipt-Executed partition sealed receipt h = and_then-ok _ _ h λ _ a h.
    and_then-ok _ _ h λ _ _ h. and_then-ok _ _ h λ c e h.
      let a' = require-ok _ a in
      let h' = require-ok _ h in
      record {
        executed = ground (arith, a');
        real = (ground (arith, a'), ground (arith, a'));
        in_partition = ground (arith, h');
        sealed_as = ground (arith, h');
      }

-- The environment is in no list of exposed environments.
pub record Hidden (env : String) (receipt : Fields) : Type 0 where
  pub exposed : List String
  pub listed : strings_of true (list_at "exposedEnvironments" receipt) ≡ ok exposed
  pub hidden : member env exposed ≡ false

not-true : (b : Bool) → not b ≡ true → b ≡ false
not-true b h = ground arith

pub check_bootstrap-Hidden :
    (lower : Char → String) (p : LifecyclePolicy) (b pins : Fields)
    → check_bootstrap lower p b ≡ ok pins
    → (Hidden p.reserved_transfer_environment b) × (is_true (at "clean" b) ≡ true)
unfolding check_bootstrap
check_bootstrap-Hidden lower p b pins h = and_then-ok _ _ h λ _ clean h. and_then-ok _ _ h λ _ _ h.
    and_then-ok _ _ h λ _ _ h. and_then-ok _ _ h λ tasks _ h. and_then-ok _ _ h λ _ _ h.
      and_then-ok _ _ h λ exposed e h. and_then-ok _ _ h λ _ n h. (
        record { exposed = exposed; listed = e; hidden = not-true _ (require-ok _ n) },
        require-ok _ clean,
      )

-- The tasks of the receipt are those of the policy, as a set.
pub record Tasks (key : String) (expected : List String) (receipt : Fields) : Type 0 where
  pub tasks : List String
  pub listed : strings_of false (at key receipt) ≡ ok tasks
  pub same : same_set tasks expected ≡ true

pub check_development-Hidden :
    (p : LifecyclePolicy) (d : Fields)
    → check_development p d ≡ ok tt
    → Executed (some "development") false d
      × Tasks "taskIds" p.development_task_ids d
      × Hidden p.reserved_transfer_environment d
unfolding check_development
check_development-Hidden p d h = and_then-ok _ _ h λ _ r h. and_then-ok _ _ h λ _ _ h.
    and_then-ok _ _ h λ tasks e h. and_then-ok _ _ h λ _ s h. and_then-ok _ _ h λ _ _ h.
      and_then-ok _ _ h λ exposed f n. (
        check_receipt-Executed (some "development") false d r,
        record { tasks = tasks; listed = e; same = require-ok _ s },
        record { exposed = exposed; listed = f; hidden = not-true _ (require-ok _ n) },
      )

-- The runs that the receipt names.
pub record Runs (key : String) (receipt : Fields) (runs : List String) : Type 0 where
  pub listed : strings_of false (at key receipt) ≡ ok runs

pub check_candidate-Sourced :
    (pins d c : Fields)
    → check_candidate pins d c ≡ ok tt
    → (equal (at "baseBundleHash" c) (at "activeBundleHash" pins) ≡ true)
      × ((sources : List String) × (runs : List String) × Runs "sourceRunIds" c sources
          × Runs "runIds" d runs
          × (subset sources runs ≡ true))
unfolding check_candidate
check_candidate-Sourced pins d c h = and_then-ok _ _ h λ _ _ h. and_then-ok _ _ h λ _ q h.
    and_then-ok _ _ h λ sources e h. and_then-ok _ _ h λ runs f h. (
      require-ok _ q,
      (sources, runs, record { listed = e }, record { listed = f }, require-ok _ h),
    )

pub check_transfer-Runs :
    (p : LifecyclePolicy) (d t : Fields) (runs : List String × List String)
    → check_transfer p d t ≡ ok runs
    → Executed none false t
      × (is_text p.reserved_transfer_environment (at "environmentId" t) ≡ true)
      × (is_false (at "exposedToLearning" t) ≡ true)
      × Runs "runIds" d runs.0
      × Runs "runIds" t runs.1
      × (disjoint runs.0 runs.1 ≡ true)
unfolding check_transfer
check_transfer-Runs p d t runs h = and_then-ok _ _ h λ _ r h. and_then-ok _ _ h λ _ q h.
    and_then-ok _ _ h λ a e h. and_then-ok _ _ h λ b f h. and_then-ok _ _ h λ _ n h.
      let q' = require-ok _ q in
      subst
        (λ (out : List String × List String).
          Executed none false t
          × (is_text p.reserved_transfer_environment (at "environmentId" t) ≡ true)
          × (is_false (at "exposedToLearning" t) ≡ true)
          × Runs "runIds" d out.0
          × Runs "runIds" t out.1
          × (disjoint out.0 out.1 ≡ true))
        (ok_injective h)
        (
          check_receipt-Executed none false t r,
          ground (arith, q'),
          ground (arith, q'),
          record { listed = e },
          record { listed = f },
          require-ok _ n,
        )

pub check_adaptation-Runs :
    (p : LifecyclePolicy) (runs transfer_runs : List String) (a : Fields)
    → check_adaptation p runs transfer_runs a ≡ ok tt
    → Executed none false a
      × Tasks "supportTaskIds" p.adaptation_support_task_ids a
      × ((own : List String) × Runs "runIds" a own × (disjoint (runs ++ transfer_runs) own ≡ true))
unfolding check_adaptation
check_adaptation-Runs p runs transfer_runs a h = and_then-ok _ _ h λ _ r h.
    and_then-ok _ _ h λ _ _ h. and_then-ok _ _ h λ tasks e h. and_then-ok _ _ h λ _ s h.
      and_then-ok _ _ h λ _ _ h. and_then-ok _ _ h λ own f h. (
        check_receipt-Executed none false a r,
        record { tasks = tasks; listed = e; same = require-ok _ s },
        (own, record { listed = f }, require-ok _ h),
      )

both : (a b : Bool) → a && b ≡ true → (a ≡ true) × (b ≡ true)
both a b h = (ground arith, ground arith)

-- Every case of the list is among the passed cases of the receipt.
pub record CasesPassed (cases : List String) (safety : Fields) : Type 0 where
  pub passed : List String
  pub listed : strings_of true (at "passedCaseIds" safety) ≡ ok passed
  pub all_passed : (case : String) → member case cases ≡ true → member case passed ≡ true

pub check_safety-CasesPassed :
    (p : LifecyclePolicy) (s : Fields) → check_safety p s ≡ ok tt → CasesPassed p.safety_case_ids s
unfolding check_safety
check_safety-CasesPassed p s h = and_then-ok _ _ h λ registered _ h. and_then-ok _ _ h λ passed e h.
    let (a, b) = both _ _ (require-ok _ h) in
    let (_, cases) = both _ _ a in
    let (_, all_of) = both _ _ b in
    record {
      passed = passed;
      listed = e;
      all_passed = λ c m.
          member_of_subset c registered passed all_of
            (member_of_subset c p.safety_case_ids registered cases m);
    }

pub check_validation-Executed :
    (v : Fields)
    → check_validation v ≡ ok tt
    → Executed (some "validation") false v × (is_true (at "exposureLeak" v) ≡ false)
unfolding check_validation
check_validation-Executed v h = and_then-ok _ _ h λ _ r h.
    let (_, b) = both _ _ (require-ok _ h) in
    (check_receipt-Executed (some "validation") false v r, not-true _ b)

pub check_final-Executed :
    (f : Fields)
    → check_final f ≡ ok tt
    → Executed (some "final") true f × (is_true (at "exposureLeak" f) ≡ false)
unfolding check_final
check_final-Executed f h = and_then-ok _ _ h λ _ r h.
    let h' = require-ok _ h in (check_receipt-Executed (some "final") true f r, ground (arith, h'))
