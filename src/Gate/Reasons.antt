-- ===== src/Gate/Reasons.antt =====
-- The reasons of src/adaptive_agent/performance_gate.py, a constructor for each text; the figures
-- that a text prints are left out. `fromkeys` is `tuple(dict.fromkeys(_))`.
use adaptive_agent.Prelude.{
  Bool, true, false, not, String, String-discrete, List, [], ◌∷◌, ◌≡◌, refl, if◌then◌else◌, select,
}

pub data Arm : Type 0 where
  baseline candidate : Arm

pub data Setting : Type 0 where
  accuracy_gain ci_bound cost_ratio latency_ratio cost_budget latency_budget : Setting

pub data Metric : Type 0 where
  accuracy reliability cost latency : Metric

pub data Reason : Type 0 where
  integrity : String → Reason
  setting_invalid : Setting → Reason
  non_regression_invalid wrong_comparison : Reason
  summary_missing : Arm → Reason
  metric_invalid metric_negative metric_outside : Arm → Metric → Reason
  ci_invalid safety_failed violations_invalid violations_nonzero : Reason
  cases_missing case_list_missing case_coverage case_failed : Reason
  gain_below ci_not_above : Reason
  cells_unexpected cells_missing environments_missing : Reason
  environment_missing environment_incomplete : String → Reason
  environment_invalid environment_outside environment_regression : Metric → String → Reason
  cost_exceeds cost_exceeds_zero cost_ratio_exceeds : Reason
  latency_exceeds latency_exceeds_zero latency_ratio_exceeds : Reason

pub Reason-discrete : Discrete Reason
Reason-discrete = hlevel String-discrete

same_reason : Reason → Reason → Bool
same_reason a b = elim (Reason-discrete a b) [ yes p ↦ true | no p ↦ false ]

-- The first occurrences, in order.
module _ {ℓ} {A : Type ℓ} (same : A → A → Bool) where
  unfoldable pub dedup : List A → List A
  dedup [] = []
  dedup (x ∷ xs) = x ∷ select (λ y. not (same x y)) (dedup xs)

  pub dedup-nil : (xs : List A) → dedup xs ≡ [] → xs ≡ []
  unfolding dedup
  dedup-nil [] h = refl
  dedup-nil (x ∷ xs) h = cc

unfoldable pub fromkeys : List Reason → List Reason
unfolding dedup same_reason
fromkeys = dedup same_reason

pub fromkeys-nil : (xs : List Reason) → fromkeys xs ≡ [] → xs ≡ []
unfolding fromkeys
fromkeys-nil xs h = dedup-nil same_reason xs h

abbrev pub when : Bool → Reason → List Reason
when b r = if b then r ∷ [] else []
