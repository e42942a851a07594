-- ===== src/Gate/Passing/Regression.antt =====
-- The environments of a gate of src/adaptive_agent/performance_gate.py that passes.
use adaptive_agent.Prelude.{
  Bool, true, false, not, ◌&&◌, ◌||◌, String, Option, none, some, List, [], ◌∷◌, ◌++◌, ◌≡◌, refl,
  inl, inr, if◌then◌else◌, Bool-cases, member, ◌==◌, eq_iff, arith, subst,
}
use adaptive_agent.Json.{Json, null, boolean, int, float, str, arr, obj, Fields, get}
use adaptive_agent.Json.Number.{Float, lt}
use adaptive_agent.Gate.Reasons
use adaptive_agent.Gate.Reasons.{Reason, when, Metric, accuracy, reliability}
use adaptive_agent.Gate.Values.{Arithmetic, GateConfig, item, metric, counted, in_unit}
use adaptive_agent.Gate.Checks.{is_true, key, strings}
use adaptive_agent.Gate.Environments.{
  regression, compared, one_environment, each_environment, required_reasons, environment_reasons,
  cell_reasons,
}
use adaptive_agent.Gate.Decision.{Report, evaluate_performance_gate}
use adaptive_agent.Gate.Parts.{append-nil, passed-Clean}
use adaptive_agent.Gate.Passing.Safety.{strings-member}

-- The candidate is not below the baseline in a metric of an environment's cell.
pub record Holds (a : Arithmetic) (cell : Json) (m : Metric) : Type 0 where
  pub before : Float
  pub after : Float
  pub before_is : metric a (item "B0" cell) (key m) ≡ some before
  pub after_is : metric a (item "L" cell) (key m) ≡ some after
  pub before_range : in_unit before ≡ true
  pub after_range : in_unit after ≡ true
  pub not_below : lt after before ≡ false

module _ (a : Arithmetic) where
  in_range :
      (x y : Float) (r s : Reason)
      → (if not (in_unit x) || not (in_unit y) then r ∷ [] else when (lt y x) s) ≡ []
      → (in_unit x ≡ true) × (in_unit y ≡ true) × (lt y x ≡ false)
  in_range x y r s h = ground (arith, h)

  metric-Holds :
      (cell : Json) (name : String) (m : Metric)
      → regression a (item "B0" cell) (item "L" cell) name m ≡ []
      → Holds a cell m
  unfolding regression
  metric-Holds cell name m h =
      go (metric a (item "B0" cell) (key m)) (metric a (item "L" cell) (key m)) refl refl h
    where
      go :
          (o p : Option Float)
          → metric a (item "B0" cell) (key m) ≡ o
          → metric a (item "L" cell) (key m) ≡ p
          → (elim o [
            | none ↦ Reasons.environment_invalid m name ∷ []
            | some x ↦ elim p [
              | none ↦ Reasons.environment_invalid m name ∷ []
              | some y ↦
                  if not (in_unit x) || not (in_unit y)
                  then Reasons.environment_outside m name ∷ []
                  else when (lt y x) (Reasons.environment_regression m name)
            ]
          ])
            ≡ []
          → Holds a cell m
      go none p e e' h = cc
      go (some x) none e e' h = cc
      go (some x) (some y) e e' h =
          let (l, u, n) = in_range x y _ _ h in
          record {
            before = x;
            after = y;
            before_is = e;
            after_is = e';
            before_range = l;
            after_range = u;
            not_below = n;
          }

  cell-Holds :
      (cell : Json) (name : String)
      → compared a (item "B0" cell) (item "L" cell) name ≡ []
      → Holds a cell accuracy × Holds a cell reliability
  unfolding compared
  cell-Holds cell name h = go (counted (item "B0" cell) && counted (item "L" cell)) h
    where
      go :
          (b : Bool)
          → (if b
              then regression a (item "B0" cell) (item "L" cell) name accuracy
                ++ regression a (item "B0" cell) (item "L" cell) name reliability
              else Reasons.environment_incomplete name ∷ [])
            ≡ []
          → Holds a cell accuracy × Holds a cell reliability
      go false h = cc
      go true h =
          let parts = append-nil _ _ h in
          (metric-Holds cell name accuracy parts.0, metric-Holds cell name reliability parts.1)

  abbrev Sound : Option Json → Type 0
  Sound o = (cell : Json) × (o ≡ some cell) × Holds a cell accuracy × Holds a cell reliability

  one_holds : (o : Option Json) (name : String) → one_environment a o name ≡ [] → Sound o
  unfolding one_environment
  one_holds none name h = cc
  one_holds (some (obj fs)) name h =
      (let (x, y) = cell-Holds (obj fs) name h in (obj fs, refl, x, y))
  one_holds (some null) name h = cc
  one_holds (some (boolean b)) name h = cc
  one_holds (some (int b)) name h = cc
  one_holds (some (float b)) name h = cc
  one_holds (some (str b)) name h = cc
  one_holds (some (arr b)) name h = cc

  each_holds :
      (cells : Fields) (names : List String) (name : String)
      → each_environment a cells names ≡ []
      → member name names ≡ true
      → Sound (get name cells)
  unfolding each_environment
  each_holds cells [] name h m = cc
  each_holds cells (x ∷ xs) name h m =
      let parts = append-nil _ _ h in
      elim (Bool-cases (x == name)) [
        | inl e ↦ subst (λ n. Sound (get n cells)) ((eq_iff x name).0 e) (one_holds _ x parts.0)
        | inr e ↦ each_holds cells xs name parts.1 (ground (arith, m, e))
      ]

  required_holds :
      (o : Option Fields) (required : List String) (name : String)
      → required_reasons a o required ≡ []
      → member name required ≡ true
      → (cells : Fields) × (o ≡ some cells) × Sound (get name cells)
  unfolding required_reasons
  required_holds none required name h m = cc
  required_holds (some cells) required name h m = (
    cells,
    refl,
    each_holds cells (strings required) name (append-nil _ _ h).1 (strings-member name required m),
  )

  -- When the gate passes and is set to require it, every required environment has a cell in which
  -- accuracy and reliability of both arms are numbers from 0 to 1, the candidate's not below the
  -- baseline's.
  pub passing_regresses_nowhere :
      (c : GateConfig) (r : Report) (name : String)
      → is_true c.require_per_environment_non_regression ≡ true
      → member name r.required_environments ≡ true
      → (evaluate_performance_gate a c r).passed ≡ true
      → (cells : Fields) × (r.environment_cells ≡ some cells) × Sound (get name cells)
  unfolding environment_reasons
  passing_regresses_nowhere c r name on m passes =
      let h =
        (append-nil (cell_reasons r.environment_cells r.required_environments) _
          (passed-Clean a c r passes).environments).1 in
      required_holds r.environment_cells r.required_environments name
        (subst
          (λ b.
            (if b then required_reasons a r.environment_cells r.required_environments else []) ≡ [])
          on h)
        m
