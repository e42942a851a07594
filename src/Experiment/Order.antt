-- ===== src/Experiment/Order.antt =====
-- The order and the number of the calls of `run_experiment_lifecycle` of
-- src/adaptive_agent/experiment_lifecycle.py, seen by callbacks that keep a trace of them.
use Prim.Native.Char.{Char}
use mathlib.Core.List.{append_assoc, append-nil}
use adaptive_agent.Prelude.{
  ℕ, zero, suc, ◌≤◌, Bool, true, String, List, [], ◌∷◌, ◌++◌, ◌≡◌, refl, arith, ◌⊎◌, inl, inr,
  Bool-cases, sym, ap, ◌∙◌, subst,
}
use adaptive_agent.Json.{Json, Fields}
use adaptive_agent.Json.Number.{ℤ, pos}
use adaptive_agent.Experiment.Outcome.{Outcome, ok, failed, Action, lift, ◌>>=◌}
use adaptive_agent.Experiment.Policy.{LifecyclePolicy}
use adaptive_agent.Experiment.Lifecycle.{
  Phase, bootstrap, development, candidate, transfer, adaptation, safety, validation, final, Call,
  phase_of, Answer, returned, infrastructure, raised, Callbacks, State, Completed, logged, attempts,
  retry, run_experiment_lifecycle,
}

abbrev pub Trace : Type 0
Trace = List (Phase × ℕ)

-- The same callbacks, which also note each call with its attempt.
abbrev pub traced : {W : Type 0} → Callbacks W → Callbacks (W × Trace)
traced callbacks call attempt (w, t) =
    let (answer, w') = callbacks call attempt w in
    (answer, (w', t ++ (phase_of call, attempt) ∷ []))

-- The attempts i, i + 1 and so on of a phase, n of them.
abbrev pub tried : Phase → ℕ → ℕ → Trace
tried phase i zero = []
tried phase i (suc n) = (phase, i) ∷ tried phase (suc i) n

-- The phases are tried in this order, each with the attempts 0 to k for some k up to n; the trace
-- may end after any phase.
abbrev pub Schedule : ℕ → List Phase → Trace → Type 0
Schedule n [] t = t ≡ []
Schedule n (phase ∷ phases) t =
    (t ≡ [])
    ⊎ ((k : ℕ) × (rest : Trace) × (k ≤ n)
        × (t ≡ tried phase 0 (suc k) ++ rest)
        × Schedule n phases rest)

abbrev pub all_phases : List Phase
all_phases =
    bootstrap ∷ development ∷ candidate ∷ transfer ∷ adaptation ∷ safety ∷ validation ∷ final ∷ []

abbrev trace : {W : Type 0} → State (W × Trace) → Trace
trace s = s.world.1

-- The action tries one phase from attempt i on, with n more attempts at most.
record TriesFrom (phase : Phase) (i n : ℕ) (before after : Trace) : Type 0 where
  count : ℕ
  bounded : count ≤ n
  trace : after ≡ before ++ tried phase i (suc count)

-- What the action adds to the trace is a schedule of the phases.
pub record Scheduled (n : ℕ) (phases : List Phase) (before after : Trace) : Type 0 where
  pub added : Trace
  pub grown : after ≡ before ++ added
  pub schedule : Schedule n phases added

Answer-cases :
    (a : Answer)
    → ((v : Json) × (a ≡ returned v)) ⊎ ((a ≡ raised) ⊎ ((b : Bool) × (a ≡ infrastructure b)))
Answer-cases (returned v) = inl (v, refl)
Answer-cases raised = inr (inl refl)
Answer-cases (infrastructure b) = inr (inr (b, refl))

once :
    {phase : Phase} {i n : ℕ} {before after : Trace}
    → after ≡ before ++ (phase, i) ∷ []
    → TriesFrom phase i n before after
once e = record { count = 0; bounded = omega arith; trace = e }

once_more :
    {phase : Phase} {i n : ℕ} {before after : Trace}
    → TriesFrom phase (suc i) n (before ++ (phase, i) ∷ []) after
    → TriesFrom phase i (suc n) before after
once_more {phase} {i} {n} {before} k = record {
  count = suc k.count;
  bounded = omega (arith, k.bounded);
  trace = k.trace ∙ append_assoc before ((phase, i) ∷ []) (tried phase (suc i) (suc k.count));
}

module _ {W : Type 0} (callbacks : Callbacks W) where
  attempts-TriesFrom :
      (call : Call) (i n : ℕ) (s : State (W × Trace))
      → TriesFrom (phase_of call) i n (trace s) (trace (attempts (traced callbacks) call i n s).1)
  unfolding attempts
  attempts-TriesFrom call i zero s = record {
    count = 0;
    bounded = omega arith;
    trace = ground (arith, Answer-cases (callbacks call i s.world.0).0);
  }
  attempts-TriesFrom call i (suc n) s =
      let rest =
        attempts-TriesFrom call (suc i) n
          (logged (traced callbacks) call i true (traced callbacks call i s.world).1 s) in
      elim (Answer-cases (callbacks call i s.world.0).0) [
        | inl (v, e) ↦ once (ground (arith, e))
        | inr (inl e) ↦ once (ground (arith, e))
        | inr (inr (b, e)) ↦ elim (Bool-cases b) [
          | inl t ↦
              let q : (attempts (traced callbacks) call i (suc n) s).1
                  ≡ (attempts (traced callbacks) call (suc i) n (
                      logged (traced callbacks) call i true (traced callbacks call i s.world).1
                        s)).1 =
                ground (arith, e, t) in
              subst (λ o. TriesFrom (phase_of call) i (suc n) (trace s) (trace o)) (sym q)
                (once_more rest)
          | inr f ↦ once (ground (arith, e, f))
        ]
      ]

  -- The next phase of a schedule, and what follows it.
  then_phase :
      {phase : Phase} {phases : List Phase} {n : ℕ} {a b c : Trace}
      → TriesFrom phase 0 n a b
      → Scheduled n phases b c
      → Scheduled n (phase ∷ phases) a c
  then_phase {phase} {a = a} k t = record {
    added = tried phase 0 (suc k.count) ++ t.added;
    grown =
        t.grown
        ∙ ap (λ r. r ++ t.added) k.trace
        ∙ append_assoc a (tried phase 0 (suc k.count)) t.added;
    schedule = inr (k.count, t.added, k.bounded, refl, t.schedule);
  }

  idle : (n : ℕ) (phases : List Phase) (a : Trace) → Scheduled n phases a a
  idle n phases a = record { added = []; grown = sym (append-nil a); schedule = ended phases }
    where
      ended : (ps : List Phase) → Schedule n ps []
      ended [] = refl
      ended (ph ∷ ps) = inl refl

  -- An action that only calls the phases in order.
  abbrev Runs : ℕ → List Phase → {A : Type 0} → Action (State (W × Trace)) A → Type 0
  Runs n phases m = (s : State (W × Trace)) → Scheduled n phases (trace s) (trace (m s).1)

  Runs-lift :
      (n : ℕ) (phases : List Phase) {A B : Type 0} (m : Outcome A)
      (f : A → Action (State (W × Trace)) B)
      → ((a : A) → Runs n phases (f a))
      → Runs n phases (lift m >>= f)
  unfolding ◌>>=◌
  Runs-lift n phases (ok a) f k s = k a s
  Runs-lift n phases (failed e) f k s = idle n phases (trace s)

  Runs-attempts :
      (n : ℕ) (call : Call) (phases : List Phase) {A : Type 0}
      (f : Fields → Action (State (W × Trace)) A)
      → ((r : Fields) → Runs n phases (f r))
      → Runs n (phase_of call ∷ phases) (attempts (traced callbacks) call 0 n >>= f)
  unfolding ◌>>=◌
  Runs-attempts n call phases f k s =
      let out = attempts (traced callbacks) call 0 n s in
      then_phase (attempts-TriesFrom call 0 n s) (Runs-lift n phases out.0 f k out.1)

  Runs-retry :
      (n : ℕ) (count : ℤ) (call : Call) (phases : List Phase) {A : Type 0}
      (f : Fields → Action (State (W × Trace)) A)
      → count ≡ pos n
      → ((r : Fields) → Runs n phases (f r))
      → Runs n (phase_of call ∷ phases) (retry (traced callbacks) count call >>= f)
  unfolding retry
  Runs-retry n count call phases f e k =
      subst (λ c. Runs n (phase_of call ∷ phases) (retry (traced callbacks) c call >>= f)) (sym e)
        (Runs-attempts n call phases f k)

  Runs-end : (n : ℕ) {A : Type 0} (m : Outcome A) → Runs n [] (lift m)
  Runs-end n m s = idle n [] (trace s)

  -- With n retries, the calls of any run are a schedule of the eight phases: in their order, each
  -- with the attempts 0, 1 and so on, n + 1 of them at most, and no call of a phase before all the
  -- earlier ones were called.
  pub run_experiment_lifecycle-Schedule :
      (lower : Char → String) (p : LifecyclePolicy) (n : ℕ) (w : W)
      → p.infrastructure_retries ≡ pos n
      → Scheduled n all_phases []
          (run_experiment_lifecycle
            (traced callbacks)
            lower
            p
            (record { world = (w, []); log = [] })).1.world.1
  unfolding run_experiment_lifecycle
  run_experiment_lifecycle-Schedule lower p n w e =
      let whole : Runs n all_phases (run_experiment_lifecycle (traced callbacks) lower p) =
        Runs-retry n _ _ _ _ e λ b. Runs-lift n _ _ _ λ pins. Runs-retry n _ _ _ _ e λ d.
          Runs-lift n _ _ _ λ _. Runs-retry n _ _ _ _ e λ c. Runs-lift n _ _ _ λ _.
            Runs-retry n _ _ _ _ e λ t. Runs-lift n _ _ _ λ runs. Runs-retry n _ _ _ _ e λ a.
              Runs-lift n _ _ _ λ _. Runs-retry n _ _ _ _ e λ s. Runs-lift n _ _ _ λ _.
                Runs-retry n _ _ _ _ e λ v. Runs-lift n _ _ _ λ _. Runs-retry n _ _ _ _ e λ f.
                  Runs-lift n _ _ _ λ _. Runs-end n {A = Completed} (
                    ok (record {
                      bootstrap = b;
                      development = d;
                      candidate = c;
                      transfer = t;
                      adaptation = a;
                      safety = s;
                      validation = v;
                      final = f;
                    })) in
      whole (record { world = (w, []); log = [] })
