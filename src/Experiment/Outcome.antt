-- ===== src/Experiment/Outcome.antt =====
-- The results and exceptions of src/adaptive_agent/experiment_lifecycle.py, and code that also acts
-- on a state.
use adaptive_agent.Prelude.{Bool, true, false, ◌≡◌, refl, subst}

-- ExperimentLifecycleError; an exception of another class, of a callback or of Python; and the
-- AssertionError at the end of `_retry`.
pub data Failure : Type 0 where
  lifecycle_error other_error unreachable : Failure

pub data Outcome {ℓ} (A : Type ℓ) : Type ℓ where
  ok : A → Outcome A
  failed : Failure → Outcome A

unfoldable pub and_then {ℓ κ} : {A : Type ℓ} {B : Type κ} → Outcome A → (A → Outcome B) → Outcome B
and_then (ok a) f = f a
and_then (failed e) f = failed e

-- `if not b: raise ExperimentLifecycleError(...)`
abbrev pub require : Bool → Outcome (Unit {0})
require true = ok tt
require false = failed lifecycle_error

pub require-ok : (b : Bool) → require b ≡ ok tt → b ≡ true
require-ok true e = refl
require-ok false e = cc

pub and_then-ok {ℓ κ μ} :
    {A : Type ℓ} {B : Type κ} {P : Type μ} {b : B} (m : Outcome A) (f : A → Outcome B)
    → and_then m f ≡ ok b
    → ((a : A) → m ≡ ok a → f a ≡ ok b → P)
    → P
unfolding and_then
and_then-ok (ok a) f h k = k a refl h
and_then-ok (failed e) f h k = cc

abbrev pub Action : Type 0 → Type 0 → Type 0
Action S A = S → Outcome A × S

abbrev pub lift : {S A : Type 0} → Outcome A → Action S A
lift m s = (m, s)

infixl 5 ◌>>=◌ ◌>>◌
unfoldable pub ◌>>=◌ : {S A B : Type 0} → Action S A → (A → Action S B) → Action S B
◌>>=◌ m f s = let (out, s') = m s in elim out [ ok a ↦ f a s' | failed e ↦ (failed e, s') ]

abbrev pub ◌>>◌ : {S B : Type 0} → Action S (Unit {0}) → Action S B → Action S B
m >> k = m >>= λ _. k

after : {S A B : Type 0} → Outcome A → S → (A → Action S B) → Outcome B × S
after out s' f = elim out [ ok a ↦ f a s' | failed e ↦ (failed e, s') ]

after-ok :
    {S A B : Type 0} (out : Outcome A) (s : S) (f : A → Action S B) (b : B)
    → (after out s f).0 ≡ ok b
    → (a : A) × (out ≡ ok a) × (after out s f ≡ f a s)
unfolding after
after-ok (ok a) s f b h = (a, refl, refl)
after-ok (failed e) s f b h = cc

-- A sequence that succeeds is a part that succeeds and then the rest.
pub >>=-ok {ℓ} :
    {S A B : Type 0} {s : S} {b : B} {P : Type ℓ} (m : Action S A) (f : A → Action S B)
    → ((m >>= f) s).0 ≡ ok b
    → ((a : A) (s' : S) → (m s).0 ≡ ok a → (f a s').0 ≡ ok b → P)
    → P
unfolding after ◌>>=◌
>>=-ok {s = s} {b} m f h k =
    let (a, e, r) = after-ok (m s).0 (m s).1 f b h in
    k a (m s).1 e (subst (λ (o : Outcome _ × _). o.0 ≡ ok b) r h)

pub ok_injective {ℓ} : {A : Type ℓ} {a b : A} → ok a ≡ ok b → a ≡ b
ok_injective e = cc
