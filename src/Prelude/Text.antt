-- ===== src/Prelude/Text.antt =====
-- Equality of strings as a decision, and as the Boolean test of the source's `==`.
use mathlib.Core.Path.{◌∙◌, sym}
use mathlib.Core.Bool.{false≢true}
use mathlib.Core.Logic.{inl, inr}
use Prim.Native.String.{String}
use text.Mathlib.Text.{◌==◌}
use text.Mathlib.TextEquality.{eq_iff}
use adaptive_agent.Prelude.Tests.{Bool-cases}

unfoldable pub String-discrete : Discrete String
String-discrete a b = elim (Bool-cases (a == b)) [
  | inl e ↦ yes ((eq_iff a b).0 e)
  | inr e ↦ no (λ p. false≢true (sym e ∙ (eq_iff a b).1 p))
]
