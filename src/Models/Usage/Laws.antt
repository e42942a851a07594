-- ===== src/Models/Usage/Laws.antt =====
-- What `canonical_usage` of src/adaptive_agent/models.py accepts.
use adaptive_agent.Prelude.{ℕ, ◌+◌, ◌-◌, some, ◌≡◌, refl, arith, ◌≢◌, sym, subst, ◌∙◌}
use adaptive_agent.Json.{Json, null, boolean, int, float, str, arr, obj, Fields, get}
use adaptive_agent.Models.Usage.{
  Usage, Count, counted, absent, invalid, count_of, first_count, input_keys, output_keys,
  total_keys, with_total, with_output, with_input, canonical_usage, usage_object,
}

-- The count is the one given, if one is given, and no field was invalid.
abbrev pub Given : Count → ℕ → Type 0
Given c n = (c ≢ invalid) × ((m : ℕ) → c ≡ counted m → m ≡ n)

-- An accepted usage adds up, and no count that the provider gave is changed. A missing input is 0.
pub record Agrees (i o t : Count) (u : Usage) : Type 0 where
  pub sum : u.total_tokens ≡ u.input_tokens + u.output_tokens
  pub input : Given i u.input_tokens
  pub output : Given o u.output_tokens
  pub total : Given t u.total_tokens
  pub default_input : i ≡ absent → u.input_tokens ≡ 0

Given-counted : (n : ℕ) → Given (counted n) n
Given-counted n = (λ e. ground (arith, e), λ m e. ground (arith, e))

Given-absent : (n : ℕ) → Given absent n
Given-absent n = (λ e. ground (arith, e), λ m e. ground (arith, e))

Totals : ℕ → ℕ → Count → Usage → Type 0
Totals i o t u =
    (u.input_tokens ≡ i) × (u.output_tokens ≡ o) × (u.total_tokens ≡ i + o) × Given t (i + o)

with_total-Totals : (i o : ℕ) (t : Count) (u : Usage) → with_total i o t ≡ some u → Totals i o t u
unfolding with_total Totals
with_total-Totals i o absent u e =
    (ground (arith, e), ground (arith, e), ground (arith, e), Given-absent (i + o))
with_total-Totals i o invalid u e = ground (arith, e)
with_total-Totals i o (counted t) u e = (
  ground (arith, e),
  ground (arith, e),
  ground (arith, e),
  (λ q. ground (arith, q), λ m q. ground (arith, q, e)),
)

Outputs : ℕ → Count → Count → Usage → Type 0
Outputs i o t u =
    (u.input_tokens ≡ i)
    × (u.total_tokens ≡ u.input_tokens + u.output_tokens)
    × Given o u.output_tokens
    × Given t u.total_tokens

Outputs-Totals : (i n : ℕ) (o t : Count) (u : Usage) → Given o n → Totals i n t u → Outputs i o t u
unfolding Totals Outputs
Outputs-Totals i n o t u g (a, b, c, d) =
    (a, omega (arith, a, b, c), subst (Given o) (sym b) g, subst (Given t) (sym c) d)

with_output-Outputs :
    (i : ℕ) (o t : Count) (u : Usage) → with_output i o t ≡ some u → Outputs i o t u
unfolding with_output
with_output-Outputs i (counted o) t u e =
    Outputs-Totals i o (counted o) t u (Given-counted o) (with_total-Totals i o t u e)
with_output-Outputs i invalid t u e = ground (arith, e)
with_output-Outputs i absent absent u e =
    Outputs-Totals i 0 absent absent u (Given-absent 0) (with_total-Totals i 0 absent u e)
with_output-Outputs i absent invalid u e = ground (arith, e)
with_output-Outputs i absent (counted t) u e =
    let e' : with_total i (t - i) (counted t) ≡ some u = ground (arith, e) in
    Outputs-Totals i (t - i) absent (counted t) u (Given-absent (t - i))
      (with_total-Totals i (t - i) (counted t) u e')

with_input-Agrees : (i o t : Count) (u : Usage) → with_input i o t ≡ some u → Agrees i o t u
unfolding with_input Outputs
with_input-Agrees (counted i) o t u e =
    let (a, b, c, d) = with_output-Outputs i o t u e in
    record {
      sum = b;
      input = subst (Given (counted i)) (sym a) (Given-counted i);
      output = c;
      total = d;
      default_input = λ q. ground (arith, q);
    }
with_input-Agrees absent o t u e =
    let (a, b, c, d) = with_output-Outputs 0 o t u e in
    record { sum = b; input = Given-absent _; output = c; total = d; default_input = λ q. a }
with_input-Agrees invalid o t u e = ground (arith, e)

-- A usage that is accepted has its total equal to the sum of input and output; each count that the
-- provider gave, under the first of its names that is present, is kept and was a non-negative
-- integer; and an input that is not given is 0.
pub canonical_usage-Agrees :
    (value : Fields) (u : Usage)
    → canonical_usage (obj value) ≡ some u
    → Agrees
        (first_count value input_keys)
        (first_count value output_keys)
        (first_count value total_keys)
        u
unfolding canonical_usage
canonical_usage-Agrees value u e = with_input-Agrees _ _ _ u e

sum_of :
    (value : Json) (u : Usage)
    → canonical_usage value ≡ some u
    → u.total_tokens ≡ u.input_tokens + u.output_tokens
unfolding canonical_usage
sum_of (obj value) u e = (canonical_usage-Agrees value u e).sum
sum_of null u e = ground (arith, e)
sum_of (boolean b) u e = ground (arith, e)
sum_of (int n) u e = ground (arith, e)
sum_of (float x) u e = ground (arith, e)
sum_of (str s) u e = ground (arith, e)
sum_of (arr vs) u e = ground (arith, e)

normalised :
    (u : Usage)
    → canonical_usage (usage_object u)
      ≡ with_total u.input_tokens u.output_tokens (counted u.total_tokens)
unfolding canonical_usage usage_object with_input with_output first_count count_of get
normalised u = refl

with_total_sum :
    (u : Usage)
    → u.total_tokens ≡ u.input_tokens + u.output_tokens
    → with_total u.input_tokens u.output_tokens (counted u.total_tokens) ≡ some u
unfolding with_total
with_total_sum u e = ground (arith, e)

-- The normalisation of a usage that it returned gives the same usage again.
pub canonical_usage-usage_object :
    (value : Json) (u : Usage)
    → canonical_usage value ≡ some u
    → canonical_usage (usage_object u) ≡ some u
canonical_usage-usage_object value u e = normalised u ∙ with_total_sum u (sum_of value u e)
