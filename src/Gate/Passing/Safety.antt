-- ===== src/Gate/Passing/Safety.antt =====
-- The safety checks of a gate of src/adaptive_agent/performance_gate.py that passes.
use adaptive_agent.Prelude.{
  Bool, true, false, not, ◌&&◌, String, Option, none, some, List, [], ◌∷◌, ◌≡◌, refl, Bool-cases,
  inl, inr, ap, subst, member, all, select, ◌==◌, eq_iff, arith, zero, suc,
}
use adaptive_agent.Json.{
  Json, null, boolean, int, float, str, arr, obj, Fields, end, field, keys, get,
}
use adaptive_agent.Json.Number.{pos, negsuc}
use adaptive_agent.Gate.Reasons.{dedup}
use adaptive_agent.Gate.Values.{Arithmetic, GateConfig}
use adaptive_agent.Gate.Checks.{
  is_true, violations, strings, same_names, all_true, case_reasons, violation_reasons,
  safety_reasons,
}
use adaptive_agent.Gate.Decision.{Report, evaluate_performance_gate}
use adaptive_agent.Gate.Parts.{append-nil, when-nil, not-false, passed-Clean}

pub both_true : (a b : Bool) → a && b ≡ true → (a ≡ true) × (b ≡ true)
both_true true b h = (refl, h)
both_true false b h = cc

is_true-boolean : (v : Json) → is_true v ≡ true → v ≡ boolean true
unfolding is_true
is_true-boolean (boolean b) h = ap boolean h
is_true-boolean null h = cc
is_true-boolean (int n) h = cc
is_true-boolean (float n) h = cc
is_true-boolean (str n) h = cc
is_true-boolean (arr n) h = cc
is_true-boolean (obj n) h = cc

violations-zero : (v : Json) → violation_reasons (violations v) ≡ [] → v ≡ int (pos 0)
unfolding violations violation_reasons
violations-zero (int (pos zero)) h = refl
violations-zero (int (pos (suc n))) h = cc
violations-zero (int (negsuc n)) h = cc
violations-zero null h = cc
violations-zero (boolean n) h = cc
violations-zero (float n) h = cc
violations-zero (str n) h = cc
violations-zero (arr n) h = cc
violations-zero (obj n) h = cc

pub all-member :
    (p : String → Bool) (xs : List String) (k : String)
    → all p xs ≡ true
    → member k xs ≡ true
    → p k ≡ true
all-member p [] k h m = cc
all-member p (x ∷ xs) k h m = elim (Bool-cases (x == k)) [
  | inl e ↦ subst (λ z. p z ≡ true) ((eq_iff x k).0 e) (both_true _ _ h).0
  | inr e ↦ all-member p xs k (both_true _ _ h).1 (ground (arith, m, e))
]

get-true :
    (k : String) (fs : Fields)
    → member k (keys fs) ≡ true
    → all_true fs ≡ true
    → get k fs ≡ some (boolean true)
unfolding keys get all_true
get-true k end m h = cc
get-true k (field j v fs) m h = elim (Bool-cases (j == k)) [
  | inl e ↦ ground (arith, e, is_true-boolean v (both_true (is_true v) (all_true fs) h).0)
  | inr e ↦
      ground
        (arith, e, get-true k fs (ground (arith, m, e)) (both_true (is_true v) (all_true fs) h).1)
]

select-member :
    (y k : String) (zs : List String)
    → (y == k) ≡ false
    → member k zs ≡ true
    → member k (select (λ x. not (y == x)) zs) ≡ true
select-member y k [] n m = cc
select-member y k (z ∷ zs) n m = elim (Bool-cases (z == k)) [
  | inl e ↦ ground (arith, e, (eq_iff z k).0 e, n)
  | inr e ↦ ground (arith, e, select-member y k zs n (ground (arith, m, e)))
]

pub strings-member :
    (k : String) (xs : List String) → member k xs ≡ true → member k (strings xs) ≡ true
unfolding strings dedup
strings-member k [] m = cc
strings-member k (x ∷ xs) m = elim (Bool-cases (x == k)) [
  | inl e ↦ ground (arith, e)
  | inr e ↦ ground (
    arith,
    e,
    select-member x k (dedup (λ x y. x == y) xs) e (strings-member k xs (ground (arith, m, e))),
  )
]

case_passed :
    (results : Fields) (required : List String) (id : String)
    → case_reasons (some results) required ≡ []
    → member id required ≡ true
    → get id results ≡ some (boolean true)
unfolding case_reasons same_names
case_passed results required id h m =
    let parts = append-nil _ _ (append-nil _ _ h).1 in
    let names = both_true _ _ (both_true _ _ (not-false _ (when-nil _ _ parts.0))).0 in
    get-true id results
      (all-member (λ y. member y (keys results)) (strings required) id names.1
        (strings-member id required m))
      (not-false _ (when-nil _ _ parts.1))

case_known :
    (o : Option Fields) (required : List String) (id : String)
    → case_reasons o required ≡ []
    → member id required ≡ true
    → (results : Fields) × (o ≡ some results) × (get id results ≡ some (boolean true))
unfolding case_reasons
case_known none required id h m = cc
case_known (some results) required id h m = (results, refl, case_passed results required id h m)

-- When the gate passes, the report says that the safety checks passed, counts no violation, and has
-- the result `true` for each registered safety case.
pub passing_safe :
    (a : Arithmetic) (c : GateConfig) (r : Report) (id : String)
    → member id r.required_safety_case_ids ≡ true
    → (evaluate_performance_gate a c r).passed ≡ true
    → (r.safety_passed ≡ boolean true)
      × (r.safety_violations ≡ int (pos 0))
      × ((results : Fields) × (r.safety_case_results ≡ some results)
          × (get id results ≡ some (boolean true)))
passing_safe a c r id m passes =
    unfold safety_reasons in
    let h = append-nil _ _ (passed-Clean a c r passes).safety in
    let h' = append-nil _ _ h.1 in
    (
      is_true-boolean _ (not-false _ (when-nil _ _ h.0)),
      violations-zero _ h'.0,
      case_known _ _ id h'.1 m,
    )
