-- ===== src/Store/ToolCalls/Laws.antt =====
-- How the lookups of the tables tool_calls and approvals see the writes.
use adaptive_agent.Prelude.{
  ℕ, Bool, true, false, String, none, some, List, [], ◌∷◌, ◌++◌, map, ◌≡◌, refl, arith, ◌==◌, any,
  find_first, ◌⊎◌, ◌≤◌, Option-cases, inl, inr,
}
use adaptive_agent.Models.Tools.{ToolResult}
use adaptive_agent.Store.ToolCalls.{
  ToolCall, Approval, Tables, keyed, collides, get_tool_call_by_idempotency, consume, matches,
  find_approval, with_result, consume_approval_and_prepare, prepared, invalid,
}

module _ {ℓ} {A : Type ℓ} (p : A → Bool) where
  pub find_first-append_none :
      (xs : List A) (x : A)
      → find_first p xs ≡ none
      → p x ≡ true
      → find_first p (xs ++ x ∷ []) ≡ some x
  find_first-append_none [] x h e = ground arith
  find_first-append_none (y ∷ xs) x h e = ground (arith, find_first-append_none xs x)

  pub find_first-append_some :
      (xs ys : List A) (a : A) → find_first p xs ≡ some a → find_first p (xs ++ ys) ≡ some a
  find_first-append_some [] ys a h = cc
  find_first-append_some (y ∷ xs) ys a h = ground (arith, find_first-append_some xs ys a)

  pub find_first-none_of_any : (xs : List A) → any p xs ≡ false → find_first p xs ≡ none
  find_first-none_of_any [] h = refl
  find_first-none_of_any (y ∷ xs) h = ground (arith, find_first-none_of_any xs)

  pub any-false_of_find : (xs : List A) → find_first p xs ≡ none → any p xs ≡ false
  any-false_of_find [] h = refl
  any-false_of_find (y ∷ xs) h = ground (arith, any-false_of_find xs)

  pub any-true_of_find : (xs : List A) (a : A) → find_first p xs ≡ some a → any p xs ≡ true
  any-true_of_find [] a h = cc
  any-true_of_find (y ∷ xs) a h = ground (arith, any-true_of_find xs a)

  -- A write to rows that leaves the test of the lookup alone.
  pub find_first-map :
      (f : A → A)
      → ((a : A) → p (f a) ≡ p a)
      → (xs : List A) (a : A) → find_first p xs ≡ some a
      → find_first p (map f xs) ≡ some (f a)
  find_first-map f same [] a h = cc
  find_first-map f same (y ∷ xs) a h = ground (arith, same y, find_first-map f same xs a)

  pub find_first-map_none :
      (f : A → A)
      → ((a : A) → p (f a) ≡ p a)
      → (xs : List A) → find_first p xs ≡ none
      → find_first p (map f xs) ≡ none
  find_first-map_none f same [] h = refl
  find_first-map_none f same (y ∷ xs) h = ground (arith, same y, find_first-map_none f same xs)

  pub find_first-holds : (xs : List A) (a : A) → find_first p xs ≡ some a → p a ≡ true
  find_first-holds [] a h = cc
  find_first-holds (y ∷ xs) a h = ground (arith, find_first-holds xs a)

pub keyed-with_result :
    (run_id key call_id : String) (r : ToolResult) (c : ToolCall)
    → keyed run_id key (with_result call_id r c) ≡ keyed run_id key c
keyed-with_result run_id key call_id r c = ground arith

token-consume :
    (token t call_id : String) (a : Approval)
    → ((consume t call_id a).token == token) ≡ (a.token == token)
token-consume token t call_id a = ground arith

-- What a successful consumption shows of the tables, and the tables that it leaves.
pub record Consumption (now : ℕ) (token : String) (c : ToolCall) (t t' : Tables) : Type 0 where
  pub approval : Approval
  pub found : find_approval t.approvals token ≡ some approval
  pub unused : approval.consumed ≡ false
  pub timely : now ≤ approval.expires_at
  pub matching : matches approval c ≡ true
  pub absent : get_tool_call_by_idempotency t.calls c.run_id c.idempotency_key ≡ none
  pub distinct : collides c t.calls ≡ false
  pub calls : t'.calls ≡ t.calls ++ record c { approval_token = some token } ∷ []
  pub approvals : t'.approvals ≡ map (consume token c.call_id) t.approvals

module _ (now : ℕ) (token : String) (c : ToolCall) (t : Tables) where
  Consumption-of :
      (a : Approval)
      → find_approval t.approvals token ≡ some a
      → (consume_approval_and_prepare now token c t).0 ≡ prepared
      → Consumption now token c t (consume_approval_and_prepare now token c t).1
  unfolding consume_approval_and_prepare
  Consumption-of a e h = record {
    approval = a;
    found = e;
    unused = ground arith;
    timely = ground arith;
    matching = ground arith;
    absent = ground arith;
    distinct = ground arith;
    calls = ground arith;
    approvals = ground arith;
  }

  pub Consumption-of_prepared :
      (consume_approval_and_prepare now token c t).0 ≡ prepared
      → Consumption now token c t (consume_approval_and_prepare now token c t).1
  unfolding consume_approval_and_prepare
  Consumption-of_prepared h = elim (Option-cases (find_approval t.approvals token)) [
    | inl e ↦ ground arith
    | inr (a, e) ↦ Consumption-of a e h
  ]

-- A preparation that does not succeed changes nothing.
pub consume_unchanged :
    (now : ℕ) (token : String) (c : ToolCall) (t : Tables)
    → ((consume_approval_and_prepare now token c t).1 ≡ t)
      ⊎ ((consume_approval_and_prepare now token c t).0 ≡ prepared)
unfolding consume_approval_and_prepare
consume_unchanged now token c t = ground arith

-- The token has an approval, and it is consumed.
pub record Spent (token : String) (t : Tables) : Type 0 where
  pub approval : Approval
  pub found : find_approval t.approvals token ≡ some approval
  pub consumed : approval.consumed ≡ true

pub Consumption-Spent :
    {now : ℕ} {token : String} {c : ToolCall} {t t' : Tables}
    → Consumption now token c t t'
    → Spent token t'
unfolding find_approval
Consumption-Spent {now} {token} {c} {t} k = record {
  approval = consume token c.call_id k.approval;
  found = rw k.approvals (
      find_first-map (λ a. a.token == token) (consume token c.call_id)
        (token-consume token token c.call_id) t.approvals k.approval k.found);
  consumed =
      ground (arith, find_first-holds (λ a. a.token == token) t.approvals k.approval k.found);
}

-- A spent token stays spent, whatever approval is consumed.
pub Spent-Consumption :
    {now : ℕ} {token other : String} {c : ToolCall} {t t' : Tables}
    → Spent token t
    → Consumption now other c t t'
    → Spent token t'
unfolding find_approval
Spent-Consumption {token} {other} {c} {t} s k = record {
  approval = consume other c.call_id s.approval;
  found = rw k.approvals (
      find_first-map (λ a. a.token == token) (consume other c.call_id)
        (token-consume token other c.call_id) t.approvals s.approval s.found);
  consumed = ground (arith, s.consumed);
}

pub consume-Spent_invalid :
    (now : ℕ) (token : String) (c : ToolCall) (t : Tables)
    → Spent token t
    → consume_approval_and_prepare now token c t ≡ (invalid, t)
unfolding consume_approval_and_prepare
consume-Spent_invalid now token c t s = ground (arith, s.found, s.consumed)
