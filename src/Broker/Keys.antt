-- ===== src/Broker/Keys.antt =====
-- The uniqueness constraints of the table tool_calls of src/adaptive_agent/store.py, under the
-- calls of src/adaptive_agent/broker.py.
use adaptive_agent.Prelude.{
  Bool, false, ◌||◌, String, some, List, [], ◌∷◌, ◌++◌, map, ◌≡◌, refl, arith, ◌==◌, eq_iff, any,
}
use adaptive_agent.Models.Tools.{ToolResult}
use adaptive_agent.Environment.Registry.{Registry}
use adaptive_agent.Store.ToolCalls.{
  ToolCall, Approval, Tables, keyed, collides, with_result, with_unknown, save_tool_result,
  mark_call_outcome_unknown, issue_approval,
}
use adaptive_agent.Broker.Dispatch.{Host, Provider, State}
use adaptive_agent.Broker.Keeps.{Closed, run_keeps}
use adaptive_agent.Broker.History.{Event, run}

abbrev clash : ToolCall → ToolCall → Bool
clash c d = d.call_id == c.call_id || keyed c.run_id c.idempotency_key d

-- No two rows share a call id, or a run and a key.
abbrev pub Unique : List ToolCall → Type 0
Unique [] = Unit {0}
Unique (c ∷ cs) = (any (clash c) cs ≡ false) × Unique cs

any-append_last :
    (d c : ToolCall) (cs : List ToolCall)
    → any (clash d) cs ≡ false
    → clash d c ≡ false
    → any (clash d) (cs ++ c ∷ []) ≡ false
any-append_last d c [] h e = ground arith
any-append_last d c (x ∷ xs) h e = ground (arith, any-append_last d c xs)

clash_of_collides :
    (c d : ToolCall) (cs : List ToolCall)
    → collides c (d ∷ cs) ≡ false
    → (clash d c ≡ false) × (collides c cs ≡ false)
unfolding collides
clash_of_collides c d cs h = (
  ground (
    arith,
    eq_iff c.call_id d.call_id,
    eq_iff d.call_id c.call_id,
    eq_iff c.run_id d.run_id,
    eq_iff d.run_id c.run_id,
    eq_iff c.idempotency_key d.idempotency_key,
    eq_iff d.idempotency_key c.idempotency_key,
  ),
  ground arith,
)

insert-Unique :
    (c : ToolCall) (cs : List ToolCall) → collides c cs ≡ false → Unique cs → Unique (cs ++ c ∷ [])
insert-Unique c [] h u = (refl, tt)
insert-Unique c (d ∷ cs) h (e, u) =
    let (apart, rest) = clash_of_collides c d cs h in
    (any-append_last d c cs e apart, insert-Unique c cs rest u)

-- A write that leaves the columns of the constraints alone.
record KeepsKeys (f : ToolCall → ToolCall) : Type 0 where
  clash_map : (c d : ToolCall) → clash (f c) (f d) ≡ clash c d

any-clash-map :
    (f : ToolCall → ToolCall) (k : KeepsKeys f) (c : ToolCall) (cs : List ToolCall)
    → any (clash (f c)) (map f cs) ≡ any (clash c) cs
any-clash-map f k c [] = refl
any-clash-map f k c (d ∷ cs) = ground (arith, k.clash_map c d, any-clash-map f k c cs)

map-Unique :
    (f : ToolCall → ToolCall) (k : KeepsKeys f) (cs : List ToolCall) → Unique cs → Unique (map f cs)
map-Unique f k [] u = tt
map-Unique f k (c ∷ cs) (e, u) = (rw (any-clash-map f k c cs) e, map-Unique f k cs u)

with_result-KeepsKeys : (call_id : String) (r : ToolResult) → KeepsKeys (with_result call_id r)
with_result-KeepsKeys call_id r = record { clash_map = λ c d. ground arith }

with_unknown-KeepsKeys : (call_id : String) (r : ToolResult) → KeepsKeys (with_unknown call_id r)
with_unknown-KeepsKeys call_id r = record { clash_map = λ c d. ground arith }

abbrev UniqueCalls : Tables → Type 0
UniqueCalls t = Unique t.calls

calls-issue : (a : Approval) (t t' : Tables) → issue_approval a t ≡ some t' → t'.calls ≡ t.calls
unfolding issue_approval
calls-issue a t t' e = ground arith

insert_consumed :
    (token : String) (c : ToolCall) (t : Tables)
    → collides c t.calls ≡ false
    → Unique t.calls
    → Unique (t.calls ++ record c { approval_token = some token } ∷ [])
unfolding collides
insert_consumed token c t e u = insert-Unique (record c { approval_token = some token }) t.calls e u

Unique-Closed : Closed UniqueCalls
unfolding save_tool_result mark_call_outcome_unknown
Unique-Closed = record {
  artifact = λ t a u. u;
  insert = λ c t e u. insert-Unique c t.calls e u;
  consumption = λ now token c t t' k u. rw k.calls (insert_consumed token c t k.distinct u);
  save = λ id r t u. map-Unique (with_result id r) (with_result-KeepsKeys id r) t.calls u;
  mark = λ id r t u. map-Unique (with_unknown id r) (with_unknown-KeepsKeys id r) t.calls u;
  issue = λ a t t' e u. rw (calls-issue a t t' e) u;
}

-- Whatever calls, reconciliations and approvals follow one another, no two stored calls share a
-- call id, or a run and a key, if none did before.
pub run-Unique :
    {W : Type 0} (h : Host) (p : Provider W) (registry : Registry) (events : List Event)
    (s : State W)
    → Unique s.tables.calls
    → Unique (run h p registry s events).tables.calls
run-Unique h p registry events s u = run_keeps Unique-Closed h p registry events s u
