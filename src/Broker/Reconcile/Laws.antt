-- ===== src/Broker/Reconcile/Laws.antt =====
-- What `reconcile_run` of src/adaptive_agent/broker.py leaves.
use adaptive_agent.Prelude.{
  ℕ, true, not, String, some, List, [], ◌∷◌, map, ◌≡◌, refl, arith, eq_refl, eq_iff, any, select,
  ap, ◌∙◌,
}
use adaptive_agent.Models.Tools.{ToolResult}
use adaptive_agent.Store.ToolCalls.{
  ToolCall, Tables, identified, get_tool_call, list_unreconciled_calls, with_unknown,
  mark_call_outcome_unknown,
}
use adaptive_agent.Store.ToolCalls.Laws.{find_first-map}
use adaptive_agent.Broker.Dispatch.{Host, Provider, State}
use adaptive_agent.Broker.Request.{with_evidence, calls-with_evidence}
use adaptive_agent.Broker.Reconcile.{
  verdict_of, reconciled_result, is_terminal, reconcile_call, reconcile_calls, reconcile_run,
}

abbrev without_id : String → List ToolCall → List ToolCall
without_id call_id calls = select (λ c. not (identified call_id c)) calls

pending-mark :
    (run_id call_id : String) (r : ToolResult) (calls : List ToolCall)
    → list_unreconciled_calls (map (with_unknown call_id r) calls) run_id
      ≡ without_id call_id (list_unreconciled_calls calls run_id)
unfolding list_unreconciled_calls
pending-mark run_id call_id r [] = refl
pending-mark run_id call_id r (c ∷ cs) = ground (arith, pending-mark run_id call_id r cs)

abbrev without_all : List ToolCall → List ToolCall → List ToolCall
without_all [] calls = calls
without_all (c ∷ cs) calls = without_all cs (without_id c.call_id calls)

-- Every call of the second list has the id of one of the first.
abbrev Covered : List ToolCall → List ToolCall → Type 0
Covered cs [] = Unit {0}
Covered cs (x ∷ xs) = (any (identified x.call_id) cs ≡ true) × Covered cs xs

Covered-cons : (c : ToolCall) (cs xs : List ToolCall) → Covered cs xs → Covered (c ∷ cs) xs
Covered-cons c cs [] h = tt
Covered-cons c cs (x ∷ xs) (e, h) = (ground arith, Covered-cons c cs xs h)

Covered-refl : (xs : List ToolCall) → Covered xs xs
Covered-refl [] = tt
Covered-refl (x ∷ xs) = (ground (arith, eq_refl x.call_id), Covered-cons x xs xs (Covered-refl xs))

Covered-without_id :
    (c : ToolCall) (cs xs : List ToolCall)
    → Covered (c ∷ cs) xs
    → Covered cs (without_id c.call_id xs)
Covered-without_id c cs [] h = tt
Covered-without_id c cs (x ∷ xs) (e, h) =
    ground
      (arith, Covered-without_id c cs xs h, eq_iff c.call_id x.call_id, eq_iff x.call_id c.call_id)

without_all-Covered : (cs xs : List ToolCall) → Covered cs xs → without_all cs xs ≡ []
without_all-Covered [] [] h = refl
without_all-Covered [] (x ∷ xs) (e, h) = cc
without_all-Covered (c ∷ cs) xs h =
    without_all-Covered cs (without_id c.call_id xs) (Covered-without_id c cs xs h)

-- A row with a result is not written.
with_unknown-resolved :
    (call_id : String) (r prior : ToolResult) (c : ToolCall)
    → c.result ≡ some prior
    → with_unknown call_id r c ≡ c
with_unknown-resolved call_id r prior c e = ground arith

identified-with_unknown :
    (id call_id : String) (r : ToolResult) (c : ToolCall)
    → identified id (with_unknown call_id r c) ≡ identified id c
identified-with_unknown id call_id r c = ground arith

module _ {W : Type 0} (h : Host) (p : Provider W) where
  calls-reconcile_call :
      (now : ℕ) (w : W) (c : ToolCall) (t : Tables)
      → (r : ToolResult) × ((reconcile_call h p now w c t).calls
          ≡ map (with_unknown c.call_id r) t.calls)
  unfolding reconcile_call mark_call_outcome_unknown
  calls-reconcile_call now w c t =
      let (r, t') = with_evidence h (reconciled_result h p now c (verdict_of h p w c)) t in
      (
        r,
        ap (map (with_unknown c.call_id r))
            (calls-with_evidence h (reconciled_result h p now c (verdict_of h p w c)) t),
      )

  pending-reconcile_calls :
      (now : ℕ) (w : W) (run_id : String) (cs : List ToolCall) (t : Tables)
      → list_unreconciled_calls (reconcile_calls h p now w cs t).1.calls run_id
        ≡ without_all cs (list_unreconciled_calls t.calls run_id)
  unfolding reconcile_calls
  pending-reconcile_calls now w run_id [] t = refl
  pending-reconcile_calls now w run_id (c ∷ cs) t =
      let (r, e) = calls-reconcile_call now w c t in
      pending-reconcile_calls now w run_id cs (reconcile_call h p now w c t)
      ∙ ap (without_all cs) (
          ap (λ calls. list_unreconciled_calls calls run_id) e
          ∙ pending-mark run_id c.call_id r t.calls)

  resolved-reconcile_calls :
      (now : ℕ) (w : W) (cs : List ToolCall) (t : Tables)
      → (reconcile_calls h p now w cs t).0
        ≡ map (λ (c : ToolCall). c.call_id) (select (λ c. is_terminal (verdict_of h p w c)) cs)
  unfolding reconcile_calls
  resolved-reconcile_calls now w [] t = refl
  resolved-reconcile_calls now w (c ∷ cs) t =
      ground (arith, resolved-reconcile_calls now w cs (reconcile_call h p now w c t))

  stored-reconcile_calls :
      (now : ℕ) (w : W) (cs : List ToolCall) (t : Tables) (call_id : String) (c : ToolCall)
      (prior : ToolResult)
      → get_tool_call t.calls call_id ≡ some c
      → c.result ≡ some prior
      → get_tool_call (reconcile_calls h p now w cs t).1.calls call_id ≡ some c
  unfolding reconcile_calls get_tool_call
  stored-reconcile_calls now w [] t call_id c prior e f = e
  stored-reconcile_calls now w (d ∷ cs) t call_id c prior e f =
      let (r, calls) = calls-reconcile_call now w d t in
      stored-reconcile_calls now w cs (reconcile_call h p now w d t) call_id c prior
        (rw calls (
          find_first-map (identified call_id) (with_unknown d.call_id r)
            (identified-with_unknown call_id d.call_id r) t.calls c e
          ∙ ap some (with_unknown-resolved d.call_id r prior c f)))
        f

  -- After a reconciliation no call of the run is unresolved, the ids returned are those of the
  -- unresolved calls with a terminal verdict, in their order, a call that had a result is stored
  -- as it was, and the provider's world is the same.
  pub reconcile_run_resolves :
      (now : ℕ) (run_id : String) (s : State W)
      → let (ids, s') = reconcile_run h p now run_id s in
        (list_unreconciled_calls s'.tables.calls run_id ≡ [])
        × (ids
            ≡ map
                (λ (c : ToolCall). c.call_id)
                (select
                  (λ c. is_terminal (verdict_of h p s.world c))
                  (list_unreconciled_calls s.tables.calls run_id)))
        × ((call_id : String) (c : ToolCall) (prior : ToolResult)
            → get_tool_call s.tables.calls call_id ≡ some c
            → c.result ≡ some prior
            → get_tool_call s'.tables.calls call_id ≡ some c)
        × (s'.world ≡ s.world)
  unfolding reconcile_run
  reconcile_run_resolves now run_id s =
      let cs = list_unreconciled_calls s.tables.calls run_id in
      (
        pending-reconcile_calls now s.world run_id cs s.tables
            ∙ without_all-Covered cs cs (Covered-refl cs),
        resolved-reconcile_calls now s.world cs s.tables,
        λ call_id c prior e f. stored-reconcile_calls now s.world cs s.tables call_id c prior e f,
        refl,
      )
