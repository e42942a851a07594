-- ===== src/Broker/Repeat.antt =====
-- A call and its repetition under the same key, in src/adaptive_agent/broker.py.
use adaptive_agent.Prelude.{
  ℕ, Bool, false, String, Option, none, some, [], ◌∷◌, ◌++◌, ◌≡◌, ◌⊎◌, refl, arith, eq_refl, inl,
  inr, Bool-cases, subst, ap, sym, ◌∙◌,
}
use adaptive_agent.Json.Canonical.{sort_fields}
use adaptive_agent.Json.Number.{ℤ}
use adaptive_agent.Models.Refs.{EffectClass, ToolSchema}
use adaptive_agent.Models.Tools.{ToolRequest, ToolResult, ToolError}
use adaptive_agent.Environment.Registry.{Registry}
use adaptive_agent.Store.ToolCalls.{
  ToolCall, Tables, keyed, get_tool_call_by_idempotency, prepare_tool_call, with_result,
  save_tool_result,
}
use adaptive_agent.Store.ToolCalls.Laws.{
  find_first-append_none, find_first-map, keyed-with_result, consume_unchanged,
}
use adaptive_agent.Broker.Capability.{Capability}
use adaptive_agent.Broker.Dispatch.{
  Clock, Host, Provider, State, Reply, returned, Admission, admitted, denied, crashed_admission,
  admit, replay, Next, go, replayed, stop, broken, prepare, prepare_approved, prepare_plain,
  prepared_write, call_of, lost_race, needs_approval,
}
use adaptive_agent.Broker.Request.{
  request_tool_call, after_admit, after_replay, execute, refuse, continue, with_evidence,
  calls-with_evidence, error_result, result_of, run_provider,
}
use adaptive_agent.Broker.Authority.{Consumption-of_go}
use adaptive_agent.Broker.Replay.{SameContent, stored_result_replayed}

-- The row that a call prepares, with the approval that it consumed.
abbrev pub row : String → ToolRequest → Option String → ToolCall
row env_id request token = record (call_of env_id request) { approval_token = token }

-- The preparation has added the row to the calls.
abbrev pub Added : String → ToolRequest → Tables → Tables → Type 0
Added env_id request t t' =
    (token : Option String) × (t'.calls ≡ t.calls ++ row env_id request token ∷ [])

Added-by_prepare :
    (now : ℕ) (e : EffectClass) (dry : Bool) (env_id : String) (request : ToolRequest) (t : Tables)
    → get_tool_call_by_idempotency t.calls request.run_id request.idempotency_key ≡ none
    → (prepare now e dry false env_id request t).0 ≡ go tt
    → Added env_id request t (prepare now e dry false env_id request t).1
unfolding prepare
Added-by_prepare now e dry env_id request t absent g = elim (Bool-cases (needs_approval e dry)) [
  | inl y ↦ rw y (approved (rw y at g))
  | inr n ↦ rw n (plain (rw n at g))
]
  where
    approved :
        (prepare_approved now request.approval_token (call_of env_id request) t).0 ≡ go tt
        → Added env_id request t
            (prepare_approved now request.approval_token (call_of env_id request) t).1
    approved g' =
        let (token, own, k) =
          Consumption-of_go now request.approval_token (call_of env_id request) t g' in
        (some token, k.calls)

    plain :
        (prepare_plain false (call_of env_id request) request t).0 ≡ go tt
        → Added env_id request t (prepare_plain false (call_of env_id request) request t).1
    plain g' =
        (none, unfold prepare_plain prepare_tool_call lost_race call_of in ground (arith, absent))

-- The stored row of an executed call, found by its key.
stored_by_execute :
    (env_id : String) (request : ToolRequest) (t t' : Tables) (r : ToolResult)
    → get_tool_call_by_idempotency t.calls request.run_id request.idempotency_key ≡ none
    → Added env_id request t t'
    → (c : ToolCall) × (get_tool_call_by_idempotency
          (save_tool_result request.call_id r t').calls
          request.run_id
          request.idempotency_key
        ≡ some c)
      × (c.tool ≡ request.tool)
      × (c.arguments ≡ sort_fields request.arguments)
      × (c.result ≡ some r)
unfolding get_tool_call_by_idempotency save_tool_result call_of
stored_by_execute env_id request t t' r absent (token, added) =
    let x = row env_id request token in
    let key = keyed request.run_id request.idempotency_key in
    (
      with_result request.call_id r x,
      rw added (
          find_first-map key (with_result request.call_id r)
            (keyed-with_result request.run_id request.idempotency_key request.call_id r)
            (t.calls ++ x ∷ []) x
            (find_first-append_none key t.calls x absent
              (ground (arith, eq_refl request.run_id, eq_refl request.idempotency_key)))),
      ground (arith, eq_refl request.call_id),
      ground (arith, eq_refl request.call_id),
      ground (arith, eq_refl request.call_id),
    )

-- A preparation that stops leaves the calls as they were.
go_or_same :
    (now : ℕ) (e : EffectClass) (dry : Bool) (env_id : String) (request : ToolRequest) (t : Tables)
    → ((prepare now e dry false env_id request t).0 ≡ go tt)
      ⊎ ((prepare now e dry false env_id request t).1.calls ≡ t.calls)
unfolding prepare
go_or_same now e dry env_id request t = elim (Bool-cases (needs_approval e dry)) [
  | inl y ↦ rw y (approved request.approval_token)
  | inr n ↦ rw n plain
]
  where
    approved :
        (o : Option String)
        → ((prepare_approved now o (call_of env_id request) t).0 ≡ go tt)
          ⊎ ((prepare_approved now o (call_of env_id request) t).1.calls ≡ t.calls)
    approved none = inr (unfold prepare_approved in refl)
    approved (some token) =
        unfold prepare_approved prepared_write in
        ground (arith, consume_unchanged now token (call_of env_id request) t)

    plain :
        ((prepare_plain false (call_of env_id request) request t).0 ≡ go tt)
        ⊎ ((prepare_plain false (call_of env_id request) request t).1.calls ≡ t.calls)
    plain = unfold prepare_plain prepare_tool_call in ground arith

module _ {W : Type 0} (h : Host) (p : Provider W) (registry : Registry) (clock : Clock)
    (env_id : String) (request : ToolRequest) where
  calls-refuse :
      (version : String) (e : ToolError) (s : State W)
      → (refuse h p registry clock request version e s).1.tables.calls ≡ s.tables.calls
  unfolding refuse error_result
  calls-refuse version e s = calls-with_evidence h _ s.tables

  -- The outcome of a call whose key is new: nothing is recorded, or its result is stored.
  abbrev Settles : State W → Reply × State W → Type 0
  Settles s (reply, s') =
      (s'.tables.calls ≡ s.tables.calls)
      ⊎ ((r : ToolResult) × (c : ToolCall) × (reply ≡ returned r)
          × (get_tool_call_by_idempotency s'.tables.calls request.run_id request.idempotency_key
              ≡ some c)
          × SameContent c request
          × (c.result ≡ some r))

  Settles-by_execute :
      (dry : Bool) (schema : ToolSchema) (s : State W) (t' : Tables)
      → get_tool_call_by_idempotency s.tables.calls request.run_id request.idempotency_key ≡ none
      → Added env_id request s.tables t'
      → Settles s
          (execute h p registry clock dry schema request (record { tables = t'; world = s.world }))
  unfolding execute
  Settles-by_execute dry schema s t' absent (token, added) =
      let e = (run_provider h p registry dry request s.world).0 in
      let raw = result_of clock request.call_id schema.version (p.effect request.tool) e in
      let (c, found, tool, arguments, result) =
        stored_by_execute env_id request s.tables (with_evidence h raw t').1
          (with_evidence h raw t').0 absent (token, calls-with_evidence h raw t' ∙ added) in
      inr ((with_evidence h raw t').0, c, refl, found, (tool, arguments), result)

  Settles-by_continue :
      (dry : Bool) (schema : ToolSchema) (s : State W) (r : Next (Unit {0}) × Tables)
      → get_tool_call_by_idempotency s.tables.calls request.run_id request.idempotency_key ≡ none
      → (r.0 ≡ go tt → Added env_id request s.tables r.1)
      → (r.0 ≡ go tt) ⊎ (r.1.calls ≡ s.tables.calls)
      → Settles s (continue h p registry clock dry schema request s.world r)
  unfolding continue
  Settles-by_continue dry schema s (go u, t) absent added same =
      Settles-by_execute dry schema s t absent (added refl)
  Settles-by_continue dry schema s (replayed r, t) absent added (inl e) = cc
  Settles-by_continue dry schema s (replayed r, t) absent added (inr same) = inl same
  Settles-by_continue dry schema s (stop e, t) absent added (inl g) = cc
  Settles-by_continue dry schema s (stop e, t) absent added (inr same) =
      inl (calls-refuse schema.version e (record { tables = t; world = s.world }) ∙ same)
  Settles-by_continue dry schema s (broken, t) absent added (inl e) = cc
  Settles-by_continue dry schema s (broken, t) absent added (inr same) = inl same

  Settles-by_admit :
      (dry : Bool) (s : State W) (a : Admission)
      → get_tool_call_by_idempotency s.tables.calls request.run_id request.idempotency_key ≡ none
      → Settles s (after_admit h p registry clock env_id request dry s a)
  unfolding after_admit
  Settles-by_admit dry s crashed_admission absent = inl refl
  Settles-by_admit dry s (denied version e) absent = inl (calls-refuse version e s)
  Settles-by_admit dry s (admitted schema) absent =
      subst (λ n. Settles s (after_replay h p registry clock env_id dry schema request s n))
        (sym new)
        (unfold after_replay in
          Settles-by_continue dry schema s
            (prepare clock.consumed schema.effect dry false env_id request s.tables) absent
            (Added-by_prepare clock.consumed schema.effect dry env_id request s.tables absent)
            (go_or_same clock.consumed schema.effect dry env_id request s.tables))
    where
      new : replay (p.effect request.tool) s.tables.calls request ≡ go false
      new = unfold replay in ground (arith, absent)

-- A repetition of a request: the same run, key, tool and arguments, admitted at its moment, under
-- any call id, step, approval, capability and budget.
pub record Repetition (h : Host) (registry : Registry) (request : ToolRequest) : Type 0 where
  pub clock : Clock
  pub env_id : String
  pub again : ToolRequest
  pub cap : Capability
  pub budget : Option ℤ
  pub dry_run : Bool
  pub schema : ToolSchema
  pub same_run : again.run_id ≡ request.run_id
  pub same_key : again.idempotency_key ≡ request.idempotency_key
  pub same_tool : again.tool ≡ request.tool
  pub same_arguments : again.arguments ≡ request.arguments
  pub admission : admit h registry clock.checked env_id again cap budget ≡ admitted schema

module _ {W : Type 0} (h : Host) (p : Provider W) (registry : Registry) where
  abbrev pub repeat_request :
      {request : ToolRequest} → Repetition h registry request → State W → Reply × State W
  repeat_request x s =
      request_tool_call h p registry x.clock x.env_id x.again x.cap x.budget x.dry_run s

  -- A request under a new key either records no call, or every repetition returns its result under
  -- the call id of the repetition and changes neither the tables nor the provider's world.
  pub Repetition-replayed :
      (clock : Clock) (env_id : String) (request : ToolRequest) (cap : Capability)
      (budget : Option ℤ) (dry : Bool) (s : State W)
      → get_tool_call_by_idempotency s.tables.calls request.run_id request.idempotency_key ≡ none
      → let (reply, s') = request_tool_call h p registry clock env_id request cap budget dry s in
        (s'.tables.calls ≡ s.tables.calls)
        ⊎ ((r : ToolResult) × (reply ≡ returned r)
            × ((x : Repetition h registry request)
                → repeat_request x s' ≡ (returned (record r { call_id = x.again.call_id }), s')))
  unfolding request_tool_call
  Repetition-replayed clock env_id request cap budget dry s absent =
      elim (Settles-by_admit h p registry clock env_id request dry s
        (admit h registry clock.checked env_id request cap budget) absent) [
          | inl same ↦ inl same
          | inr (r, c, e, found, (tool, arguments), result) ↦ inr (
            r,
            e,
            λ x.
                stored_result_replayed h p registry x.clock x.env_id x.again x.cap x.budget
                  x.dry_run _ x.schema x.admission c (rw (x.same_run, x.same_key) found) r
                  (tool ∙ sym x.same_tool, arguments ∙ ap sort_fields (sym x.same_arguments))
                  result,
          )
        ]
