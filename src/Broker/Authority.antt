-- ===== src/Broker/Authority.antt =====
-- When `request_tool_call` of src/adaptive_agent/broker.py lets a provider act.
use adaptive_agent.Prelude.{
  ℕ, Bool, true, false, String, Option, none, some, ◌≡◌, ◌⊎◌, ◌≤◌, refl, arith, inl, inr, subst,
}
use adaptive_agent.Json.Number.{ℤ}
use adaptive_agent.Models.Refs.{EffectClass, read, write, ToolSchema}
use adaptive_agent.Models.Tools.{ToolRequest}
use adaptive_agent.Environment.Registry.{Registry, get_tool_schema, validate_arguments}
use adaptive_agent.Environment.Schema.Keywords.{valid}
use adaptive_agent.Store.ToolCalls.{
  ToolCall, Approval, Tables, find_approval, matches, get_tool_call_by_idempotency,
  consume_approval_and_prepare, prepared, Prepared, conflict, integrity_error, duplicate,
}
use adaptive_agent.Store.ToolCalls
use adaptive_agent.Store.ToolCalls.Laws.{Consumption, Consumption-of_prepared}
use adaptive_agent.Broker.Keeps.{tables-prepared_write}
use adaptive_agent.Broker.Capability.{Capability, covered, covers}
use adaptive_agent.Broker.Dispatch.{
  Clock, Host, Provider, State, Admission, admitted, denied, crashed_admission, admit, exhausted,
  replay, Next, go, replayed, stop, broken, prepare, prepare_approved, prepared_write, call_of,
}
use adaptive_agent.Broker.Request.{
  request_tool_call, after_admit, after_replay, execute, continue, run_provider,
}

-- What `admit` has checked when it admits a call.
pub record Admitted (h : Host) (registry : Registry) (now : ℕ) (env_id : String)
    (request : ToolRequest) (cap : Capability) (budget : Option ℤ) (schema : ToolSchema)
    : Type 0 where
  pub registered : get_tool_schema registry env_id request.tool ≡ some schema
  pub authorized : covers h.search now cap env_id request schema ≡ covered
  pub well_typed : validate_arguments h.search h.multiple schema request.arguments ≡ valid
  pub in_budget : exhausted budget ≡ false

module _ (h : Host) (registry : Registry) (now : ℕ) (env_id : String) (request : ToolRequest)
    (cap : Capability) (budget : Option ℤ) where
  pub Admitted-of_admit :
      (schema : ToolSchema)
      → admit h registry now env_id request cap budget ≡ admitted schema
      → Admitted h registry now env_id request cap budget schema
  unfolding admit
  Admitted-of_admit schema e = record {
    registered = ground arith;
    authorized = ground arith;
    well_typed = ground arith;
    in_budget = ground arith;
  }

-- The approval that a write has consumed.
abbrev pub Approved : Clock → String → ToolRequest → Tables → Type 0
Approved clock env_id request t =
    (token : String) × (a : Approval) × (request.approval_token ≡ some token)
    × (find_approval t.approvals token ≡ some a)
    × (a.consumed ≡ false)
    × (clock.consumed ≤ a.expires_at)
    × (matches a (call_of env_id request) ≡ true)

prepared_of_go : (r : Prepared × Tables) → (prepared_write r).0 ≡ go tt → r.0 ≡ prepared
unfolding prepared_write
prepared_of_go (prepared, t) h = refl
prepared_of_go (conflict, t) h = cc
prepared_of_go (integrity_error, t) h = cc
prepared_of_go (ToolCalls.invalid, t) h = cc
prepared_of_go (duplicate, t) h = cc

prepared_of_approved :
    (now : ℕ) (token : String) (c : ToolCall) (t : Tables)
    → (prepare_approved now (some token) c t).0 ≡ go tt
    → (consume_approval_and_prepare now token c t).0 ≡ prepared
unfolding prepare_approved
prepared_of_approved now token c t h =
    ground (arith, prepared_of_go (consume_approval_and_prepare now token c t))

tables_of_approved :
    (now : ℕ) (token : String) (c : ToolCall) (t : Tables)
    → (prepare_approved now (some token) c t).0 ≡ go tt
    → (prepare_approved now (some token) c t).1 ≡ (consume_approval_and_prepare now token c t).1
unfolding prepare_approved
tables_of_approved now token c t h =
    ground (arith, tables-prepared_write (consume_approval_and_prepare now token c t))

-- A preparation that goes on has consumed the approval of the request's token.
pub Consumption-of_go :
    (now : ℕ) (o : Option String) (c : ToolCall) (t : Tables)
    → (prepare_approved now o c t).0 ≡ go tt
    → (token : String) × (o ≡ some token) × Consumption now token c t (prepare_approved now o c t).1
Consumption-of_go now none c t h = unfold prepare_approved in ground arith
Consumption-of_go now (some token) c t h = (
  token,
  refl,
  rw (tables_of_approved now token c t h)
      (Consumption-of_prepared now token c t (prepared_of_approved now token c t h)),
)

Approved-of_prepare :
    (clock : Clock) (existing : Bool) (env_id : String) (request : ToolRequest) (t : Tables)
    → (prepare clock.consumed write false existing env_id request t).0 ≡ go tt
    → Approved clock env_id request t
Approved-of_prepare clock existing env_id request t e =
    let (token, p, k) =
      Consumption-of_go clock.consumed request.approval_token (call_of env_id request) t
        (unfold prepare in e) in
    (token, k.approval, p, k.found, k.unused, k.timely, k.matching)

-- The checks of the stored calls: the call is new, or it is an unresolved read.
abbrev pub Unresolved : EffectClass → ToolRequest → Tables → Type 0
Unresolved effect request t =
    (c : ToolCall)
    → get_tool_call_by_idempotency t.calls request.run_id request.idempotency_key ≡ some c
    → (c.result ≡ none) × (effect ≡ read)

Unresolved-of_replay :
    (effect : EffectClass) (request : ToolRequest) (t : Tables) (existing : Bool)
    → replay effect t.calls request ≡ go existing
    → Unresolved effect request t
unfolding replay
Unresolved-of_replay effect request t existing h c e = (ground arith, ground arith)

-- All that has been checked when the provider acts on a request.
pub record Authorized {W : Type 0} (h : Host) (p : Provider W) (registry : Registry) (clock : Clock)
    (env_id : String) (request : ToolRequest) (cap : Capability) (budget : Option ℤ)
    (dry_run : Bool) (t : Tables) : Type 0 where
  pub schema : ToolSchema
  pub checks : Admitted h registry clock.checked env_id request cap budget schema
  pub real : dry_run ≡ false
  pub unresolved : Unresolved (p.effect request.tool) request t
  pub approved : schema.effect ≡ write → Approved clock env_id request t

module _ {W : Type 0} (h : Host) (p : Provider W) (registry : Registry) (clock : Clock)
    (env_id : String) (request : ToolRequest) where
  world-execute :
      (dry : Bool) (schema : ToolSchema) (s : State W)
      → ((execute h p registry clock dry schema request s).1.world ≡ s.world) ⊎ (dry ≡ false)
  unfolding execute run_provider
  world-execute true schema s = inl refl
  world-execute false schema s = inr refl

  pub world-continue :
      (dry : Bool) (schema : ToolSchema) (s : State W) (r : Next (Unit {0}) × Tables)
      → ((continue h p registry clock dry schema request s.world r).1.world ≡ s.world)
        ⊎ ((r.0 ≡ go tt) × (dry ≡ false))
  unfolding continue
  world-continue dry schema s (go u, t) =
      elim (world-execute dry schema (record { tables = t; world = s.world })) [
        | inl e ↦ inl e
        | inr d ↦ inr (refl, d)
      ]
  world-continue dry schema s (replayed r, t) = inl refl
  world-continue dry schema s (stop e, t) = inl refl
  world-continue dry schema s (broken, t) = inl refl

  -- What a call that reaches the provider has found.
  abbrev Reaches : Bool → ToolSchema → State W → Next Bool → Type 0
  Reaches dry schema s n =
      (existing : Bool) × (n ≡ go existing)
      × ((prepare clock.consumed schema.effect dry existing env_id request s.tables).0 ≡ go tt)
      × (dry ≡ false)

  world-after_replay :
      (dry : Bool) (schema : ToolSchema) (s : State W) (n : Next Bool)
      → ((after_replay h p registry clock env_id dry schema request s n).1.world ≡ s.world)
        ⊎ Reaches dry schema s n
  unfolding after_replay
  world-after_replay dry schema s (go existing) =
      elim (world-continue dry schema s
        (prepare clock.consumed schema.effect dry existing env_id request s.tables)) [
          | inl e ↦ inl e
          | inr (e, d) ↦ inr (existing, refl, e, d)
        ]
  world-after_replay dry schema s (replayed r) = inl refl
  world-after_replay dry schema s (stop e) = inl refl
  world-after_replay dry schema s broken = inl refl

  Approved-of_Reaches :
      (schema : ToolSchema) (s : State W) (existing : Bool)
      → (prepare clock.consumed schema.effect false existing env_id request s.tables).0 ≡ go tt
      → schema.effect ≡ write
      → Approved clock env_id request s.tables
  Approved-of_Reaches schema s existing g w =
      Approved-of_prepare clock existing env_id request s.tables (
        subst (λ c. (prepare clock.consumed c false existing env_id request s.tables).0 ≡ go tt) w
          g)

module _ {W : Type 0} (h : Host) (p : Provider W) (registry : Registry) (clock : Clock)
    (env_id : String) (request : ToolRequest) (cap : Capability) (budget : Option ℤ) (dry : Bool)
    (s : State W) where
  Authorized-of_admission :
      (a : Admission)
      → admit h registry clock.checked env_id request cap budget ≡ a
      → ((after_admit h p registry clock env_id request dry s a).1.world ≡ s.world)
        ⊎ Authorized h p registry clock env_id request cap budget dry s.tables
  unfolding after_admit
  Authorized-of_admission crashed_admission e = inl refl
  Authorized-of_admission (denied version x) e = inl refl
  Authorized-of_admission (admitted schema) e =
      elim (world-after_replay h p registry clock env_id request dry schema s
        (replay (p.effect request.tool) s.tables.calls request)) [
          | inl same ↦ inl same
          | inr (existing, r, g, d) ↦ inr (record {
            schema = schema;
            checks = Admitted-of_admit h registry clock.checked env_id request cap budget schema e;
            real = d;
            unresolved = Unresolved-of_replay (p.effect request.tool) request s.tables existing r;
            approved = Approved-of_Reaches h p registry clock env_id request schema s existing (
                subst
                  (λ b.
                    (prepare clock.consumed schema.effect b existing env_id request s.tables).0
                    ≡ go tt)
                  d g);
          })
        ]

  -- A call leaves the provider's world as it was, or everything was checked: the tool is
  -- registered, the capability covers the request, the arguments fit the schema, the budget is not
  -- exhausted, the call is no dry run, no result is stored under its run and key, a call stored
  -- there without a result is a read, and a write has an unused, unexpired approval for this run,
  -- tool, key and arguments.
  pub request_tool_call-Authorized :
      ((request_tool_call h p registry clock env_id request cap budget dry s).1.world ≡ s.world)
      ⊎ Authorized h p registry clock env_id request cap budget dry s.tables
  unfolding request_tool_call
  request_tool_call-Authorized =
      Authorized-of_admission (admit h registry clock.checked env_id request cap budget) refl
