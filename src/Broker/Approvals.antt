-- ===== src/Broker/Approvals.antt =====
-- One approval lets the broker of src/adaptive_agent/broker.py act once.
use adaptive_agent.Prelude.{
  ℕ, Bool, true, false, String, Option, some, List, [], ◌∷◌, ◌++◌, ◌≡◌, ◌⊎◌, refl, arith, ◌==◌, inl,
  inr, subst,
}
use adaptive_agent.Json.Number.{ℤ}
use adaptive_agent.Models.Refs.{EffectClass, read, write, ToolSchema}
use adaptive_agent.Models.Tools.{ToolRequest}
use adaptive_agent.Environment.Registry.{Registry, get_tool_schema}
use adaptive_agent.Store.ToolCalls.{
  ToolCall, Approval, Tables, unused, find_approval, save_tool_result, mark_call_outcome_unknown,
  issue_approval,
}
use adaptive_agent.Store.ToolCalls.Laws.{
  Spent, Consumption-Spent, Spent-Consumption, find_first-append_some,
}
use adaptive_agent.Broker.Capability.{Capability}
use adaptive_agent.Broker.Dispatch.{
  Clock, Host, Provider, State, prepare, prepare_approved, go, Next, replayed, stop, broken,
  Admission, admitted, denied, crashed_admission, admit, replay, call_of,
}
use adaptive_agent.Broker.Request.{request_tool_call, after_admit, after_replay}
use adaptive_agent.Broker.Authority.{
  Approved, request_tool_call-Authorized, Consumption-of_go, world-continue, Admitted-of_admit,
}
use adaptive_agent.Broker.Keeps.{Closed, run_keeps, continue_keeps}
use adaptive_agent.Broker.History.{Event, run}

approvals-issue :
    (a : Approval) (t t' : Tables)
    → issue_approval a t ≡ some t'
    → t'.approvals ≡ t.approvals ++ unused a ∷ []
unfolding issue_approval
approvals-issue a t t' e = ground arith

Spent-issue :
    (token : String) (a : Approval) (t t' : Tables)
    → issue_approval a t ≡ some t'
    → Spent token t
    → Spent token t'
unfolding find_approval
Spent-issue token a t t' e s = record {
  approval = s.approval;
  found = rw (approvals-issue a t t' e) (
      find_first-append_some (λ b. b.token == token) t.approvals (unused a ∷ []) s.approval
        s.found);
  consumed = s.consumed;
}

pub Spent-Closed : (token : String) → Closed (Spent token)
unfolding save_tool_result mark_call_outcome_unknown
Spent-Closed token = record {
  artifact = λ t a s. record { approval = s.approval; found = s.found; consumed = s.consumed };
  insert = λ c t e s. record { approval = s.approval; found = s.found; consumed = s.consumed };
  consumption = λ now other c t t' k s. Spent-Consumption s k;
  save = λ id r t s. record { approval = s.approval; found = s.found; consumed = s.consumed };
  mark = λ id r t s. record { approval = s.approval; found = s.found; consumed = s.consumed };
  issue = λ a t t' e s. Spent-issue token a t t' e s;
}

-- A preparation of a write that goes on has spent the token of the request.
Spent-of_approved :
    (now : ℕ) (o : Option String) (token : String) (c : ToolCall) (t : Tables)
    → o ≡ some token
    → (prepare_approved now o c t).0 ≡ go tt
    → Spent token (prepare_approved now o c t).1
Spent-of_approved now o token c t e g =
    let (used, same, k) = Consumption-of_go now o c t g in
    subst (λ x. Spent x (prepare_approved now o c t).1) (cc) (Consumption-Spent k)

Spent-of_prepare :
    (now : ℕ) (effect : EffectClass) (dry existing : Bool) (env_id token : String)
    (request : ToolRequest) (t : Tables)
    → effect ≡ write
    → dry ≡ false
    → request.approval_token ≡ some token
    → (prepare now effect dry existing env_id request t).0 ≡ go tt
    → Spent token (prepare now effect dry existing env_id request t).1
unfolding prepare
Spent-of_prepare now write false existing env_id token request t w d e g =
    Spent-of_approved now request.approval_token token (call_of env_id request) t e g
Spent-of_prepare now write true existing env_id token request t w d e g = cc
Spent-of_prepare now read dry existing env_id token request t w d e g = cc

module _ {W : Type 0} (h : Host) (p : Provider W) (registry : Registry) (clock : Clock)
    (env_id token : String) (request : ToolRequest)
    (own : request.approval_token ≡ some token) where
  spends_after_replay :
      (dry : Bool) (schema : ToolSchema) (s : State W) (n : Next Bool)
      → schema.effect ≡ write
      → ((after_replay h p registry clock env_id dry schema request s n).1.world ≡ s.world)
        ⊎ Spent token (after_replay h p registry clock env_id dry schema request s n).1.tables
  unfolding after_replay
  spends_after_replay dry schema s (go existing) w =
      let r = prepare clock.consumed schema.effect dry existing env_id request s.tables in
      elim (world-continue h p registry clock env_id request dry schema s r) [
        | inl same ↦ inl same
        | inr (g, d) ↦ inr (
            continue_keeps (Spent-Closed token) h p registry clock request dry schema s.world r (
              Spent-of_prepare clock.consumed schema.effect dry existing env_id token request
                s.tables w d own g))
      ]
  spends_after_replay dry schema s (replayed r) w = inl refl
  spends_after_replay dry schema s (stop e) w = inl refl
  spends_after_replay dry schema s broken w = inl refl

  spends_after_admit :
      (cap : Capability) (budget : Option ℤ) (dry : Bool) (schema : ToolSchema) (s : State W)
      (a : Admission)
      → get_tool_schema registry env_id request.tool ≡ some schema
      → schema.effect ≡ write
      → admit h registry clock.checked env_id request cap budget ≡ a
      → ((after_admit h p registry clock env_id request dry s a).1.world ≡ s.world)
        ⊎ Spent token (after_admit h p registry clock env_id request dry s a).1.tables
  unfolding after_admit
  spends_after_admit cap budget dry schema s crashed_admission r w e = inl refl
  spends_after_admit cap budget dry schema s (denied version x) r w e = inl refl
  spends_after_admit cap budget dry schema s (admitted found) r w e =
      spends_after_replay dry found s (replay (p.effect request.tool) s.tables.calls request) (
        cc (
          (Admitted-of_admit h registry clock.checked env_id request cap budget found
            e).registered))

-- A request for a write tool by an approval token, at some moment.
pub record Ask (registry : Registry) (token : String) : Type 0 where
  pub clock : Clock
  pub env_id : String
  pub request : ToolRequest
  pub cap : Capability
  pub budget : Option ℤ
  pub dry_run : Bool
  pub schema : ToolSchema
  pub own : request.approval_token ≡ some token
  pub registered : get_tool_schema registry env_id request.tool ≡ some schema
  pub writes : schema.effect ≡ write

module _ {W : Type 0} (h : Host) (p : Provider W) (registry : Registry) where
  abbrev pub ask : {token : String} → Ask registry token → State W → State W
  ask a s = (request_tool_call h p registry a.clock a.env_id a.request a.cap a.budget a.dry_run s).1

  -- A spent token lets no write through.
  Spent-world :
      {token : String} (a : Ask registry token) (s : State W)
      → Spent token s.tables
      → (ask a s).world ≡ s.world
  Spent-world a s spent =
      elim (request_tool_call-Authorized h p registry a.clock a.env_id a.request a.cap a.budget
        a.dry_run s) [
          | inl same ↦ same
          | inr k ↦ absurd (refuted (k.approved (cc (k.checks.registered, a.registered, a.writes))))
        ]
    where
      refuted : Approved a.clock a.env_id a.request s.tables → ⊥
      refuted (other, found, own, known, unused, timely, matching) =
          ground (arith, a.own, spent.found, spent.consumed)

  -- Two requests for write tools by one approval token: the first leaves the provider's world as
  -- it was, or the second does so, whatever calls, reconciliations and new approvals stand between
  -- them.
  pub approval_used_once :
      {token : String} (first second : Ask registry token) (s : State W)
      → ((ask first s).world ≡ s.world)
        ⊎ ((events : List Event)
            → let s' = run h p registry (ask first s) events in (ask second s').world ≡ s'.world)
  approval_used_once {token} first second s = elim (spends first s) [
    | inl same ↦ inl same
    | inr spent ↦ inr (λ events.
        Spent-world second _
          (run_keeps (Spent-Closed token) h p registry events (ask first s) spent))
  ]
    where
      spends :
          (a : Ask registry token) (s : State W)
          → ((ask a s).world ≡ s.world) ⊎ Spent token (ask a s).tables
      spends a s =
          unfold request_tool_call in
          spends_after_admit h p registry a.clock a.env_id token a.request a.own a.cap a.budget
            a.dry_run a.schema s
            (admit h registry a.clock.checked a.env_id a.request a.cap a.budget) a.registered
            a.writes refl
