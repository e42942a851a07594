-- ===== src/Broker/History.antt =====
-- Histories of calls of src/adaptive_agent/broker.py on one store.
use adaptive_agent.Prelude.{ℕ, Bool, String, Option, none, some, List, [], ◌∷◌, ◌≡◌, refl}
use adaptive_agent.Json.Number.{ℤ}
use adaptive_agent.Models.Tools.{ToolRequest}
use adaptive_agent.Environment.Registry.{Registry}
use adaptive_agent.Store.ToolCalls.{Approval, Tables, issue_approval}
use adaptive_agent.Broker.Capability.{Capability}
use adaptive_agent.Broker.Dispatch.{Clock, Host, Provider, State}
use adaptive_agent.Broker.Request.{request_tool_call}
use adaptive_agent.Broker.Reconcile.{reconcile_run}

pub data Event : Type 0 where
  requests : Clock → String → ToolRequest → Capability → Option ℤ → Bool → Event
  reconciles : ℕ → String → Event
  issues : Approval → Event

module _ {W : Type 0} (h : Host) (p : Provider W) (registry : Registry) where
  issued : State W → Option Tables → State W
  issued s none = s
  issued s (some t) = record s { tables = t }

  -- An IntegrityError of `issue_approval` leaves the tables as they were.
  pub step : State W → Event → State W
  unfolding issued
  step s (requests clock env_id request cap budget dry) =
      (request_tool_call h p registry clock env_id request cap budget dry s).1
  step s (reconciles now run_id) = (reconcile_run h p now run_id s).1
  step s (issues a) = issued s (issue_approval a s.tables)

  pub run : State W → List Event → State W
  run s [] = s
  run s (e ∷ es) = run (step s e) es

  -- An invariant of the tables that every operation keeps holds after any history.
  pub run_induction {ℓ} :
      (P : Tables → Type ℓ)
      → ((s : State W) (clock : Clock) (env_id : String) (request : ToolRequest) (cap : Capability)
            (budget : Option ℤ) (dry : Bool)
          → P s.tables
          → P (request_tool_call h p registry clock env_id request cap budget dry s).1.tables)
      → ((s : State W) (now : ℕ) (run_id : String)
          → P s.tables
          → P (reconcile_run h p now run_id s).1.tables)
      → ((a : Approval) (t : Tables) → P t → (t' : Tables) → issue_approval a t ≡ some t' → P t')
      → (events : List Event) (s : State W) → P s.tables
      → P (run s events).tables
  unfolding run step issued
  run_induction P on_request on_reconcile on_issue [] s v = v
  run_induction P on_request on_reconcile on_issue
        (requests clock env_id request cap budget dry ∷ es) s v =
      run_induction P on_request on_reconcile on_issue es _
        (on_request s clock env_id request cap budget dry v)
  run_induction P on_request on_reconcile on_issue (reconciles now run_id ∷ es) s v =
      run_induction P on_request on_reconcile on_issue es _ (on_reconcile s now run_id v)
  run_induction P on_request on_reconcile on_issue (issues a ∷ es) s v =
      run_induction P on_request on_reconcile on_issue es _
        (issued_keeps (issue_approval a s.tables) refl)
    where
      issued_keeps : (o : Option Tables) → issue_approval a s.tables ≡ o → P (issued s o).tables
      issued_keeps none e = v
      issued_keeps (some t) e = on_issue a s.tables v t e
