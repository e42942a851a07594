-- ===== src/Broker/Fixtures.antt =====
-- Concrete values for the tests of the broker: an environment with a tool that reads and a tool
-- that writes, a provider that counts its executions, and requests.
use adaptive_agent.Prelude.{ℕ, true, false, none, some, [], ◌∷◌, ◌+◌, ◌==◌, if◌then◌else◌}
use adaptive_agent.Json.{boolean, int, str, obj, arr, nil, cons, Fields, end, field}
use adaptive_agent.Json.Number.{pos}
use adaptive_agent.Models.Refs.{ArtifactRef, read, write, ToolSchema, EnvironmentManifest}
use adaptive_agent.Models.Tools.{ToolRequest}
use adaptive_agent.Environment.Registry.{Registry}
use adaptive_agent.Store.ToolCalls.{Approval}
use adaptive_agent.Broker.Capability.{Capability}
use adaptive_agent.Broker.Dispatch.{Clock, Host, Provider, State, answer}

abbrev pub host : Host
host = record { search = λ p s. some true; multiple = λ x y. true; digest = λ r. r.call_id }

-- The world is the number of executions.
abbrev pub counter : Provider ℕ
counter = record {
  execute = λ w run_id tool arguments. (answer (field "n" (int (pos w)) end), w + 1);
  effect = λ tool. if tool == "pay" then write else read;
  version = λ tool. "1";
  reconcile = λ w run_id tool arguments key. "confirmed";
}

abbrev pub amounts : Fields
amounts = field "type" (str "object") (
    field "additionalProperties" (boolean false) (
      field "properties" (obj (field "amount" (obj (field "type" (str "integer") end)) end))
        (field "required" (arr (cons (str "amount") nil)) end)))

abbrev pub pay_schema : ToolSchema
pay_schema = record {
  name = "pay";
  version = "1";
  input_schema = obj amounts;
  output_schema = obj end;
  effect = write;
}

abbrev pub look_schema : ToolSchema
look_schema = record {
  name = "look";
  version = "1";
  input_schema = obj amounts;
  output_schema = obj end;
  effect = read;
}

abbrev pub reference : ArtifactRef
reference = record { id = "r"; version = "1"; sha256 = "aa" }

abbrev pub shop : EnvironmentManifest
shop = record {
  schema_version = 1;
  environment_id = "shop";
  version = "1";
  docs = reference ∷ [];
  tool_schemas = pay_schema ∷ look_schema ∷ [];
  policy_ref = reference;
  evaluator_ref = reference;
  reset_ref = reference;
  execution_modes = "interactive" ∷ [];
  capabilities = [];
}

abbrev pub registry : Registry
registry = shop ∷ []

abbrev pub clock : Clock
clock = record { checked = 5; consumed = 6; observed = 7 }

abbrev pub seven : Fields
seven = field "amount" (int (pos 7)) end

abbrev pub pay : ToolRequest
pay = record {
  run_id = "run";
  step_id = "s1";
  call_id = "c1";
  tool = "pay";
  arguments = seven;
  idempotency_key = "k1";
  approval_token = some "token";
}

abbrev pub look : ToolRequest
look = record pay { call_id = "c2"; tool = "look"; idempotency_key = "k2"; approval_token = none }

abbrev pub pay_cap : Capability
pay_cap = record {
  run_id = "run";
  environment_id = "shop";
  tool = "pay";
  effect = some write;
  resource_scope = end;
  expires_at = 100;
}

abbrev pub look_cap : Capability
look_cap = record pay_cap { tool = "look"; effect = some read }

abbrev pub approval : Approval
approval = record {
  token = "token";
  run_id = "run";
  environment_id = "shop";
  tool = "pay";
  idempotency_key = "k1";
  arguments = seven;
  consumed = false;
  consumed_call_id = none;
  expires_at = 50;
}

abbrev pub start : State ℕ
start = record {
  tables = record { calls = []; approvals = approval ∷ []; artifacts = [] };
  world = 0;
}
