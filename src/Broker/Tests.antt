-- ===== src/Broker/Tests.antt =====
-- Runs of the broker of src/adaptive_agent/broker.py on concrete requests.
use adaptive_agent.Prelude.{
  ℕ, false, String, none, some, List, [], ◌∷◌, ◌≡◌, refl, sym, ◌⊎◌, select, map,
}
use adaptive_agent.Json.{int, obj, end, field, get, has, count, as_number, same_text_refl}
use adaptive_agent.Json.Number.{pos, lt, le, same}
use adaptive_agent.Json.Canonical.{insert_key, sort_fields, sort_keys}
use adaptive_agent.Models.Tools.{
  ToolRequest, ToolResult, outcome_unknown, after_reconciliation, idempotency_conflict,
}
use adaptive_agent.Environment.Schema.{validate_value}
use adaptive_agent.Environment.Schema.Keywords.{typed, numeric, textual, sequence, mapping, iterate}
use adaptive_agent.Environment.Registry.{get_manifest, get_tool_schema, validate_arguments}
use adaptive_agent.Store.ToolCalls.{
  ToolCall, get_tool_call, get_tool_call_by_idempotency, collides, consume_approval_and_prepare,
  find_approval, matches, prepare_tool_call, put_artifact, save_tool_result,
  list_unreconciled_calls,
}
use adaptive_agent.Broker.Fixtures.{
  host, counter, registry, clock, pay, look, pay_cap, look_cap, start, pay_schema, look_schema,
  approval, seven,
}
use adaptive_agent.Broker.Capability.{covers, scope_ok}
use adaptive_agent.Broker.Dispatch.{
  State, returned, admitted, admit, exhausted, call_of, lost_race, prepare, prepare_approved,
  prepare_plain, prepared_write, replay, fail_with,
}
use adaptive_agent.Broker.Request.{
  request_tool_call, after_admit, after_replay, continue, dry_outcome, error_result, execute,
  pending_result, refuse, result_of, run_provider, with_evidence,
}
use adaptive_agent.Broker.Reconcile.{verdict_of, is_terminal, reconcile_run}
use adaptive_agent.Broker.History.{Event, requests, reconciles, issues, run}
use adaptive_agent.Broker.Authority.{Authorized, request_tool_call-Authorized}
use adaptive_agent.Broker.Approvals.{Ask, ask, approval_used_once}
use adaptive_agent.Broker.Repeat.{Repetition, repeat_request, Repetition-replayed}
use adaptive_agent.Broker.Replay.{
  RefusedWith, stored_result_replayed, other_content_refused, unresolved_write_refused,
}
use adaptive_agent.Broker.Reconcile.Laws.{reconcile_run_resolves}
use adaptive_agent.Broker.Keys.{Unique, run-Unique}
use adaptive_agent.Broker.Reread.{reread_not_stored}

pay_admitted : admit host registry 5 "shop" pay pay_cap none ≡ admitted pay_schema
unfolding get_tool_schema covers scope_ok validate_arguments validate_value get typed numeric
    textual sequence mapping iterate has exhausted get_manifest admit same as_number count le lt
pay_admitted = refl

look_admitted : admit host registry 5 "shop" look look_cap none ≡ admitted look_schema
unfolding get_tool_schema covers scope_ok validate_arguments validate_value get typed numeric
    textual sequence mapping iterate has exhausted get_manifest admit same as_number count le lt
look_admitted = refl

pay_acts :
    (request_tool_call host counter registry clock "shop" pay pay_cap none false start).1.world ≡ 1
unfolding get_tool_schema covers scope_ok validate_arguments validate_value get typed numeric
    textual sequence mapping iterate has exhausted get_manifest admit same as_number count le lt
    request_tool_call get_tool_call_by_idempotency call_of lost_race prepare prepare_approved
    prepare_plain prepared_write after_admit after_replay continue dry_outcome error_result execute
    pending_result refuse result_of run_provider with_evidence insert_key sort_fields sort_keys
    collides consume_approval_and_prepare find_approval matches prepare_tool_call put_artifact
    save_tool_result replay
pay_acts = rw (same_text_refl (obj seven)) refl

look_acts :
    (request_tool_call host counter registry clock "shop" look look_cap none false start).1.world
    ≡ 1
unfolding get_tool_schema covers scope_ok validate_arguments validate_value get typed numeric
    textual sequence mapping iterate has exhausted get_manifest admit same as_number count le lt
    request_tool_call get_tool_call_by_idempotency call_of lost_race prepare prepare_approved
    prepare_plain prepared_write after_admit after_replay continue dry_outcome error_result execute
    pending_result refuse result_of run_provider with_evidence insert_key sort_fields sort_keys
    collides consume_approval_and_prepare find_approval matches prepare_tool_call put_artifact
    save_tool_result replay
look_acts = refl

pay_known : get_tool_schema registry "shop" "pay" ≡ some pay_schema
unfolding get_tool_schema get_manifest
pay_known = refl

request_tool_call-Authorized_example :
    ((request_tool_call host counter registry clock "shop" pay pay_cap none false start).1.world
      ≡ 0)
    ⊎ Authorized host counter registry clock "shop" pay pay_cap none false start.tables
request_tool_call-Authorized_example =
    request_tool_call-Authorized host counter registry clock "shop" pay pay_cap none false start

abbrev ask_pay : Ask registry "token"
ask_pay = record {
  clock = clock;
  env_id = "shop";
  request = pay;
  cap = pay_cap;
  budget = none;
  dry_run = false;
  schema = pay_schema;
  own = refl;
  registered = pay_known;
  writes = refl;
}

abbrev ask_again : Ask registry "token"
ask_again = record {
  clock = clock;
  env_id = "shop";
  request = record pay { call_id = "c9"; idempotency_key = "k9" };
  cap = pay_cap;
  budget = none;
  dry_run = false;
  schema = pay_schema;
  own = refl;
  registered = pay_known;
  writes = refl;
}

approval_used_once_example :
    ((ask host counter registry ask_pay start).world ≡ 0)
    ⊎ ((events : List Event)
        → let s' = run host counter registry (ask host counter registry ask_pay start) events in
          (ask host counter registry ask_again s').world ≡ s'.world)
approval_used_once_example = approval_used_once host counter registry ask_pay ask_again start

Repetition-replayed_example :
    let (reply, s') =
      request_tool_call host counter registry clock "shop" pay pay_cap none false start in
    (s'.tables.calls ≡ [])
    ⊎ ((r : ToolResult) × (reply ≡ returned r)
        × ((x : Repetition host registry pay)
            → repeat_request host counter registry x s'
              ≡ (returned (record r { call_id = x.again.call_id }), s')))
Repetition-replayed_example =
    Repetition-replayed host counter registry clock "shop" pay pay_cap none false start
      (unfold get_tool_call_by_idempotency in refl)

-- A stored call of the request, without a result and with one.
abbrev open_pay : ToolCall
open_pay = record {
  call_id = "c0";
  run_id = "run";
  step_id = "s0";
  environment_id = "shop";
  tool = "pay";
  arguments = seven;
  idempotency_key = "k1";
  approval_token = some "token";
  result = none;
  effect = none;
}

abbrev answered : ToolResult
answered = unfold pending_result in pending_result clock "c0" "1"

abbrev done_pay : ToolCall
done_pay = record open_pay { result = some answered }

abbrev holding : ToolCall → State ℕ
holding c = record start { tables = record start.tables { calls = c ∷ [] } }

seven_sorted : sort_fields seven ≡ seven
unfolding sort_fields insert_key sort_keys
seven_sorted = refl

stored_result_replayed_example :
    request_tool_call host counter registry clock "shop" pay pay_cap none false (holding done_pay)
    ≡ (returned (record answered { call_id = "c1" }), holding done_pay)
stored_result_replayed_example =
    stored_result_replayed host counter registry clock "shop" pay pay_cap none false
      (holding done_pay) pay_schema pay_admitted done_pay
      (unfold get_tool_call_by_idempotency in refl) answered (refl, sym seven_sorted) refl

-- Another request under the same run and key.
abbrev other_pay : ToolRequest
other_pay = record pay { arguments = field "amount" (int (pos 8)) end }

abbrev other_look : ToolRequest
other_look = record look { idempotency_key = "k1" }

other_look_admitted : admit host registry 5 "shop" other_look look_cap none ≡ admitted look_schema
unfolding get_tool_schema covers scope_ok validate_arguments validate_value get typed numeric
    textual sequence mapping iterate has exhausted get_manifest admit same as_number count le lt
other_look_admitted = refl

other_content_refused_example : RefusedWith (fail_with idempotency_conflict) (holding done_pay) (
    request_tool_call host counter registry clock "shop" other_look look_cap none false
      (holding done_pay))
other_content_refused_example =
    other_content_refused host counter registry clock "shop" other_look look_cap none false
      (holding done_pay) look_schema other_look_admitted done_pay
      (unfold get_tool_call_by_idempotency in refl) (λ same. cc (same.0))

unresolved_write_refused_example :
    RefusedWith
      (record { code = outcome_unknown; retry = after_reconciliation })
      (holding open_pay)
      (request_tool_call host counter registry clock "shop" pay pay_cap none false
        (holding open_pay))
unresolved_write_refused_example =
    unresolved_write_refused host counter registry clock "shop" pay pay_cap none false
      (holding open_pay) pay_schema pay_admitted open_pay
      (unfold get_tool_call_by_idempotency in refl) (refl, sym seven_sorted) refl refl

reconcile_run_resolves_example :
    let (ids, s') = reconcile_run host counter 8 "run" (holding open_pay) in
    (list_unreconciled_calls s'.tables.calls "run" ≡ [])
    × (ids
        ≡ map
            (λ (c : ToolCall). c.call_id)
            (select
              (λ c. is_terminal (verdict_of host counter 0 c))
              (list_unreconciled_calls (open_pay ∷ []) "run")))
    × ((call_id : String) (c : ToolCall) (prior : ToolResult)
        → get_tool_call (open_pay ∷ []) call_id ≡ some c
        → c.result ≡ some prior
        → get_tool_call s'.tables.calls call_id ≡ some c)
    × (s'.world ≡ 0)
reconcile_run_resolves_example = reconcile_run_resolves host counter 8 "run" (holding open_pay)

abbrev history : List Event
history =
    requests clock "shop" pay pay_cap none false
    ∷ reconciles 9 "run"
    ∷ issues (record approval { token = "next" })
    ∷ requests clock "shop" look look_cap none false
    ∷ []

run-Unique_example : Unique (run host counter registry start history).tables.calls
run-Unique_example = run-Unique host counter registry history start tt

abbrev open_look : ToolCall
open_look = record {
  call_id = "c0";
  run_id = "run";
  step_id = "s0";
  environment_id = "shop";
  tool = "look";
  arguments = seven;
  idempotency_key = "k2";
  approval_token = none;
  result = none;
  effect = none;
}

reread_not_stored_example :
    let s' =
      (request_tool_call host counter registry clock "shop" look look_cap none false
        (holding open_look)).1 in
    (s'.tables.calls ≡ open_look ∷ []) × (s'.world ≡ 1)
reread_not_stored_example =
    reread_not_stored host counter registry clock "shop" look (holding open_look) look_cap none
      look_schema open_look look_admitted refl refl (unfold get_tool_call_by_idempotency in refl)
      (refl, sym seven_sorted) refl refl
