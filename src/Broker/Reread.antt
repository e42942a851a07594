-- ===== src/Broker/Reread.antt =====
-- A read that is executed again, in src/adaptive_agent/broker.py.
use adaptive_agent.Prelude.{
  true, false, String, Option, none, some, List, [], ◌∷◌, map, ◌≡◌, refl, arith, any,
}
use adaptive_agent.Json.Number.{ℤ}
use adaptive_agent.Models.Refs.{read, ToolSchema}
use adaptive_agent.Models.Tools.{ToolRequest, ToolResult}
use adaptive_agent.Environment.Registry.{Registry}
use adaptive_agent.Store.ToolCalls.{
  ToolCall, keyed, identified, get_tool_call_by_idempotency, collides, prepare_tool_call,
  with_result, save_tool_result,
}
use adaptive_agent.Store.ToolCalls.Laws.{any-true_of_find}
use adaptive_agent.Broker.Capability.{Capability}
use adaptive_agent.Broker.Dispatch.{
  Clock, Host, Provider, State, admitted, admit, go, prepare, prepare_plain, call_of,
}
use adaptive_agent.Broker.Request.{
  request_tool_call, after_replay, continue, execute, run_provider, with_evidence,
  calls-with_evidence, result_of,
}
use adaptive_agent.Broker.Replay.{SameContent, replay_unresolved_read, by_replay}

map-with_result_absent :
    (call_id : String) (r : ToolResult) (calls : List ToolCall)
    → any (identified call_id) calls ≡ false
    → map (with_result call_id r) calls ≡ calls
map-with_result_absent call_id r [] h = refl
map-with_result_absent call_id r (c ∷ cs) h = ground (arith, map-with_result_absent call_id r cs)

module _ {W : Type 0} (h : Host) (p : Provider W) (registry : Registry) (clock : Clock)
    (env_id : String) (request : ToolRequest) (s : State W) where
  calls_of_execute :
      (schema : ToolSchema)
      → any (identified request.call_id) s.tables.calls ≡ false
      → (execute h p registry clock false schema request s).1.tables.calls ≡ s.tables.calls
  unfolding execute save_tool_result
  calls_of_execute schema new =
      let e = (run_provider h p registry false request s.world).0 in
      let raw = result_of clock request.call_id schema.version (p.effect request.tool) e in
      rw (calls-with_evidence h raw s.tables)
        (map-with_result_absent request.call_id (with_evidence h raw s.tables).0 s.tables.calls new)

  world_of_execute :
      (schema : ToolSchema)
      → (execute h p registry clock false schema request s).1.world
        ≡ (p.execute s.world request.run_id request.tool request.arguments).1
  unfolding execute run_provider
  world_of_execute schema = refl

  prepare_stored :
      (schema : ToolSchema) (c : ToolCall)
      → get_tool_call_by_idempotency s.tables.calls request.run_id request.idempotency_key ≡ some c
      → schema.effect ≡ read
      → prepare clock.consumed schema.effect false true env_id request s.tables ≡ (go tt, s.tables)
  unfolding prepare prepare_plain prepare_tool_call collides call_of get_tool_call_by_idempotency
  prepare_stored schema c stored r = ground (
    arith,
    any-true_of_find (keyed request.run_id request.idempotency_key) s.tables.calls c stored,
    r,
  )

  -- An admitted read whose key is stored with the same content and without a result, and that
  -- comes under a new call id, is executed again, and the stored calls stay as they were.
  pub reread_not_stored :
      (cap : Capability) (budget : Option ℤ) (schema : ToolSchema) (c : ToolCall)
      → admit h registry clock.checked env_id request cap budget ≡ admitted schema
      → schema.effect ≡ read
      → p.effect request.tool ≡ read
      → get_tool_call_by_idempotency s.tables.calls request.run_id request.idempotency_key ≡ some c
      → SameContent c request
      → c.result ≡ none
      → any (identified request.call_id) s.tables.calls ≡ false
      → let s' = (request_tool_call h p registry clock env_id request cap budget false s).1 in
        (s'.tables.calls ≡ s.tables.calls)
        × (s'.world ≡ (p.execute s.world request.run_id request.tool request.arguments).1)
  unfolding after_replay continue
  reread_not_stored cap budget schema c admission r w stored same unresolved new =
      rw
        (
          by_replay h p registry clock env_id request cap budget false s schema admission c stored
              (go true)
              (replay_unresolved_read h p registry clock env_id request cap budget false s schema
                admission c stored same unresolved w),
          prepare_stored schema c stored r,
        )
        (calls_of_execute schema new, world_of_execute schema)
