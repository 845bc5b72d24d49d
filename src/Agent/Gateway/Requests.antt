-- ===== src/Agent/Gateway/Requests.antt =====
-- Every request to the gateway keeps every session saved.
use alpilab_ai.Base.{ℕ, String, Bool, true, false, Option, none, some, List, [], ◌∷◌, if_rule}
use alpilab_ai.Base.Exec.{Result}
use alpilab_ai.Base.Platform.{Platform}
use alpilab_ai.Base.Json.{Fields}
use alpilab_ai.Realtime.Payloads.{Error}
use alpilab_ai.Realtime.DeviceContext.{truthy}
use alpilab_ai.Realtime.Manager.{Manager, uuid4, utc_now}
use alpilab_ai.Realtime.Manager.Durability.{IsDurable}
use alpilab_ai.Agent.Payloads.{Registration, ResultEnvelope, InboundResult, CommandEnvelope}
use alpilab_ai.Agent.Registry.{RegisteredAgent, find_agent}
use alpilab_ai.Agent.Gateway.{
  Server, register_agent, unregister_agent, heartbeat, emit_tool_audit, send_to_agent,
  is_command_allowed,
}
use alpilab_ai.Agent.Gateway.Commands.{
  send_agent_test, test_found, or_uuid, execute_uncached, execute_found, send_tool_execute,
  handle_inbound_command_request, command_found,
}
use alpilab_ai.Agent.Gateway.ResultMessages.{
  or_now, handle_test_result, test_result_named, handle_tool_execute_result, tool_result_named,
  take_result,
}
use alpilab_ai.Agent.Gateway.Durable.{
  announced, register_agent-IsDurable, unregister_agent-IsDurable, heartbeat-IsDurable,
}

pub data Request : Type 0 where
  register : Registration → ℕ → Request
  unregister : String → Request
  beat : String → Request
  test : String → Request
  execute : String → String → Fields → Option String → Option String → Request
  test_result : InboundResult → Request
  tool_result : InboundResult → Request
  inbound : CommandEnvelope → Request

module _ (p : Platform) where
  -- the server after a request for a session
  unfoldable pub serve : String → Request → Server → Server
  serve sid (register r channel) srv = (register_agent p sid r channel srv).1
  serve sid (unregister agent_id) srv = unregister_agent p sid agent_id srv
  serve sid (beat agent_id) srv = (heartbeat p sid agent_id srv).1
  serve sid (test agent_id) srv = (send_agent_test p sid agent_id srv).1
  serve sid (execute agent_id tool_id arguments r c) srv =
      (send_tool_execute p sid agent_id tool_id arguments r c srv).1
  serve sid (test_result msg) srv = (handle_test_result p sid msg srv).1
  serve sid (tool_result msg) srv = (handle_tool_execute_result p sid msg srv).1
  serve sid (inbound c) srv = (handle_inbound_command_request p sid c srv).1

  unfoldable pub serve_all : List (String × Request) → Server → Server
  serve_all [] srv = srv
  serve_all ((sid, r) ∷ rs) srv = serve_all rs (serve sid r srv)

  uuid-IsDurable : (o : Option String) (m : Manager) → IsDurable m → IsDurable (or_uuid p o m).1
  unfolding uuid4
  uuid-IsDurable none m h = record { at = h.at }
  uuid-IsDurable (some id) m h = h

  now-IsDurable : (o : Option ℕ) (m : Manager) → IsDurable m → IsDurable (or_now p o m).1
  unfolding utc_now
  now-IsDurable none m h = record { at = h.at }
  now-IsDurable (some t) m h = h

  test-IsDurable :
      (agent_id : String) (o : Option RegisteredAgent) (srv : Server)
      → IsDurable srv.manager
      → IsDurable (test_found p agent_id o srv).1.manager
  unfolding uuid4 utc_now send_to_agent
  test-IsDurable agent_id none srv h = h
  test-IsDurable agent_id (some a) srv h = record { at = h.at }

  uncached-IsDurable :
      (sid aid tid : String) (args : Fields) (r c : String) (a : RegisteredAgent)
      (old : Option ResultEnvelope) (srv : Server)
      → IsDurable srv.manager
      → IsDurable (execute_uncached p sid aid tid args r c a old srv).1.manager
  unfolding utc_now send_to_agent emit_tool_audit
  uncached-IsDurable sid aid tid args r c a (some old) srv h = record { at = h.at }
  uncached-IsDurable sid aid tid args r c a none srv h =
      announced p sid _ _ _ _ _ (record { at = h.at })

  execute-IsDurable :
      (sid aid tid : String) (args : Fields) (r c : Option String) (o : Option RegisteredAgent)
      (srv : Server)
      → IsDurable srv.manager
      → IsDurable (execute_found p sid aid tid args r c o srv).1.manager
  execute-IsDurable sid aid tid args r c none srv h = h
  execute-IsDurable sid aid tid args r c (some a) srv h =
      uncached-IsDurable sid aid tid args _ _ a _ _
        (uuid-IsDurable (truthy c) _ (uuid-IsDurable (truthy r) srv.manager h))

  test_result-IsDurable :
      (sid : String) (msg : InboundResult) (a r : Option String) (srv : Server)
      → IsDurable srv.manager
      → IsDurable (test_result_named p sid msg a r srv).1.manager
  test_result-IsDurable sid msg none r srv h = h
  test_result-IsDurable sid msg (some a) none srv h = h
  test_result-IsDurable sid msg (some a) (some r) srv h =
      announced p sid _ _ _ _ _ (now-IsDurable msg.timestamp srv.manager h)

  taken-IsDurable :
      (sid : String) (r : ResultEnvelope) (b : Bool) (m : Manager)
      → IsDurable m
      → IsDurable (take_result p sid r b m)
  unfolding take_result emit_tool_audit
  taken-IsDurable sid r true m h = announced p sid _ _ _ _ _ (announced p sid _ _ _ _ m h)
  taken-IsDurable sid r false m h = announced p sid _ _ _ _ m h

  tool_result-IsDurable :
      (sid : String) (msg : InboundResult) (a r : Option String) (srv : Server)
      → IsDurable srv.manager
      → IsDurable (tool_result_named p sid msg a r srv).1.manager
  tool_result-IsDurable sid msg none r srv h = h
  tool_result-IsDurable sid msg (some a) none srv h = h
  tool_result-IsDurable sid msg (some a) (some r) srv h =
      taken-IsDurable sid _ _ _ (now-IsDurable msg.timestamp srv.manager h)

  inbound-IsDurable :
      (c : CommandEnvelope) (o : Option RegisteredAgent) (srv : Server)
      → IsDurable srv.manager
      → IsDurable (command_found p c o srv).1.manager
  unfolding send_to_agent utc_now
  inbound-IsDurable c none srv h = h
  inbound-IsDurable c (some a) srv h =
      if_rule {A = Result Error (Unit {0}) × Server} (λ r. IsDurable r.1.manager)
        (is_command_allowed c.kind) h (record { at = h.at })

  pub serve-IsDurable :
      (sid : String) (r : Request) (srv : Server)
      → IsDurable srv.manager
      → IsDurable (serve sid r srv).manager
  unfolding serve send_agent_test send_tool_execute handle_test_result handle_tool_execute_result
      handle_inbound_command_request
  serve-IsDurable sid (register r channel) srv h = register_agent-IsDurable p sid r channel srv h
  serve-IsDurable sid (unregister agent_id) srv h = unregister_agent-IsDurable p sid agent_id srv h
  serve-IsDurable sid (beat agent_id) srv h = heartbeat-IsDurable p sid agent_id srv h
  serve-IsDurable sid (test agent_id) srv h =
      test-IsDurable agent_id (find_agent sid agent_id srv.agents) srv h
  serve-IsDurable sid (execute agent_id tool_id arguments r c) srv h =
      execute-IsDurable sid agent_id tool_id arguments r c (find_agent sid agent_id srv.agents) srv
        h
  serve-IsDurable sid (test_result msg) srv h = test_result-IsDurable sid msg _ _ srv h
  serve-IsDurable sid (tool_result msg) srv h = tool_result-IsDurable sid msg _ _ srv h
  serve-IsDurable sid (inbound c) srv h =
      inbound-IsDurable c (find_agent sid c.target srv.agents) srv h

  -- If every session is saved, then it is after any requests to the gateway: agents that register,
  -- leave and report, tests, tool executions, their results and commands from outside.
  pub serve_all-IsDurable :
      (rs : List (String × Request)) (srv : Server)
      → IsDurable srv.manager
      → IsDurable (serve_all rs srv).manager
  unfolding serve_all
  serve_all-IsDurable [] srv h = h
  serve_all-IsDurable ((sid, r) ∷ rs) srv h =
      serve_all-IsDurable rs (serve sid r srv) (serve-IsDurable sid r srv h)
