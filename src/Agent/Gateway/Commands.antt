-- ===== src/Agent/Gateway/Commands.antt =====
-- app/agent/gateway.py: the commands that the gateway sends to the agents.
use alpilab_ai.Base.{String, Option, none, some, if◌then◌else◌, or_else}
use alpilab_ai.Base.Exec.{Result, ok, err}
use alpilab_ai.Base.Platform.{Platform}
use alpilab_ai.Base.Json.{Fields, end}
use alpilab_ai.Realtime.Payloads.{Error, value_error}
use alpilab_ai.Realtime.DeviceContext.{truthy}
use alpilab_ai.Realtime.Events.{tool_execution_started, ToolAudit}
use alpilab_ai.Realtime.Manager.{Manager, uuid4, utc_now}
use alpilab_ai.Agent.Payloads.{CommandEnvelope, ResultEnvelope, command, command_rejected}
use alpilab_ai.Agent.Registry.{RegisteredAgent, find_agent}
use alpilab_ai.Agent.Executions.{get_completed}
use alpilab_ai.Agent.Gateway.{
  Server, is_command_allowed, reject_reason, send_to_agent, tool_payload, emit_tool_audit,
}

module _ (p : Platform) where
  -- `x or str(uuid4())`
  abbrev pub or_uuid : Option String → Manager → String × Manager
  or_uuid (some id) m = (id, m)
  or_uuid none m = uuid4 p m

  abbrev pub make_command :
      String → String → String → String → Fields → Manager → CommandEnvelope × Manager
  make_command command_id request_id kind target payload m =
      let (now, m1) = utc_now p m in
      (
        record {
          command_id = command_id;
          request_id = request_id;
          kind = kind;
          source = "alpilab_ai";
          target = target;
          timestamp = now;
          payload = payload;
        },
        m1,
      )

  abbrev pub test_found :
      String → Option RegisteredAgent → Server → Result Error CommandEnvelope × Server
  test_found agent_id none srv = (err (value_error "agent not found"), srv)
  test_found agent_id (some a) srv =
      let (command_id, m1) = uuid4 p srv.manager in
      let (request_id, m2) = uuid4 p m1 in
      let (c, m3) = make_command command_id request_id "AGENT_TEST" agent_id end m2 in
      (ok c, send_to_agent a (command c) (record srv { manager = m3 }))

  unfoldable pub send_agent_test : String → String → Server → Result Error CommandEnvelope × Server
  send_agent_test session_id agent_id srv =
      test_found agent_id (find_agent session_id agent_id srv.agents) srv

  abbrev pub execute_uncached :
      String
      → String
      → String
      → Fields
      → String
      → String
      → RegisteredAgent
      → Option ResultEnvelope
      → Server
      → CommandEnvelope × Server
  execute_uncached session_id agent_id tool_id arguments request_id command_id a (some old) srv =
      let (c, m1) =
        make_command (or_else (truthy old.command_id) command_id) request_id "TOOL_EXECUTE" agent_id
          (tool_payload tool_id arguments) srv.manager in
      (c, record srv { manager = m1 })
  execute_uncached session_id agent_id tool_id arguments request_id command_id a none srv =
      let (c, m1) =
        make_command command_id request_id "TOOL_EXECUTE" agent_id (tool_payload tool_id arguments)
          srv.manager in
      let audit : ToolAudit = record {
        request_id = request_id;
        command_id = some command_id;
        tool_id = some tool_id;
        agent_id = agent_id;
        source = "alpilab_ai";
        success = none;
        error = none;
        result_summary = none;
      } in
      let m2 = emit_tool_audit p session_id tool_execution_started audit agent_id m1 in
      (c, send_to_agent a (command c) (record srv { manager = m2 }))

  abbrev pub execute_found :
      String
      → String
      → String
      → Fields
      → Option String
      → Option String
      → Option RegisteredAgent
      → Server
      → Result Error CommandEnvelope × Server
  execute_found session_id agent_id tool_id arguments request_id command_id none srv =
      (err (value_error "agent not found"), srv)
  execute_found session_id agent_id tool_id arguments request_id command_id (some a) srv =
      let (req_id, m1) = or_uuid (truthy request_id) srv.manager in
      let (cmd_id, m2) = or_uuid (truthy command_id) m1 in
      let (c, srv') =
        execute_uncached session_id agent_id tool_id arguments req_id cmd_id a
          (get_completed req_id srv.executions) (record srv { manager = m2 }) in
      (ok c, srv')

  unfoldable pub send_tool_execute :
      String
      → String
      → String
      → Fields
      → Option String
      → Option String
      → Server
      → Result Error CommandEnvelope × Server
  send_tool_execute session_id agent_id tool_id arguments request_id command_id srv =
      execute_found session_id agent_id tool_id arguments request_id command_id
        (find_agent session_id agent_id srv.agents) srv

  abbrev pub command_found :
      CommandEnvelope → Option RegisteredAgent → Server → Result Error (Unit {0}) × Server
  command_found c none srv = (err (value_error "agent not found"), srv)
  command_found c (some a) srv =
      if is_command_allowed c.kind
      then (ok tt, send_to_agent a (command c) srv)
      else (let (now, m1) = utc_now p srv.manager in
          (
            ok tt,
            send_to_agent a (command_rejected (reject_reason c.kind) c.target now)
                (record srv { manager = m1 }),
          ))

  unfoldable pub handle_inbound_command_request :
      String → CommandEnvelope → Server → Result Error (Unit {0}) × Server
  handle_inbound_command_request session_id c srv =
      command_found c (find_agent session_id c.target srv.agents) srv
