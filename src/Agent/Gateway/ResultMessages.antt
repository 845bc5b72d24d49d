-- ===== src/Agent/Gateway/ResultMessages.antt =====
-- app/agent/gateway.py: the results that the agents send back.
use alpilab_ai.Base.{ℕ, String, Bool, false, Option, none, some, if◌then◌else◌, or_else}
use alpilab_ai.Base.Exec.{Result, ok, err}
use alpilab_ai.Base.Platform.{Platform}
use alpilab_ai.Base.Json.{end, lookup}
use alpilab_ai.Realtime.Payloads.{Error, value_error}
use alpilab_ai.Realtime.DeviceContext.{truthy}
use alpilab_ai.Realtime.Events.{
  agent_test_result, tool_execution_completed, tool_execute_result, ToolAudit, Payload,
}
use alpilab_ai.Realtime.Manager.{Manager, utc_now, announce}
use alpilab_ai.Agent.Payloads.{ResultEnvelope, InboundResult}
use alpilab_ai.Agent.Executions.{complete}
use alpilab_ai.Agent.Gateway.{Server, emit_tool_audit}

module _ (p : Platform) where
  -- `x or _iso_now()`
  abbrev pub or_now : Option ℕ → Manager → ℕ × Manager
  or_now (some t) m = (t, m)
  or_now none m = utc_now p m

  -- the envelope of a result message whose agent and request are known
  abbrev pub result_envelope : String → String → Option String → InboundResult → ℕ → ResultEnvelope
  result_envelope agent_id request_id tool_id msg now = record {
    request_id = request_id;
    command_id = msg.command_id;
    agent_id = agent_id;
    tool_id = tool_id;
    success = or_else msg.success false;
    result = or_else msg.result end;
    error = msg.error;
    timestamp = now;
  }

  abbrev pub test_result_named :
      String
      → InboundResult
      → Option String
      → Option String
      → Server
      → Result Error ResultEnvelope × Server
  test_result_named session_id msg none request_id srv =
      (err (value_error "agent_id and request_id required"), srv)
  test_result_named session_id msg (some agent_id) none srv =
      (err (value_error "agent_id and request_id required"), srv)
  test_result_named session_id msg (some agent_id) (some request_id) srv =
      let (now, m1) = or_now msg.timestamp srv.manager in
      let r = result_envelope agent_id request_id none msg now in
      (
        ok r,
        record srv {
          manager =
              announce p session_id agent_test_result (Payload.result r) (some agent_id) none m1;
        },
      )

  unfoldable pub handle_test_result :
      String → InboundResult → Server → Result Error ResultEnvelope × Server
  handle_test_result session_id msg srv =
      test_result_named session_id msg (truthy msg.agent_id) (truthy msg.request_id) srv

  unfoldable pub summary : ResultEnvelope → ToolAudit
  summary r = record {
    request_id = r.request_id;
    command_id = r.command_id;
    tool_id = r.tool_id;
    agent_id = r.agent_id;
    source = "pc_agent";
    success = some r.success;
    error = r.error;
    result_summary = lookup "message" r.result;
  }

  -- A result that is new is announced; the audit is announced in any case.
  unfoldable pub take_result : String → ResultEnvelope → Bool → Manager → Manager
  take_result session_id r is_new m =
      let audited =
        emit_tool_audit p session_id tool_execution_completed (summary r) r.agent_id m in
      if is_new
      then announce p session_id tool_execute_result (Payload.result r) (some r.agent_id) none
          audited
      else audited

  abbrev pub tool_result_named :
      String
      → InboundResult
      → Option String
      → Option String
      → Server
      → Result Error ResultEnvelope × Server
  tool_result_named session_id msg none request_id srv =
      (err (value_error "agent_id and request_id required"), srv)
  tool_result_named session_id msg (some agent_id) none srv =
      (err (value_error "agent_id and request_id required"), srv)
  tool_result_named session_id msg (some agent_id) (some request_id) srv =
      let (now, m1) = or_now msg.timestamp srv.manager in
      let r = result_envelope agent_id request_id msg.tool_id msg now in
      let (is_new, executions) = complete r srv.executions in
      (ok r, record srv { executions = executions; manager = take_result session_id r is_new m1 })

  unfoldable pub handle_tool_execute_result :
      String → InboundResult → Server → Result Error ResultEnvelope × Server
  handle_tool_execute_result session_id msg srv =
      tool_result_named session_id msg (truthy msg.agent_id) (truthy msg.request_id) srv
