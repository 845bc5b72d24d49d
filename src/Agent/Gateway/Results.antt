-- ===== src/Agent/Gateway/Results.antt =====
-- A result is announced once, however often an agent sends it.
use alpilab_ai.Base.{
  ℕ, String, true, false, Option, none, some, [], ◌∷◌, ◌++◌, ◌≡◌, refl, or_else, some_injective,
}
use alpilab_ai.Base.Json.{end}
use alpilab_ai.Base.Platform.{Platform}
use alpilab_ai.Base.Dict.{get-put_same}
use alpilab_ai.Realtime.DeviceContext.{truthy}
use alpilab_ai.Realtime.Events.{
  Event, EventType, Payload, ToolAudit, tool_execution_completed, tool_execute_result,
}
use alpilab_ai.Realtime.Manager.{
  Manager, announce, emit, uuid4, utc_now, send_event_ws, broadcast_ws,
}
use alpilab_ai.Realtime.Manager.Delivery.{event_log-send_all}
use alpilab_ai.Agent.Payloads.{ResultEnvelope, InboundResult}
use alpilab_ai.Agent.Executions.{get_completed, complete, complete_found}
use alpilab_ai.Agent.Gateway.{Server, emit_tool_audit}
use alpilab_ai.Agent.Gateway.ResultMessages.{
  handle_tool_execute_result, tool_result_named, take_result, or_now, result_envelope, summary,
}

-- One event is logged, for the session, with this type and this payload.
abbrev pub Logs : String → EventType → Payload → Manager → Manager → Type 0
Logs sid kind payload m m' =
    (e : Event) × (m'.event_log ≡ m.event_log ++ e ∷ [])
    × (e.repair_session_id ≡ sid)
    × (e.event_type ≡ kind)
    × (e.payload ≡ payload)

-- The result that a message brings, with the names of its agent and its request.
pub record Brought (msg : InboundResult) (agent_id request_id : String) (r : ResultEnvelope)
    : Type 0 where
  pub request : r.request_id ≡ request_id
  pub agent : r.agent_id ≡ agent_id
  pub command : r.command_id ≡ msg.command_id
  pub tool : r.tool_id ≡ msg.tool_id
  pub success : r.success ≡ or_else msg.success false
  pub result : r.result ≡ or_else msg.result end
  pub error : r.error ≡ msg.error

-- The audit of a result: who answered which request, and whether it succeeded.
pub record Audits (r : ResultEnvelope) (a : ToolAudit) : Type 0 where
  pub request : a.request_id ≡ r.request_id
  pub agent : a.agent_id ≡ r.agent_id
  pub tool : a.tool_id ≡ r.tool_id
  pub success : a.success ≡ some r.success
  pub error : a.error ≡ r.error

-- What a result message does, when the completed result of its request is `old`.
abbrev pub Effect :
    String → InboundResult → String → String → Option ResultEnvelope → Server → Server → Type 0
Effect sid msg agent_id request_id none srv srv' =
    (r : ResultEnvelope) × (a : ToolAudit) × (m : Manager) × Brought msg agent_id request_id r
    × Audits r a
    × (get_completed request_id srv'.executions ≡ some r)
    × Logs sid tool_execution_completed (Payload.audit a) srv.manager m
    × Logs sid tool_execute_result (Payload.result r) m srv'.manager
Effect sid msg agent_id request_id (some old) srv srv' =
    (r : ResultEnvelope) × (a : ToolAudit) × Brought msg agent_id request_id r
    × Audits r a
    × (srv'.executions ≡ srv.executions)
    × Logs sid tool_execution_completed (Payload.audit a) srv.manager srv'.manager

module _ (p : Platform) where
  announce-Logs :
      (sid : String) (kind : EventType) (payload : Payload) (source exclude : Option String)
      (m : Manager)
      → Logs sid kind payload m (announce p sid kind payload source exclude m)
  unfolding announce send_event_ws broadcast_ws emit uuid4 utc_now
  announce-Logs sid kind payload source exclude m =
      (_, event_log-send_all sid _ _ _, refl, refl, refl)

  now-logs : (t : Option ℕ) (m : Manager) → (or_now p t m).1.event_log ≡ m.event_log
  unfolding utc_now
  now-logs none m = refl
  now-logs (some t) m = refl

  after_now :
      (sid : String) (kind : EventType) (payload : Payload) (t : Option ℕ) (m m' : Manager)
      → Logs sid kind payload (or_now p t m).1 m'
      → Logs sid kind payload m m'
  after_now sid kind payload t m m' h = rw (now-logs t m) at h

  summary-Audits : (r : ResultEnvelope) → Audits r (summary p r)
  unfolding summary
  summary-Audits r = record {
    request = refl;
    agent = refl;
    tool = refl;
    success = refl;
    error = refl;
  }

  audited-Logs :
      (sid : String) (r : ResultEnvelope) (m : Manager)
      → Logs sid tool_execution_completed
          (Payload.audit (summary p r))
          m
          (take_result p sid r false m)
  unfolding take_result emit_tool_audit
  audited-Logs sid r m = announce-Logs sid _ _ _ _ m

  announced-Logs :
      (sid : String) (r : ResultEnvelope) (m : Manager)
      → Logs sid tool_execute_result
          (Payload.result r)
          (take_result p sid r false m)
          (take_result p sid r true m)
  unfolding take_result
  announced-Logs sid r m = announce-Logs sid _ _ _ _ _

  envelope-Brought :
      (msg : InboundResult) (agent_id request_id : String) (now : ℕ)
      → Brought msg agent_id request_id (result_envelope p agent_id request_id msg.tool_id msg now)
  envelope-Brought msg agent_id request_id now = record {
    request = refl;
    agent = refl;
    command = refl;
    tool = refl;
    success = refl;
    result = refl;
    error = refl;
  }

  result-Effect :
      (sid : String) (msg : InboundResult) (agent_id request_id : String)
      (found : Option ResultEnvelope) (srv : Server)
      → let (now, m) = or_now p msg.timestamp srv.manager in
        let r = result_envelope p agent_id request_id msg.tool_id msg now in
        Effect sid msg agent_id request_id found srv (record srv {
          executions = (complete_found found r srv.executions).1;
          manager = take_result p sid r (complete_found found r srv.executions).0 m;
        })
  unfolding get_completed
  result-Effect sid msg agent_id request_id none srv =
      let (now, m) = or_now p msg.timestamp srv.manager in
      let r : ResultEnvelope = result_envelope p agent_id request_id msg.tool_id msg now in
      let audited : Manager = take_result p sid r false m in
      (
        r,
        summary p r,
        audited,
        envelope-Brought msg agent_id request_id now,
        summary-Audits r,
        get-put_same srv.executions.completed request_id r,
        after_now sid _ _ msg.timestamp srv.manager audited (audited-Logs sid r m),
        announced-Logs sid r m,
      )
  result-Effect sid msg agent_id request_id (some old) srv =
      let (now, m) = or_now p msg.timestamp srv.manager in
      let r : ResultEnvelope = result_envelope p agent_id request_id msg.tool_id msg now in
      (
        r,
        summary p r,
        envelope-Brought msg agent_id request_id now,
        summary-Audits r,
        refl,
        after_now sid _ _ msg.timestamp srv.manager (take_result p sid r false m)
            (audited-Logs sid r m),
      )

  named-Effect :
      (sid : String) (msg : InboundResult) (a k : Option String) (agent_id request_id : String)
      (srv : Server)
      → a ≡ some agent_id
      → k ≡ some request_id
      → Effect sid msg agent_id request_id
          (get_completed request_id srv.executions)
          srv
          (tool_result_named p sid msg a k srv).1
  unfolding complete get_completed
  named-Effect sid msg none k agent_id request_id srv e e' = cc
  named-Effect sid msg (some a) none agent_id request_id srv e e' = cc
  named-Effect sid msg (some a) (some k) agent_id request_id srv e e' =
      rw (← some_injective e, ← some_injective e')
        (result-Effect sid msg a k (get_completed k srv.executions) srv)

  -- The result message of an agent, with its agent and request named, brings a result with the fields
  -- of the message. If the request has no completed result, then this one is stored for it, and two
  -- events are logged for the session: the audit of the result, then the event that carries it. If the
  -- request has one, then the executions stay as they are and one event is logged, the audit.
  pub handle_tool_execute_result-Effect :
      (sid : String) (msg : InboundResult) (agent_id request_id : String) (srv : Server)
      → truthy msg.agent_id ≡ some agent_id
      → truthy msg.request_id ≡ some request_id
      → Effect sid msg agent_id request_id
          (get_completed request_id srv.executions)
          srv
          (handle_tool_execute_result p sid msg srv).1
  unfolding handle_tool_execute_result
  handle_tool_execute_result-Effect sid msg agent_id request_id srv e e' =
      named-Effect sid msg (truthy msg.agent_id) (truthy msg.request_id) agent_id request_id srv e
        e'
