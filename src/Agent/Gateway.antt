-- ===== src/Agent/Gateway.antt =====
-- app/agent/gateway.py: `AgentGateway`, which joins the agents' registry, the executions and the
-- realtime sessions. The three singletons are the `Server`.
pub mod Commands
pub mod ResultMessages
pub mod Sending
pub mod Durable
pub mod Results
pub mod Requests
use alpilab_ai.Base.{
  ℕ, String, Bool, true, false, Option, none, some, List, [], ◌∷◌, ◌++◌, ◌==◌, ◌||◌, if◌then◌else◌,
  or_else,
}
use alpilab_ai.Base.Exec.{Result, ok, err}
use alpilab_ai.Base.Platform.{Platform}
use alpilab_ai.Base.Json.{Json, string, object, Fields, end, field, lookup}
use alpilab_ai.Realtime.Payloads.{Error, value_error}
use alpilab_ai.Realtime.DeviceContext.{truthy}
use alpilab_ai.Realtime.Events.{
  EventType, agent_connected, agent_disconnected, agent_heartbeat, agent_test_result,
  tool_execution_started, tool_execution_completed, tool_execute_result, ToolAudit, Payload,
}
use alpilab_ai.Realtime.State.{SessionData}
use alpilab_ai.Realtime.Manager.{
  Manager, get_session, set_session, get_or_create_session, uuid4, utc_now, announce,
}
use alpilab_ai.Agent.Payloads.{
  Presence, offline, online, Registration, CommandEnvelope, ResultEnvelope, InboundResult, Outbound,
  command, command_rejected,
}
use alpilab_ai.Agent.Registry.{
  Agents, RegisteredAgent, presence, register, unregister, find_agent, touch_heartbeat,
}
use alpilab_ai.Agent.Executions.{ToolExecutionStore, get_completed, complete}

-- `agent_outbox` records what is sent on the agents' channels.
pub record Server : Type 0 where
  pub manager : Manager
  pub agents : Agents
  pub executions : ToolExecutionStore
  pub agent_outbox : List (ℕ × Outbound)

-- `is_command_allowed` of app/agent/allowlist.py
unfoldable pub is_command_allowed : String → Bool
is_command_allowed kind = kind == "AGENT_TEST" || kind == "TOOL_EXECUTE"

-- `reject_reason` of app/agent/allowlist.py
unfoldable pub reject_reason : String → String
reject_reason kind =
    if kind == "AGENT_TEST" || kind == "TOOL_EXECUTE" then "" else "COMMAND_NOT_ALLOWED"

unfoldable pub send_to_agent : RegisteredAgent → Outbound → Server → Server
send_to_agent a o srv = record srv { agent_outbox = srv.agent_outbox ++ (a.channel, o) ∷ [] }

abbrev set_pc_agent_found : String → Option Presence → Option SessionData → Manager → Manager
set_pc_agent_found session_id who none m = m
set_pc_agent_found session_id who (some s) m =
    set_session session_id (record s { pc_agent = who }) m

unfoldable pub set_session_pc_agent : String → Option Presence → Manager → Manager
set_session_pc_agent session_id who m =
    set_pc_agent_found session_id who (get_session session_id m) m

-- the arguments of a TOOL_EXECUTE in its payload
abbrev pub tool_payload : String → Fields → Fields
tool_payload tool_id arguments =
    field "tool_id" (string tool_id) (field "arguments" (object arguments) end)

module _ (p : Platform) where
  unfoldable pub broadcast_agent_event : String → EventType → Presence → String → Manager → Manager
  broadcast_agent_event session_id kind who agent_id m =
      announce p session_id kind (Payload.agent who) (some agent_id) none m

  unfoldable pub emit_tool_audit : String → EventType → ToolAudit → String → Manager → Manager
  emit_tool_audit session_id kind audit agent_id m =
      announce p session_id kind (Payload.audit audit) (some agent_id) none m

  unfoldable pub new_agent : String → Registration → ℕ → ℕ → RegisteredAgent
  new_agent session_id r channel now = record {
    agent_id = r.agent_id;
    session_id = session_id;
    agent_name = r.agent_name;
    platform = r.platform;
    agent_version = r.agent_version;
    capabilities = r.capabilities;
    status = online;
    connected_at = now;
    last_seen = now;
    channel = channel;
  }

  abbrev pub drop_existing : String → String → Option RegisteredAgent → Agents → Agents
  drop_existing session_id agent_id none agents = agents
  drop_existing session_id agent_id (some old) agents = (unregister session_id agent_id agents).1

  -- the agent is put in the registry and in its session, and announced
  unfoldable pub enter_agent : String → RegisteredAgent → Server → Server
  enter_agent session_id a srv = record srv {
    agents = register a (
        drop_existing session_id a.agent_id (find_agent session_id a.agent_id srv.agents)
          srv.agents);
    manager =
        broadcast_agent_event session_id agent_connected (presence a) a.agent_id
          (set_session_pc_agent session_id (some (presence a)) srv.manager);
  }

  abbrev pub register_session :
      String
      → Registration
      → ℕ
      → Result Error SessionData × Manager
      → Server
      → Result Error RegisteredAgent × Server
  register_session session_id r channel (err e, m) srv = (err e, record srv { manager = m })
  register_session session_id r channel (ok _, m) srv =
      let (now, m1) = utc_now p m in
      let a : RegisteredAgent = new_agent session_id r channel now in
      (ok a, enter_agent session_id a (record srv { manager = m1 }))

  unfoldable pub register_agent :
      String → Registration → ℕ → Server → Result Error RegisteredAgent × Server
  register_agent session_id r channel srv =
      register_session session_id r channel (get_or_create_session p session_id false srv.manager)
        srv

  abbrev pub unregister_found : String → String → Option RegisteredAgent → Agents → Server → Server
  unregister_found session_id agent_id none agents srv = srv
  unregister_found session_id agent_id (some a) agents srv = record srv {
    agents = agents;
    manager =
        broadcast_agent_event session_id agent_disconnected
          (record (presence a) { is_online = false; status = offline }) agent_id
          (set_session_pc_agent session_id none srv.manager);
  }

  unfoldable pub unregister_agent : String → String → Server → Server
  unregister_agent session_id agent_id srv =
      let (found, agents) = unregister session_id agent_id srv.agents in
      unregister_found session_id agent_id found agents srv

  abbrev heartbeat_found :
      String → String → Option RegisteredAgent → Agents → Manager → Server → Bool × Server
  heartbeat_found session_id agent_id none agents m srv = (false, srv)
  heartbeat_found session_id agent_id (some a) agents m srv = (
    true,
    record srv {
      agents = agents;
      manager =
          broadcast_agent_event session_id agent_heartbeat (presence a) agent_id
            (set_session_pc_agent session_id (some (presence a)) m);
    },
  )

  -- The clock is read where there is an agent; where there is none its value is dropped.
  unfoldable pub heartbeat : String → String → Server → Bool × Server
  heartbeat session_id agent_id srv =
      let (now, m) = utc_now p srv.manager in
      let (found, agents) = touch_heartbeat session_id agent_id now srv.agents in
      heartbeat_found session_id agent_id found agents m srv
