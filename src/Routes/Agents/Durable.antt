-- ===== src/Routes/Agents/Durable.antt =====
-- What the socket of a PC agent does to the sessions that are saved.
use alpilab_ai.Base.{ℕ, String, Bool, true, false, Option, none, some, List, [], ◌∷◌, if_rule}
use alpilab_ai.Base.Exec.{Result, ok, err}
use alpilab_ai.Base.Platform.{Platform}
use alpilab_ai.Agent.Payloads.{Registration}
use alpilab_ai.Agent.Registry.{RegisteredAgent}
use alpilab_ai.Agent.Gateway.{Server, heartbeat}
use alpilab_ai.Agent.Gateway.Durable.{
  register_agent-IsDurable, unregister_agent-IsDurable, heartbeat-IsDurable,
}
use alpilab_ai.Agent.Gateway.ResultMessages.{handle_test_result, handle_tool_execute_result}
use alpilab_ai.Agent.Gateway.Requests as Requests
use alpilab_ai.Agent.Gateway.Requests.{serve, serve-IsDurable}
use alpilab_ai.Realtime.DeviceContext.{truthy}
use alpilab_ai.Realtime.Payloads.{Error}
use alpilab_ai.Realtime.Manager.Durability.{IsDurable}
use alpilab_ai.Realtime.Manager.DurableUpdates.{update_detected_devices-IsDurable}
use alpilab_ai.Routes.Agents.{
  MessageType, register, beat, test_result, tool_result, detected, AgentMessage, Text, too_large,
  not_json, not_object, invalid, bad_devices, gone, message, Turn, registration_of, is_valid,
  unregistered, entered, registering, beaten, taken, of_agent, served, unserved, on_message, read,
  agent_websocket,
}

module _ (p : Platform) (sid agent_id : String) (channel : ℕ) where
  ends-IsDurable :
      (id : Option String) (srv : Server)
      → IsDurable srv.manager
      → IsDurable (unregistered p sid agent_id channel id srv).manager
  ends-IsDurable none srv h = h
  ends-IsDurable (some id) srv h = unregister_agent-IsDurable p sid id srv h

  entered-IsDurable :
      (id : Option String) (new : String) (x : Result Error RegisteredAgent × Server)
      → IsDurable x.1.manager
      → IsDurable (entered p sid agent_id channel id new x).server.manager
  entered-IsDurable id new (ok _, srv) h = h
  entered-IsDurable id new (err e, srv) h = ends-IsDurable (truthy id) srv h

  registering-IsDurable :
      (id : Option String) (r : Registration) (srv : Server)
      → IsDurable srv.manager
      → IsDurable (registering p sid agent_id channel id r srv).server.manager
  registering-IsDurable id r srv h =
      if_rule {A = Turn} (λ t. IsDurable t.server.manager) (is_valid r)
        (entered-IsDurable id r.agent_id _ (register_agent-IsDurable p sid r channel srv h))
        (ends-IsDurable (truthy id) srv h)

  beaten-IsDurable :
      (id : String) (x : Bool × Server)
      → IsDurable x.1.manager
      → IsDurable (beaten p sid agent_id channel id x).server.manager
  beaten-IsDurable id (true, srv) h = h
  beaten-IsDurable id (false, srv) h = h

  taken-IsDurable :
      {A : Type 0} (id : String) (x : Result Error A × Server)
      → IsDurable x.1.manager
      → IsDurable (taken p sid agent_id channel id x).server.manager
  taken-IsDurable id (ok _, srv) h = h
  taken-IsDurable id (err e, srv) h = ends-IsDurable (truthy (some id)) srv h

  served-IsDurable :
      (kind : MessageType) (id : String) (msg : AgentMessage) (srv : Server)
      → IsDurable srv.manager
      → IsDurable (served p sid agent_id channel kind id msg srv).server.manager
  unfolding serve
  served-IsDurable register id msg srv h =
      registering-IsDurable (some id) (registration_of agent_id msg) srv h
  served-IsDurable beat id msg srv h =
      beaten-IsDurable id (heartbeat p sid id srv) (heartbeat-IsDurable p sid id srv h)
  served-IsDurable test_result id msg srv h =
      let result = of_agent p sid agent_id channel id msg in
      taken-IsDurable id (handle_test_result p sid result srv)
        (serve-IsDurable p sid (Requests.test_result result) srv h)
  served-IsDurable tool_result id msg srv h =
      let result = of_agent p sid agent_id channel id msg in
      taken-IsDurable id (handle_tool_execute_result p sid result srv)
        (serve-IsDurable p sid (Requests.tool_result result) srv h)
  served-IsDurable detected id msg srv h = update_detected_devices-IsDurable p sid _ srv.manager h

  unserved-IsDurable :
      (kind : MessageType) (msg : AgentMessage) (srv : Server)
      → IsDurable srv.manager
      → IsDurable (unserved p sid agent_id channel kind msg srv).server.manager
  unserved-IsDurable register msg srv h =
      registering-IsDurable none (registration_of agent_id msg) srv h
  unserved-IsDurable beat msg srv h = h
  unserved-IsDurable test_result msg srv h = h
  unserved-IsDurable tool_result msg srv h = h
  unserved-IsDurable detected msg srv h = h

  message-IsDurable :
      (id : Option String) (msg : AgentMessage) (srv : Server)
      → IsDurable srv.manager
      → IsDurable (on_message p sid agent_id channel id msg srv).server.manager
  message-IsDurable none msg srv h = unserved-IsDurable msg.kind msg srv h
  message-IsDurable (some id) msg srv h = served-IsDurable msg.kind id msg srv h

  pub read-IsDurable :
      (t : Text) (id : Option String) (srv : Server)
      → IsDurable srv.manager
      → IsDurable (read p sid agent_id channel t id srv).server.manager
  unfolding read
  read-IsDurable too_large id srv h = h
  read-IsDurable not_json id srv h = h
  read-IsDurable not_object id srv h = h
  read-IsDurable invalid id srv h = ends-IsDurable (truthy id) srv h
  read-IsDurable bad_devices none srv h = h
  read-IsDurable bad_devices (some id) srv h = h
  read-IsDurable gone id srv h = ends-IsDurable (truthy id) srv h
  read-IsDurable (message msg) id srv h = message-IsDurable id msg srv h

  -- If every session is saved, then it is after any texts that the socket of an agent reads, whatever
  -- they are and however the socket ends.
  pub agent_websocket-IsDurable :
      (ts : List Text) (id : Option String) (srv : Server)
      → IsDurable srv.manager
      → IsDurable (agent_websocket p sid agent_id channel ts id srv).server.manager
  unfolding agent_websocket
  agent_websocket-IsDurable [] id srv h = h
  agent_websocket-IsDurable (t ∷ ts) id srv h =
      let turn = read p sid agent_id channel t id srv in
      let read_one : IsDurable turn.server.manager = read-IsDurable t id srv h in
      if_rule {A = Turn} (λ x. IsDurable x.server.manager) turn.goes_on
        (agent_websocket-IsDurable ts turn.registered_agent_id turn.server read_one) read_one
