-- ===== src/Routes/Agents.antt =====
-- app/agent/ws.py: the socket of a PC agent, as a machine that reads texts. It remembers the agent that
-- it registered last; `channel` stands for its `send_json`.
pub mod Leftovers
pub mod Durable
use alpilab_ai.Base.{
  ℕ, String, Bool, true, false, Option, none, some, List, [], ◌∷◌, ◌&&◌, not, if◌then◌else◌, leb,
  or_else,
}
use alpilab_ai.Base.Exec.{Result, ok, err}
use alpilab_ai.Base.Platform.{Platform}
use alpilab_ai.Base.Text.{len, is_empty}
use alpilab_ai.Agent.Payloads.{AgentPlatform, windows, Capabilities, Registration, InboundResult}
use alpilab_ai.Agent.Registry.{RegisteredAgent}
use alpilab_ai.Agent.Gateway.{Server, register_agent, unregister_agent, heartbeat}
use alpilab_ai.Agent.Gateway.ResultMessages.{handle_test_result, handle_tool_execute_result}
use alpilab_ai.Realtime.DeviceContext.{truthy}
use alpilab_ai.Realtime.Payloads.{Error, DetectedDevice}
use alpilab_ai.Realtime.Manager.{Manager}
use alpilab_ai.Realtime.Manager.Bench.{update_detected_devices}

pub data MessageType : Type 0 where
  register beat test_result tool_result detected : MessageType

-- The fields of `AgentInboundMessage` that the socket reads; `result` is what the gateway reads.
pub record AgentMessage : Type 0 where
  pub kind : MessageType
  pub agent_id : Option String
  pub agent_name : Option String
  pub platform : Option AgentPlatform
  pub agent_version : Option String
  pub capabilities : Option Capabilities
  pub result : InboundResult
  pub devices : Option (List DetectedDevice)

-- What the socket reads: a text of more than 8192 characters, a text that is no JSON or no object, an
-- object that is no message, a report of detected devices one of which is no `DetectedDevice`, another
-- message, or the disconnection.
pub data Text : Type 0 where
  too_large not_json not_object invalid bad_devices gone : Text
  message : AgentMessage → Text

pub data Sent : Type 0 where
  registered : String → Sent
  heartbeat_ack : Sent
  error : String → Sent

-- After a turn: whether the socket goes on, the agent that it has registered, what it was sent.
pub record Turn : Type 0 where
  pub goes_on : Bool
  pub registered_agent_id : Option String
  pub sent : List Sent
  pub server : Server

abbrev pub stays : Option String → List Sent → Server → Turn
stays id sent srv = record { goes_on = true; registered_agent_id = id; sent = sent; server = srv }

-- `AgentCapabilities()`
abbrev default_capabilities : Capabilities
default_capabilities = record {
  safe_test = true;
  windows_apps = false;
  alpilab_check = false;
  microscope = false;
  thermal_camera = false;
  multimeter = false;
  power_supply = false;
}

abbrev pub registration_of : String → AgentMessage → Registration
registration_of agent_id msg = record {
  agent_id = or_else (truthy msg.agent_id) agent_id;
  agent_name = or_else (truthy msg.agent_name) "ALPILAB-PC";
  platform = or_else msg.platform windows;
  agent_version = or_else (truthy msg.agent_version) "0.1.0";
  capabilities = or_else msg.capabilities default_capabilities;
}

-- the bounds of `AgentRegistrationPayload`
abbrev pub is_valid : Registration → Bool
is_valid r =
    not (is_empty r.agent_id)
    && leb (len r.agent_id) 128
    && not (is_empty r.agent_name)
    && leb (len r.agent_name) 120

module _ (p : Platform) (session_id agent_id : String) (channel : ℕ) where
  abbrev pub unregistered : Option String → Server → Server
  unregistered none srv = srv
  unregistered (some id) srv = unregister_agent p session_id id srv

  -- the `finally` of the handler, which runs however it ends
  abbrev pub ends : Option String → Server → Turn
  ends id srv = record {
    goes_on = false;
    registered_agent_id = id;
    sent = [];
    server = unregistered (truthy id) srv;
  }

  abbrev pub entered : Option String → String → Result Error RegisteredAgent × Server → Turn
  entered id new (ok _, srv) = stays (some new) (registered new ∷ []) srv
  entered id new (err e, srv) = ends id srv

  abbrev pub registering : Option String → Registration → Server → Turn
  registering id r srv =
      let go = entered id r.agent_id (register_agent p session_id r channel srv) in
      if is_valid r then go else ends id srv

  abbrev pub beaten : String → Bool × Server → Turn
  beaten id (true, srv) = stays (some id) (heartbeat_ack ∷ []) srv
  beaten id (false, srv) = stays (some id) (error "agent not registered" ∷ []) srv

  -- An error of the gateway ends the socket.
  abbrev pub taken : {A : Type 0} → String → Result Error A × Server → Turn
  taken id (ok _, srv) = stays (some id) [] srv
  taken id (err e, srv) = ends (some id) srv

  -- `message.agent_id = registered_agent_id`
  abbrev pub of_agent : String → AgentMessage → InboundResult
  of_agent id msg = record msg.result { agent_id = some id }

  abbrev pub reported : AgentMessage → Server → Server
  reported msg srv = record srv {
    manager = (update_detected_devices p session_id (or_else msg.devices []) srv.manager).1;
  }

  -- a message of a registered agent
  abbrev pub served : MessageType → String → AgentMessage → Server → Turn
  served register id msg srv = registering (some id) (registration_of agent_id msg) srv
  served beat id msg srv = beaten id (heartbeat p session_id id srv)
  served test_result id msg srv = taken id (handle_test_result p session_id (of_agent id msg) srv)
  served tool_result id msg srv =
      taken id (handle_tool_execute_result p session_id (of_agent id msg) srv)
  served detected id msg srv = stays (some id) [] (reported msg srv)

  -- a message of a socket that has registered no agent
  abbrev pub unserved : MessageType → AgentMessage → Server → Turn
  unserved register msg srv = registering none (registration_of agent_id msg) srv
  unserved _ msg srv = stays none (error "register required before other messages" ∷ []) srv

  abbrev pub on_message : Option String → AgentMessage → Server → Turn
  on_message none msg srv = unserved msg.kind msg srv
  on_message (some id) msg srv = served msg.kind id msg srv

  -- one turn of the loop
  unfoldable pub read : Text → Option String → Server → Turn
  read too_large id srv = stays id (error "payload too large" ∷ []) srv
  read not_json id srv = stays id (error "invalid json" ∷ []) srv
  read not_object id srv = stays id (error "invalid payload" ∷ []) srv
  read invalid id srv = ends id srv
  read bad_devices none srv = stays none (error "register required before other messages" ∷ []) srv
  read bad_devices (some id) srv = stays (some id) [] srv
  read gone id srv = ends id srv
  read (message msg) id srv = on_message id msg srv

  abbrev pub go_on : (Option String → Server → Turn) → Turn → Turn
  go_on rest turn = if turn.goes_on then rest turn.registered_agent_id turn.server else turn

  -- the loop over the texts that the socket is given
  unfoldable pub agent_websocket : List Text → Option String → Server → Turn
  agent_websocket [] id srv = stays id [] srv
  agent_websocket (t ∷ ts) id srv = go_on (λ i s. agent_websocket ts i s) (read t id srv)
