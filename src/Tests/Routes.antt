-- ===== src/Tests/Routes.antt =====
-- The sockets of clients and agents: the properties at concrete inputs.
use alpilab_ai.Base.{String, true, false, none, some, [], ◌∷◌, ◌≡◌, refl}
use alpilab_ai.Base.Dict.{get, put, values, remove}
use alpilab_ai.Base.Text.{join_colon, len, strip, all_chars, lstrip, rstrip, is_space}
use alpilab_ai.Agent.Gateway.{
  Server, register_agent, enter_agent, broadcast_agent_event, new_agent, set_session_pc_agent,
}
use alpilab_ai.Pairing.ClientAuth.{
  Settings, pairing_required, authorize_session_client, pairing_enforced,
}
use alpilab_ai.Realtime.Manager.Durability.{IsDurable}
use alpilab_ai.Realtime.Payloads.{DevicePresence, DeviceType}
use alpilab_ai.Realtime.State.{
  SessionData, default_demo_session, new_session, participants, repair_context, snapshot,
}
use alpilab_ai.Routes.Agents as Agents
use alpilab_ai.Routes.Agents.{AgentMessage, beat, register, agent_websocket}
use alpilab_ai.Routes.Agents.Durable.{agent_websocket-IsDurable}
use alpilab_ai.Routes.Agents.Leftovers.{IsThere, registered_twice}
use alpilab_ai.Routes.Sessions.{Client, Process, over, error, session_websocket}
use alpilab_ai.Routes.Sessions.Strangers.{session_websocket_refused}
use alpilab_ai.Tests.Agents.{served, served-IsDurable, message as result}
use alpilab_ai.Tests.Machine.{manager, session}
use alpilab_ai.Tests.Products.{ascii}
use alpilab_ai.Tools.Executable.{seed_executable}
use alpilab_ai.Realtime.Manager.{
  get_or_create_session, get_session, persist_session, set_session, announce, send_event_ws,
  broadcast_ws, send_all, recipients, emit, utc_now, uuid4, send_ws, persistable_snapshot,
}
use alpilab_ai.Base.Lists.{keep}
use alpilab_ai.Agent.Registry.{find_agent, presence, register as enter, unregister}

entering : Unit {0}
unfolding len register_agent get_or_create_session get_session get persist_session set_session put
    enter_agent broadcast_agent_event announce send_event_ws broadcast_ws send_all recipients keep
    values new_agent set_session_pc_agent find_agent presence enter unregister remove emit utc_now
    uuid4 send_ws persistable_snapshot default_demo_session new_session participants repair_context
    snapshot join_colon
entering = tt

abbrev settings : Settings
settings = record { require_pairing = "0"; backend = "memory"; store = none; lower = λ s. s }

abbrev pub process : Process
process = record {
  platform = ascii;
  settings = settings;
  registry = seed_executable [];
  generate = λ s. s;
  repr = λ s. s;
}

abbrev pub client : Client
client = record {
  session_id = "s1";
  device_id = "a";
  device_type = "phone";
  device_name = "Telefono";
  seed_demo = false;
  pairing_token = none;
  client_host = none;
}

abbrev stranger : Process
stranger = record process { settings = record settings { require_pairing = "1" } }

abbrev phone : DevicePresence
phone = record {
  device_id = "a";
  device_type = DeviceType.phone;
  device_name = "Telefono";
  online = true;
  connected_at = 2;
  last_seen = 3;
}

abbrev at_bench : SessionData
at_bench = record session { devices = ("a", phone) ∷ [] }

abbrev busy : Server
busy = record served { manager = record manager { sessions = ("s1", at_bench) ∷ [] } }

session_websocket_refused_example :
    let after = session_websocket stranger client busy in
    (after.state ≡ over)
    × (after.sent ≡ error "PAIRING_REQUIRED" ∷ [])
    × (get after.server.manager.ws_connections (join_colon "s1" "a") ≡ none)
    × ((s' : SessionData) × ((get after.server.manager.sessions "s1" ≡ some s')
          × ((d' : DevicePresence) × ((get s'.devices "a" ≡ some d') × (d'.online ≡ false)))))
unfolding authorize_session_client get alpilab_ai.Pairing.ClientAuth.pairing_enforced
    alpilab_ai.Base.Text.strip alpilab_ai.Pairing.ClientAuth.is_local_hub_ui
    alpilab_ai.Pairing.ClientAuth.is_loopback_host
session_websocket_refused_example =
    session_websocket_refused stranger client busy pairing_required at_bench phone refl refl refl

abbrev pub registration_message : String → AgentMessage
registration_message id = record {
  kind = register;
  agent_id = some id;
  agent_name = none;
  platform = none;
  agent_version = none;
  capabilities = none;
  result = result;
  devices = none;
}

agent_websocket-IsDurable_example :
    IsDurable
      (agent_websocket ascii "s1" "pc2" 4
        (Agents.message (registration_message "pc2")
          ∷ Agents.message (record (registration_message "pc2") { kind = beat })
          ∷ Agents.gone
          ∷ [])
        none
        served).server.manager
agent_websocket-IsDurable_example =
    agent_websocket-IsDurable ascii "s1" "pc2" 4
      (Agents.message (registration_message "pc2")
        ∷ Agents.message (record (registration_message "pc2") { kind = beat })
        ∷ Agents.gone
        ∷ [])
      none served served-IsDurable

registered_twice_example :
    let turn =
      agent_websocket ascii "s1" "pc2" 4
        (Agents.message (registration_message "pc2")
          ∷ Agents.message (registration_message "pc3")
          ∷ Agents.gone
          ∷ [])
        none
        served in
    (turn.goes_on ≡ false) × IsThere "s1" "pc2" turn.server
unfolding entering
registered_twice_example =
    registered_twice ascii "s1" "pc2" 4 (registration_message "pc2") (registration_message "pc3")
      served _ _ refl refl refl refl refl refl refl
