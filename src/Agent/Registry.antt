-- ===== src/Agent/Registry.antt =====
-- app/agent/registry.py: the agents that are connected, by session and agent. The `send_json` of an
-- agent is a number, its channel.
use alpilab_ai.Base.{ℕ, String, Bool, true, false, Option, none, some, List, ◌&&◌, ◌==◌}
use alpilab_ai.Base.Lists.{length, find, keep}
use alpilab_ai.Base.Text.{join_colon}
use alpilab_ai.Base.Dict.{Dict, get, put, remove, values}
use alpilab_ai.Agent.Payloads.{
  AgentPlatform, Capabilities, ConnectionState, offline, connecting, connected, registering, online,
  reconnecting, error, Presence,
}

pub record RegisteredAgent : Type 0 where
  pub agent_id : String
  pub session_id : String
  pub agent_name : String
  pub platform : AgentPlatform
  pub agent_version : String
  pub capabilities : Capabilities
  pub status : ConnectionState
  pub connected_at : ℕ
  pub last_seen : ℕ
  pub channel : ℕ

-- `status == "ONLINE"`
abbrev pub is_online_state : ConnectionState → Bool
is_online_state offline = false
is_online_state connecting = false
is_online_state connected = false
is_online_state registering = false
is_online_state online = true
is_online_state reconnecting = false
is_online_state error = false

unfoldable pub presence : RegisteredAgent → Presence
presence a = record {
  agent_id = a.agent_id;
  agent_name = a.agent_name;
  platform = a.platform;
  agent_version = a.agent_version;
  is_online = is_online_state a.status;
  status = a.status;
  capabilities = a.capabilities;
  last_seen = a.last_seen;
}

abbrev pub Agents : Type 0
Agents = Dict RegisteredAgent

unfoldable pub register : RegisteredAgent → Agents → Agents
register a agents = put agents (join_colon a.session_id a.agent_id) a

unfoldable pub find_agent : String → String → Agents → Option RegisteredAgent
find_agent session_id agent_id agents = get agents (join_colon session_id agent_id)

unfoldable pub unregister : String → String → Agents → Option RegisteredAgent × Agents
unregister session_id agent_id agents =
    (get agents (join_colon session_id agent_id), remove agents (join_colon session_id agent_id))

unfoldable pub get_for_session : String → Agents → Option RegisteredAgent
get_for_session session_id agents =
    find (λ a. a.session_id == session_id && is_online_state a.status) (values agents)

abbrev of_session : Option String → List RegisteredAgent → List RegisteredAgent
of_session none agents = agents
of_session (some session_id) agents = keep (λ a. a.session_id == session_id) agents

unfoldable pub list_agents : Option String → Agents → List RegisteredAgent
list_agents session_id agents = of_session session_id (values agents)

unfoldable pub count : Option String → Agents → ℕ
count session_id agents = length (list_agents session_id agents)

-- the heartbeat of the agent that was found, at the time `now`
abbrev pub seen : ℕ → RegisteredAgent → RegisteredAgent
seen now a = record a { last_seen = now; status = online }

abbrev touch_found :
    String → String → ℕ → Option RegisteredAgent → Agents → Option RegisteredAgent × Agents
touch_found session_id agent_id now none agents = (none, agents)
touch_found session_id agent_id now (some a) agents =
    (some (seen now a), put agents (join_colon session_id agent_id) (seen now a))

unfoldable pub touch_heartbeat : String → String → ℕ → Agents → Option RegisteredAgent × Agents
touch_heartbeat session_id agent_id now agents =
    touch_found session_id agent_id now (find_agent session_id agent_id agents) agents
