-- ===== src/Agent/Gateway/Durable.antt =====
-- The gateway writes the agents' presence into the sessions without saving them: what is saved of a
-- session has no agent, so the table of snapshots stays true.
use alpilab_ai.Base.{ℕ, String, false, Option, none, some, ◌≡◌, refl}
use alpilab_ai.Base.Exec.{Result, ok, err}
use alpilab_ai.Base.Platform.{Platform}
use alpilab_ai.Base.Dict.{get}
use alpilab_ai.Realtime.Payloads.{Error}
use alpilab_ai.Realtime.Events.{EventType, Payload}
use alpilab_ai.Realtime.State.{SessionData, snapshot}
use alpilab_ai.Realtime.Manager.{
  Manager, get_session, get_or_create_session, utc_now, announce, persistable_snapshot,
}
use alpilab_ai.Realtime.Manager.Frame.{announce-SameCore}
use alpilab_ai.Realtime.Manager.Durability.{IsDurable, set_session-IsDurable, SameCore-IsDurable}
use alpilab_ai.Realtime.Manager.DurablePresence.{get_or_create_unseeded-IsDurable}
use alpilab_ai.Agent.Payloads.{Presence, Registration}
use alpilab_ai.Agent.Registry.{Agents, RegisteredAgent}
use alpilab_ai.Agent.Gateway.{
  Server, set_session_pc_agent, set_pc_agent_found, register_agent, register_session, enter_agent,
  broadcast_agent_event, unregister_agent, unregister_found, heartbeat, heartbeat_found,
}

-- What is saved of a session has no agent.
pub persistable_snapshot_agentless :
    (s : SessionData) (who : Option Presence)
    → persistable_snapshot (record s { pc_agent = who }) ≡ persistable_snapshot s
unfolding persistable_snapshot snapshot
persistable_snapshot_agentless s who = refl

found_agent-IsDurable :
    (sid : String) (who : Option Presence) (o : Option SessionData) (m : Manager)
    → get m.sessions sid ≡ o
    → IsDurable m
    → IsDurable (set_pc_agent_found sid who o m)
found_agent-IsDurable sid who none m found h = h
found_agent-IsDurable sid who (some s) m found h =
    set_session-IsDurable sid s (record s { pc_agent = who }) m found
      (persistable_snapshot_agentless s who) h

-- Writing an agent into a session, or taking it out, keeps every session saved.
pub set_session_pc_agent-IsDurable :
    (sid : String) (who : Option Presence) (m : Manager)
    → IsDurable m
    → IsDurable (set_session_pc_agent sid who m)
unfolding set_session_pc_agent get_session
set_session_pc_agent-IsDurable sid who m h =
    found_agent-IsDurable sid who (get m.sessions sid) m refl h

module _ (p : Platform) where
  pub announced :
      (sid : String) (kind : EventType) (payload : Payload) (source exclude : Option String)
      (m : Manager)
      → IsDurable m
      → IsDurable (announce p sid kind payload source exclude m)
  announced sid kind payload source exclude m h =
      SameCore-IsDurable (announce-SameCore p sid kind payload source exclude m) h

  -- writing the agent and announcing it
  shown :
      (sid : String) (kind : EventType) (who : Option Presence) (said : Presence)
      (agent_id : String) (m : Manager)
      → IsDurable m
      → IsDurable (broadcast_agent_event p sid kind said agent_id (set_session_pc_agent sid who m))
  unfolding broadcast_agent_event
  shown sid kind who said agent_id m h =
      announced sid kind _ _ _ _ (set_session_pc_agent-IsDurable sid who m h)

  registered-IsDurable :
      (sid : String) (r : Registration) (channel : ℕ) (x : Result Error SessionData × Manager)
      (srv : Server)
      → IsDurable x.1
      → IsDurable (register_session p sid r channel x srv).1.manager
  unfolding enter_agent utc_now
  registered-IsDurable sid r channel (err e, m) srv h = h
  registered-IsDurable sid r channel (ok s, m) srv h = shown sid _ _ _ _ _ (record { at = h.at })

  -- Registering an agent keeps every session saved, the one it may make too.
  pub register_agent-IsDurable :
      (sid : String) (r : Registration) (channel : ℕ) (srv : Server)
      → IsDurable srv.manager
      → IsDurable (register_agent p sid r channel srv).1.manager
  unfolding register_agent
  register_agent-IsDurable sid r channel srv h =
      registered-IsDurable sid r channel (get_or_create_session p sid false srv.manager) srv
        (get_or_create_unseeded-IsDurable p sid srv.manager h)

  unregistered-IsDurable :
      (sid agent_id : String) (o : Option RegisteredAgent) (agents : Agents) (srv : Server)
      → IsDurable srv.manager
      → IsDurable (unregister_found p sid agent_id o agents srv).manager
  unregistered-IsDurable sid agent_id none agents srv h = h
  unregistered-IsDurable sid agent_id (some a) agents srv h = shown sid _ _ _ _ _ h

  -- Unregistering an agent keeps every session saved.
  pub unregister_agent-IsDurable :
      (sid agent_id : String) (srv : Server)
      → IsDurable srv.manager
      → IsDurable (unregister_agent p sid agent_id srv).manager
  unfolding unregister_agent
  unregister_agent-IsDurable sid agent_id srv h = unregistered-IsDurable sid agent_id _ _ srv h

  beaten-IsDurable :
      (sid agent_id : String) (o : Option RegisteredAgent) (agents : Agents) (m : Manager)
      (srv : Server)
      → IsDurable srv.manager
      → IsDurable m
      → IsDurable (heartbeat_found p sid agent_id o agents m srv).1.manager
  beaten-IsDurable sid agent_id none agents m srv h k = h
  beaten-IsDurable sid agent_id (some a) agents m srv h k = shown sid _ _ _ _ _ k

  -- A heartbeat of an agent keeps every session saved.
  pub heartbeat-IsDurable :
      (sid agent_id : String) (srv : Server)
      → IsDurable srv.manager
      → IsDurable (heartbeat p sid agent_id srv).1.manager
  unfolding heartbeat utc_now
  heartbeat-IsDurable sid agent_id srv h =
      beaten-IsDurable sid agent_id _ _ _ srv h (record { at = h.at })
