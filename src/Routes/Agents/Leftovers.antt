-- ===== src/Routes/Agents/Leftovers.antt =====
-- The agents that the socket of app/agent/ws.py leaves in the registry.
use alpilab_ai.Base.{
  ℕ, String, true, false, Option, none, some, [], ◌∷◌, ◌≡◌, refl, sym, arith, ◌==◌,
}
use alpilab_ai.Base.Exec.{Result, ok, err}
use alpilab_ai.Base.Platform.{Platform}
use alpilab_ai.Base.Text.{join_colon}
use alpilab_ai.Base.Dict
use alpilab_ai.Base.Dict.{get, get-put_same, get-put_other, get-remove}
use alpilab_ai.Agent.Payloads.{Registration, online}
use alpilab_ai.Agent.Registry.{
  Agents, RegisteredAgent, find_agent, register as enter, unregister as leave,
}
use alpilab_ai.Agent.Gateway.{
  Server, register_agent, unregister_agent, register_session, unregister_found, enter_agent,
  drop_existing, new_agent,
}
use alpilab_ai.Realtime.DeviceContext.{truthy}
use alpilab_ai.Realtime.Payloads.{Error}
use alpilab_ai.Realtime.State.{SessionData}
use alpilab_ai.Pairing.ClientAuth.{truthy_given}
use alpilab_ai.Realtime.Manager.{Manager}
use alpilab_ai.Routes.Agents.{
  register, AgentMessage, message, gone, registration_of, is_valid, unregistered, agent_websocket,
  read,
}

-- An agent of the session is in the registry, online.
abbrev pub IsThere : String → String → Server → Type 0
IsThere sid id srv =
    (a : RegisteredAgent) × ((find_agent sid id srv.agents ≡ some a) × (a.status ≡ online))

module _ (p : Platform) (sid : String) where
  session-IsThere :
      (r : Registration) (channel : ℕ) (x : Result Error SessionData × Manager) (srv : Server)
      (a : RegisteredAgent)
      → (register_session p sid r channel x srv).0 ≡ ok a
      → IsThere sid r.agent_id (register_session p sid r channel x srv).1
  unfolding find_agent enter_agent enter new_agent
  session-IsThere r channel (err e, m) srv a h = cc
  session-IsThere r channel (ok s, m) srv a h = (_, (get-put_same _ _ _, refl))

  register_agent-IsThere :
      (r : Registration) (channel : ℕ) (srv : Server) (a : RegisteredAgent)
      → (register_agent p sid r channel srv).0 ≡ ok a
      → IsThere sid r.agent_id (register_agent p sid r channel srv).1
  unfolding register_agent
  register_agent-IsThere r channel srv a h = session-IsThere r channel _ srv a h

  left_kept :
      (d : Agents) (j k : String) (a : RegisteredAgent)
      → (j == k) ≡ false
      → get d k ≡ some a
      → get (Dict.remove d j) k ≡ some a
  left_kept d j k a other h = ground (arith, get-remove d j k)

  drop-kept :
      (id other : String) (o : Option RegisteredAgent) (agents : Agents) (a : RegisteredAgent)
      → (join_colon sid other == join_colon sid id) ≡ false
      → find_agent sid id agents ≡ some a
      → find_agent sid id (drop_existing p sid other o agents) ≡ some a
  unfolding find_agent leave
  drop-kept id other none agents a apart h = h
  drop-kept id other (some old) agents a apart h = left_kept agents _ _ a apart h

  session-kept :
      (id : String) (r : Registration) (channel : ℕ) (x : Result Error SessionData × Manager)
      (srv : Server) (a : RegisteredAgent)
      → (join_colon sid r.agent_id == join_colon sid id) ≡ false
      → find_agent sid id srv.agents ≡ some a
      → find_agent sid id (register_session p sid r channel x srv).1.agents ≡ some a
  unfolding enter_agent enter new_agent
  session-kept id r channel (err e, m) srv a apart h = h
  session-kept id r channel (ok s, m) srv a apart h =
      let dropped =
        drop-kept id r.agent_id (find_agent sid r.agent_id srv.agents) srv.agents a apart h in
      unfold find_agent in
      get-put_other _ (join_colon sid r.agent_id) (join_colon sid id) _ a apart
        (unfold find_agent in dropped)

  register_agent_kept :
      (id : String) (r : Registration) (channel : ℕ) (srv : Server) (a : RegisteredAgent)
      → (join_colon sid r.agent_id == join_colon sid id) ≡ false
      → find_agent sid id srv.agents ≡ some a
      → find_agent sid id (register_agent p sid r channel srv).1.agents ≡ some a
  unfolding register_agent
  register_agent_kept id r channel srv a apart h = session-kept id r channel _ srv a apart h

  unregister-kept :
      (id other : String) (o : Option RegisteredAgent) (srv : Server) (a : RegisteredAgent)
      → (join_colon sid other == join_colon sid id) ≡ false
      → find_agent sid id srv.agents ≡ some a
      → find_agent sid id (unregister_found p sid other o (leave sid other srv.agents).1 srv).agents
        ≡ some a
  unfolding find_agent leave
  unregister-kept id other none srv a apart h = h
  unregister-kept id other (some old) srv a apart h = left_kept srv.agents _ _ a apart h

  unregistered-kept :
      (agent_id : String) (channel : ℕ) (id : String) (o : Option String) (srv : Server)
      (a : RegisteredAgent)
      → ((other : String) → o ≡ some other → (join_colon sid other == join_colon sid id) ≡ false)
      → find_agent sid id srv.agents ≡ some a
      → find_agent sid id (unregistered p sid agent_id channel o srv).agents ≡ some a
  unfolding unregister_agent
  unregistered-kept agent_id channel id none srv a apart h = h
  unregistered-kept agent_id channel id (some other) srv a apart h =
      unregister-kept id other _ srv a (apart other refl) h

truthy-same : (id other : String) → truthy (some id) ≡ some other → id ≡ other
truthy-same id other h = let given = truthy_given (some id) other h in cc

-- A socket that registers an agent, then another one of a different key, and is disconnected, is over,
-- but leaves the first agent in the registry, online: only the last one is taken out.
pub registered_twice :
    (p : Platform) (sid agent_id : String) (channel : ℕ) (first second : AgentMessage)
    (srv : Server) (a b : RegisteredAgent)
    → first.kind ≡ register
    → second.kind ≡ register
    → is_valid (registration_of agent_id first) ≡ true
    → is_valid (registration_of agent_id second) ≡ true
    → (register_agent p sid (registration_of agent_id first) channel srv).0 ≡ ok a
    → (register_agent p sid
        (registration_of agent_id second)
        channel
        (register_agent p sid (registration_of agent_id first) channel srv).1).0
      ≡ ok b
    → (join_colon sid (registration_of agent_id second).agent_id
        == join_colon sid (registration_of agent_id first).agent_id)
      ≡ false
    → let turn =
        agent_websocket p sid agent_id channel
          (message first ∷ message second ∷ gone ∷ [])
          none
          srv in
      (turn.goes_on ≡ false) × IsThere sid (registration_of agent_id first).agent_id turn.server
unfolding agent_websocket read
registered_twice p sid agent_id channel first second srv a b kind1 kind2 valid1 valid2 in1 in2
      apart =
    let r : Registration = registration_of agent_id first in
    let new : Registration = registration_of agent_id second in
    let entered : Server = (register_agent p sid r channel srv).1 in
    let (x, (found, status)) : IsThere sid r.agent_id entered =
      register_agent-IsThere p sid r channel srv a in1 in
    let still = register_agent_kept p sid r.agent_id new channel entered x apart found in
    rw (kind1, kind2, valid1, in1, valid2, in2)
      (
        refl,
        (
          x,
          (
            unregistered-kept p sid agent_id channel r.agent_id (truthy (some new.agent_id)) _ x
                (λ other e. rw (sym (truthy-same new.agent_id other e)) apart) still,
            status,
          ),
        ),
      )
