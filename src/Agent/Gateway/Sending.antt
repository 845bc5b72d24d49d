-- ===== src/Agent/Gateway/Sending.antt =====
-- What `send_tool_execute` puts on the agents' channels.
use alpilab_ai.Base.{String, Option, none, some, [], ◌∷◌, ◌++◌, ◌≡◌, ◌⊎◌, refl, inl, inr}
use alpilab_ai.Base.Platform.{Platform}
use alpilab_ai.Base.Json.{Fields}
use alpilab_ai.Agent.Payloads.{CommandEnvelope, ResultEnvelope, command}
use alpilab_ai.Agent.Registry.{RegisteredAgent, find_agent}
use alpilab_ai.Agent.Gateway.{Server, send_to_agent, tool_payload}
use alpilab_ai.Agent.Gateway.Commands.{send_tool_execute, execute_found, execute_uncached}

-- The outbox grew by nothing or by one such command to the agent.
abbrev pub SentAtMost : String → String → Fields → Option RegisteredAgent → Server → Server → Type 0
SentAtMost agent_id tool_id arguments found srv srv' =
    (srv'.agent_outbox ≡ srv.agent_outbox)
    ⊎ ((a : RegisteredAgent) × (c : CommandEnvelope) × (found ≡ some a)
        × (c.kind ≡ "TOOL_EXECUTE")
        × (c.target ≡ agent_id)
        × (c.payload ≡ tool_payload tool_id arguments)
        × (srv'.agent_outbox ≡ srv.agent_outbox ++ (a.channel, command c) ∷ []))

module _ (p : Platform) where
  uncached_sends :
      (sid aid tid : String) (args : Fields) (r c : String) (a : RegisteredAgent)
      (old : Option ResultEnvelope) (srv : Server)
      → SentAtMost aid tid args (some a) srv (execute_uncached p sid aid tid args r c a old srv).1
  unfolding send_to_agent
  uncached_sends sid aid tid args r c a (some old) srv = inl refl
  uncached_sends sid aid tid args r c a none srv = inr (a, _, refl, refl, refl, refl, refl)

  found_sends :
      (sid aid tid : String) (args : Fields) (r c : Option String) (o : Option RegisteredAgent)
      (srv : Server)
      → SentAtMost aid tid args o srv (execute_found p sid aid tid args r c o srv).1
  found_sends sid aid tid args r c none srv = inl refl
  found_sends sid aid tid args r c (some a) srv = uncached_sends sid aid tid args _ _ a _ _

  -- A tool execution sends nothing, or one command with the tool and its arguments to the agent.
  pub send_tool_execute_sends :
      (sid aid tid : String) (args : Fields) (r c : Option String) (srv : Server)
      → SentAtMost aid tid args
          (find_agent sid aid srv.agents)
          srv
          (send_tool_execute p sid aid tid args r c srv).1
  unfolding send_tool_execute
  send_tool_execute_sends sid aid tid args r c srv =
      found_sends sid aid tid args r c (find_agent sid aid srv.agents) srv
