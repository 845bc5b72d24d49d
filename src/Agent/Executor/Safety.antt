-- ===== src/Agent/Executor/Safety.antt =====
-- What a call of `execute_tool` may do: a command leaves the server only for a tool and an agent that
-- pass every check, and a refusal changes nothing.
use alpilab_ai.Base.{
  ℕ, String, Option, none, some, [], ◌∷◌, ◌++◌, ◌≡◌, ◌⊎◌, refl, inl, inr, not, sym, ◌∙◌, if_rule,
  Bool-cases, some_injective,
}
use alpilab_ai.Base.Exec.{Result, ok, err}
use alpilab_ai.Base.Platform.{Platform}
use alpilab_ai.Base.Dict.{Dict}
use alpilab_ai.Base.Json.{Fields}
use alpilab_ai.Realtime.DeviceContext.{truthy}
use alpilab_ai.Agent.Payloads.{CommandEnvelope, ResultEnvelope, command}
use alpilab_ai.Agent.Registry.{RegisteredAgent, find_agent}
use alpilab_ai.Agent.Gateway.{Server, tool_payload}
use alpilab_ai.Agent.Gateway.Commands.{send_tool_execute}
use alpilab_ai.Agent.Gateway.Sending.{SentAtMost, send_tool_execute_sends}
use alpilab_ai.Tools.Executable.{ExecutableToolSpec, get_executable, validate_tool_arguments}
use alpilab_ai.Tools.Authorization.{MayRun, authorize_tool_execution, allowed-MayRun}
use alpilab_ai.Agent.Executor.{
  Started, execute_tool, on_cache, on_spec, on_arguments, on_agent, dispatch, after_register, sent,
}

-- One command went out: a TOOL_EXECUTE of the tool with the arguments, to an agent of the session
-- under the agent's id; the tool is registered, may run on the agent, and takes the arguments.
pub record Dispatched (registry : Dict ExecutableToolSpec) (session_id agent_id tool_id : String)
    (arguments : Fields) (srv srv' : Server) : Type 0 where
  pub spec : ExecutableToolSpec
  pub agent : RegisteredAgent
  pub envelope : CommandEnvelope
  pub known : get_executable tool_id registry ≡ some spec
  pub valid : validate_tool_arguments spec arguments ≡ none
  pub found : find_agent session_id agent_id srv.agents ≡ some agent
  pub may_run : MayRun spec agent.capabilities
  pub kind : envelope.kind ≡ "TOOL_EXECUTE"
  pub target : envelope.target ≡ agent_id
  pub payload : envelope.payload ≡ tool_payload tool_id arguments
  pub sent_to : srv'.agent_outbox ≡ srv.agent_outbox ++ (agent.channel, command envelope) ∷ []

module _ (p : Platform) (registry : Dict ExecutableToolSpec) where
  sent_outbox :
      (r : String) (f : ℕ) (x : Result _ CommandEnvelope × Server)
      → (sent p registry r f x).1.agent_outbox ≡ x.1.agent_outbox
  sent_outbox r f (ok c, srv) = refl
  sent_outbox r f (err e, srv) = refl

  -- what a step of the call may do to the outbox, when the agent is `found`
  register_sends :
      (sid aid tid : String) (args : Fields) (r c : String) (f : ℕ) (o : Option ResultEnvelope)
      (srv : Server)
      → SentAtMost aid tid args
          (find_agent sid aid srv.agents)
          srv
          (after_register p registry sid aid tid args r c f o srv).1
  register_sends sid aid tid args r c f (some old) srv = inl refl
  register_sends sid aid tid args r c f none srv =
      rw (sent_outbox r f (send_tool_execute p sid aid tid args (some r) (some c) srv))
        (send_tool_execute_sends p sid aid tid args (some r) (some c) srv)

  dispatch_sends :
      (sid aid tid : String) (args : Fields) (r : Option String) (srv : Server)
      → SentAtMost aid tid args
          (find_agent sid aid srv.agents)
          srv
          (dispatch p registry sid aid tid args r srv).1
  unfolding dispatch
  dispatch_sends sid aid tid args r srv = register_sends sid aid tid args _ _ _ _ _

  abbrev Sends : String → String → String → Fields → Server → Server → Type 0
  Sends sid aid tid args srv srv' =
      (srv'.agent_outbox ≡ srv.agent_outbox) ⊎ Dispatched registry sid aid tid args srv srv'

  agent-Sends :
      (sid aid tid : String) (args : Fields) (r : Option String) (spec : ExecutableToolSpec)
      (o : Option RegisteredAgent) (srv : Server)
      → get_executable tid registry ≡ some spec
      → validate_tool_arguments spec args ≡ none
      → find_agent sid aid srv.agents ≡ o
      → Sends sid aid tid args srv (on_agent p registry sid aid tid args r spec o srv).1
  agent-Sends sid aid tid args r spec none srv known valid found = inl refl
  agent-Sends sid aid tid args r spec (some a) srv known valid found =
      elim (Bool-cases (authorize_tool_execution spec a.capabilities).allowed) [
        | inl granted ↦ rw granted (elim (dispatch_sends sid aid tid args r srv) [
          | inl same ↦ inl same
          | inr (b, c, at, kind, target, payload, out) ↦ inr (record {
            spec = spec;
            agent = b;
            envelope = c;
            known = known;
            valid = valid;
            found = at;
            may_run =
                allowed-MayRun spec b.capabilities
                  (let same : a ≡ b = some_injective (sym found ∙ at) in rw same at granted);
            kind = kind;
            target = target;
            payload = payload;
            sent_to = out;
          })
        ])
        | inr denied ↦ rw denied (inl refl)
      ]

  arguments-Sends :
      (sid aid tid : String) (args : Fields) (r : Option String) (spec : ExecutableToolSpec)
      (o : Option String) (srv : Server)
      → get_executable tid registry ≡ some spec
      → validate_tool_arguments spec args ≡ o
      → Sends sid aid tid args srv (on_arguments p registry sid aid tid args r spec o srv).1
  arguments-Sends sid aid tid args r spec (some code) srv known valid = inl refl
  arguments-Sends sid aid tid args r spec none srv known valid =
      agent-Sends sid aid tid args r spec (find_agent sid aid srv.agents) srv known valid refl

  spec-Sends :
      (sid aid tid : String) (args : Fields) (r : Option String) (o : Option ExecutableToolSpec)
      (srv : Server)
      → get_executable tid registry ≡ o
      → Sends sid aid tid args srv (on_spec p registry sid aid tid args r o srv).1
  spec-Sends sid aid tid args r none srv known = inl refl
  spec-Sends sid aid tid args r (some spec) srv known =
      if_rule {A = Started × Server} (λ x. Sends sid aid tid args srv x.1) (not spec.enabled)
        (inl refl)
        (arguments-Sends sid aid tid args r spec (validate_tool_arguments spec args) srv known refl)

  cache-Sends :
      (sid aid tid : String) (args : Fields) (r : Option String) (o : Option ResultEnvelope)
      (srv : Server)
      → Sends sid aid tid args srv (on_cache p registry sid aid tid args r o srv).1
  cache-Sends sid aid tid args r (some old) srv = inl refl
  cache-Sends sid aid tid args r none srv =
      spec-Sends sid aid tid args r (get_executable tid registry) srv refl

  -- A call of `execute_tool` sends nothing to any agent, or exactly one command: a TOOL_EXECUTE that
  -- carries the tool and the arguments, to the agent registered under the session and the agent id;
  -- then the tool is in the registry and takes the arguments, it is enabled, its risk lets it run by
  -- itself, and the agent has the capabilities it requires.
  pub execute_tool-Dispatched :
      (sid aid tid : String) (args : Fields) (r : Option String) (srv : Server)
      → ((execute_tool p registry sid aid tid args r srv).1.agent_outbox ≡ srv.agent_outbox)
        ⊎ Dispatched registry sid aid tid args srv
            (execute_tool p registry sid aid tid args r srv).1
  unfolding execute_tool
  execute_tool-Dispatched sid aid tid args r srv = cache-Sends sid aid tid args (truthy r) _ srv
