-- ===== src/Agent/Executor/Frame.antt =====
-- A call of `execute_tool` leaves the sessions and what is saved of them alone.
use alpilab_ai.Base.{ℕ, String, Option, none, some, refl, not, if_rule}
use alpilab_ai.Base.Exec.{Result, ok, err}
use alpilab_ai.Base.Platform.{Platform}
use alpilab_ai.Base.Dict.{Dict}
use alpilab_ai.Base.Json.{Fields}
use alpilab_ai.Realtime.Payloads.{Error}
use alpilab_ai.Realtime.DeviceContext.{truthy}
use alpilab_ai.Realtime.Manager.{Manager, uuid4, utc_now}
use alpilab_ai.Realtime.Manager.Frame.{SameCore, SameCore-trans, announce-SameCore}
use alpilab_ai.Agent.Payloads.{CommandEnvelope, ResultEnvelope}
use alpilab_ai.Agent.Registry.{RegisteredAgent, find_agent}
use alpilab_ai.Agent.Gateway.{Server, emit_tool_audit, send_to_agent}
use alpilab_ai.Agent.Gateway.Commands
use alpilab_ai.Agent.Gateway.Commands.{
  send_tool_execute, execute_found, execute_uncached, make_command,
}
use alpilab_ai.Tools.Executable.{ExecutableToolSpec, get_executable, validate_tool_arguments}
use alpilab_ai.Tools.Authorization.{authorize_tool_execution}
use alpilab_ai.Agent.Executor.{
  Started, execute_tool, on_cache, on_spec, on_arguments, on_agent, dispatch, after_register, sent,
  or_uuid,
}

pub SameCore-refl : (m : Manager) → SameCore m m
SameCore-refl m = record { sessions = refl; store = refl; sockets = refl }

module _ (p : Platform) where
  uuid-SameCore : (o : Option String) (m : Manager) → SameCore m (Commands.or_uuid p o m).1
  unfolding uuid4
  uuid-SameCore none m = record { sessions = refl; store = refl; sockets = refl }
  uuid-SameCore (some id) m = SameCore-refl m

  utc_now-SameCore : (m : Manager) → SameCore m (utc_now p m).1
  unfolding utc_now
  utc_now-SameCore m = record { sessions = refl; store = refl; sockets = refl }

  uncached-SameCore :
      (sid aid tid : String) (args : Fields) (r c : String) (a : RegisteredAgent)
      (old : Option ResultEnvelope) (srv : Server)
      → SameCore srv.manager (execute_uncached p sid aid tid args r c a old srv).1.manager
  unfolding send_to_agent emit_tool_audit
  uncached-SameCore sid aid tid args r c a (some old) srv = utc_now-SameCore srv.manager
  uncached-SameCore sid aid tid args r c a none srv =
      SameCore-trans (utc_now-SameCore srv.manager) (announce-SameCore p sid _ _ _ _ _)

  found-SameCore :
      (sid aid tid : String) (args : Fields) (r c : Option String) (o : Option RegisteredAgent)
      (srv : Server)
      → SameCore srv.manager (execute_found p sid aid tid args r c o srv).1.manager
  found-SameCore sid aid tid args r c none srv = SameCore-refl srv.manager
  found-SameCore sid aid tid args r c (some a) srv =
      SameCore-trans (uuid-SameCore (truthy r) srv.manager)
        (SameCore-trans (uuid-SameCore (truthy c) _) (uncached-SameCore sid aid tid args _ _ a _ _))

  module _ (registry : Dict ExecutableToolSpec) where
    sent-SameCore :
        (r : String) (f : ℕ) (m : Manager) (x : Result Error CommandEnvelope × Server)
        → SameCore m x.1.manager
        → SameCore m (sent p registry r f x).1.manager
    sent-SameCore r f m (ok c, srv) h = h
    sent-SameCore r f m (err e, srv) h = h

    register-SameCore :
        (sid aid tid : String) (args : Fields) (r c : String) (f : ℕ) (o : Option ResultEnvelope)
        (srv : Server)
        → SameCore srv.manager (after_register p registry sid aid tid args r c f o srv).1.manager
    unfolding send_tool_execute
    register-SameCore sid aid tid args r c f (some old) srv = SameCore-refl srv.manager
    register-SameCore sid aid tid args r c f none srv =
        sent-SameCore r f srv.manager (send_tool_execute p sid aid tid args (some r) (some c) srv)
          (found-SameCore sid aid tid args (some r) (some c) (find_agent sid aid srv.agents) srv)

    drawn-SameCore : (o : Option String) (m : Manager) → SameCore m (or_uuid p registry o m).1
    unfolding uuid4
    drawn-SameCore none m = record { sessions = refl; store = refl; sockets = refl }
    drawn-SameCore (some id) m = SameCore-refl m

    uuid4-SameCore : (m : Manager) → SameCore m (uuid4 p m).1
    unfolding uuid4
    uuid4-SameCore m = record { sessions = refl; store = refl; sockets = refl }

    dispatch-SameCore :
        (sid aid tid : String) (args : Fields) (r : Option String) (srv : Server)
        → SameCore srv.manager (dispatch p registry sid aid tid args r srv).1.manager
    unfolding dispatch
    dispatch-SameCore sid aid tid args r srv =
        SameCore-trans (drawn-SameCore r srv.manager)
          (SameCore-trans (uuid4-SameCore _) (register-SameCore sid aid tid args _ _ _ _ _))

    agent-SameCore :
        (sid aid tid : String) (args : Fields) (r : Option String) (spec : ExecutableToolSpec)
        (o : Option RegisteredAgent) (srv : Server)
        → SameCore srv.manager (on_agent p registry sid aid tid args r spec o srv).1.manager
    agent-SameCore sid aid tid args r spec none srv = SameCore-refl srv.manager
    agent-SameCore sid aid tid args r spec (some a) srv =
        if_rule {A = Started × Server} (λ x. SameCore srv.manager x.1.manager)
          (not (authorize_tool_execution spec a.capabilities).allowed) (SameCore-refl srv.manager)
          (dispatch-SameCore sid aid tid args r srv)

    arguments-SameCore :
        (sid aid tid : String) (args : Fields) (r : Option String) (spec : ExecutableToolSpec)
        (o : Option String) (srv : Server)
        → SameCore srv.manager (on_arguments p registry sid aid tid args r spec o srv).1.manager
    arguments-SameCore sid aid tid args r spec (some code) srv = SameCore-refl srv.manager
    arguments-SameCore sid aid tid args r spec none srv =
        agent-SameCore sid aid tid args r spec (find_agent sid aid srv.agents) srv

    spec-SameCore :
        (sid aid tid : String) (args : Fields) (r : Option String) (o : Option ExecutableToolSpec)
        (srv : Server)
        → SameCore srv.manager (on_spec p registry sid aid tid args r o srv).1.manager
    spec-SameCore sid aid tid args r none srv = SameCore-refl srv.manager
    spec-SameCore sid aid tid args r (some spec) srv =
        if_rule {A = Started × Server} (λ x. SameCore srv.manager x.1.manager) (not spec.enabled)
          (SameCore-refl srv.manager)
          (arguments-SameCore sid aid tid args r spec (validate_tool_arguments spec args) srv)

    cache-SameCore :
        (sid aid tid : String) (args : Fields) (r : Option String) (o : Option ResultEnvelope)
        (srv : Server)
        → SameCore srv.manager (on_cache p registry sid aid tid args r o srv).1.manager
    cache-SameCore sid aid tid args r (some old) srv = SameCore-refl srv.manager
    cache-SameCore sid aid tid args r none srv =
        spec-SameCore sid aid tid args r (get_executable tid registry) srv

    pub execute_tool-SameCore :
        (sid aid tid : String) (args : Fields) (r : Option String) (srv : Server)
        → SameCore srv.manager (execute_tool p registry sid aid tid args r srv).1.manager
    unfolding execute_tool
    execute_tool-SameCore sid aid tid args r srv = cache-SameCore sid aid tid args (truthy r) _ srv
