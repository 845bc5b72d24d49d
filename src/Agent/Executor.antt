-- ===== src/Agent/Executor.antt =====
-- app/agent/tool_executor.py: `ToolExecutionService.execute_tool`, cut at its `await` of the future:
-- `execute_tool` runs to a value, a refusal or the wait; `wake` is what follows when the future is
-- done, `expire` when the time is over first.
pub mod Safety
pub mod Frame
use alpilab_ai.Base.{ℕ, String, Bool, Option, none, some, List, not, ◌==◌, if◌then◌else◌, or_else}
use alpilab_ai.Base.Exec.{Result, ok, err}
use alpilab_ai.Base.Platform.{Platform}
use alpilab_ai.Base.Dict.{Dict}
use alpilab_ai.Base.Json.{Fields}
use alpilab_ai.Realtime.Payloads.{Error}
use alpilab_ai.Realtime.DeviceContext.{truthy}
use alpilab_ai.Realtime.Manager.{Manager, uuid4}
use alpilab_ai.Agent.Payloads.{CommandEnvelope, ResultEnvelope}
use alpilab_ai.Agent.Registry.{RegisteredAgent, find_agent}
use alpilab_ai.Agent.Executions.{
  ToolExecutionStore, Outcome, resolved, timed_out, cancelled, outcome_of, settle, get_completed,
  register_pending, fail_pending,
}
use alpilab_ai.Agent.Gateway.{Server}
use alpilab_ai.Agent.Gateway.Commands.{send_tool_execute}
use alpilab_ai.Tools.Executable.{ExecutableToolSpec, get_executable, validate_tool_arguments}
use alpilab_ai.Tools.Authorization.{ActionAuthorization, authorize_tool_execution}

-- How far a call gets: a result at once, `ToolExecutionError` with its code, an error of the gateway,
-- or the wait for a future under a request id.
pub data Started : Type 0 where
  returned : ResultEnvelope → Started
  refused : String → Started
  failed : Error → Started
  waiting : String → ℕ → Started

-- How a wait ends; `lost` is a wait whose future another waiter cancelled.
pub data Ended : Type 0 where
  delivered : ResultEnvelope → Ended
  timeout : Ended
  lost : Ended

module _ (p : Platform) (registry : Dict ExecutableToolSpec) where
  abbrev or_uuid : Option String → Manager → String × Manager
  or_uuid (some id) m = (id, m)
  or_uuid none m = uuid4 p m

  abbrev sent : String → ℕ → Result Error CommandEnvelope × Server → Started × Server
  sent request_id future (err e, srv) = (failed e, srv)
  sent request_id future (ok _, srv) = (waiting request_id future, srv)

  abbrev after_register :
      String
      → String
      → String
      → Fields
      → String
      → String
      → ℕ
      → Option ResultEnvelope
      → Server
      → Started × Server
  after_register session_id agent_id tool_id arguments request_id command_id future (some r) srv =
      (returned r, srv)
  after_register session_id agent_id tool_id arguments request_id command_id future none srv =
      sent request_id future (
        send_tool_execute p session_id agent_id tool_id arguments (some request_id)
          (some command_id) srv)

  -- the request is registered and sent, after every check
  unfoldable pub dispatch :
      String → String → String → Fields → Option String → Server → Started × Server
  dispatch session_id agent_id tool_id arguments request_id srv =
      let (req_id, m1) = or_uuid request_id srv.manager in
      let (cmd_id, m2) = uuid4 p m1 in
      let (future, executions) =
        register_pending req_id cmd_id tool_id agent_id session_id srv.executions in
      after_register session_id agent_id tool_id arguments req_id cmd_id future
        (get_completed req_id executions) (record srv { manager = m2; executions = executions })

  abbrev on_agent :
      String
      → String
      → String
      → Fields
      → Option String
      → ExecutableToolSpec
      → Option RegisteredAgent
      → Server
      → Started × Server
  on_agent session_id agent_id tool_id arguments request_id spec none srv =
      (refused "AGENT_NOT_FOUND", srv)
  on_agent session_id agent_id tool_id arguments request_id spec (some a) srv =
      let auth = authorize_tool_execution spec a.capabilities in
      let go = dispatch session_id agent_id tool_id arguments request_id srv in
      if not auth.allowed then (refused (or_else auth.error "AUTHORIZATION_DENIED"), srv) else go

  abbrev on_arguments :
      String
      → String
      → String
      → Fields
      → Option String
      → ExecutableToolSpec
      → Option String
      → Server
      → Started × Server
  on_arguments session_id agent_id tool_id arguments request_id spec (some code) srv =
      (refused code, srv)
  on_arguments session_id agent_id tool_id arguments request_id spec none srv =
      on_agent session_id agent_id tool_id arguments request_id spec
        (find_agent session_id agent_id srv.agents) srv

  abbrev on_spec :
      String
      → String
      → String
      → Fields
      → Option String
      → Option ExecutableToolSpec
      → Server
      → Started × Server
  on_spec session_id agent_id tool_id arguments request_id none srv =
      (refused "TOOL_NOT_FOUND", srv)
  on_spec session_id agent_id tool_id arguments request_id (some spec) srv =
      let go =
        on_arguments session_id agent_id tool_id arguments request_id spec
          (validate_tool_arguments spec arguments) srv in
      if not spec.enabled then (refused "TOOL_DISABLED", srv) else go

  abbrev cached_result : Option String → ToolExecutionStore → Option ResultEnvelope
  cached_result none st = none
  cached_result (some request_id) st = get_completed request_id st

  abbrev on_cache :
      String
      → String
      → String
      → Fields
      → Option String
      → Option ResultEnvelope
      → Server
      → Started × Server
  on_cache session_id agent_id tool_id arguments request_id (some r) srv = (returned r, srv)
  on_cache session_id agent_id tool_id arguments request_id none srv =
      on_spec session_id agent_id tool_id arguments request_id (get_executable tool_id registry) srv

  unfoldable pub execute_tool :
      String → String → String → Fields → Option String → Server → Started × Server
  execute_tool session_id agent_id tool_id arguments request_id srv =
      on_cache session_id agent_id tool_id arguments (truthy request_id)
        (cached_result (truthy request_id) srv.executions) srv

-- `asyncio.wait_for` cancels the future, then the pending request is failed.
unfoldable pub expire : String → ℕ → Server → Ended × Server
expire request_id future srv =
    let cancelling : ToolExecutionStore = record srv.executions {
      outcomes = settle future cancelled srv.executions.outcomes;
    } in
    (
      timeout,
      record srv { executions = fail_pending request_id "TOOL_EXECUTION_TIMEOUT" cancelling },
    )

-- A `TimeoutError` that another waiter set is handled like one's own.
abbrev pub wake_on : String → Option Outcome → Server → Option Ended × Server
wake_on request_id none srv = (none, srv)
wake_on request_id (some (resolved r)) srv = (some (delivered r), srv)
wake_on request_id (some (timed_out e)) srv = (
  some timeout,
  record srv { executions = fail_pending request_id "TOOL_EXECUTION_TIMEOUT" srv.executions },
)
wake_on request_id (some cancelled) srv = (some lost, srv)

-- What the waiter of a future goes on with; `none` while the future is not done.
unfoldable pub wake : String → ℕ → Server → Option Ended × Server
wake request_id future srv = wake_on request_id (outcome_of future srv.executions.outcomes) srv
