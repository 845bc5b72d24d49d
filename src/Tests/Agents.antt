-- ===== src/Tests/Agents.antt =====
-- The PC agents and their tools: the properties at concrete inputs.
use alpilab_ai.Base.{ℕ, true, false, none, some, List, [], ◌∷◌, ◌≡◌, ◌⊎◌, ◌↔◌, refl, arith}
use alpilab_ai.Base.Dict.{get}
use alpilab_ai.Base.Json.{end}
use alpilab_ai.Agent.Payloads.{InboundResult, Capabilities, ResultEnvelope, Registration, windows}
use alpilab_ai.Agent.Executions.{
  ToolExecutionStore, resolved, outcome_of, get_completed, register_pending, complete,
}
use alpilab_ai.Agent.Executions.Soundness.{
  IsSound, Call, registering, completing, failing, apply_all,
}
use alpilab_ai.Agent.Executions.Answers.{
  apply_all-IsSound, get_completed-apply_all, register_pending_answered,
}
use alpilab_ai.Agent.Gateway.{Server, register_agent}
use alpilab_ai.Agent.Gateway.Durable.{register_agent-IsDurable}
use alpilab_ai.Agent.Gateway.ResultMessages.{handle_tool_execute_result}
use alpilab_ai.Agent.Gateway.Results.{Effect, handle_tool_execute_result-Effect}
use alpilab_ai.Agent.Gateway.Requests.{
  register, unregister, execute, tool_result, serve_all, serve_all-IsDurable,
}
use alpilab_ai.Agent.Executor.{execute_tool}
use alpilab_ai.Agent.Executor.Safety.{Dispatched, execute_tool-Dispatched}
use alpilab_ai.Tools.Executable.{seed_executable, safe_test_tool}
use alpilab_ai.Tools.Authorization.{
  MayRun, authorize_tool_execution, authorize_tool_execution-MayRun,
}
use alpilab_ai.Realtime.Manager.Durability.{IsDurable}
use alpilab_ai.Tests.Machine.{machine, manager, manager-IsDurable}

abbrev no_executions : ToolExecutionStore
no_executions = record { pending = []; completed = []; outcomes = []; created = 0 }

no_executions-IsSound : IsSound no_executions
unfolding get outcome_of
no_executions-IsSound = record {
  apart = λ k q e. cc;
  unsettled = λ k q e. cc;
  made = λ k q e. ground arith;
  done_made = λ f o e. ground arith;
  own = λ j k q r e e' same. cc;
}

abbrev pong : ResultEnvelope
pong = record {
  request_id = "r1";
  command_id = some "c1";
  agent_id = "pc1";
  tool_id = some "demo.safe_test";
  success = true;
  result = end;
  error = none;
  timestamp = 3;
}

abbrev calls : List Call
calls = registering "r2" "c2" "demo.safe_test" "pc1" "s1" ∷ failing "r2" "timeout" ∷ []

apply_all-IsSound_example : IsSound (apply_all calls no_executions)
apply_all-IsSound_example = apply_all-IsSound calls no_executions no_executions-IsSound

get_completed-apply_all_example :
    get_completed "r1" (
      apply_all
        (completing (record pong { success = false }) ∷ calls)
        (record no_executions { completed = ("r1", pong) ∷ [] }))
    ≡ some pong
unfolding get_completed get
get_completed-apply_all_example =
    get_completed-apply_all (completing (record pong { success = false }) ∷ calls) "r1" pong
      (record no_executions { completed = ("r1", pong) ∷ [] }) refl

register_pending_answered_example :
    let started : ℕ × ToolExecutionStore =
      register_pending "r1" "c1" "demo.safe_test" "pc1" "s1" no_executions in
    let later : ToolExecutionStore = apply_all calls started.1 in
    ((complete pong later).0 ≡ true)
    × (outcome_of started.0 (complete pong later).1.outcomes ≡ some (resolved pong))
    × (get_completed "r1" (complete pong later).1 ≡ some pong)
unfolding get_completed get
register_pending_answered_example =
    register_pending_answered "c1" "demo.safe_test" "pc1" "s1" calls pong no_executions
      no_executions-IsSound refl (refl, (refl, tt))

abbrev capabilities : Capabilities
capabilities = record {
  safe_test = true;
  windows_apps = true;
  alpilab_check = false;
  microscope = false;
  thermal_camera = false;
  multimeter = false;
  power_supply = false;
}

abbrev registration : Registration
registration = record {
  agent_id = "pc1";
  agent_name = "Banco";
  platform = windows;
  agent_version = "0.1.0";
  capabilities = capabilities;
}

abbrev server : Server
server = record { manager = manager; agents = []; executions = no_executions; agent_outbox = [] }

-- The server with the agent.
abbrev pub served : Server
served = (register_agent machine "s1" registration 0 server).1

pub served-IsDurable : IsDurable served.manager
served-IsDurable = register_agent-IsDurable machine "s1" registration 0 server manager-IsDurable

execute_tool-Dispatched_example :
    ((execute_tool machine
        (seed_executable [])
        "s1"
        "pc1"
        "demo.safe_test"
        end
        (some "r1")
        served).1.agent_outbox
      ≡ served.agent_outbox)
    ⊎ Dispatched
        (seed_executable [])
        "s1"
        "pc1"
        "demo.safe_test"
        end
        served
        (execute_tool machine
          (seed_executable [])
          "s1"
          "pc1"
          "demo.safe_test"
          end
          (some "r1")
          served).1
execute_tool-Dispatched_example =
    execute_tool-Dispatched machine (seed_executable []) "s1" "pc1" "demo.safe_test" end (some "r1")
      served

authorize_tool_execution-MayRun_example :
    ((authorize_tool_execution safe_test_tool capabilities).allowed ≡ true)
    ↔ MayRun safe_test_tool capabilities
authorize_tool_execution-MayRun_example =
    authorize_tool_execution-MayRun safe_test_tool capabilities

abbrev pub message : InboundResult
message = record {
  agent_id = some "pc1";
  request_id = some "r1";
  command_id = some "c1";
  tool_id = some "demo.safe_test";
  success = some true;
  result = none;
  error = none;
  timestamp = none;
}

handle_tool_execute_result-Effect_example :
    Effect "s1" message "pc1" "r1" none server
      (handle_tool_execute_result machine "s1" message server).1
unfolding get_completed get
handle_tool_execute_result-Effect_example =
    handle_tool_execute_result-Effect machine "s1" message "pc1" "r1" server refl refl

serve_all-IsDurable_example :
    IsDurable
      (serve_all machine
        (("s1", register registration 0)
          ∷ ("s1", execute "pc1" "demo.safe_test" end (some "r1") none)
          ∷ ("s1", tool_result message)
          ∷ ("s1", unregister "pc1")
          ∷ [])
        server).manager
serve_all-IsDurable_example =
    serve_all-IsDurable machine
      (("s1", register registration 0)
        ∷ ("s1", execute "pc1" "demo.safe_test" end (some "r1") none)
        ∷ ("s1", tool_result message)
        ∷ ("s1", unregister "pc1")
        ∷ [])
      server manager-IsDurable
