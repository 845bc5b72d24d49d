-- ===== src/Tests/Waiting.antt =====
-- A client whose request waits for a tool, and the agent that answers: the property of its socket.
use alpilab_ai.Base.{true, none, some, [], ◌∷◌, ◌≡◌, refl}
use alpilab_ai.Agent.Gateway.{Server}
use alpilab_ai.Realtime.Manager.Durability.{IsDurable}
use alpilab_ai.Routes.Agents as Agents
use alpilab_ai.Routes.Agents.{tool_result}
use alpilab_ai.Routes.Sessions.{message, awaiting, listening, woken, session_websocket, read}
use alpilab_ai.Routes.Sessions.Steps.{
  stop, next, reads, wakes, others, agent_speaks, session_websocket-IsDurable,
}
use alpilab_ai.Tests.Agents.{served, served-IsDurable, message as result}
use alpilab_ai.Tests.Machine.{chat_message}
use alpilab_ai.Tests.Products.{ascii}
use alpilab_ai.Base.Json.{end}
use alpilab_ai.Agent.Payloads.{ResultEnvelope}
use alpilab_ai.Agent.Executor.{delivered, wake}
use alpilab_ai.Conversation.Service.{Call}
use alpilab_ai.Realtime.Payloads.{ClientMessage}
use alpilab_ai.Tests.Routes.{process, client, registration_message}

-- What the run below computes through.
conversing : Unit {0}
unfolding alpilab_ai.Agent.Executions.outcome_of alpilab_ai.Agent.Executions.settle
    alpilab_ai.Agent.Executions.get_completed alpilab_ai.Agent.Executions.register_pending
    alpilab_ai.Agent.Executions.complete alpilab_ai.Agent.Executor.dispatch
    alpilab_ai.Agent.Executor.execute_tool alpilab_ai.Agent.Executor.wake
    alpilab_ai.Agent.Gateway.send_to_agent alpilab_ai.Agent.Gateway.set_session_pc_agent
    alpilab_ai.Agent.Gateway.broadcast_agent_event alpilab_ai.Agent.Gateway.new_agent
    alpilab_ai.Agent.Gateway.enter_agent alpilab_ai.Agent.Gateway.register_agent
    alpilab_ai.Agent.Gateway.Commands.send_tool_execute
    alpilab_ai.Agent.Gateway.ResultMessages.handle_tool_execute_result
    alpilab_ai.Agent.Registry.presence alpilab_ai.Agent.Registry.register
    alpilab_ai.Agent.Registry.find_agent alpilab_ai.Base.Dict.put alpilab_ai.Base.Dict.values
    alpilab_ai.Base.Json.keys alpilab_ai.Base.Regex.match_start alpilab_ai.Base.Regex.search
    alpilab_ai.Base.Regex.any_char alpilab_ai.Base.Text.all_chars alpilab_ai.Base.Text.ends_with
    alpilab_ai.Base.Text.join_colon alpilab_ai.Base.Text.rstrip_chars
    alpilab_ai.Base.Text.collapse_spaces alpilab_ai.Commands.Engine.authorize_command
    alpilab_ai.Commands.Intents.resolve_tool_id alpilab_ai.Commands.Parser.is_letter
    alpilab_ai.Commands.Parser.is_forbidden alpilab_ai.Commands.Parser.normalize
    alpilab_ai.Commands.Parser.captured_text alpilab_ai.Commands.Parser.extract_open_target
    alpilab_ai.Commands.Parser.resolve_open_target alpilab_ai.Commands.Parser.parse
    alpilab_ai.Conversation.Answering.set_status
    alpilab_ai.Conversation.Products.Details.success_message_for_tool
    alpilab_ai.Conversation.Service.choose_agent
    alpilab_ai.Conversation.Service.dispatch_tool_intent
    alpilab_ai.Conversation.Service.handle_user_message alpilab_ai.Realtime.Manager.is_identifier
    alpilab_ai.Realtime.Manager.validate_session_id alpilab_ai.Realtime.Manager.validate_device_id
    alpilab_ai.Realtime.Manager.validate_device_type alpilab_ai.Realtime.Manager.get_session
    alpilab_ai.Realtime.Manager.set_session alpilab_ai.Realtime.Manager.persist_session
    alpilab_ai.Realtime.Manager.register_ws alpilab_ai.Realtime.Manager.send_ws
    alpilab_ai.Realtime.Manager.recipients alpilab_ai.Realtime.Manager.send_all
    alpilab_ai.Realtime.Manager.broadcast_ws alpilab_ai.Realtime.Manager.send_event_ws
    alpilab_ai.Realtime.Manager.uuid4 alpilab_ai.Realtime.Manager.utc_now
    alpilab_ai.Realtime.Manager.emit alpilab_ai.Realtime.Manager.announce
    alpilab_ai.Realtime.Manager.get_or_create_session alpilab_ai.Realtime.Manager.Inbound.dispatch
    alpilab_ai.Realtime.Manager.Inbound.handle_client_message
    alpilab_ai.Realtime.Manager.Presence.attach alpilab_ai.Realtime.Manager.Presence.connect_device
    alpilab_ai.Realtime.Manager.Updates.apply_changes
    alpilab_ai.Realtime.Manager.Updates.broadcast_state_update
    alpilab_ai.Realtime.Manager.Updates.add_chat_message
    alpilab_ai.Realtime.Manager.Updates.set_assistant_status
    alpilab_ai.Realtime.Payloads.validate_content
    alpilab_ai.Realtime.Sync.apply_assistant_status_change alpilab_ai.Routes.Agents.read
    alpilab_ai.Routes.Sessions.read alpilab_ai.Routes.Sessions.session_websocket
    alpilab_ai.Tools.Authorization.is_auto_executable alpilab_ai.Tools.Authorization.has_capability
    alpilab_ai.Tools.Authorization.authorize_tool_execution alpilab_ai.Tools.Executable.meets
    alpilab_ai.Tools.Executable.is_subset alpilab_ai.Tools.Executable.validate_tool_arguments
    alpilab_ai.Tools.Executable.get_executable alpilab_ai.Tools.Executable.seed_executable
    alpilab_ai.Pairing.ClientAuth.authorize_session_client
    alpilab_ai.Pairing.ClientAuth.pairing_enforced
conversing = tt

abbrev opened : Server
opened = (session_websocket process client served).server

abbrev asking : ClientMessage
asking = record chat_message { content = some "apri 3utools" }

abbrev call : Call
call = record {
  tool_id = "windows.3utools.open";
  detail_focus = none;
  product_index = none;
  had_session = true;
}

-- The agent answers what it was asked to do.
abbrev answering : Agents.Text
answering = Agents.message (record (registration_message "pc1") {
  kind = tool_result;
  result = record result {
    request_id = some "id";
    tool_id = some "windows.3utools.open";
    timestamp = some 9;
  };
})

abbrev waiting : Server
waiting = (read process client (message asking) opened).server

abbrev answered : Server
answered = (Agents.read ascii "s1" "pc1" 0 answering (some "pc1") waiting).server

waits : (read process client (message asking) opened).state ≡ awaiting call "id" 0
unfolding conversing
waits = refl

listens : (session_websocket process client served).state ≡ listening
unfolding conversing
listens = refl

abbrev delivery : ResultEnvelope
delivery = record {
  request_id = "id";
  command_id = some "c1";
  agent_id = "pc1";
  tool_id = some "windows.3utools.open";
  success = true;
  result = end;
  error = none;
  timestamp = 9;
}

wakes_up : (wake "id" 0 answered).0 ≡ some (delivered delivery)
unfolding conversing
wakes_up = refl

session_websocket-IsDurable_example :
    IsDurable
      (woken process client call (delivered delivery) (wake "id" 0 answered).1).server.manager
session_websocket-IsDurable_example =
    session_websocket-IsDurable {process = process} {c = client} served
      (next (reads (message asking) opened listens) (
        next (others (agent_speaks "s1" "pc1" 0 answering (some "pc1") waiting))
          (next (wakes call "id" 0 (delivered delivery) answered waits wakes_up) (stop _))))
      served-IsDurable
