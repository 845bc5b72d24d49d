-- ===== src/Tests/Service.antt =====
-- The answers to chat messages by the natural language service: the properties at concrete inputs.
use alpilab_ai.Base.{String, true, false, none, some, [], ◌≡◌, ◌⊎◌}
use alpilab_ai.Base.Exec.{ok}
use alpilab_ai.Base.Json.{end}
use alpilab_ai.Agent.Executor.{timeout}
use alpilab_ai.Commands.Engine.{build_command, authorize_command, resolve_action, authorize_action}
use alpilab_ai.Commands.Engine.Confirmation.{build_command_confirmed}
use alpilab_ai.Commands.Intents.{Intent, pause}
use alpilab_ai.Conversation.Service.{Call, resume}
use alpilab_ai.Conversation.Service.Durable.{resume-IsDurable}
use alpilab_ai.Conversation.Service.Receive.{receive, receive-IsDurable, receive-Instructed}
use alpilab_ai.Conversation.Service.Sending.{Instructed}
use alpilab_ai.Realtime.Manager.Durability.{IsDurable}
use alpilab_ai.Realtime.Manager.Inbound.{respond, handle_client_message}
use alpilab_ai.Realtime.Payloads.{ClientMessage}
use alpilab_ai.Tests.Agents.{served, served-IsDurable}
use alpilab_ai.Tests.Machine.{chat_message}
use alpilab_ai.Tests.Products.{ascii}
use alpilab_ai.Tools.Executable.{seed_executable}

abbrev echo : String → String
echo text = text

abbrev open_request : ClientMessage
open_request = record chat_message { content = some "apri 3utools" }

receive-IsDurable_example :
    IsDurable (receive ascii (seed_executable []) echo "s1" "a" open_request served).1.manager
receive-IsDurable_example =
    receive-IsDurable ascii (seed_executable []) echo "s1" "a" open_request served served-IsDurable

receive-Instructed_example :
    ((receive ascii (seed_executable []) echo "s1" "a" open_request served).1.agent_outbox
      ≡ served.agent_outbox)
    ⊎ ((text : String) × (((handle_client_message ascii "s1" "a" open_request served.manager).0
            ≡ ok (respond text))
          × Instructed ascii
              (seed_executable [])
              "s1"
              text
              (record served {
                manager = (handle_client_message ascii "s1" "a" open_request served.manager).1;
              })
              (receive ascii (seed_executable []) echo "s1" "a" open_request served).1))
receive-Instructed_example =
    receive-Instructed ascii (seed_executable []) echo "s1" "a" open_request served

abbrev call : Call
call = record {
  tool_id = "windows.3utools.open";
  detail_focus = none;
  product_index = none;
  had_session = true;
}

resume-IsDurable_example : IsDurable (resume ascii "s1" "a" call timeout served).1.manager
resume-IsDurable_example = resume-IsDurable ascii "s1" "a" call timeout served served-IsDurable

abbrev pausing : Intent
pausing = record {
  type = pause;
  target = none;
  parameters = end;
  raw_text = "pausa";
  confidence = 10;
}

build_command_confirmed_example :
    ((build_command "c1" 5 "s1" pausing).requires_confirmation ≡ true)
    × ((authorize_command (build_command "c1" 5 "s1" pausing)).requires_confirmation ≡ true)
    × ((authorize_action
          (resolve_action "a1" (build_command "c1" 5 "s1" pausing))).requires_confirmation
        ≡ false)
build_command_confirmed_example = build_command_confirmed "c1" "a1" 5 "s1" pausing
