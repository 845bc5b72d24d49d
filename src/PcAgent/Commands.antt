-- ===== src/PcAgent/Commands.antt =====
-- pc_agent/commands.py: the commands that the PC agent takes. Of the command's dict, an absent `type`,
-- `request_id` or `tool_id` is the empty text and absent arguments are none.
use alpilab_ai.Base.{
  ℕ, suc, String, Bool, true, false, Option, none, some, ◌||◌, not, ◌==◌, if◌then◌else◌,
}
use alpilab_ai.Base.Json.{Fields, end, field, string, boolean}
use alpilab_ai.Base.Text.{is_empty}
use alpilab_ai.PcAgent.Dispatcher.{Dispatcher, Call, ResultMessage, dispatch}

pub record Command : Type 0 where
  pub kind : String
  pub request_id : String
  pub command_id : Option String
  pub tool_id : String
  pub arguments : Fields

unfoldable pub is_allowed_command : String → Bool
is_allowed_command kind = kind == "AGENT_TEST" || kind == "TOOL_EXECUTE"

abbrev pub result_type : String → String
result_type kind = if kind == "AGENT_TEST" then "agent_test_result" else "tool_execute_result"

abbrev pub call_of : String → Command → Call
call_of agent_id c = record {
  tool_id = c.tool_id;
  request_id = c.request_id;
  command_id = c.command_id;
  agent_id = agent_id;
}

module _ {W : Type 0} (clock : ℕ → ℕ) where
  unfoldable pub rejection :
      String → String → Command → String → Dispatcher W → ResultMessage × Dispatcher W
  rejection result_type agent_id c error d = (
    record {
      kind = result_type;
      request_id = c.request_id;
      command_id = c.command_id;
      agent_id = agent_id;
      tool_id = none;
      success = false;
      result = end;
      error = some error;
      timestamp = clock d.reads;
    },
    record d { reads = suc d.reads },
  )

  unfoldable pub pong : String → Command → Dispatcher W → ResultMessage × Dispatcher W
  pong agent_id c d = (
    record {
      kind = "agent_test_result";
      request_id = c.request_id;
      command_id = c.command_id;
      agent_id = agent_id;
      tool_id = none;
      success = true;
      result = field "message" (string "pong") (field "idle" (boolean true) end);
      error = none;
      timestamp = clock d.reads;
    },
    record d { reads = suc d.reads },
  )

  -- the answer that is sent, beside the new state
  abbrev pub answered : ResultMessage × Dispatcher W → Option ResultMessage × Dispatcher W
  answered (r, d) = (some r, d)

  unfoldable pub handle_command :
      Command → String → Dispatcher W → Option ResultMessage × Dispatcher W
  handle_command c agent_id d =
      if is_empty c.request_id
      then (none, d)
      else if not (is_allowed_command c.kind)
      then answered (rejection (result_type c.kind) agent_id c "COMMAND_NOT_ALLOWED" d)
      else if c.kind == "AGENT_TEST"
      then answered (pong agent_id c d)
      else if c.kind == "TOOL_EXECUTE"
      then answered (dispatch clock (call_of agent_id c) c.arguments d)
      else (none, d)
