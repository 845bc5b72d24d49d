-- ===== src/PcAgent/Dispatcher.antt =====
-- pc_agent/tools/dispatcher.py, pc_agent/tools/base.py and the registry of pc_agent/tools/registry.py.
-- A handler acts on the bench, a state of any type `W`, and gives its result or raises.
use alpilab_ai.Base.{
  ℕ, suc, String, Bool, true, false, Option, none, some, List, not, ◌&&◌, if◌then◌else◌, or_else,
}
use alpilab_ai.Base.Dict.{Dict, get, put, values}
use alpilab_ai.Base.Json.{Fields, end, field, string, keys}
use alpilab_ai.Realtime.DeviceContext.{truthy}
use alpilab_ai.Tools.Executable.{is_subset}

-- What a handler may raise: `WindowsAppToolError` with its code, or another exception, with the text
-- of its attribute `code` if it has one.
pub data Handled : Type 0 where
  gave : Fields → Handled
  app_error : String → Handled
  raised : Option String → Handled

pub record LocalToolSpec (W : Type 0) : Type 0 where
  pub tool_id : String
  pub required_capability : String
  pub allowed_argument_keys : List String
  pub handler : Fields → W → Handled × W

-- A result message to the server.
pub record ResultMessage : Type 0 where
  pub kind : String
  pub request_id : String
  pub command_id : Option String
  pub agent_id : String
  pub tool_id : Option String
  pub success : Bool
  pub result : Fields
  pub error : Option String
  pub timestamp : ℕ

-- What a call is about, beside its arguments.
pub record Call : Type 0 where
  pub tool_id : String
  pub request_id : String
  pub command_id : Option String
  pub agent_id : String

-- The dispatcher, the bench, and how often the clock was read.
pub record Dispatcher (W : Type 0) : Type 0 where
  pub registry : Dict (LocalToolSpec W)
  pub capabilities : Dict Bool
  pub completed : Dict ResultMessage
  pub bench : W
  pub reads : ℕ

-- `execute_safe_test`
unfoldable pub execute_safe_test : {W : Type 0} → Fields → W → Handled × W
execute_safe_test arguments w = (
  gave (
      field "status" (string "ok")
        (field "message" (string "Alpilab PC Agent tool execution works") end)),
  w,
)

module _ {W : Type 0} where
  unfoldable pub register : LocalToolSpec W → Dict (LocalToolSpec W) → Dict (LocalToolSpec W)
  register spec registry = put registry spec.tool_id spec

  unfoldable pub list_tools : Dict (LocalToolSpec W) → List (LocalToolSpec W)
  list_tools registry = values registry

  unfoldable pub set_capabilities : Dict Bool → Dispatcher W → Dispatcher W
  set_capabilities capabilities d = record d { capabilities = capabilities }

  module _ (clock : ℕ → ℕ) where
    -- `_result`
    unfoldable pub result_message :
        Call → Bool → Fields → Option String → Dispatcher W → ResultMessage × Dispatcher W
    result_message c success result error d = (
      record {
        kind = "tool_execute_result";
        request_id = c.request_id;
        command_id = c.command_id;
        agent_id = c.agent_id;
        tool_id = some c.tool_id;
        success = success;
        result = result;
        error = error;
        timestamp = clock d.reads;
      },
      record d { reads = suc d.reads },
    )

    abbrev pub failed : Call → String → Dispatcher W → ResultMessage × Dispatcher W
    failed c code d = result_message c false end (some code) d

    -- what the call gives when the handler has run; only a success is remembered
    abbrev pub after_handler : Call → Handled × W → Dispatcher W → ResultMessage × Dispatcher W
    after_handler c (gave result, w) d =
        let (response, d1) = result_message c true result none (record d { bench = w }) in
        (response, record d1 { completed = put d1.completed c.request_id response })
    after_handler c (app_error code, w) d = failed c code (record d { bench = w })
    after_handler c (raised code, w) d =
        failed c (or_else (truthy code) "TOOL_EXECUTION_FAILED") (record d { bench = w })

    abbrev pub has_capability : String → Dispatcher W → Bool
    has_capability name d = or_else (get d.capabilities name) false

    abbrev pub same_keys : Fields → LocalToolSpec W → Bool
    same_keys arguments spec =
        is_subset (keys arguments) spec.allowed_argument_keys
        && is_subset spec.allowed_argument_keys (keys arguments)

    -- The arguments are a dict by their type, so that test of the source is left out.
    abbrev pub on_spec :
        Call → Fields → Option (LocalToolSpec W) → Dispatcher W → ResultMessage × Dispatcher W
    on_spec c arguments none d = failed c "TOOL_NOT_FOUND" d
    on_spec c arguments (some spec) d =
        let ran = after_handler c (spec.handler arguments d.bench) d in
        if not (has_capability spec.required_capability d)
        then failed c "CAPABILITY_MISSING" d
        else if not (same_keys arguments spec)
        then failed c "INVALID_ARGUMENTS" d
        else ran

    abbrev pub on_cache :
        Call → Fields → Option ResultMessage → Dispatcher W → ResultMessage × Dispatcher W
    on_cache c arguments (some old) d = (old, d)
    on_cache c arguments none d = on_spec c arguments (get d.registry c.tool_id) d

    unfoldable pub dispatch : Call → Fields → Dispatcher W → ResultMessage × Dispatcher W
    dispatch c arguments d = on_cache c arguments (get d.completed c.request_id) d
