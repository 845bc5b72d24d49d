-- ===== src/Commands/Engine.antt =====
-- app/security/authorization.py and app/commands/engine.py: the command of an intent and its risk.
pub mod Confirmation
use alpilab_ai.Base.{
  ℕ, String, Bool, true, false, Option, none, some, [], ◌∷◌, not, ◌&&◌, ◌||◌, if◌then◌else◌,
  or_else, ◌==◌,
}
use Prim.Native.String.{◌++◌}
use alpilab_ai.Base.Json.{Fields, field, end, string, boolean}
use alpilab_ai.Base.Dict.{Dict, put, remove}
use alpilab_ai.Commands.Intents.{
  Intent, IntentType, conversation, open_tool, open_application, close_tool, capture_image,
  save_measurement, show_schema, continue_diagnosis, stop, pause, resume, reset_diagnostic_flow,
  unknown,
}
use alpilab_ai.Tools.Authorization.{ActionAuthorization}
use alpilab_ai.Tools.Executable.{ActionRiskLevel, read_only, safe, confirm_required, dangerous}

pub record Command : Type 0 where
  pub id : String
  pub repair_session_id : String
  pub intent : Intent
  pub risk_level : ActionRiskLevel
  pub requires_confirmation : Bool
  pub created_at : Option ℕ
  pub metadata : Fields

pub record Action : Type 0 where
  pub id : String
  pub command_id : String
  pub action_type : String
  pub target : Option String
  pub parameters : Fields
  pub risk_level : ActionRiskLevel

-- `intent in _NO_CONFIRM_INTENTS`
abbrev pub needs_no_confirmation : IntentType → Bool
needs_no_confirmation conversation = true
needs_no_confirmation continue_diagnosis = true
needs_no_confirmation resume = true
needs_no_confirmation pause = true
needs_no_confirmation stop = true
needs_no_confirmation _ = false

-- `_RISK_BY_INTENT.get(intent, ActionRiskLevel.SAFE)`
abbrev pub risk_by_intent : IntentType → ActionRiskLevel
risk_by_intent open_tool = confirm_required
risk_by_intent open_application = confirm_required
risk_by_intent capture_image = confirm_required
risk_by_intent show_schema = read_only
risk_by_intent reset_diagnostic_flow = dangerous
risk_by_intent _ = safe

-- `risk in {CONFIRM_REQUIRED, DANGEROUS}`
abbrev pub is_risky : ActionRiskLevel → Bool
is_risky read_only = false
is_risky safe = false
is_risky confirm_required = true
is_risky dangerous = true

unfoldable pub authorize_command : Command → ActionAuthorization
authorize_command command =
    let intent = command.intent.type in
    let risk = risk_by_intent intent in
    record {
      allowed = true;
      requires_confirmation =
          (is_risky risk && not (needs_no_confirmation intent)) || command.requires_confirmation;
      risk_level = risk;
      reason = "classified_by_intent";
      error = none;
      capability = none;
    }

unfoldable pub authorize_action : Action → ActionAuthorization
authorize_action action = record {
  allowed = true;
  requires_confirmation = is_risky action.risk_level;
  risk_level = action.risk_level;
  reason = "classified_by_action";
  error = none;
  capability = none;
}

abbrev pub command_risk : IntentType → ActionRiskLevel
command_risk open_tool = confirm_required
command_risk open_application = confirm_required
command_risk capture_image = confirm_required
command_risk reset_diagnostic_flow = dangerous
command_risk _ = safe

-- `risk == ActionRiskLevel.READ_ONLY`
abbrev pub is_read_only : ActionRiskLevel → Bool
is_read_only read_only = true
is_read_only _ = false

abbrev pub first_command : String → ℕ → String → Intent → Command
first_command id now repair_session_id intent =
    let risk = command_risk intent.type in
    record {
      id = id;
      repair_session_id = repair_session_id;
      intent = intent;
      risk_level = risk;
      requires_confirmation = not (is_read_only risk);
      created_at = some now;
      metadata = end;
    }

-- with the id and the time that the machine gives
unfoldable pub build_command : String → ℕ → String → Intent → Command
build_command id now repair_session_id intent =
    let command = first_command id now repair_session_id intent in
    record command { requires_confirmation = (authorize_command command).requires_confirmation }

-- `intent.type.value`
abbrev pub intent_value : IntentType → String
intent_value conversation = "conversation"
intent_value open_tool = "open_tool"
intent_value open_application = "open_application"
intent_value close_tool = "close_tool"
intent_value capture_image = "capture_image"
intent_value save_measurement = "save_measurement"
intent_value show_schema = "show_schema"
intent_value continue_diagnosis = "continue_diagnosis"
intent_value stop = "stop"
intent_value pause = "pause"
intent_value resume = "resume"
intent_value reset_diagnostic_flow = "reset_diagnostic_flow"
intent_value unknown = "unknown"

unfoldable pub resolve_action : String → Command → Action
resolve_action id command = record {
  id = id;
  command_id = command.id;
  action_type = intent_value command.intent.type;
  target = command.intent.target;
  parameters = command.intent.parameters;
  risk_level = command.risk_level;
}
