-- ===== src/Commands/Engine/Confirmation.antt =====
-- app/commands/engine.py with app/security/authorization.py: which commands ask for a confirmation.
use alpilab_ai.Base.{ℕ, String, Bool, true, false, ◌≡◌, ◌&&◌, ◌||◌, not, refl}
use alpilab_ai.Commands.Intents.{
  Intent, IntentType, conversation, open_tool, open_application, close_tool, capture_image,
  save_measurement, show_schema, continue_diagnosis, stop, pause, resume, reset_diagnostic_flow,
  unknown,
}
use alpilab_ai.Commands.Engine.{
  build_command, resolve_action, authorize_command, authorize_action, is_risky, risk_by_intent,
  needs_no_confirmation, command_risk, is_read_only,
}

or_true : (b : Bool) → (b || true) ≡ true
or_true true = refl
or_true false = refl

writes : (t : IntentType) → not (is_read_only (command_risk t)) ≡ true
writes conversation = refl
writes open_tool = refl
writes open_application = refl
writes close_tool = refl
writes capture_image = refl
writes save_measurement = refl
writes show_schema = refl
writes continue_diagnosis = refl
writes stop = refl
writes pause = refl
writes resume = refl
writes reset_diagnostic_flow = refl
writes unknown = refl

risk_agrees :
    (t : IntentType)
    → is_risky (command_risk t) ≡ (is_risky (risk_by_intent t) && not (needs_no_confirmation t))
risk_agrees conversation = refl
risk_agrees open_tool = refl
risk_agrees open_application = refl
risk_agrees close_tool = refl
risk_agrees capture_image = refl
risk_agrees save_measurement = refl
risk_agrees show_schema = refl
risk_agrees continue_diagnosis = refl
risk_agrees stop = refl
risk_agrees pause = refl
risk_agrees resume = refl
risk_agrees reset_diagnostic_flow = refl
risk_agrees unknown = refl

-- Every command that the engine builds asks for a confirmation, whatever the intent, also one that
-- the table of intents without a confirmation names; the action that the command becomes is judged
-- by the risk alone: it asks for a confirmation exactly if the table of risks by intent makes the
-- intent risky and the table of intents without a confirmation does not name it.
pub build_command_confirmed :
    (id action_id : String) (now : ℕ) (sid : String) (intent : Intent)
    → let command = build_command id now sid intent in
      (command.requires_confirmation ≡ true)
      × ((authorize_command command).requires_confirmation ≡ true)
      × ((authorize_action (resolve_action action_id command)).requires_confirmation
          ≡ (is_risky (risk_by_intent intent.type) && not (needs_no_confirmation intent.type)))
unfolding build_command authorize_command authorize_action resolve_action
build_command_confirmed id action_id now sid intent =
    rw (writes intent.type, or_true) (refl, or_true _, risk_agrees intent.type)
