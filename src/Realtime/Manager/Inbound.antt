-- ===== src/Realtime/Manager/Inbound.antt =====
-- `handle_client_message`: the dispatch of one validated inbound message, and the answer to a
-- refused update. The message is what `ClientInboundMessage.model_validate` returned.
use alpilab_ai.Base.{String, Bool, Option, none, some}
use alpilab_ai.Base.Exec.{Result, ok, err}
use alpilab_ai.Base.Platform.{Platform}
use alpilab_ai.Realtime.Payloads.{
  Error, value_error, rejected, MessageRole, user, assistant, system, ChatMessage, MessageType,
  ClientMessage, AssistantStatus,
}
use alpilab_ai.Realtime.DeviceContext.{truthy}
use alpilab_ai.Realtime.Events.{state_update_rejected, refusal}
use alpilab_ai.Realtime.State.{SessionData, snapshot}
use alpilab_ai.Realtime.Manager.{Manager, Envelope, get_session, send_ws, emit}
use alpilab_ai.Realtime.Manager.Presence.{heartbeat}
use alpilab_ai.Realtime.Manager.Updates.{
  not_found, add_chat_message, set_assistant_status, update_diagnostic_measurement,
  set_diagnosis_paused, update_repair_context,
}
use alpilab_ai.Realtime.Manager.Bench.{associate_repair_device, unassociate_repair_device}

-- `respond` is the acknowledgement of a chat message of the user, which
-- `natural_language_service.handle_user_message` answers first.
pub data Reply : Type 0 where
  ack snapshot_sent : Reply
  respond : String → Reply

abbrev pub snapshot_found :
    String → String → Option SessionData → Manager → Result Error (Unit {0}) × Manager
snapshot_found session_id device_id none m = (err not_found, m)
snapshot_found session_id device_id (some s) m =
    (ok tt, send_ws session_id device_id (Envelope.snapshot (snapshot s)) m)

unfoldable pub send_snapshot_ws : String → String → Manager → Result Error (Unit {0}) × Manager
send_snapshot_ws session_id device_id m =
    snapshot_found session_id device_id (get_session session_id m) m

abbrev pub answer : {A : Type 0} → Reply → Result Error A × Manager → Result Error Reply × Manager
answer r (ok _, m) = (ok r, m)
answer r (err e, m) = (err e, m)

abbrev pub reject_request : String → String → Manager → Result Error Reply × Manager
reject_request reason request_type m = (err (rejected reason (some request_type)), m)

module _ (p : Platform) where
  abbrev pub respond_to :
      String
      → String
      → String
      → MessageRole
      → Result Error ChatMessage × Manager
      → Result Error Reply × Manager
  respond_to session_id device_id content role (err e, m) = (err e, m)
  respond_to session_id device_id content user (ok _, m) = (ok (respond content), m)
  respond_to session_id device_id content assistant (ok _, m) = (ok ack, m)
  respond_to session_id device_id content system (ok _, m) = (ok ack, m)

  abbrev pub chat :
      String → String → Option String → MessageRole → Manager → Result Error Reply × Manager
  chat session_id device_id none role m = (err (value_error "content required"), m)
  chat session_id device_id (some content) role m =
      respond_to session_id device_id content role
        (add_chat_message p session_id device_id content role m)

  abbrev pub change_status :
      String → String → Option AssistantStatus → Manager → Result Error Reply × Manager
  change_status session_id device_id none m = (err (value_error "unsupported message type"), m)
  change_status session_id device_id (some status) m =
      (ok ack, set_assistant_status p session_id status (some device_id) m)

  abbrev pub measure :
      String → String → Option String → Option String → Manager → Result Error Reply × Manager
  measure session_id device_id (some test_id) (some value) m =
      answer ack (update_diagnostic_measurement p session_id device_id test_id value m)
  measure session_id device_id _ _ m =
      reject_request "test_id and value required" "diagnostic_update" m

  abbrev pub pause : String → String → Option Bool → Manager → Result Error Reply × Manager
  pause session_id device_id none m = reject_request "paused required" "diagnosis_pause" m
  pause session_id device_id (some paused) m =
      answer ack (set_diagnosis_paused p session_id device_id paused m)

  abbrev pub associate : String → String → Option String → Manager → Result Error Reply × Manager
  associate session_id device_id none m =
      reject_request "repair_device_id required" "associate_repair_device" m
  associate session_id device_id (some id) m =
      answer ack (associate_repair_device p session_id id (some device_id) m)

  unfoldable pub dispatch :
      MessageType → ClientMessage → String → String → Manager → Result Error Reply × Manager
  dispatch MessageType.heartbeat msg session_id device_id m =
      (ok ack, heartbeat p session_id device_id m)
  dispatch MessageType.request_snapshot msg session_id device_id m =
      answer snapshot_sent (send_snapshot_ws session_id device_id m)
  dispatch MessageType.assistant_status msg session_id device_id m =
      change_status session_id device_id msg.status m
  dispatch MessageType.chat_message msg session_id device_id m =
      chat session_id device_id (truthy msg.content) msg.role m
  dispatch MessageType.diagnostic_update msg session_id device_id m =
      measure session_id device_id (truthy msg.test_id) (truthy msg.value) m
  dispatch MessageType.diagnosis_pause msg session_id device_id m =
      pause session_id device_id msg.paused m
  dispatch MessageType.repair_context_update msg session_id device_id m =
      answer ack (update_repair_context p session_id device_id msg.device msg.issue msg.label m)
  dispatch MessageType.associate_repair_device msg session_id device_id m =
      associate session_id device_id (truthy msg.repair_device_id) m
  dispatch MessageType.unassociate_repair_device msg session_id device_id m =
      answer ack (unassociate_repair_device p session_id (some device_id) m)

  unfoldable pub handle_client_message :
      String → String → ClientMessage → Manager → Result Error Reply × Manager
  handle_client_message session_id device_id msg m = dispatch msg.kind msg session_id device_id m

module _ (p : Platform) where
  abbrev pub refuse_found :
      String → String → String → Option String → Option SessionData → Manager → Manager
  refuse_found session_id device_id reason request_type none m = m
  refuse_found session_id device_id reason request_type (some s) m =
      let (e, m1) =
        emit p session_id state_update_rejected (refusal reason request_type s.state_version)
          (some device_id) m in
      send_ws session_id device_id (Envelope.event e) m1

  -- the answer to `StateUpdateRejected(reason, request_type)`
  unfoldable pub send_state_rejected : String → String → String → Option String → Manager → Manager
  send_state_rejected session_id device_id reason request_type m =
      refuse_found session_id device_id reason request_type (get_session session_id m) m
