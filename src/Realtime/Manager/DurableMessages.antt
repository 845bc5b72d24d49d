-- ===== src/Realtime/Manager/DurableMessages.antt =====
-- Whatever a client sends, every session is on disk when the message has been handled.
use alpilab_ai.Base.{String, Option, none, some}
use alpilab_ai.Base.Exec.{Result, ok, err}
use alpilab_ai.Base.Platform.{Platform}
use alpilab_ai.Realtime.Payloads.{
  Error, MessageRole, user, assistant, system, ChatMessage, MessageType, ClientMessage,
}
use alpilab_ai.Realtime.DeviceContext.{truthy}
use alpilab_ai.Realtime.State.{SessionData}
use alpilab_ai.Realtime.Manager.{Manager, get_session}
use alpilab_ai.Realtime.Manager.Frame.{send_ws-SameCore}
use alpilab_ai.Realtime.Manager.Durability.{IsDurable, SameCore-IsDurable}
use alpilab_ai.Realtime.Manager.DurableUpdates.{
  add_chat_message-IsDurable, set_assistant_status-IsDurable, set_diagnosis_paused-IsDurable,
  update_diagnostic_measurement-IsDurable, update_repair_context-IsDurable,
  associate_repair_device-IsDurable, unassociate_repair_device-IsDurable,
}
use alpilab_ai.Realtime.Manager.DurablePresence.{heartbeat-IsDurable}
use alpilab_ai.Realtime.Manager.Updates.{
  add_chat_message, set_diagnosis_paused, update_diagnostic_measurement, update_repair_context,
}
use alpilab_ai.Realtime.Manager.Bench.{associate_repair_device, unassociate_repair_device}
use alpilab_ai.Realtime.Manager.Inbound.{
  Reply, snapshot_found, send_snapshot_ws, answer, respond_to, chat, change_status, measure, pause,
  associate, dispatch, handle_client_message,
}

answer-IsDurable :
    {A : Type 0} (reply : Reply) (r : Result Error A × Manager)
    → IsDurable r.1
    → IsDurable (answer reply r).1
answer-IsDurable reply (ok a, m) h = h
answer-IsDurable reply (err e, m) h = h

snapshot_found-IsDurable :
    (sid device_id : String) (o : Option SessionData) (m : Manager)
    → IsDurable m
    → IsDurable (snapshot_found sid device_id o m).1
snapshot_found-IsDurable sid device_id none m h = h
snapshot_found-IsDurable sid device_id (some s) m h =
    SameCore-IsDurable (send_ws-SameCore sid device_id _ m) h

send_snapshot_ws-IsDurable :
    (sid device_id : String) (m : Manager)
    → IsDurable m
    → IsDurable (send_snapshot_ws sid device_id m).1
unfolding send_snapshot_ws
send_snapshot_ws-IsDurable sid device_id m h =
    snapshot_found-IsDurable sid device_id (get_session sid m) m h

module _ (p : Platform) where
  module _ (sid device_id : String) where
    respond_to-IsDurable :
        (content : String) (role : MessageRole) (r : Result Error ChatMessage × Manager)
        → IsDurable r.1
        → IsDurable (respond_to p sid device_id content role r).1
    respond_to-IsDurable content role (err e, m) h = h
    respond_to-IsDurable content user (ok msg, m) h = h
    respond_to-IsDurable content assistant (ok msg, m) h = h
    respond_to-IsDurable content system (ok msg, m) h = h

    chat-IsDurable :
        (content : Option String) (role : MessageRole) (m : Manager)
        → IsDurable m
        → IsDurable (chat p sid device_id content role m).1
    chat-IsDurable none role m h = h
    chat-IsDurable (some content) role m h =
        respond_to-IsDurable content role (add_chat_message p sid device_id content role m)
          (add_chat_message-IsDurable p sid device_id content role m h)

    measure-IsDurable :
        (test_id value : Option String) (m : Manager)
        → IsDurable m
        → IsDurable (measure p sid device_id test_id value m).1
    measure-IsDurable (some test_id) (some value) m h =
        answer-IsDurable _ (update_diagnostic_measurement p sid device_id test_id value m)
          (update_diagnostic_measurement-IsDurable p sid device_id test_id value m h)
    measure-IsDurable none _ m h = h
    measure-IsDurable (some test_id) none m h = h

    dispatch-IsDurable :
        (kind : MessageType) (msg : ClientMessage) (m : Manager)
        → IsDurable m
        → IsDurable (dispatch p kind msg sid device_id m).1
    unfolding dispatch
    dispatch-IsDurable MessageType.heartbeat msg m h = heartbeat-IsDurable p sid device_id m h
    dispatch-IsDurable MessageType.request_snapshot msg m h =
        answer-IsDurable _ (send_snapshot_ws sid device_id m)
          (send_snapshot_ws-IsDurable sid device_id m h)
    dispatch-IsDurable MessageType.assistant_status msg m h =
        elim msg.status as (λ o. IsDurable (change_status p sid device_id o m).1) [
          | none ↦ h
          | some status ↦ set_assistant_status-IsDurable p sid status (some device_id) m h
        ]
    dispatch-IsDurable MessageType.chat_message msg m h =
        chat-IsDurable (truthy msg.content) msg.role m h
    dispatch-IsDurable MessageType.diagnostic_update msg m h =
        measure-IsDurable (truthy msg.test_id) (truthy msg.value) m h
    dispatch-IsDurable MessageType.diagnosis_pause msg m h =
        elim msg.paused as (λ o. IsDurable (pause p sid device_id o m).1) [
          | none ↦ h
          | some paused ↦
              answer-IsDurable _ (set_diagnosis_paused p sid device_id paused m)
                (set_diagnosis_paused-IsDurable p sid device_id paused m h)
        ]
    dispatch-IsDurable MessageType.repair_context_update msg m h =
        answer-IsDurable _ (update_repair_context p sid device_id msg.device msg.issue msg.label m)
          (update_repair_context-IsDurable p sid device_id msg.device msg.issue msg.label m h)
    dispatch-IsDurable MessageType.associate_repair_device msg m h =
        elim (truthy msg.repair_device_id) as (λ o. IsDurable (associate p sid device_id o m).1) [
          | none ↦ h
          | some id ↦
              answer-IsDurable _ (associate_repair_device p sid id (some device_id) m)
                (associate_repair_device-IsDurable p sid id (some device_id) m h)
        ]
    dispatch-IsDurable MessageType.unassociate_repair_device msg m h =
        answer-IsDurable _ (unassociate_repair_device p sid (some device_id) m)
          (unassociate_repair_device-IsDurable p sid (some device_id) m h)

-- If every session is on disk, then after any inbound message, of any kind, accepted or refused, every session is on disk: under its id the table holds the snapshot of
-- the session as it is then.
pub handle_client_message-IsDurable :
    (p : Platform) (sid device_id : String) (msg : ClientMessage) (m : Manager)
    → IsDurable m
    → IsDurable (handle_client_message p sid device_id msg m).1
unfolding handle_client_message
handle_client_message-IsDurable p sid device_id msg m h =
    dispatch-IsDurable p sid device_id msg.kind msg m h
