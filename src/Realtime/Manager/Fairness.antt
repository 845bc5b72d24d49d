-- ===== src/Realtime/Manager/Fairness.antt =====
-- Whatever a client sends, the sessions only grow, and a refused update leaves them alone.
use alpilab_ai.Base.{String, Option, none, some, ◌≡◌, refl}
use alpilab_ai.Base.Exec.{Result, ok, err}
use alpilab_ai.Base.Platform.{Platform}
use alpilab_ai.Realtime.Payloads.{
  Error, rejected, MessageRole, user, assistant, system, ChatMessage, MessageType, ClientMessage,
}
use alpilab_ai.Realtime.DeviceContext.{truthy}
use alpilab_ai.Realtime.State.{SessionData}
use alpilab_ai.Realtime.Manager.{Manager, get_session}
use alpilab_ai.Realtime.Manager.Frame.{send_ws-SameCore}
use alpilab_ai.Realtime.Manager.Growth.{Grows}
use alpilab_ai.Realtime.Manager.Verdicts.{
  IsFair, ok-IsFair, unwritten-IsFair, add_chat_message-IsFair, set_assistant_status-Grows,
  update_diagnostic_measurement-IsFair, set_diagnosis_paused-IsFair, update_repair_context-IsFair,
}
use alpilab_ai.Realtime.Manager.BenchVerdicts.{
  associate_repair_device-IsFair, unassociate_repair_device-IsFair, heartbeat-Grows,
}
use alpilab_ai.Realtime.Manager.Updates.{
  add_chat_message, set_diagnosis_paused, update_diagnostic_measurement, update_repair_context,
}
use alpilab_ai.Realtime.Manager.Bench.{associate_repair_device, unassociate_repair_device}
use alpilab_ai.Realtime.Manager.Inbound.{
  Reply, ack, respond, snapshot_found, send_snapshot_ws, answer, respond_to, chat, change_status,
  measure, pause, associate, dispatch, handle_client_message,
}

answer-IsFair :
    {A : Type 0} (reply : Reply) (m : Manager) (r : Result Error A × Manager)
    → IsFair m r
    → IsFair m (answer reply r)
answer-IsFair reply m (ok a, m') h = ok-IsFair reply m m' h.grows
answer-IsFair reply m (err e, m') h = record {
  grows = h.grows;
  refused = λ reason t e'. h.refused reason t (cc);
}

snapshot_found-IsFair :
    (sid device_id : String) (o : Option SessionData) (m : Manager)
    → IsFair m (snapshot_found sid device_id o m)
snapshot_found-IsFair sid device_id none m = unwritten-IsFair _ m m refl
snapshot_found-IsFair sid device_id (some s) m =
    unwritten-IsFair _ m _ ((send_ws-SameCore sid device_id _ m).sessions)

module _ (p : Platform) where
  module _ (sid device_id : String) where
    respond_to-IsFair :
        (content : String) (role : MessageRole) (m : Manager)
        (r : Result Error ChatMessage × Manager)
        → IsFair m r
        → IsFair m (respond_to p sid device_id content role r)
    respond_to-IsFair content role m (err e, m') h = record {
      grows = h.grows;
      refused = λ reason t e'. h.refused reason t (cc);
    }
    respond_to-IsFair content user m (ok msg, m') h = ok-IsFair (respond content) m m' h.grows
    respond_to-IsFair content assistant m (ok msg, m') h = ok-IsFair ack m m' h.grows
    respond_to-IsFair content system m (ok msg, m') h = ok-IsFair ack m m' h.grows

    chat-IsFair :
        (content : Option String) (role : MessageRole) (m : Manager)
        → IsFair m (chat p sid device_id content role m)
    chat-IsFair none role m = unwritten-IsFair _ m m refl
    chat-IsFair (some content) role m =
        respond_to-IsFair content role m (add_chat_message p sid device_id content role m)
          (add_chat_message-IsFair p sid device_id content role m)

    measure-IsFair :
        (test_id value : Option String) (m : Manager)
        → IsFair m (measure p sid device_id test_id value m)
    measure-IsFair (some test_id) (some value) m =
        answer-IsFair ack m (update_diagnostic_measurement p sid device_id test_id value m)
          (update_diagnostic_measurement-IsFair p sid device_id test_id value m)
    measure-IsFair none _ m = unwritten-IsFair _ m m refl
    measure-IsFair (some test_id) none m = unwritten-IsFair _ m m refl

    dispatch-IsFair :
        (kind : MessageType) (msg : ClientMessage) (m : Manager)
        → IsFair m (dispatch p kind msg sid device_id m)
    unfolding dispatch send_snapshot_ws
    dispatch-IsFair MessageType.heartbeat msg m =
        ok-IsFair ack m _ (heartbeat-Grows p sid device_id m)
    dispatch-IsFair MessageType.request_snapshot msg m =
        answer-IsFair _ m (send_snapshot_ws sid device_id m)
          (snapshot_found-IsFair sid device_id (get_session sid m) m)
    dispatch-IsFair MessageType.assistant_status msg m =
        elim msg.status as (λ o. IsFair m (change_status p sid device_id o m)) [
          | none ↦ unwritten-IsFair _ m m refl
          | some status ↦
              ok-IsFair ack m _ (set_assistant_status-Grows p sid status (some device_id) m)
        ]
    dispatch-IsFair MessageType.chat_message msg m = chat-IsFair (truthy msg.content) msg.role m
    dispatch-IsFair MessageType.diagnostic_update msg m =
        measure-IsFair (truthy msg.test_id) (truthy msg.value) m
    dispatch-IsFair MessageType.diagnosis_pause msg m =
        elim msg.paused as (λ o. IsFair m (pause p sid device_id o m)) [
          | none ↦ unwritten-IsFair _ m m refl
          | some paused ↦
              answer-IsFair ack m (set_diagnosis_paused p sid device_id paused m)
                (set_diagnosis_paused-IsFair p sid device_id paused m)
        ]
    dispatch-IsFair MessageType.repair_context_update msg m =
        answer-IsFair ack m (update_repair_context p sid device_id msg.device msg.issue msg.label m)
          (update_repair_context-IsFair p sid device_id msg.device msg.issue msg.label m)
    dispatch-IsFair MessageType.associate_repair_device msg m =
        elim (truthy msg.repair_device_id) as (λ o. IsFair m (associate p sid device_id o m)) [
          | none ↦ unwritten-IsFair _ m m refl
          | some id ↦
              answer-IsFair ack m (associate_repair_device p sid id (some device_id) m)
                (associate_repair_device-IsFair p sid id (some device_id) m)
        ]
    dispatch-IsFair MessageType.unassociate_repair_device msg m =
        answer-IsFair ack m (unassociate_repair_device p sid (some device_id) m)
          (unassociate_repair_device-IsFair p sid (some device_id) m)

-- The handling of any inbound message lets the sessions grow: each session of before is still there, with its id, a version that is not lower, and a conversation
-- that starts with the old one.
pub handle_client_message-Grows :
    (p : Platform) (sid device_id : String) (msg : ClientMessage) (m : Manager)
    → Grows m (handle_client_message p sid device_id msg m).1
unfolding handle_client_message
handle_client_message-Grows p sid device_id msg m =
    (dispatch-IsFair p sid device_id msg.kind msg m).grows

-- An inbound message that ends in `StateUpdateRejected` has changed no session.
pub handle_client_message_refused :
    (p : Platform) (sid device_id : String) (msg : ClientMessage) (m : Manager) (reason : String)
    (request_type : Option String)
    → (handle_client_message p sid device_id msg m).0 ≡ err (rejected reason request_type)
    → (handle_client_message p sid device_id msg m).1.sessions ≡ m.sessions
unfolding handle_client_message
handle_client_message_refused p sid device_id msg m reason request_type e =
    (dispatch-IsFair p sid device_id msg.kind msg m).refused reason request_type e
