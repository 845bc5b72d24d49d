-- ===== src/Routes/Sessions/Durable.antt =====
-- What the parts of the turns of app/api/ws.py keep: every session stays saved.
use alpilab_ai.Base.{ℕ, String, Option, none, some, List, [], ◌≡◌, refl}
use alpilab_ai.Base.Exec.{Result, ok, err}
use alpilab_ai.Base.Platform.{Platform}
use alpilab_ai.Agent.Executions.{Outcome, resolved, timed_out, cancelled, outcome_of}
use alpilab_ai.Agent.Executor.{Ended, timeout, wake, wake_on, expire}
use alpilab_ai.Agent.Gateway.{Server}
use alpilab_ai.Conversation.Service.{
  Call, Progress, finished, raised, pending, resume, handle_user_message,
}
use alpilab_ai.Conversation.Service as Service
use alpilab_ai.Conversation.Service.Durable.{handle_user_message-IsDurable, resume-IsDurable}
use alpilab_ai.Pairing.ClientAuth.{ClientAuthError}
use alpilab_ai.Realtime.Payloads.{Error, value_error, device_not_detected, rejected, Snapshot}
use alpilab_ai.Realtime.State.{SessionData}
use alpilab_ai.Realtime.Manager.{Manager, get_session, register_ws}
use alpilab_ai.Realtime.Manager.Frame.{SameCore-trans, emit-SameCore, send_ws-SameCore}
use alpilab_ai.Realtime.Manager.Durability.{IsDurable, SameCore-IsDurable}
use alpilab_ai.Realtime.Manager.DurableMessages.{handle_client_message-IsDurable}
use alpilab_ai.Realtime.Manager.DurablePresence.{
  connect_device-IsDurable, disconnect_device-IsDurable,
}
use alpilab_ai.Realtime.Manager.Inbound.{
  Reply, ack, snapshot_sent, respond, send_state_rejected, refuse_found,
}
use alpilab_ai.Routes.Sessions.{
  Sent, Text, too_large, not_json, not_object, invalid, message, gone, Client, Process, closes,
  fails, progressed, handled, read, connected, authorized, session_websocket, woken,
}

refuse_found-IsDurable :
    (p : Platform) (sid device_id reason : String) (t : Option String) (o : Option SessionData)
    (m : Manager)
    → IsDurable m
    → IsDurable (refuse_found p sid device_id reason t o m)
refuse_found-IsDurable p sid device_id reason t none m h = h
refuse_found-IsDurable p sid device_id reason t (some s) m h =
    SameCore-IsDurable
      (SameCore-trans (emit-SameCore p sid _ _ (some device_id) m)
        (send_ws-SameCore sid device_id _ _))
      h

pub wake_on-manager :
    (request_id : String) (o : Option Outcome) (srv : Server)
    → (wake_on request_id o srv).1.manager ≡ srv.manager
wake_on-manager request_id none srv = refl
wake_on-manager request_id (some (resolved r)) srv = refl
wake_on-manager request_id (some (timed_out e)) srv = refl
wake_on-manager request_id (some cancelled) srv = refl

module _ (process : Process) (c : Client) where
  closes-IsDurable :
      (sent : List Sent) (srv : Server)
      → IsDurable srv.manager
      → IsDurable (closes process c sent srv).server.manager
  closes-IsDurable sent srv h =
      disconnect_device-IsDurable process.platform c.session_id c.device_id srv.manager h

  fails-IsDurable :
      (e : Error) (srv : Server)
      → IsDurable srv.manager
      → IsDurable (fails process c e srv).server.manager
  unfolding send_state_rejected
  fails-IsDurable (rejected reason t) srv h =
      refuse_found-IsDurable process.platform c.session_id c.device_id reason t
        (get_session c.session_id srv.manager) srv.manager h
  fails-IsDurable (value_error words) srv h = closes-IsDurable [] srv h
  fails-IsDurable (device_not_detected id) srv h = closes-IsDurable [] srv h

  progressed-IsDurable :
      (x : Progress × Server)
      → IsDurable x.1.manager
      → IsDurable (progressed process c x).server.manager
  progressed-IsDurable (finished, srv) h = h
  progressed-IsDurable (raised e, srv) h = fails-IsDurable e srv h
  progressed-IsDurable (pending call request_id future, srv) h = h
  progressed-IsDurable (Service.cancelled, srv) h = closes-IsDurable [] srv h

  handled-IsDurable :
      (r : Result Error Reply × Manager) (srv : Server)
      → IsDurable r.1
      → IsDurable (handled process c r srv).server.manager
  handled-IsDurable (ok ack, m) srv h = h
  handled-IsDurable (ok snapshot_sent, m) srv h = h
  handled-IsDurable (ok (respond text), m) srv h = progressed-IsDurable _ (
      handle_user_message-IsDurable process.platform c.session_id c.device_id process.registry
        process.generate text (record srv { manager = m }) h)
  handled-IsDurable (err e, m) srv h = fails-IsDurable e (record srv { manager = m }) h

  pub read-IsDurable :
      (t : Text) (srv : Server)
      → IsDurable srv.manager
      → IsDurable (read process c t srv).server.manager
  unfolding read
  read-IsDurable too_large srv h = h
  read-IsDurable not_json srv h = h
  read-IsDurable not_object srv h = h
  read-IsDurable (invalid words) srv h = closes-IsDurable [] srv h
  read-IsDurable (message msg) srv h =
      handled-IsDurable _ srv (
        handle_client_message-IsDurable process.platform c.session_id c.device_id msg srv.manager h)
  read-IsDurable gone srv h = closes-IsDurable [] srv h

  pub woken-IsDurable :
      (call : Call) (e : Ended) (srv : Server)
      → IsDurable srv.manager
      → IsDurable (woken process c call e srv).server.manager
  unfolding woken
  woken-IsDurable call e srv h =
      progressed-IsDurable _
        (resume-IsDurable process.platform c.session_id c.device_id call e srv h)

  connected-IsDurable :
      (r : Result Error Snapshot × Manager) (srv : Server)
      → IsDurable r.1
      → IsDurable (connected process c r srv).server.manager
  unfolding register_ws
  connected-IsDurable (err (rejected _ _), m) srv h =
      closes-IsDurable [] (record srv { manager = m }) h
  connected-IsDurable (err (value_error words), m) srv h =
      fails-IsDurable (value_error words) (record srv { manager = m }) h
  connected-IsDurable (err (device_not_detected id), m) srv h =
      fails-IsDurable (device_not_detected id) (record srv { manager = m }) h
  connected-IsDurable (ok snap, m) srv h = record { at = h.at }

  pub authorized-IsDurable :
      (r : Result ClientAuthError (Unit {0})) (srv : Server)
      → IsDurable srv.manager
      → IsDurable (authorized process c r srv).server.manager
  authorized-IsDurable (err e) srv h = closes-IsDurable [] srv h
  authorized-IsDurable (ok _) srv h = connected-IsDurable _ srv (
      connect_device-IsDurable process.platform c.session_id c.device_id c.device_type c.device_name
        c.seed_demo srv.manager h)

  pub opened-IsDurable :
      (srv : Server)
      → IsDurable srv.manager
      → IsDurable (session_websocket process c srv).server.manager
  unfolding session_websocket
  opened-IsDurable srv h = authorized-IsDurable _ srv h

  pub wake-IsDurable :
      (call : Call) (request_id : String) (future : ℕ) (e : Ended) (srv : Server)
      → IsDurable srv.manager
      → IsDurable (woken process c call e (wake request_id future srv).1).server.manager
  unfolding wake
  wake-IsDurable call request_id future e srv h =
      woken-IsDurable call e (wake request_id future srv).1
        (rw (wake_on-manager request_id (outcome_of future srv.executions.outcomes) srv) h)

  pub expire-IsDurable :
      (call : Call) (request_id : String) (future : ℕ) (srv : Server)
      → IsDurable srv.manager
      → IsDurable
          (woken process c call
            (expire request_id future srv).0
            (expire request_id future srv).1).server.manager
  unfolding expire
  expire-IsDurable call request_id future srv h =
      woken-IsDurable call timeout (expire request_id future srv).1 h
