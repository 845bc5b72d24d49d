-- ===== src/Realtime/Manager/DurableUpdates.antt =====
-- Every change to a session is on disk when its handler returns, and a handler that raises has
-- written nothing that is not.
use alpilab_ai.Base.{ℕ, String, Bool, Option, none, some, List, ◌==◌, if_rule}
use alpilab_ai.Base.Text.{strip}
use alpilab_ai.Base.Lists.{find}
use alpilab_ai.Base.Exec.{Result, ok, err}
use alpilab_ai.Base.Platform.{Platform}
use alpilab_ai.Realtime.Payloads.{
  Error, AssistantStatus, MessageRole, DetectedDevice, DiagnosticTest, validate_content,
}
use alpilab_ai.Realtime.Events.{EventType, Payload, Changes}
use alpilab_ai.Realtime.State.{SessionData}
use alpilab_ai.Realtime.Sync.{
  apply_diagnosis_pause, apply_diagnostic_update, apply_repair_context_update,
}
use alpilab_ai.Realtime.Manager.{
  Manager, get_session, set_session, uuid4, utc_now, announce, persist_session,
}
use alpilab_ai.Realtime.Manager.Frame.{announce-SameCore}
use alpilab_ai.Realtime.Manager.Durability.{
  IsDurable, IsDurableBut, IsDurable-IsDurableBut, SameCore-IsDurable, SameCore-IsDurableBut,
  set_session-IsDurableBut, persist_session-IsDurable,
}
use alpilab_ai.Realtime.Manager.Updates.{
  broadcast_state_update, apply_changes, add_chat_message, post_found, post_valid,
  set_assistant_status, status_found, update_diagnostic_measurement, measure_found, measure_valid,
  set_diagnosis_paused, update_repair_context, change_found,
}
use alpilab_ai.Realtime.Manager.Bench.{
  update_detected_devices, detect_found, associate_repair_device, associate_found,
  associate_detected, unassociate_repair_device, unassociate_found,
}

module _ (p : Platform) (sid : String) where
  -- The end of every change: announce, then persist.
  pub committed :
      (ty : EventType) (payload : Payload) (source exclude : Option String) (m : Manager)
      → IsDurableBut sid m
      → IsDurable (persist_session sid (announce p sid ty payload source exclude m))
  committed ty payload source exclude m h =
      persist_session-IsDurable sid (announce p sid ty payload source exclude m)
        (SameCore-IsDurableBut sid (announce-SameCore p sid ty payload source exclude m) h)

  -- The same, with the session written first.
  pub written :
      (ty : EventType) (payload : Payload) (source exclude : Option String) (s : SessionData)
      (m : Manager)
      → IsDurable m
      → IsDurable
          (persist_session sid (announce p sid ty payload source exclude (set_session sid s m)))
  written ty payload source exclude s m h =
      committed ty payload source exclude (set_session sid s m)
        (set_session-IsDurableBut sid s m (IsDurable-IsDurableBut sid h))

  pub announced :
      (ty : EventType) (payload : Payload) (source exclude : Option String) (m : Manager)
      → IsDurable m
      → IsDurable (announce p sid ty payload source exclude m)
  announced ty payload source exclude m h =
      SameCore-IsDurable (announce-SameCore p sid ty payload source exclude m) h

  broadcast_state_update-IsDurable :
      (device_id : String) (changes : Changes) (s : SessionData) (m : Manager)
      → IsDurableBut sid m
      → IsDurable (broadcast_state_update p sid device_id changes s m)
  unfolding broadcast_state_update uuid4 utc_now
  broadcast_state_update-IsDurable device_id changes s m h =
      let h' = set_session-IsDurableBut sid (apply_changes changes s) m h in
      committed _ _ _ _ _ (record { at = h'.at })

  post_valid-IsDurable :
      (device_id : String) (role : MessageRole) (id : String) (now : ℕ) (r : Result Error String)
      (s : SessionData) (m : Manager)
      → IsDurable m
      → IsDurable (post_valid p sid device_id role id now r s m).1
  post_valid-IsDurable device_id role id now (err e) s m h = h
  post_valid-IsDurable device_id role id now (ok text) s m h = written _ _ _ _ _ m h

  post_found-IsDurable :
      (device_id content : String) (role : MessageRole) (o : Option SessionData) (m : Manager)
      → IsDurable m
      → IsDurable (post_found p sid device_id content role o m).1
  unfolding uuid4 utc_now
  post_found-IsDurable device_id content role none m h = h
  post_found-IsDurable device_id content role (some s) m h =
      post_valid-IsDurable device_id role _ _ (validate_content (strip content)) s _
        (record { at = h.at })

  pub add_chat_message-IsDurable :
      (device_id content : String) (role : MessageRole) (m : Manager)
      → IsDurable m
      → IsDurable (add_chat_message p sid device_id content role m).1
  unfolding add_chat_message
  add_chat_message-IsDurable device_id content role m h =
      post_found-IsDurable device_id content role (get_session sid m) m h

  status_found-IsDurable :
      (status : AssistantStatus) (source : Option String) (o : Option SessionData) (m : Manager)
      → IsDurable m
      → IsDurable (status_found p sid status source o m)
  status_found-IsDurable status source none m h = h
  status_found-IsDurable status source (some s) m h =
      announced _ _ _ _ _ (broadcast_state_update-IsDurable _ _ s m (IsDurable-IsDurableBut sid h))

  pub set_assistant_status-IsDurable :
      (status : AssistantStatus) (source : Option String) (m : Manager)
      → IsDurable m
      → IsDurable (set_assistant_status p sid status source m)
  unfolding set_assistant_status
  set_assistant_status-IsDurable status source m h =
      status_found-IsDurable status source (get_session sid m) m h

  measure_valid-IsDurable :
      (device_id : String) (r : Result Error (List DiagnosticTest × Changes)) (s : SessionData)
      (m : Manager)
      → IsDurable m
      → IsDurable (measure_valid p sid device_id r s m).1
  measure_valid-IsDurable device_id (err e) s m h = h
  measure_valid-IsDurable device_id (ok (ts, changes)) s m h = announced _ _ _ _ _ (
      broadcast_state_update-IsDurable device_id changes _ _
        (set_session-IsDurableBut sid _ m (IsDurable-IsDurableBut sid h)))

  measure_found-IsDurable :
      (device_id test_id value : String) (o : Option SessionData) (m : Manager)
      → IsDurable m
      → IsDurable (measure_found p sid device_id test_id value o m).1
  measure_found-IsDurable device_id test_id value none m h = h
  measure_found-IsDurable device_id test_id value (some s) m h =
      if_rule {A = Result Error (Unit {0}) × Manager} (λ r. IsDurable r.1) (s.status == "paused") h
        (measure_valid-IsDurable device_id (apply_diagnostic_update p s.diagnostics test_id value) s
          m h)

  pub update_diagnostic_measurement-IsDurable :
      (device_id test_id value : String) (m : Manager)
      → IsDurable m
      → IsDurable (update_diagnostic_measurement p sid device_id test_id value m).1
  unfolding update_diagnostic_measurement
  update_diagnostic_measurement-IsDurable device_id test_id value m h =
      measure_found-IsDurable device_id test_id value (get_session sid m) m h

  change_found-IsDurable :
      (device_id : String) (r : Result Error Changes) (o : Option SessionData) (m : Manager)
      → IsDurable m
      → IsDurable (change_found p sid device_id r o m).1
  change_found-IsDurable device_id r none m h = h
  change_found-IsDurable device_id (err e) (some s) m h = h
  change_found-IsDurable device_id (ok changes) (some s) m h =
      broadcast_state_update-IsDurable device_id changes s m (IsDurable-IsDurableBut sid h)

  pub set_diagnosis_paused-IsDurable :
      (device_id : String) (paused : Bool) (m : Manager)
      → IsDurable m
      → IsDurable (set_diagnosis_paused p sid device_id paused m).1
  unfolding set_diagnosis_paused
  set_diagnosis_paused-IsDurable device_id paused m h =
      change_found-IsDurable device_id (ok (apply_diagnosis_pause paused)) (get_session sid m) m h

  pub update_repair_context-IsDurable :
      (device_id : String) (device issue label : Option String) (m : Manager)
      → IsDurable m
      → IsDurable (update_repair_context p sid device_id device issue label m).1
  unfolding update_repair_context
  update_repair_context-IsDurable device_id device issue label m h =
      change_found-IsDurable device_id (apply_repair_context_update device issue label)
        (get_session sid m) m h

  detect_found-IsDurable :
      (devices : List DetectedDevice) (o : Option SessionData) (m : Manager)
      → IsDurable m
      → IsDurable (detect_found p sid devices o m).1
  detect_found-IsDurable devices none m h = h
  detect_found-IsDurable devices (some s) m h = written _ _ _ _ _ m h

  pub update_detected_devices-IsDurable :
      (devices : List DetectedDevice) (m : Manager)
      → IsDurable m
      → IsDurable (update_detected_devices p sid devices m).1
  unfolding update_detected_devices
  update_detected_devices-IsDurable devices m h =
      detect_found-IsDurable devices (get_session sid m) m h

  associate_detected-IsDurable :
      (id : String) (source : Option String) (d : Option DetectedDevice) (s : SessionData)
      (m : Manager)
      → IsDurable m
      → IsDurable (associate_detected p sid id source d s m).1
  associate_detected-IsDurable id source none s m h = h
  associate_detected-IsDurable id source (some d) s m h =
      unfold utc_now in written _ _ _ _ _ _ (record { at = h.at })

  associate_found-IsDurable :
      (id : String) (source : Option String) (o : Option SessionData) (m : Manager)
      → IsDurable m
      → IsDurable (associate_found p sid id source o m).1
  associate_found-IsDurable id source none m h = h
  associate_found-IsDurable id source (some s) m h =
      associate_detected-IsDurable id source (find (λ d. d.id == id) s.detected_devices) s m h

  pub associate_repair_device-IsDurable :
      (id : String) (source : Option String) (m : Manager)
      → IsDurable m
      → IsDurable (associate_repair_device p sid id source m).1
  unfolding associate_repair_device
  associate_repair_device-IsDurable id source m h =
      associate_found-IsDurable id source (get_session sid m) m h

  unassociate_found-IsDurable :
      (source : Option String) (o : Option SessionData) (m : Manager)
      → IsDurable m
      → IsDurable (unassociate_found p sid source o m).1
  unassociate_found-IsDurable source none m h = h
  unassociate_found-IsDurable source (some s) m h = written _ _ _ _ _ m h

  pub unassociate_repair_device-IsDurable :
      (source : Option String) (m : Manager)
      → IsDurable m
      → IsDurable (unassociate_repair_device p sid source m).1
  unfolding unassociate_repair_device
  unassociate_repair_device-IsDurable source m h =
      unassociate_found-IsDurable source (get_session sid m) m h
