-- ===== src/Realtime/Manager/Updates.antt =====
-- The changes to a session: chat, assistant status, measurements, pause and repair context.
use alpilab_ai.Base.{
  ℕ, ◌+◌, String, Bool, Option, none, some, List, [], ◌∷◌, ◌++◌, ◌==◌, if◌then◌else◌, or_else,
}
use alpilab_ai.Base.Exec.{Result, ok, err}
use alpilab_ai.Base.Platform.{Platform, hour_minute}
use alpilab_ai.Base.Text.{strip}
use alpilab_ai.Realtime.Payloads.{
  Error, value_error, rejected, AssistantStatus, MessageRole, user, assistant, system, ChatMessage,
  validate_content, DiagnosticTest,
}
use alpilab_ai.Realtime.Events.{
  EventType, Changes, ContextChanges, session_state_updated, state_update, message, status_changed,
  tests,
}
use alpilab_ai.Realtime.State.{SessionData}
use alpilab_ai.Realtime.Sync.{
  apply_assistant_status_change, apply_diagnosis_pause, apply_diagnostic_update,
  apply_repair_context_update,
}
use alpilab_ai.Realtime.Manager.{
  Manager, get_session, set_session, uuid4, utc_now, announce, persist_session,
}

-- a key with a value other than None replaces the text
abbrev pub replace : Option (Option String) → String → String
replace (some (some text)) old = text
replace _ old = old

-- a key replaces the value, also by None
abbrev pub assign : Option (Option String) → Option String → Option String
assign none old = old
assign (some value) old = value

unfoldable pub apply_repair_context_fields : ContextChanges → SessionData → SessionData
apply_repair_context_fields ctx s = record s {
  label = replace ctx.label s.label;
  device = assign ctx.device s.device;
  issue = assign ctx.issue s.issue;
  status = replace ctx.status s.status;
  diagnosis_label = replace ctx.diagnosis_label s.diagnosis_label;
}

abbrev pub apply_context : Option ContextChanges → SessionData → SessionData
apply_context none s = s
apply_context (some ctx) s = apply_repair_context_fields ctx s

-- what `_broadcast_state_update` writes to the session
unfoldable pub apply_changes : Changes → SessionData → SessionData
apply_changes changes s =
    let s' = apply_context changes.repair_context s in
    record s' {
      assistant_status = or_else changes.assistant_status s'.assistant_status;
      state_version = s'.state_version + 1;
    }

unfoldable pub not_found : Error
not_found = value_error "session not found"

module _ (p : Platform) where
  -- `_broadcast_state_update`, for the session that the caller found
  unfoldable pub broadcast_state_update :
      String → String → Changes → SessionData → Manager → Manager
  broadcast_state_update session_id device_id changes s m =
      let s' = apply_changes changes s in
      let m1 = set_session session_id s' m in
      let (event_id, m2) = uuid4 p m1 in
      let (now, m3) = utc_now p m2 in
      persist_session session_id (
        announce p session_id session_state_updated
          (state_update (record {
            event_id = event_id;
            session_id = session_id;
            timestamp = now;
            source_device_id = device_id;
            state_version = s'.state_version;
            changes = changes;
          }))
          (some device_id) none m3)

  abbrev pub author : MessageRole → String → Option String
  author user device_id = some device_id
  author assistant device_id = none
  author system device_id = none

  abbrev pub post_valid :
      String
      → String
      → MessageRole
      → String
      → ℕ
      → Result Error String
      → SessionData
      → Manager
      → Result Error ChatMessage × Manager
  post_valid session_id device_id role id now (err e) s m = (err e, m)
  post_valid session_id device_id role id now (ok content) s m =
      let msg : ChatMessage = record {
        message_id = id;
        session_id = session_id;
        device_id = author role device_id;
        role = role;
        content = content;
        timestamp = hour_minute now;
      } in
      let s' : SessionData = record s {
        messages = s.messages ++ msg ∷ [];
        state_version = s.state_version + 1;
      } in
      (
        ok msg,
        persist_session session_id (
            announce p session_id EventType.chat_message (message msg) (some device_id) none
              (set_session session_id s' m)),
      )

  abbrev pub post_found :
      String
      → String
      → String
      → MessageRole
      → Option SessionData
      → Manager
      → Result Error ChatMessage × Manager
  post_found session_id device_id content role none m = (err not_found, m)
  post_found session_id device_id content role (some s) m =
      let (id, m1) = uuid4 p m in
      let (now, m2) = utc_now p m1 in
      post_valid session_id device_id role id now (validate_content (strip content)) s m2

  unfoldable pub add_chat_message :
      String → String → String → MessageRole → Manager → Result Error ChatMessage × Manager
  add_chat_message session_id device_id content role m =
      post_found session_id device_id content role (get_session session_id m) m

  abbrev pub status_found :
      String → AssistantStatus → Option String → Option SessionData → Manager → Manager
  status_found session_id status source none m = m
  status_found session_id status source (some s) m =
      let changes = apply_assistant_status_change status in
      announce p session_id EventType.assistant_status
        (status_changed status (apply_changes changes s).state_version) source none
        (broadcast_state_update session_id (or_else source "system") changes s m)

  unfoldable pub set_assistant_status : String → AssistantStatus → Option String → Manager → Manager
  set_assistant_status session_id status source m =
      status_found session_id status source (get_session session_id m) m

  abbrev pub measure_valid :
      String
      → String
      → Result Error (List DiagnosticTest × Changes)
      → SessionData
      → Manager
      → Result Error (Unit {0}) × Manager
  measure_valid session_id device_id (err e) s m = (err e, m)
  measure_valid session_id device_id (ok (ts, changes)) s m =
      let s' : SessionData = record s { diagnostics = ts } in
      (
        ok tt,
        announce p session_id EventType.diagnostic_updated
            (tests ts (apply_changes changes s').state_version) (some device_id) none
            (broadcast_state_update session_id device_id changes s' (set_session session_id s' m)),
      )

  abbrev pub measure_found :
      String
      → String
      → String
      → String
      → Option SessionData
      → Manager
      → Result Error (Unit {0}) × Manager
  measure_found session_id device_id test_id value none m = (err not_found, m)
  measure_found session_id device_id test_id value (some s) m =
      if s.status == "paused"
      then (err (rejected "diagnosis is paused" (some "diagnostic_update")), m)
      else measure_valid session_id device_id
          (apply_diagnostic_update p s.diagnostics test_id value) s m

  unfoldable pub update_diagnostic_measurement :
      String → String → String → String → Manager → Result Error (Unit {0}) × Manager
  update_diagnostic_measurement session_id device_id test_id value m =
      measure_found session_id device_id test_id value (get_session session_id m) m

  abbrev pub change_found :
      String
      → String
      → Result Error Changes
      → Option SessionData
      → Manager
      → Result Error (Unit {0}) × Manager
  change_found session_id device_id changes none m = (err not_found, m)
  change_found session_id device_id (err e) (some s) m = (err e, m)
  change_found session_id device_id (ok changes) (some s) m =
      (ok tt, broadcast_state_update session_id device_id changes s m)

  unfoldable pub set_diagnosis_paused :
      String → String → Bool → Manager → Result Error (Unit {0}) × Manager
  set_diagnosis_paused session_id device_id paused m =
      change_found session_id device_id (ok (apply_diagnosis_pause paused))
        (get_session session_id m) m

  unfoldable pub update_repair_context :
      String
      → String
      → Option String
      → Option String
      → Option String
      → Manager
      → Result Error (Unit {0}) × Manager
  update_repair_context session_id device_id device issue label m =
      change_found session_id device_id (apply_repair_context_update device issue label)
        (get_session session_id m) m
