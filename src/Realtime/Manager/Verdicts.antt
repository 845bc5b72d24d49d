-- ===== src/Realtime/Manager/Verdicts.antt =====
-- What each handler may do to the sessions: it lets them grow, and if it refuses the request it
-- leaves them alone.
use mathlib.Core.List.{append-nil}
use alpilab_ai.Base.{
  ℕ, ◌+◌, String, Bool, Option, none, some, List, [], ◌∷◌, ◌≡◌, refl, sym, ◌==◌, arith, eq_refl,
  if_rule,
}
use alpilab_ai.Base.Exec.{Result, ok, err}
use alpilab_ai.Base.Platform.{Platform}
use alpilab_ai.Base.Dict.{get, get-put}
use alpilab_ai.Base.Text.{strip}
use alpilab_ai.Realtime.Payloads.{
  Error, rejected, AssistantStatus, MessageRole, DiagnosticTest, validate_content,
}
use alpilab_ai.Realtime.Events.{Changes, ContextChanges}
use alpilab_ai.Realtime.State.{SessionData}
use alpilab_ai.Realtime.Sync.{
  apply_diagnosis_pause, apply_diagnostic_update, apply_repair_context_update,
}
use alpilab_ai.Realtime.Manager.{Manager, get_session, set_session, uuid4, utc_now}
use alpilab_ai.Realtime.Manager.Growth.{
  Extends, Extends-refl, Extends-trans, Grows, sessions-Grows, Grows-trans, set_session-Grows,
  announce-Grows, written-Grows,
}
use alpilab_ai.Realtime.Manager.Updates.{
  broadcast_state_update, apply_changes, apply_context, apply_repair_context_fields,
  add_chat_message, post_found, post_valid, set_assistant_status, status_found,
  update_diagnostic_measurement, measure_found, measure_valid, set_diagnosis_paused,
  update_repair_context, change_found,
}

pub record IsFair {A : Type 0} (m : Manager) (r : Result Error A × Manager) : Type 0 where
  pub grows : Grows m r.1
  pub refused :
      (reason : String) (request_type : Option String)
      → r.0 ≡ err (rejected reason request_type)
      → r.1.sessions ≡ m.sessions

pub ok-IsFair : {A : Type 0} (a : A) (m m' : Manager) → Grows m m' → IsFair {A = A} m (ok a, m')
ok-IsFair a m m' h = record { grows = h; refused = λ reason t e. cc }

pub unwritten-IsFair :
    {A : Type 0} (r : Result Error A) (m m' : Manager) → m'.sessions ≡ m.sessions → IsFair m (r, m')
unwritten-IsFair r m m' e = record { grows = sessions-Grows m m' e; refused = λ reason t _. e }

-- A change that keeps the id and the messages extends the session if the version does not fall.
apply_context-Extends :
    (ctx : Option ContextChanges) (s : SessionData) → Extends s (apply_context ctx s)
unfolding apply_repair_context_fields
apply_context-Extends none s = Extends-refl s
apply_context-Extends (some ctx) s = record {
  same_id = refl;
  version = omega arith;
  added = [];
  messages = sym (append-nil s.messages);
}

bumped-Extends :
    (status : AssistantStatus) (s : SessionData)
    → Extends s (record s { assistant_status = status; state_version = s.state_version + 1 })
bumped-Extends status s = record {
  same_id = refl;
  version = omega arith;
  added = [];
  messages = sym (append-nil s.messages);
}

apply_changes-Extends : (changes : Changes) (s : SessionData) → Extends s (apply_changes changes s)
unfolding apply_changes
apply_changes-Extends changes s =
    Extends-trans (apply_context-Extends changes.repair_context s)
      (bumped-Extends _ (apply_context changes.repair_context s))

module _ (p : Platform) (sid : String) where
  broadcast_state_update-Grows :
      (device_id : String) (changes : Changes) (s : SessionData) (m : Manager)
      → get m.sessions sid ≡ some s
      → Grows m (broadcast_state_update p sid device_id changes s m)
  unfolding broadcast_state_update uuid4 utc_now set_session
  broadcast_state_update-Grows device_id changes s m found =
      let h =
        written-Grows p sid _ _ (some device_id) none s (apply_changes changes s)
          (record m { reads = _ }) found (apply_changes-Extends changes s) in
      record { at = h.at }

  post_valid-IsFair :
      (device_id : String) (role : MessageRole) (id : String) (now : ℕ) (r : Result Error String)
      (s : SessionData) (m : Manager)
      → get m.sessions sid ≡ some s
      → IsFair m (post_valid p sid device_id role id now r s m)
  post_valid-IsFair device_id role id now (err e) s m found = unwritten-IsFair (err e) m m refl
  post_valid-IsFair device_id role id now (ok text) s m found = ok-IsFair _ m _ (
      written-Grows p sid _ _ _ _ s _ m found
        (record { same_id = refl; version = omega arith; added = _ ∷ []; messages = refl }))

  post_found-IsFair :
      (device_id content : String) (role : MessageRole) (o : Option SessionData) (m : Manager)
      → get m.sessions sid ≡ o
      → IsFair m (post_found p sid device_id content role o m)
  unfolding uuid4 utc_now
  post_found-IsFair device_id content role none m found = unwritten-IsFair _ m m refl
  post_found-IsFair device_id content role (some s) m found =
      let h =
        post_valid-IsFair device_id role (p.uuid m.reads) _ (validate_content (strip content)) s
          (record m { reads = _ }) found in
      record { grows = record { at = h.grows.at }; refused = h.refused }

  pub add_chat_message-IsFair :
      (device_id content : String) (role : MessageRole) (m : Manager)
      → IsFair m (add_chat_message p sid device_id content role m)
  unfolding add_chat_message get_session
  add_chat_message-IsFair device_id content role m =
      post_found-IsFair device_id content role (get m.sessions sid) m refl

  status_found-Grows :
      (status : AssistantStatus) (source : Option String) (o : Option SessionData) (m : Manager)
      → get m.sessions sid ≡ o
      → Grows m (status_found p sid status source o m)
  status_found-Grows status source none m found = sessions-Grows m m refl
  status_found-Grows status source (some s) m found =
      Grows-trans (broadcast_state_update-Grows _ _ s m found) (announce-Grows p sid _ _ _ _ _)

  pub set_assistant_status-Grows :
      (status : AssistantStatus) (source : Option String) (m : Manager)
      → Grows m (set_assistant_status p sid status source m)
  unfolding set_assistant_status get_session
  set_assistant_status-Grows status source m =
      status_found-Grows status source (get m.sessions sid) m refl

  tests-Extends :
      (ts : List DiagnosticTest) (s : SessionData) → Extends s (record s { diagnostics = ts })
  tests-Extends ts s = record {
    same_id = refl;
    version = omega arith;
    added = [];
    messages = sym (append-nil s.messages);
  }

  get-set_session :
      (s : SessionData) (m : Manager) → get (set_session sid s m).sessions sid ≡ some s
  unfolding set_session
  get-set_session s m = simp (get-put, eq_refl)

  measure_valid-IsFair :
      (device_id : String) (r : Result Error (List DiagnosticTest × Changes)) (s : SessionData)
      (m : Manager)
      → get m.sessions sid ≡ some s
      → IsFair m (measure_valid p sid device_id r s m)
  measure_valid-IsFair device_id (err e) s m found = unwritten-IsFair (err e) m m refl
  measure_valid-IsFair device_id (ok (ts, changes)) s m found = ok-IsFair _ m _ (
      Grows-trans (set_session-Grows sid s _ m found (tests-Extends ts s)) (
        Grows-trans
          (broadcast_state_update-Grows device_id changes _ _
            (get-set_session (record s { diagnostics = ts }) m))
          (announce-Grows p sid _ _ _ _ _)))

  measure_found-IsFair :
      (device_id test_id value : String) (o : Option SessionData) (m : Manager)
      → get m.sessions sid ≡ o
      → IsFair m (measure_found p sid device_id test_id value o m)
  measure_found-IsFair device_id test_id value none m found = unwritten-IsFair _ m m refl
  measure_found-IsFair device_id test_id value (some s) m found =
      if_rule {A = Result Error (Unit {0}) × Manager} (λ r. IsFair m r) (s.status == "paused")
        (unwritten-IsFair _ m m refl)
        (measure_valid-IsFair device_id (apply_diagnostic_update p s.diagnostics test_id value) s m
          found)

  pub update_diagnostic_measurement-IsFair :
      (device_id test_id value : String) (m : Manager)
      → IsFair m (update_diagnostic_measurement p sid device_id test_id value m)
  unfolding update_diagnostic_measurement get_session
  update_diagnostic_measurement-IsFair device_id test_id value m =
      measure_found-IsFair device_id test_id value (get m.sessions sid) m refl

  change_found-IsFair :
      (device_id : String) (r : Result Error Changes) (o : Option SessionData) (m : Manager)
      → get m.sessions sid ≡ o
      → IsFair m (change_found p sid device_id r o m)
  change_found-IsFair device_id r none m found = unwritten-IsFair _ m m refl
  change_found-IsFair device_id (err e) (some s) m found = unwritten-IsFair (err e) m m refl
  change_found-IsFair device_id (ok changes) (some s) m found =
      ok-IsFair _ m _ (broadcast_state_update-Grows device_id changes s m found)

  pub set_diagnosis_paused-IsFair :
      (device_id : String) (paused : Bool) (m : Manager)
      → IsFair m (set_diagnosis_paused p sid device_id paused m)
  unfolding set_diagnosis_paused get_session
  set_diagnosis_paused-IsFair device_id paused m =
      change_found-IsFair device_id (ok (apply_diagnosis_pause paused)) (get m.sessions sid) m refl

  pub update_repair_context-IsFair :
      (device_id : String) (device issue label : Option String) (m : Manager)
      → IsFair m (update_repair_context p sid device_id device issue label m)
  unfolding update_repair_context get_session
  update_repair_context-IsFair device_id device issue label m =
      change_found-IsFair device_id (apply_repair_context_update device issue label)
        (get m.sessions sid) m refl
