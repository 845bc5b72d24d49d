-- ===== src/Realtime/Manager.antt =====
-- app/realtime/session_manager.py: the state of `RealtimeSessionManager`, sessions, events, sockets
-- and persistence. The handlers that clients call are in the modules below.
pub mod Presence
pub mod Updates
pub mod Bench
pub mod Inbound
pub mod Frame
pub mod Durability
pub mod DurableUpdates
pub mod DurablePresence
pub mod DurableMessages
pub mod Growth
pub mod Verdicts
pub mod BenchVerdicts
pub mod Fairness
pub mod Delivery
use Prim.Native.String.{count}
use alpilab_ai.Base.{
  ℕ, suc, String, Bool, true, false, Option, none, some, List, [], ◌∷◌, ◌++◌, map, not, ◌&&◌, ◌||◌,
  ◌==◌, ltb, ◌=?◌, if◌then◌else◌,
}
use alpilab_ai.Base.Lists.{keep}
use alpilab_ai.Base.Exec.{Result, ok, err}
use alpilab_ai.Base.Platform.{Platform}
use alpilab_ai.Base.Text.{strip, is_empty, all_chars, join_colon}
use alpilab_ai.Base.Dict.{Dict, get, put, remove, values}
use alpilab_ai.Realtime.Payloads.{Error, value_error, DeviceType, pc, phone, tablet, Snapshot}
use alpilab_ai.Realtime.DeviceContext.{truthy}
use alpilab_ai.Realtime.Events.{Event, EventType, session_created, Payload}
use alpilab_ai.Realtime.State.{
  SessionData, snapshot as snapshot_of, default_demo_session, new_session, session_is_unseeded,
  apply_demo_seed,
}

abbrev session_id_max_len : ℕ
session_id_max_len = 128

abbrev device_id_max_len : ℕ
device_id_max_len = 128

-- `all(ch.isalnum() or ch in "-_" for ch in s)`
unfoldable pub is_identifier : Platform → String → Bool
is_identifier p s = all_chars (λ c. p.isalnum c || c =? b'-' || c =? b'_') s

unfoldable pub validate_session_id : Platform → String → Result Error (Unit {0})
validate_session_id p session_id =
    if is_empty session_id || ltb session_id_max_len (count session_id)
    then err (value_error "invalid session_id")
    else if is_identifier p session_id
    then ok tt
    else err (value_error "invalid session_id characters")

unfoldable pub validate_device_id : Platform → String → Result Error (Unit {0})
validate_device_id p device_id =
    if is_empty device_id || ltb device_id_max_len (count device_id)
    then err (value_error "invalid device_id")
    else if is_identifier p device_id
    then ok tt
    else err (value_error "invalid device_id characters")

unfoldable pub validate_device_type : Platform → String → Result Error DeviceType
validate_device_type p device_type =
    let normalized = p.lower (strip device_type) in
    if normalized == "pc"
    then ok pc
    else if normalized == "phone"
    then ok phone
    else if normalized == "tablet"
    then ok tablet
    else err (value_error "invalid device_type")

-- A socket; what is sent on it is recorded in the `outbox` of the manager.
pub record Connection : Type 0 where
  pub session_id : String
  pub device_id : String

pub data Envelope : Type 0 where
  event : Event → Envelope
  snapshot : Snapshot → Envelope

pub record Sent : Type 0 where
  pub session_id : String
  pub device_id : String
  pub envelope : Envelope

-- `persistence_store` is the table of snapshots, if there is one. A subscriber is a number, and
-- `delivered` records the events that the subscribers were called with. `reads` counts what was
-- asked of the platform.
pub record Manager : Type 0 where
  pub sessions : Dict SessionData
  pub event_log : List Event
  pub subscribers : Dict (List ℕ)
  pub delivered : List (ℕ × Event)
  pub ws_connections : Dict Connection
  pub outbox : List Sent
  pub persistence_store : Option (Dict Snapshot)
  pub reads : ℕ

unfoldable pub get_session : String → Manager → Option SessionData
get_session session_id m = get m.sessions session_id

-- the writes to the object that `_sessions` holds under the id
unfoldable pub set_session : String → SessionData → Manager → Manager
set_session session_id s m = record m { sessions = put m.sessions session_id s }

abbrev pub or_nil {ℓ} : {A : Type ℓ} → Option (List A) → List A
or_nil none = []
or_nil (some xs) = xs

unfoldable pub subscribe : String → ℕ → Manager → Manager
subscribe session_id handler m = record m {
  subscribers =
      put m.subscribers session_id (or_nil (get m.subscribers session_id) ++ handler ∷ []);
}

unfoldable pub unsubscribe : String → ℕ → Manager → Manager
unsubscribe session_id handler m = record m {
  subscribers =
      put m.subscribers session_id
        (keep (λ h. not (h =? handler)) (or_nil (get m.subscribers session_id)));
}

unfoldable pub events_for_session : String → Manager → List Event
events_for_session session_id m = keep (λ e. e.repair_session_id == session_id) m.event_log

-- `persistable_snapshot` of app/realtime/persistence.py
unfoldable pub persistable_snapshot : SessionData → Snapshot
persistable_snapshot s = record (snapshot_of s) { participants = []; pc_agent = none }

abbrev save : String → SessionData → Option (Dict Snapshot) → Option (Dict Snapshot)
save session_id s none = none
save session_id s (some table) = some (put table session_id (persistable_snapshot s))

abbrev persist_found : String → Option SessionData → Manager → Manager
persist_found session_id none m = m
persist_found session_id (some s) m = record m {
  persistence_store = save session_id s m.persistence_store;
}

unfoldable pub persist_session : String → Manager → Manager
persist_session session_id m = persist_found session_id (get_session session_id m) m

-- `if exclude_device_id and conn["device_id"] == exclude_device_id`
abbrev is_excluded : Option String → String → Bool
is_excluded none device_id = false
is_excluded (some x) device_id = not (is_empty x) && device_id == x

unfoldable pub register_ws : String → String → Manager → Manager
register_ws session_id device_id m = record m {
  ws_connections =
      put m.ws_connections (join_colon session_id device_id)
        (record { session_id = session_id; device_id = device_id });
}

unfoldable pub unregister_ws : String → String → Manager → Manager
unregister_ws session_id device_id m = record m {
  ws_connections = remove m.ws_connections (join_colon session_id device_id);
}

abbrev send_found : String → String → Envelope → Option Connection → Manager → Manager
send_found session_id device_id envelope none m = m
send_found session_id device_id envelope (some conn) m = record m {
  outbox =
      m.outbox
      ++ record { session_id = session_id; device_id = device_id; envelope = envelope } ∷ [];
}

unfoldable pub send_ws : String → String → Envelope → Manager → Manager
send_ws session_id device_id envelope m =
    send_found session_id device_id envelope
      (get m.ws_connections (join_colon session_id device_id)) m

-- the connections that a broadcast reaches
unfoldable pub recipients : String → Option String → Manager → List Connection
recipients session_id exclude m =
    keep (λ c. c.session_id == session_id && not (is_excluded exclude c.device_id))
      (values m.ws_connections)

unfoldable pub send_all : String → Envelope → List Connection → Manager → Manager
send_all session_id envelope [] m = m
send_all session_id envelope (c ∷ cs) m =
    send_all session_id envelope cs (send_ws session_id c.device_id envelope m)

unfoldable pub broadcast_ws : String → Envelope → Option String → Manager → Manager
broadcast_ws session_id envelope exclude m =
    send_all session_id envelope (recipients session_id exclude m) m

unfoldable pub send_event_ws : String → Event → Option String → Manager → Manager
send_event_ws session_id e exclude m = broadcast_ws session_id (Envelope.event e) exclude m

module _ (p : Platform) where
  unfoldable pub uuid4 : Manager → String × Manager
  uuid4 m = (p.uuid m.reads, record m { reads = suc m.reads })

  unfoldable pub utc_now : Manager → ℕ × Manager
  utc_now m = (p.clock m.reads, record m { reads = suc m.reads })

  unfoldable pub emit : String → EventType → Payload → Option String → Manager → Event × Manager
  emit session_id event_type payload source m =
      let (id, m1) = uuid4 m in
      let (now, m2) = utc_now m1 in
      let e : Event = record {
        id = id;
        repair_session_id = session_id;
        event_type = event_type;
        payload = payload;
        emitted_at = now;
        source_client_device_id = source;
      } in
      (
        e,
        record m2 {
          event_log = m2.event_log ++ e ∷ [];
          delivered = m2.delivered ++ map (λ h. (h, e)) (or_nil (get m2.subscribers session_id));
        },
      )

  -- `event = self.emit(…)`, then `await self.send_event_ws(session_id, event, …)`
  unfoldable pub announce :
      String → EventType → Payload → Option String → Option String → Manager → Manager
  announce session_id event_type payload source exclude m =
      let (e, m1) = emit session_id event_type payload source m in
      send_event_ws session_id e exclude m1

  -- the end of `create_session`, for the new session
  unfoldable pub add_session : SessionData → Manager → SessionData × Manager
  add_session s m =
      let m1 = persist_session s.session_id (set_session s.session_id s m) in
      (s, (emit s.session_id session_created (Payload.snapshot (snapshot_of s)) none m1).1)

  abbrev build_session : Bool → String → ℕ → SessionData
  build_session seed_demo sid now =
      if seed_demo then default_demo_session sid now else new_session sid now

  abbrev create_named : String → Bool → Option SessionData → Manager → SessionData × Manager
  create_named sid seed_demo (some s) m = (s, m)
  create_named sid seed_demo none m =
      let (now, m1) = utc_now m in add_session (build_session seed_demo sid now) m1

  abbrev create_validated :
      String → Bool → Result Error (Unit {0}) → Manager → Result Error SessionData × Manager
  create_validated sid seed_demo (err e) m = (err e, m)
  create_validated sid seed_demo (ok _) m =
      let (s, m') = create_named sid seed_demo (get_session sid m) m in (ok s, m')

  abbrev create_truthy : Option String → Bool → Manager → Result Error SessionData × Manager
  create_truthy none seed_demo m =
      let (sid, m1) = uuid4 m in
      let (now, m2) = utc_now m1 in
      let (s, m3) = add_session (build_session seed_demo sid now) m2 in (ok s, m3)
  create_truthy (some sid) seed_demo m =
      create_validated sid seed_demo (validate_session_id p sid) m

  unfoldable pub create_session :
      Option String → Bool → Manager → Result Error SessionData × Manager
  create_session session_id seed_demo m = create_truthy (truthy session_id) seed_demo m

  abbrev reuse_or_create :
      String → Bool → Option SessionData → Manager → Result Error SessionData × Manager
  reuse_or_create sid seed_demo none m = create_session (some sid) seed_demo m
  reuse_or_create sid seed_demo (some s) m =
      if seed_demo && session_is_unseeded s
      then (let (now, m1) = utc_now m in
          let s' = apply_demo_seed now s in (ok s', set_session sid s' m1))
      else (ok s, m)

  unfoldable pub get_or_create_session :
      String → Bool → Manager → Result Error SessionData × Manager
  get_or_create_session session_id seed_demo m =
      reuse_or_create session_id seed_demo (get_session session_id m) m
