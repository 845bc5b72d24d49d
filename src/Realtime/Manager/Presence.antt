-- ===== src/Realtime/Manager/Presence.antt =====
-- Devices that come, go and report: `connect_device`, `disconnect_device` and `heartbeat`.
use alpilab_ai.Base.{ℕ, String, Bool, true, false, Option, none, some, if◌then◌else◌}
use alpilab_ai.Base.Exec.{Result, ok, err}
use alpilab_ai.Base.Platform.{Platform}
use alpilab_ai.Base.Text.{prefix, is_empty}
use alpilab_ai.Base.Dict.{get, put}
use alpilab_ai.Realtime.Payloads.{Error, DeviceType, DevicePresence, Snapshot}
use alpilab_ai.Realtime.Events.{
  device_connected, device_disconnected, device_heartbeat, device_online, device_offline,
  device_seen,
}
use alpilab_ai.Realtime.State.{SessionData, snapshot}
use alpilab_ai.Realtime.Manager.{
  Manager, validate_session_id, validate_device_id, validate_device_type, get_session, set_session,
  get_or_create_session, utc_now, announce, persist_session, unregister_ws,
}

abbrev pub device_name_max_len : ℕ
device_name_max_len = 120

abbrev pub set_device : String → DevicePresence → SessionData → SessionData
set_device device_id d s = record s { devices = put s.devices device_id d }

module _ (p : Platform) where
  -- the part after the session is found: the device is written, announced to the others, persisted
  unfoldable pub attach :
      String → String → DeviceType → String → SessionData → Manager → Snapshot × Manager
  attach session_id device_id dtype name s m =
      let (now, m1) = utc_now p m in
      let d : DevicePresence = record {
        device_id = device_id;
        device_type = dtype;
        device_name = name;
        online = true;
        connected_at = now;
        last_seen = now;
      } in
      let s' : SessionData = set_device device_id d s in
      let m2 = set_session session_id s' m1 in
      let m3 =
        announce p session_id device_connected (device_online d) (some device_id) (some device_id)
          m2 in
      (snapshot s', persist_session session_id m3)

  abbrev pub attach_found :
      String
      → String
      → DeviceType
      → String
      → Result Error SessionData × Manager
      → Result Error Snapshot × Manager
  attach_found session_id device_id dtype name (err e, m) = (err e, m)
  attach_found session_id device_id dtype name (ok s, m) =
      let (snap, m') = attach session_id device_id dtype name s m in (ok snap, m')

  abbrev pub connect_valid :
      String
      → String
      → String
      → Bool
      → Result Error (Unit {0})
      → Result Error (Unit {0})
      → Result Error DeviceType
      → Manager
      → Result Error Snapshot × Manager
  connect_valid session_id device_id device_name seed_demo (err e) _ _ m = (err e, m)
  connect_valid session_id device_id device_name seed_demo (ok _) (err e) _ m = (err e, m)
  connect_valid session_id device_id device_name seed_demo (ok _) (ok _) (err e) m = (err e, m)
  connect_valid session_id device_id device_name seed_demo (ok _) (ok _) (ok dtype) m =
      attach_found session_id device_id dtype
        (prefix device_name_max_len (if is_empty device_name then device_id else device_name))
        (get_or_create_session p session_id seed_demo m)

  unfoldable pub connect_device :
      String → String → String → String → Bool → Manager → Result Error Snapshot × Manager
  connect_device session_id device_id device_type device_name seed_demo m =
      connect_valid session_id device_id device_name seed_demo (validate_session_id p session_id)
        (validate_device_id p device_id) (validate_device_type p device_type) m

  abbrev pub mark_offline :
      String → String → SessionData → Option DevicePresence → Manager → Manager
  mark_offline session_id device_id s none m = m
  mark_offline session_id device_id s (some d) m =
      let (now, m1) = utc_now p m in
      let d' : DevicePresence = record d { online = false; last_seen = now } in
      announce p session_id device_disconnected
        (device_offline d'.device_id d'.device_type d'.device_name now) (some device_id) none
        (set_session session_id (set_device device_id d' s) m1)

  abbrev pub disconnect_found : String → String → Option SessionData → Manager → Manager
  disconnect_found session_id device_id none m = m
  disconnect_found session_id device_id (some s) m =
      unregister_ws session_id device_id
        (mark_offline session_id device_id s (get s.devices device_id) m)

  unfoldable pub disconnect_device : String → String → Manager → Manager
  disconnect_device session_id device_id m =
      disconnect_found session_id device_id (get_session session_id m) m

  abbrev pub mark_seen : String → String → SessionData → Option DevicePresence → Manager → Manager
  mark_seen session_id device_id s none m = m
  mark_seen session_id device_id s (some d) m =
      let (now, m1) = utc_now p m in
      let d' : DevicePresence = record d { online = true; last_seen = now } in
      announce p session_id device_heartbeat (device_seen d'.device_id now) (some device_id)
        (some device_id) (set_session session_id (set_device device_id d' s) m1)

  abbrev pub heartbeat_found : String → String → Option SessionData → Manager → Manager
  heartbeat_found session_id device_id none m = m
  heartbeat_found session_id device_id (some s) m =
      mark_seen session_id device_id s (get s.devices device_id) m

  unfoldable pub heartbeat : String → String → Manager → Manager
  heartbeat session_id device_id m =
      heartbeat_found session_id device_id (get_session session_id m) m
