-- ===== src/Realtime/Manager/Bench.antt =====
-- The devices on the bench: the list that the PC agent's scanner reports, and the one that the user
-- associates with the session.
use alpilab_ai.Base.{◌+◌, String, Option, none, some, List, ◌==◌}
use alpilab_ai.Base.Lists.{find}
use alpilab_ai.Base.Exec.{Result, ok, err}
use alpilab_ai.Base.Platform.{Platform}
use alpilab_ai.Realtime.Payloads.{Error, device_not_detected, DetectedDevice, DeviceContext}
use alpilab_ai.Realtime.DeviceContext.{display_name, from_detected}
use alpilab_ai.Realtime.Events.{
  repair_device_associated, repair_device_unassociated, repair_device_list_updated, detected,
  associated, unassociated,
}
use alpilab_ai.Realtime.State.{SessionData}
use alpilab_ai.Realtime.Manager.{
  Manager, get_session, set_session, utc_now, announce, persist_session,
}
use alpilab_ai.Realtime.Manager.Updates.{not_found}

module _ (p : Platform) where
  abbrev pub detect_found :
      String
      → List DetectedDevice
      → Option SessionData
      → Manager
      → Result Error (Unit {0}) × Manager
  detect_found session_id devices none m = (err not_found, m)
  detect_found session_id devices (some s) m =
      let s' : SessionData = record s {
        detected_devices = devices;
        state_version = s.state_version + 1;
      } in
      (
        ok tt,
        persist_session session_id (
            announce p session_id repair_device_list_updated (detected devices) none none
              (set_session session_id s' m)),
      )

  unfoldable pub update_detected_devices :
      String → List DetectedDevice → Manager → Result Error (Unit {0}) × Manager
  update_detected_devices session_id devices m =
      detect_found session_id devices (get_session session_id m) m

  abbrev pub associate_detected :
      String
      → String
      → Option String
      → Option DetectedDevice
      → SessionData
      → Manager
      → Result Error (Unit {0}) × Manager
  associate_detected session_id device_id source none s m = (err (device_not_detected device_id), m)
  associate_detected session_id device_id source (some d) s m =
      let (now, m1) = utc_now p m in
      let context = from_detected d (some now) in
      let s' : SessionData = record s {
        device = some (display_name d);
        device_context = some context;
        state_version = s.state_version + 1;
      } in
      (
        ok tt,
        persist_session session_id (
            announce p session_id repair_device_associated (associated context) source none
              (set_session session_id s' m1)),
      )

  abbrev pub associate_found :
      String
      → String
      → Option String
      → Option SessionData
      → Manager
      → Result Error (Unit {0}) × Manager
  associate_found session_id device_id source none m = (err not_found, m)
  associate_found session_id device_id source (some s) m =
      associate_detected session_id device_id source
        (find (λ d. d.id == device_id) s.detected_devices) s m

  unfoldable pub associate_repair_device :
      String → String → Option String → Manager → Result Error (Unit {0}) × Manager
  associate_repair_device session_id device_id source m =
      associate_found session_id device_id source (get_session session_id m) m

  abbrev pub context_id : Option DeviceContext → Option String
  context_id none = none
  context_id (some c) = some c.id

  abbrev pub unassociate_found :
      String → Option String → Option SessionData → Manager → Result Error (Unit {0}) × Manager
  unassociate_found session_id source none m = (err not_found, m)
  unassociate_found session_id source (some s) m =
      let s' : SessionData = record s {
        device = none;
        device_context = none;
        state_version = s.state_version + 1;
      } in
      (
        ok tt,
        persist_session session_id (
            announce p session_id repair_device_unassociated
              (unassociated (context_id s.device_context)) source none
              (set_session session_id s' m)),
      )

  unfoldable pub unassociate_repair_device :
      String → Option String → Manager → Result Error (Unit {0}) × Manager
  unassociate_repair_device session_id source m =
      unassociate_found session_id source (get_session session_id m) m
