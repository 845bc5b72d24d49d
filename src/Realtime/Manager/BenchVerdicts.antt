-- ===== src/Realtime/Manager/BenchVerdicts.antt =====
-- What the handlers of the bench and of the devices' presence may do to the sessions.
use mathlib.Core.List.{append-nil}
use alpilab_ai.Base.{String, Option, none, some, [], ◌≡◌, refl, sym, ◌==◌, arith}
use alpilab_ai.Base.Lists.{find}
use alpilab_ai.Base.Platform.{Platform}
use alpilab_ai.Base.Dict.{get}
use alpilab_ai.Realtime.Payloads.{DetectedDevice, DevicePresence}
use alpilab_ai.Realtime.State.{SessionData}
use alpilab_ai.Realtime.Manager.{Manager, get_session, utc_now}
use alpilab_ai.Realtime.Manager.Growth.{
  Grows, sessions-Grows, Grows-trans, set_session-Grows, announce-Grows, written-Grows,
}
use alpilab_ai.Realtime.Manager.Verdicts.{IsFair, ok-IsFair, unwritten-IsFair}
use alpilab_ai.Realtime.Manager.Presence.{heartbeat, heartbeat_found, mark_seen, set_device}
use alpilab_ai.Realtime.Manager.Bench.{
  associate_repair_device, associate_found, associate_detected, unassociate_repair_device,
  unassociate_found,
}

module _ (p : Platform) (sid : String) where
  associate_detected-IsFair :
      (id : String) (source : Option String) (d : Option DetectedDevice) (s : SessionData)
      (m : Manager)
      → get m.sessions sid ≡ some s
      → IsFair m (associate_detected p sid id source d s m)
  unfolding utc_now
  associate_detected-IsFair id source none s m found = unwritten-IsFair _ m m refl
  associate_detected-IsFair id source (some d) s m found =
      let h =
        written-Grows p sid _ _ _ _ s _ (record m { reads = _ }) found
          (record {
            same_id = refl;
            version = omega arith;
            added = [];
            messages = sym (append-nil s.messages);
          }) in
      ok-IsFair tt m _ (record { at = h.at })

  associate_found-IsFair :
      (id : String) (source : Option String) (o : Option SessionData) (m : Manager)
      → get m.sessions sid ≡ o
      → IsFair m (associate_found p sid id source o m)
  associate_found-IsFair id source none m found = unwritten-IsFair _ m m refl
  associate_found-IsFair id source (some s) m found =
      associate_detected-IsFair id source (find (λ d. d.id == id) s.detected_devices) s m found

  pub associate_repair_device-IsFair :
      (id : String) (source : Option String) (m : Manager)
      → IsFair m (associate_repair_device p sid id source m)
  unfolding associate_repair_device get_session
  associate_repair_device-IsFair id source m =
      associate_found-IsFair id source (get m.sessions sid) m refl

  unassociate_found-IsFair :
      (source : Option String) (o : Option SessionData) (m : Manager)
      → get m.sessions sid ≡ o
      → IsFair m (unassociate_found p sid source o m)
  unassociate_found-IsFair source none m found = unwritten-IsFair _ m m refl
  unassociate_found-IsFair source (some s) m found = ok-IsFair tt m _ (
      written-Grows p sid _ _ _ _ s _ m found (record {
        same_id = refl;
        version = omega arith;
        added = [];
        messages = sym (append-nil s.messages);
      }))

  pub unassociate_repair_device-IsFair :
      (source : Option String) (m : Manager) → IsFair m (unassociate_repair_device p sid source m)
  unfolding unassociate_repair_device get_session
  unassociate_repair_device-IsFair source m =
      unassociate_found-IsFair source (get m.sessions sid) m refl

  mark_seen-Grows :
      (device_id : String) (s : SessionData) (o : Option DevicePresence) (m : Manager)
      → get m.sessions sid ≡ some s
      → Grows m (mark_seen p sid device_id s o m)
  unfolding utc_now
  mark_seen-Grows device_id s none m found = sessions-Grows m m refl
  mark_seen-Grows device_id s (some d) m found =
      let h =
        set_session-Grows sid s (set_device device_id _ s) (record m { reads = _ }) found
          (record {
            same_id = refl;
            version = omega arith;
            added = [];
            messages = sym (append-nil s.messages);
          }) in
      Grows-trans (record { at = h.at }) (announce-Grows p sid _ _ _ _ _)

  heartbeat_found-Grows :
      (device_id : String) (o : Option SessionData) (m : Manager)
      → get m.sessions sid ≡ o
      → Grows m (heartbeat_found p sid device_id o m)
  heartbeat_found-Grows device_id none m found = sessions-Grows m m refl
  heartbeat_found-Grows device_id (some s) m found =
      mark_seen-Grows device_id s (get s.devices device_id) m found

  pub heartbeat-Grows : (device_id : String) (m : Manager) → Grows m (heartbeat p sid device_id m)
  unfolding heartbeat get_session
  heartbeat-Grows device_id m = heartbeat_found-Grows device_id (get m.sessions sid) m refl
