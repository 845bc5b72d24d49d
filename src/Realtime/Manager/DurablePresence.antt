-- ===== src/Realtime/Manager/DurablePresence.antt =====
-- Devices come and go, and sessions are made, with every session on disk.
use alpilab_ai.Base.{
  String, Bool, false, Option, none, some, ◌≡◌, refl, arith, eq_iff, ◌&&◌, if_rule,
}
use alpilab_ai.Base.Exec.{Result, ok, err}
use alpilab_ai.Base.Platform.{Platform}
use alpilab_ai.Base.Dict.{get, get-put}
use alpilab_ai.Realtime.Payloads.{Error, DeviceType, DevicePresence}
use alpilab_ai.Realtime.DeviceContext.{truthy}
use alpilab_ai.Realtime.State.{SessionData, snapshot, session_is_unseeded}
use alpilab_ai.Realtime.Manager.{
  Manager, get_session, set_session, persistable_snapshot, uuid4, utc_now, add_session,
  create_session, create_truthy, create_validated, create_named, get_or_create_session,
  reuse_or_create, validate_session_id, validate_device_id, validate_device_type, unregister_ws,
}
use alpilab_ai.Realtime.Manager.Frame.{emit-SameCore}
use alpilab_ai.Realtime.Manager.Durability.{
  IsDurable, IsDurableBut, IsDurable-IsDurableBut, SameCore-IsDurable, set_session-IsDurableBut,
  persist_session-IsDurable,
}
use alpilab_ai.Realtime.Manager.DurableUpdates.{committed, announced}
use alpilab_ai.Realtime.Manager.Presence.{
  attach, attach_found, connect_valid, connect_device, set_device, mark_offline, disconnect_found,
  disconnect_device, mark_seen, heartbeat_found, heartbeat,
}

-- No snapshot on disk shows the devices, so to write one keeps the property.
set_device-IsDurable :
    (sid device_id : String) (d : DevicePresence) (s : SessionData) (m : Manager)
    → get m.sessions sid ≡ some s
    → IsDurable m
    → IsDurable (set_session sid (set_device device_id d s) m)
unfolding set_session persistable_snapshot snapshot
set_device-IsDurable sid device_id d s m found h = record {
  at = λ j t table e k. ground (
    arith,
    get-put m.sessions sid j (set_device device_id d s),
    eq_iff sid j,
    h.at sid s table found k,
    h.at j t table,
  );
}

module _ (p : Platform) where
  add_session-IsDurable :
      (s : SessionData) (m : Manager) → IsDurable m → IsDurable (add_session p s m).1
  unfolding add_session
  add_session-IsDurable s m h = SameCore-IsDurable (emit-SameCore p s.session_id _ _ _ _) (
      persist_session-IsDurable s.session_id _
        (set_session-IsDurableBut s.session_id s m (IsDurable-IsDurableBut s.session_id h)))

  create_named-IsDurable :
      (sid : String) (seed : Bool) (o : Option SessionData) (m : Manager)
      → IsDurable m
      → IsDurable (create_named p sid seed o m).1
  create_named-IsDurable sid seed (some s) m h = h
  create_named-IsDurable sid seed none m h =
      unfold utc_now in add_session-IsDurable _ _ (record { at = h.at })

  create_validated-IsDurable :
      (sid : String) (seed : Bool) (r : Result Error (Unit {0})) (m : Manager)
      → IsDurable m
      → IsDurable (create_validated p sid seed r m).1
  create_validated-IsDurable sid seed (err e) m h = h
  create_validated-IsDurable sid seed (ok u) m h =
      create_named-IsDurable sid seed (get_session sid m) m h

  create_truthy-IsDurable :
      (sid : Option String) (seed : Bool) (m : Manager)
      → IsDurable m
      → IsDurable (create_truthy p sid seed m).1
  create_truthy-IsDurable none seed m h =
      unfold utc_now uuid4 in add_session-IsDurable _ _ (record { at = h.at })
  create_truthy-IsDurable (some sid) seed m h =
      create_validated-IsDurable sid seed (validate_session_id p sid) m h

  pub create_session-IsDurable :
      (sid : Option String) (seed : Bool) (m : Manager)
      → IsDurable m
      → IsDurable (create_session p sid seed m).1
  unfolding create_session
  create_session-IsDurable sid seed m h = create_truthy-IsDurable (truthy sid) seed m h

  -- The demo seed of an empty session is not saved at once; where there is an error, nothing is owed.
  abbrev Owes : String → Result Error SessionData × Manager → Type 0
  Owes sid (err e, m) = IsDurable m
  Owes sid (ok s, m) = IsDurableBut sid m

  IsDurable-Owes :
      (sid : String) (r : Result Error SessionData × Manager) → IsDurable r.1 → Owes sid r
  IsDurable-Owes sid (err e, m) h = h
  IsDurable-Owes sid (ok s, m) h = IsDurable-IsDurableBut sid h

  reuse_or_create-Owes :
      (sid : String) (seed : Bool) (o : Option SessionData) (m : Manager)
      → IsDurable m
      → Owes sid (reuse_or_create p sid seed o m)
  reuse_or_create-Owes sid seed none m h =
      IsDurable-Owes sid (create_session p (some sid) seed m)
        (create_session-IsDurable (some sid) seed m h)
  reuse_or_create-Owes sid seed (some s) m h =
      if_rule {A = Result Error SessionData × Manager} (λ r. Owes sid r)
        (seed && session_is_unseeded s)
        (unfold utc_now in
          set_session-IsDurableBut sid _ _ (IsDurable-IsDurableBut sid (record { at = h.at })))
        (IsDurable-IsDurableBut sid h)

  get_or_create_session-Owes :
      (sid : String) (seed : Bool) (m : Manager)
      → IsDurable m
      → Owes sid (get_or_create_session p sid seed m)
  unfolding get_or_create_session
  get_or_create_session-Owes sid seed m h = reuse_or_create-Owes sid seed (get_session sid m) m h

  unseeded-IsDurable :
      (sid : String) (o : Option SessionData) (m : Manager)
      → IsDurable m
      → IsDurable (reuse_or_create p sid false o m).1
  unseeded-IsDurable sid none m h = create_session-IsDurable (some sid) false m h
  unseeded-IsDurable sid (some s) m h = h

  -- A session that is made or found without the demo data is saved.
  pub get_or_create_unseeded-IsDurable :
      (sid : String) (m : Manager) → IsDurable m → IsDurable (get_or_create_session p sid false m).1
  unfolding get_or_create_session
  get_or_create_unseeded-IsDurable sid m h = unseeded-IsDurable sid (get_session sid m) m h

  attach-IsDurable :
      (sid device_id : String) (dtype : DeviceType) (name : String) (s : SessionData) (m : Manager)
      → IsDurableBut sid m
      → IsDurable (attach p sid device_id dtype name s m).1
  unfolding attach utc_now
  attach-IsDurable sid device_id dtype name s m h =
      committed p sid _ _ _ _ _ (set_session-IsDurableBut sid _ _ (record { at = h.at }))

  attach_found-IsDurable :
      (sid device_id : String) (dtype : DeviceType) (name : String)
      (r : Result Error SessionData × Manager)
      → Owes sid r
      → IsDurable (attach_found p sid device_id dtype name r).1
  attach_found-IsDurable sid device_id dtype name (err e, m) h = h
  attach_found-IsDurable sid device_id dtype name (ok s, m) h =
      attach-IsDurable sid device_id dtype name s m h

  connect_valid-IsDurable :
      (sid device_id name : String) (seed : Bool) (r r' : Result Error (Unit {0}))
      (dtype : Result Error DeviceType) (m : Manager)
      → IsDurable m
      → IsDurable (connect_valid p sid device_id name seed r r' dtype m).1
  connect_valid-IsDurable sid device_id name seed (err e) r' dtype m h = h
  connect_valid-IsDurable sid device_id name seed (ok u) (err e) dtype m h = h
  connect_valid-IsDurable sid device_id name seed (ok u) (ok v) (err e) m h = h
  connect_valid-IsDurable sid device_id name seed (ok u) (ok v) (ok dtype) m h =
      attach_found-IsDurable sid device_id dtype _ (get_or_create_session p sid seed m)
        (get_or_create_session-Owes sid seed m h)

  -- If every session is saved, then after a device connects, or its connection is refused, every
  -- session is saved, the one that is made or seeded for it too.
  pub connect_device-IsDurable :
      (sid device_id dtype name : String) (seed : Bool) (m : Manager)
      → IsDurable m
      → IsDurable (connect_device p sid device_id dtype name seed m).1
  unfolding connect_device
  connect_device-IsDurable sid device_id dtype name seed m h =
      connect_valid-IsDurable sid device_id name seed (validate_session_id p sid)
        (validate_device_id p device_id) (validate_device_type p dtype) m h

  mark_offline-IsDurable :
      (sid device_id : String) (s : SessionData) (o : Option DevicePresence) (m : Manager)
      → get m.sessions sid ≡ some s
      → IsDurable m
      → IsDurable (mark_offline p sid device_id s o m)
  unfolding utc_now
  mark_offline-IsDurable sid device_id s none m found h = h
  mark_offline-IsDurable sid device_id s (some d) m found h =
      announced p sid _ _ _ _ _
        (set_device-IsDurable sid device_id _ s _ found (record { at = h.at }))

  disconnect_found-IsDurable :
      (sid device_id : String) (o : Option SessionData) (m : Manager)
      → get m.sessions sid ≡ o
      → IsDurable m
      → IsDurable (disconnect_found p sid device_id o m)
  unfolding unregister_ws
  disconnect_found-IsDurable sid device_id none m found h = h
  disconnect_found-IsDurable sid device_id (some s) m found h =
      let h' = mark_offline-IsDurable sid device_id s (get s.devices device_id) m found h in
      record { at = h'.at }

  -- If every session is saved, then every session is saved after a device disconnects.
  pub disconnect_device-IsDurable :
      (sid device_id : String) (m : Manager)
      → IsDurable m
      → IsDurable (disconnect_device p sid device_id m)
  unfolding disconnect_device get_session
  disconnect_device-IsDurable sid device_id m h =
      disconnect_found-IsDurable sid device_id (get m.sessions sid) m refl h

  mark_seen-IsDurable :
      (sid device_id : String) (s : SessionData) (o : Option DevicePresence) (m : Manager)
      → get m.sessions sid ≡ some s
      → IsDurable m
      → IsDurable (mark_seen p sid device_id s o m)
  unfolding utc_now
  mark_seen-IsDurable sid device_id s none m found h = h
  mark_seen-IsDurable sid device_id s (some d) m found h =
      announced p sid _ _ _ _ _
        (set_device-IsDurable sid device_id _ s _ found (record { at = h.at }))

  heartbeat_found-IsDurable :
      (sid device_id : String) (o : Option SessionData) (m : Manager)
      → get m.sessions sid ≡ o
      → IsDurable m
      → IsDurable (heartbeat_found p sid device_id o m)
  heartbeat_found-IsDurable sid device_id none m found h = h
  heartbeat_found-IsDurable sid device_id (some s) m found h =
      mark_seen-IsDurable sid device_id s (get s.devices device_id) m found h

  pub heartbeat-IsDurable :
      (sid device_id : String) (m : Manager) → IsDurable m → IsDurable (heartbeat p sid device_id m)
  unfolding heartbeat get_session
  heartbeat-IsDurable sid device_id m h =
      heartbeat_found-IsDurable sid device_id (get m.sessions sid) m refl h
