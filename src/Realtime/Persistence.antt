-- ===== src/Realtime/Persistence.antt =====
-- app/realtime/persistence.py and the restore of `RealtimeSessionManager`: sessions rebuilt from the
-- snapshots on disk.
use alpilab_ai.Base.{
  ℕ, String, true, false, Option, none, some, [], ◌∷◌, ◌≡◌, refl, ◌∙◌, ap, arith, ◌==◌, eq_iff,
  Bool-cases, inl, inr,
}
use alpilab_ai.Base.Platform.{Platform}
use alpilab_ai.Base.Dict.{Dict, get, put, get-put}
use alpilab_ai.Realtime.Payloads.{Snapshot}
use alpilab_ai.Realtime.State.{SessionData, snapshot}
use alpilab_ai.Realtime.Manager.{Manager, persistable_snapshot, utc_now}
use alpilab_ai.Realtime.Manager.Durability.{IsDurable}

-- `model_validate` of what `model_dump` wrote gives the models back; `now` is the new `created_at`.
unfoldable pub snapshot_to_session : Snapshot → ℕ → SessionData
snapshot_to_session snap now = record {
  session_id = snap.session.id;
  label = snap.session.label;
  device = snap.session.device;
  issue = snap.session.issue;
  status = snap.session.status;
  diagnosis_label = snap.session.diagnosis_label;
  messages = snap.conversation;
  devices = [];
  diagnostics = snap.diagnostic_state;
  assistant_status = snap.assistant_status;
  state_version = snap.state_version;
  pc_agent = none;
  device_context = snap.device_context;
  detected_devices = snap.detected_devices;
  product_search_context = none;
  created_at = now;
}

module _ (p : Platform) where
  abbrev restore_one : String → Snapshot → Option SessionData → Manager → Manager
  restore_one session_id snap (some s) m = m
  restore_one session_id snap none m =
      let (now, m') = utc_now p m in
      record m' { sessions = put m'.sessions session_id (snapshot_to_session snap now) }

  -- the loop over the rows of the table
  unfoldable pub restore_all : Dict Snapshot → Manager → Manager
  restore_all [] m = m
  restore_all ((session_id, snap) ∷ rows) m =
      restore_all rows (restore_one session_id snap (get m.sessions session_id) m)

  abbrev restore_from : Option (Dict Snapshot) → Manager → Manager
  restore_from none m = m
  restore_from (some table) m = restore_all table m

  unfoldable pub restore_persisted_sessions : Manager → Manager
  restore_persisted_sessions m = restore_from m.persistence_store m

  unfoldable pub attach_persistence : Dict Snapshot → Manager → Manager
  attach_persistence table m =
      restore_persisted_sessions (record m { persistence_store = some table })

-- The session that is read back from the snapshot of a session.
snapshot_to_session-persistable_snapshot :
    (s : SessionData) (now : ℕ)
    → snapshot_to_session (persistable_snapshot s) now
      ≡ record s { devices = []; pc_agent = none; product_search_context = none; created_at = now }
unfolding snapshot_to_session persistable_snapshot snapshot
snapshot_to_session-persistable_snapshot s now = refl

module _ (p : Platform) (sid : String) where
  restore_one_kept :
      (k : String) (snap : Snapshot) (o : Option SessionData) (m : Manager) (s : SessionData)
      → get m.sessions k ≡ o
      → get m.sessions sid ≡ some s
      → get (restore_one p k snap o m).sessions sid ≡ some s
  unfolding utc_now
  restore_one_kept k snap (some t) m s e h = h
  restore_one_kept k snap none m s e h =
      ground
        (arith, get-put m.sessions k sid (snapshot_to_session snap (p.clock m.reads)), eq_iff k sid)

  -- A session that is there is not replaced.
  restore_all_kept :
      (rows : Dict Snapshot) (m : Manager) (s : SessionData)
      → get m.sessions sid ≡ some s
      → get (restore_all p rows m).sessions sid ≡ some s
  unfolding restore_all
  restore_all_kept [] m s h = h
  restore_all_kept ((k, snap) ∷ rows) m s h =
      restore_all_kept rows (restore_one p k snap (get m.sessions k) m) s
        (restore_one_kept k snap (get m.sessions k) m s refl h)

  restore_one_other :
      (k : String) (snap : Snapshot) (o : Option SessionData) (m : Manager)
      → get m.sessions k ≡ o
      → (k == sid) ≡ false
      → get m.sessions sid ≡ none
      → get (restore_one p k snap o m).sessions sid ≡ none
  unfolding utc_now
  restore_one_other k snap (some t) m e other h = h
  restore_one_other k snap none m e other h =
      ground (arith, get-put m.sessions k sid (snapshot_to_session snap (p.clock m.reads)))

  restore_one_same :
      (k : String) (snap : Snapshot) (m : Manager)
      → (k == sid) ≡ true
      → get m.sessions sid ≡ none
      → get (restore_one p k snap (get m.sessions k) m).sessions sid
        ≡ some (snapshot_to_session snap (p.clock m.reads))
  unfolding utc_now
  restore_one_same k snap m same h =
      ground
        (arith, get-put m.sessions k sid (snapshot_to_session snap (p.clock m.reads)), eq_iff k sid)

  restore_all_found :
      (rows : Dict Snapshot) (snap : Snapshot) (m : Manager)
      → get m.sessions sid ≡ none
      → get rows sid ≡ some snap
      → (now : ℕ) × (get (restore_all p rows m).sessions sid ≡ some (snapshot_to_session snap now))
  unfolding restore_all
  restore_all_found [] snap m h e = let missing : none ≡ some snap = unfold get in e in cc
  restore_all_found ((k, row) ∷ rows) snap m h e = elim (Bool-cases (k == sid)) [
    | inl same ↦
        let here : row ≡ snap = unfold get in ground arith in
        (p.clock m.reads, restore_all_kept rows _ _ (rw (← here) (restore_one_same k row m same h)))
    | inr other ↦
        restore_all_found rows snap (restore_one p k row (get m.sessions k) m)
          (restore_one_other k row (get m.sessions k) m refl other h) (unfold get in ground arith)
  ]

-- If every session of a manager is on disk, then a manager with no sessions that is given the table
-- has the same sessions: each one as it was, without its connected devices, its PC agent and its
-- product search, and made at the time of the restore.
pub restart_recovers :
    (p : Platform) (m fresh : Manager) (table : Dict Snapshot) (sid : String) (s : SessionData)
    → IsDurable m
    → m.persistence_store ≡ some table
    → get m.sessions sid ≡ some s
    → fresh.sessions ≡ []
    → (now : ℕ) × (get (attach_persistence p table fresh).sessions sid
        ≡ some (record s {
          devices = [];
          pc_agent = none;
          product_search_context = none;
          created_at = now;
        }))
unfolding attach_persistence restore_persisted_sessions
restart_recovers p m fresh table sid s h kept found empty =
    let (now, e) =
      restore_all_found p sid table (persistable_snapshot s)
        (record fresh { persistence_store = some table }) (rw empty (unfold get in refl))
        (h.at sid s table found kept) in
    (now, e ∙ ap some (snapshot_to_session-persistable_snapshot s now))
