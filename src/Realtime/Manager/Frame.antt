-- ===== src/Realtime/Manager/Frame.antt =====
-- What sending, announcing and reading the clock leave alone.
use alpilab_ai.Base.{String, ◌≡◌, refl, Option, List, [], ◌∷◌, ◌∙◌, arith}
use alpilab_ai.Base.Platform.{Platform}
use alpilab_ai.Realtime.Events.{EventType, Payload}
use alpilab_ai.Realtime.Manager.{
  Manager, Connection, Envelope, send_ws, send_all, send_event_ws, broadcast_ws, emit, announce,
  recipients, uuid4, utc_now,
}

-- The sessions, the table of snapshots and the sockets are those of before.
pub record SameCore (m m' : Manager) : Type 0 where
  pub sessions : m'.sessions ≡ m.sessions
  pub store : m'.persistence_store ≡ m.persistence_store
  pub sockets : m'.ws_connections ≡ m.ws_connections

pub SameCore-trans : {a b c : Manager} → SameCore a b → SameCore b c → SameCore a c
SameCore-trans h k = record {
  sessions = k.sessions ∙ h.sessions;
  store = k.store ∙ h.store;
  sockets = k.sockets ∙ h.sockets;
}

pub send_ws-SameCore :
    (session_id device_id : String) (e : Envelope) (m : Manager)
    → SameCore m (send_ws session_id device_id e m)
unfolding send_ws
send_ws-SameCore session_id device_id e m = ground arith

send_all-SameCore :
    (session_id : String) (e : Envelope) (cs : List Connection) (m : Manager)
    → SameCore m (send_all session_id e cs m)
unfolding send_all
send_all-SameCore session_id e [] m = record { sessions = refl; store = refl; sockets = refl }
send_all-SameCore session_id e (c ∷ cs) m =
    SameCore-trans (send_ws-SameCore session_id c.device_id e m)
      (send_all-SameCore session_id e cs (send_ws session_id c.device_id e m))

module _ (p : Platform) (session_id : String) (ty : EventType) (payload : Payload) where
  pub emit-SameCore :
      (source : Option String) (m : Manager) → SameCore m (emit p session_id ty payload source m).1
  unfolding emit utc_now uuid4
  emit-SameCore source m = record { sessions = refl; store = refl; sockets = refl }

  pub announce-SameCore :
      (source exclude : Option String) (m : Manager)
      → SameCore m (announce p session_id ty payload source exclude m)
  unfolding announce send_event_ws broadcast_ws
  announce-SameCore source exclude m =
      let (e, m') = emit p session_id ty payload source m in
      SameCore-trans (emit-SameCore source m)
        (send_all-SameCore session_id (Envelope.event e) (recipients session_id exclude m') m')
