-- ===== src/Realtime/Manager/Delivery.antt =====
-- Who gets an event: every socket of the session but the excluded one, once, in order.
use mathlib.Core.List.{append-nil, append_assoc}
use alpilab_ai.Base.{
  String, true, Option, none, some, some_injective, Bool-cases, inl, inr, ◌≢◌, List, [], ◌∷◌, ◌++◌,
  map, not, ◌&&◌, ◌==◌, ◌≡◌, refl, sym, ◌∙◌, ap, arith, eq_iff, is_some,
}
use alpilab_ai.Base.Lists.{All, keep, All-keep, All-map}
use alpilab_ai.Base.Platform.{Platform}
use alpilab_ai.Base.Text.{join_colon}
use alpilab_ai.Base.Dict.{Dict, get, put, remove, values}
use alpilab_ai.Realtime.Events.{Event, EventType, Payload}
use alpilab_ai.Realtime.Manager.{
  Manager, Connection, Envelope, Sent, send_ws, send_all, recipients, broadcast_ws, send_event_ws,
  announce, emit, uuid4, utc_now, register_ws, unregister_ws, is_excluded,
}
use alpilab_ai.Realtime.Manager.Frame.{send_ws-SameCore}

abbrev key : Connection → String
key c = join_colon c.session_id c.device_id

-- Each socket is kept under the key of its session and device.
abbrev pub KeysMatch : Dict Connection → Type 0
KeysMatch d = All (λ e. e.0 ≡ key e.1) d

put-KeysMatch : (d : Dict Connection) (c : Connection) → KeysMatch d → KeysMatch (put d (key c) c)
unfolding put
put-KeysMatch [] c h = (refl, tt)
put-KeysMatch ((k, v) ∷ d) c h = ground (arith, eq_iff k (key c), put-KeysMatch d c h.1)

remove-KeysMatch : (d : Dict Connection) (k : String) → KeysMatch d → KeysMatch (remove d k)
unfolding remove
remove-KeysMatch [] k h = tt
remove-KeysMatch ((j, v) ∷ d) k h = ground (arith, remove-KeysMatch d k h.1)

-- Registering and unregistering a socket keep every socket under its own key.
pub register-KeysMatch :
    (sid device_id : String) (m : Manager)
    → KeysMatch m.ws_connections
    → KeysMatch (register_ws sid device_id m).ws_connections
      × KeysMatch (unregister_ws sid device_id m).ws_connections
unfolding register_ws unregister_ws
register-KeysMatch sid device_id m h = (
  put-KeysMatch m.ws_connections (record { session_id = sid; device_id = device_id }) h,
  remove-KeysMatch m.ws_connections _ h,
)

abbrev IsOpen : Dict Connection → String → Type 0
IsOpen d k = is_some (get d k) ≡ true

IsOpen-cons :
    (k j : String) (v : Connection) (d : Dict Connection) → IsOpen d k → IsOpen ((j, v) ∷ d) k
unfolding get
IsOpen-cons k j v d h = ground arith

values-IsOpen : (d : Dict Connection) → KeysMatch d → All (λ c. IsOpen d (key c)) (values d)
unfolding values
values-IsOpen [] h = tt
values-IsOpen ((j, v) ∷ d) h = (
  unfold get in ground (arith, eq_iff j (key v)),
  All-map (λ c. IsOpen d (key c)) (λ c. IsOpen ((j, v) ∷ d) (key c)) (values d)
      (λ c open_. IsOpen-cons (key c) j v d open_) (values-IsOpen d h.1),
)

same_session :
    (sid : String) (exclude : Option String) (d : Dict Connection) (c : Connection)
    → (c.session_id == sid && not (is_excluded exclude c.device_id)) ≡ true
    → IsOpen d (key c)
    → IsOpen d (join_colon sid c.device_id)
same_session sid exclude d c t h =
    let e : c.session_id ≡ sid = ground (arith, eq_iff c.session_id sid) in rw e at h

abbrev sent : String → Envelope → Connection → Sent
sent sid envelope c = record { session_id = sid; device_id = c.device_id; envelope = envelope }

outbox-send_ws :
    (sid device_id : String) (envelope : Envelope) (m : Manager)
    → IsOpen m.ws_connections (join_colon sid device_id)
    → (send_ws sid device_id envelope m).outbox
      ≡ m.outbox ++ record { session_id = sid; device_id = device_id; envelope = envelope } ∷ []
unfolding send_ws
outbox-send_ws sid device_id envelope m h = ground arith

outbox-send_all :
    (sid : String) (envelope : Envelope) (cs : List Connection) (m : Manager)
    → All (λ c. IsOpen m.ws_connections (join_colon sid c.device_id)) cs
    → (send_all sid envelope cs m).outbox ≡ m.outbox ++ map (sent sid envelope) cs
unfolding send_all
outbox-send_all sid envelope [] m h = sym (append-nil m.outbox)
outbox-send_all sid envelope (c ∷ cs) m h =
    let m' = send_ws sid c.device_id envelope m in
    let sockets = (send_ws-SameCore sid c.device_id envelope m).sockets in
    outbox-send_all sid envelope cs m' (rw sockets h.1)
    ∙ ap (λ o. o ++ map (sent sid envelope) cs) (outbox-send_ws sid c.device_id envelope m h.0)
    ∙ append_assoc m.outbox (sent sid envelope c ∷ []) (map (sent sid envelope) cs)

-- The device is the excluded one; an empty id excludes none.
abbrev pub Excludes : Option String → String → Type 0
Excludes exclude device_id = (exclude ≡ some device_id) × (device_id ≢ "")

-- Of some sockets, in order: just those of the session whose device is not the excluded one.
pub data Chosen (sid : String) (exclude : Option String)
    : List Connection → List Connection → Type 0 where
  nothing : Chosen sid exclude [] []
  reached :
      (c : Connection) {cs chosen : List Connection}
      → c.session_id ≡ sid
      → ¬ Excludes exclude c.device_id
      → Chosen sid exclude cs chosen
      → Chosen sid exclude (c ∷ cs) (c ∷ chosen)
  elsewhere :
      (c : Connection) {cs chosen : List Connection}
      → c.session_id ≢ sid
      → Chosen sid exclude cs chosen
      → Chosen sid exclude (c ∷ cs) chosen
  excluded :
      (c : Connection) {cs chosen : List Connection}
      → Excludes exclude c.device_id
      → Chosen sid exclude cs chosen
      → Chosen sid exclude (c ∷ cs) chosen

is_excluded-Excludes :
    (exclude : Option String) (device_id : String)
    → is_excluded exclude device_id ≡ true
    → Excludes exclude device_id
is_excluded-Excludes none id h = cc
is_excluded-Excludes (some x) id h =
    (ground (arith, eq_iff id x), λ blank. ground (arith, eq_iff id x, eq_iff x ""))

Excludes-is_excluded :
    (exclude : Option String) (device_id : String)
    → Excludes exclude device_id
    → is_excluded exclude device_id ≡ true
Excludes-is_excluded none id h = cc
Excludes-is_excluded (some x) id h =
    let same : x ≡ id = some_injective h.0 in ground (arith, eq_iff id x, eq_iff x "")

Chosen-keep :
    (sid : String) (exclude : Option String) (cs : List Connection)
    → Chosen sid exclude cs
        (keep (λ c. c.session_id == sid && not (is_excluded exclude c.device_id)) cs)
unfolding keep
Chosen-keep sid exclude [] = nothing
Chosen-keep sid exclude (c ∷ cs) =
    let rest = Chosen-keep sid exclude cs in
    elim (Bool-cases (c.session_id == sid)) [
      | inr other ↦ rw other (elsewhere c (λ same. ground (arith, eq_iff c.session_id sid)) rest)
      | inl here ↦ elim (Bool-cases (is_excluded exclude c.device_id)) [
        | inl out ↦ rw (here, out) (excluded c (is_excluded-Excludes exclude c.device_id out) rest)
        | inr kept ↦
            rw (here, kept)
              (reached c (ground (arith, eq_iff c.session_id sid))
                (λ out. let clash = Excludes-is_excluded exclude c.device_id out in cc) rest)
      ]
    ]

-- A broadcast sends the envelope once to each recipient, in the order of the connections.
outbox-broadcast_ws :
    (sid : String) (envelope : Envelope) (exclude : Option String) (m : Manager)
    → KeysMatch m.ws_connections
    → (broadcast_ws sid envelope exclude m).outbox
      ≡ m.outbox ++ map (sent sid envelope) (recipients sid exclude m)
unfolding broadcast_ws recipients
outbox-broadcast_ws sid envelope exclude m h = outbox-send_all sid envelope _ m (
    All-keep (λ c. IsOpen m.ws_connections (key c))
      (λ c. IsOpen m.ws_connections (join_colon sid c.device_id)) _ (values m.ws_connections)
      (same_session sid exclude m.ws_connections) (values-IsOpen m.ws_connections h))

pub event_log-send_all :
    (sid : String) (envelope : Envelope) (cs : List Connection) (m : Manager)
    → (send_all sid envelope cs m).event_log ≡ m.event_log
unfolding send_all
event_log-send_all sid envelope [] m = refl
event_log-send_all sid envelope (c ∷ cs) m =
    event_log-send_all sid envelope cs (send_ws sid c.device_id envelope m)
    ∙ unfold send_ws in ground arith

-- If each socket is kept under its own key, then `announce` (an `emit` and the `send_event_ws` of
-- its event) adds one event to the log, with the given session, type, payload and source, and sends
-- that event once, in the order of the sockets, to each socket of the session whose device is not the
-- excluded one, and to no other.
pub announce_delivers :
    (p : Platform) (sid : String) (ty : EventType) (payload : Payload)
    (source exclude : Option String) (m : Manager)
    → KeysMatch m.ws_connections
    → (e : Event) × (chosen : List Connection) × (e.repair_session_id ≡ sid)
      × (e.event_type ≡ ty)
      × (e.payload ≡ payload)
      × (e.source_client_device_id ≡ source)
      × ((announce p sid ty payload source exclude m).event_log ≡ m.event_log ++ e ∷ [])
      × Chosen sid exclude (values m.ws_connections) chosen
      × ((announce p sid ty payload source exclude m).outbox
          ≡ m.outbox
            ++ map
                (λ c. record {
                  session_id = sid;
                  device_id = c.device_id;
                  envelope = Envelope.event e;
                })
                chosen)
unfolding announce send_event_ws broadcast_ws recipients emit uuid4 utc_now
announce_delivers p sid ty payload source exclude m h =
    let m' = (emit p sid ty payload source m).1 in
    (
      _,
      _,
      refl,
      refl,
      refl,
      refl,
      event_log-send_all sid _ _ m',
      Chosen-keep sid exclude (values m.ws_connections),
      outbox-broadcast_ws sid (Envelope.event (emit p sid ty payload source m).0) exclude m' h,
    )
