-- ===== src/Repair/Store.antt =====
-- app/session/store.py: the store in memory. Of the objects of app/schemas/session.py it has the fields
-- that the store or the resume reads or writes. `arrange` is the order in which Python iterates over a
-- set of texts, and `clock` is `datetime.now`.
use alpilab_ai.Base.{
  ℕ, suc, String, Bool, true, false, Option, none, some, List, [], ◌∷◌, ◌++◌, map, ◌&&◌, ◌==◌, ltb,
  if◌then◌else◌,
}
use alpilab_ai.Base.Dict.{Dict, get, put, values}
use alpilab_ai.Base.Lists.{keep, take}

pub record User : Type 0 where
  pub id : String
  pub display_name : String

pub record ClientDevice : Type 0 where
  pub id : String
  pub user_id : String

pub record SessionParticipant : Type 0 where
  pub id : String
  pub repair_session_id : String
  pub client_device_id : String
  pub user_id : String
  pub is_active : Bool

pub data SessionFlowState : Type 0 where
  active paused stopped resumed : SessionFlowState

pub record RepairSessionContext : Type 0 where
  pub repair_session_id : String
  pub flow_state : SessionFlowState
  pub active_participant_ids : List String
  pub last_active_client_device_id : Option String
  pub last_activity_at : Option ℕ

pub record Event : Type 0 where
  pub id : String
  pub repair_session_id : String

-- The store, and how often the clock was read.
pub record Store : Type 0 where
  pub users : Dict User
  pub client_devices : Dict ClientDevice
  pub contexts : Dict RepairSessionContext
  pub participants : Dict SessionParticipant
  pub event_log : List Event
  pub reads : ℕ

abbrev pub is_in : String → List String → Bool
is_in x [] = false
is_in x (y ∷ ys) = if x == y then true else is_in x ys

-- The members of a set that is built from a list.
unfoldable pub unique : List String → List String
unique [] = []
unique (x ∷ xs) = let rest = unique xs in if is_in x rest then rest else x ∷ rest

abbrev pub save_user : User → Store → Store
save_user user st = record st { users = put st.users user.id user }

abbrev pub save_client_device : ClientDevice → Store → Store
save_client_device device st = record st { client_devices = put st.client_devices device.id device }

unfoldable pub save_context : (ℕ → ℕ) → RepairSessionContext → Store → RepairSessionContext × Store
save_context clock context st =
    let saved : RepairSessionContext = record context {
      last_activity_at = some (clock st.reads);
    } in
    (
      saved,
      record st {
        contexts = put st.contexts context.repair_session_id saved;
        reads = suc st.reads;
      },
    )

unfoldable pub get_context : String → Store → Option RepairSessionContext
get_context repair_session_id st = get st.contexts repair_session_id

-- The participant is in the context, and its device is the last one.
abbrev pub entered : SessionParticipant → RepairSessionContext → RepairSessionContext
entered participant context = record context {
  active_participant_ids =
      if is_in participant.id context.active_participant_ids
      then context.active_participant_ids
      else context.active_participant_ids ++ participant.id ∷ [];
  last_active_client_device_id = some participant.client_device_id;
}

abbrev pub entered_found :
    (ℕ → ℕ) → SessionParticipant → Option RepairSessionContext → Store → Store
entered_found clock participant none st = st
entered_found clock participant (some context) st =
    (save_context clock (entered participant context) st).1

unfoldable pub add_participant : (ℕ → ℕ) → SessionParticipant → Store → Store
add_participant clock participant st =
    entered_found clock participant (get st.contexts participant.repair_session_id)
      (record st { participants = put st.participants participant.id participant })

unfoldable pub participants_for_session : String → Store → List SessionParticipant
participants_for_session repair_session_id st =
    keep (λ p. p.repair_session_id == repair_session_id && p.is_active) (values st.participants)

unfoldable pub client_devices_for_user : String → Store → List ClientDevice
client_devices_for_user user_id st = keep (λ d. d.user_id == user_id) (values st.client_devices)

abbrev pub with_found :
    Option RepairSessionContext → List RepairSessionContext → List RepairSessionContext
with_found none contexts = contexts
with_found (some context) contexts = context ∷ contexts

-- the contexts of the sessions that have one
unfoldable pub contexts_of : List String → Dict RepairSessionContext → List RepairSessionContext
contexts_of [] contexts = []
contexts_of (sid ∷ sids) contexts =
    let rest = contexts_of sids contexts in with_found (get contexts sid) rest

unfoldable pub session_ids_for_user : String → Store → List String
session_ids_for_user user_id st =
    let user_device_ids = map (λ d. d.id) (client_devices_for_user user_id st) in
    unique (
      map (λ p. p.repair_session_id)
        (keep (λ p. is_in p.client_device_id user_device_ids && p.is_active)
          (values st.participants)))

unfoldable pub active_contexts_for_user :
    (List String → List String) → String → Store → List RepairSessionContext
active_contexts_for_user arrange user_id st =
    contexts_of (arrange (session_ids_for_user user_id st)) st.contexts

abbrev pub append_event : Event → Store → Store
append_event event st = record st { event_log = st.event_log ++ event ∷ [] }

-- A context without activity counts as older than any other.
abbrev pub is_before : Option ℕ → Option ℕ → Bool
is_before o none = false
is_before none (some t) = true
is_before (some s) (some t) = ltb s t

abbrev pub insert : RepairSessionContext → List RepairSessionContext → List RepairSessionContext
insert c [] = c ∷ []
insert c (d ∷ ds) =
    let rest = insert c ds in
    if is_before c.last_activity_at d.last_activity_at then d ∷ rest else c ∷ d ∷ ds

-- the latest first; equal ones keep their order
unfoldable pub sorted : List RepairSessionContext → List RepairSessionContext
sorted [] = []
sorted (c ∷ cs) = insert c (sorted cs)

unfoldable pub recent_contexts : ℕ → Store → List RepairSessionContext
recent_contexts limit st = take limit (sorted (values st.contexts))
