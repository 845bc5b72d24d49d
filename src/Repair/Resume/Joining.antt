-- ===== src/Repair/Resume/Joining.antt =====
-- What joining a session does to the contexts, the participants and the sessions of a user.
use alpilab_ai.Base.{
  ℕ, String, true, Option, none, some, List, [], ◌∷◌, ◌≡◌, refl, sym, ap, ◌∙◌, map, ◌==◌, arith,
  eq_iff, eq_refl, inl, inr, Bool-cases,
}
use alpilab_ai.Base.Dict.{Dict, get, put, values, get-put_same, get-put_cases}
use alpilab_ai.Base.Members.{Memᴰ, head, tail, Mem-values, Mem-keep, Mem-map}
use alpilab_ai.Repair.Store.{
  Store, ClientDevice, SessionParticipant, RepairSessionContext, is_in, unique, save_context,
  get_context, add_participant, entered_found, client_devices_for_user, with_found, contexts_of,
  session_ids_for_user, active_contexts_for_user,
}
use alpilab_ai.Repair.Resume.{join_session, joined, context_or_new}

Mem-is_in : (xs : List String) (x : String) → Memᴰ x xs → is_in x xs ≡ true
Mem-is_in [] x m = elim m [ ]
Mem-is_in (y ∷ ys) x (head e) = rw (e, eq_refl y) refl
Mem-is_in (y ∷ ys) x (tail m) = ground (arith, Mem-is_in ys x m)

is_in-Mem : (xs : List String) (x : String) → is_in x xs ≡ true → Memᴰ x xs
is_in-Mem [] x h = cc
is_in-Mem (y ∷ ys) x h = elim (Bool-cases (x == y)) [
  | inl same ↦ head (ground (arith, eq_iff x y))
  | inr other ↦ tail (is_in-Mem ys x (rw other at h))
]

Mem-unique : (xs : List String) (x : String) → Memᴰ x xs → Memᴰ x (unique xs)
unfolding unique
Mem-unique [] x m = elim m [ ]
Mem-unique (y ∷ ys) x m = elim (Bool-cases (is_in y (unique ys))) [
  | inl again ↦ rw again (elim m [
    | head e ↦ is_in-Mem (unique ys) x (rw e again)
    | tail later ↦ Mem-unique ys x later
  ])
  | inr first ↦ rw first (elim m [ head e ↦ head e | tail later ↦ tail (Mem-unique ys x later) ])
]

Mem-with_found :
    (o : Option RepairSessionContext) (cs : List RepairSessionContext) (c : RepairSessionContext)
    → Memᴰ c cs
    → Memᴰ c (with_found o cs)
Mem-with_found none cs c m = m
Mem-with_found (some d) cs c m = tail m

Mem-contexts_of :
    (sids : List String) (contexts : Dict RepairSessionContext) (sid : String)
    (c : RepairSessionContext)
    → Memᴰ sid sids
    → get contexts sid ≡ some c
    → Memᴰ c (contexts_of sids contexts)
unfolding contexts_of
Mem-contexts_of [] contexts sid c m h = elim m [ ]
Mem-contexts_of (t ∷ sids) contexts sid c (head e) h =
    let found : get contexts t ≡ some c = ap (λ k. get contexts k) (sym e) ∙ h in
    rw found (head refl)
Mem-contexts_of (t ∷ sids) contexts sid c (tail m) h =
    Mem-with_found (get contexts t) _ c (Mem-contexts_of sids contexts sid c m h)

-- Every context is stored under the id of its session.
pub record IsKeyed (st : Store) : Type 0 where
  pub at :
      (k : String) (c : RepairSessionContext) → get st.contexts k ≡ some c → c.repair_session_id ≡ k

module _ (clock : ℕ → ℕ) where
  save_context-IsKeyed :
      (c : RepairSessionContext) (st : Store) → IsKeyed st → IsKeyed (save_context clock c st).1
  unfolding save_context
  save_context-IsKeyed c st keyed = record {
    at = λ k d found. elim (get-put_cases st.contexts c.repair_session_id k _ d found) [
      | inl (here, same) ↦ sym (ap (λ x. x.repair_session_id) same) ∙ here
      | inr (_, older) ↦ keyed.at k d older
    ];
  }

  found-IsKeyed :
      (p : SessionParticipant) (o : Option RepairSessionContext) (st : Store)
      → IsKeyed st
      → IsKeyed (entered_found clock p o st)
  found-IsKeyed p none st keyed = keyed
  found-IsKeyed p (some c) st keyed = save_context-IsKeyed _ st keyed

  add_participant-IsKeyed :
      (p : SessionParticipant) (st : Store) → IsKeyed st → IsKeyed (add_participant clock p st)
  unfolding add_participant
  add_participant-IsKeyed p st keyed =
      found-IsKeyed p (get st.contexts p.repair_session_id)
        (record st { participants = put st.participants p.id p }) (record { at = keyed.at })

  found-participants :
      (p : SessionParticipant) (o : Option RepairSessionContext) (st : Store)
      → ((entered_found clock p o st).participants ≡ st.participants)
        × ((entered_found clock p o st).client_devices ≡ st.client_devices)
  unfolding save_context
  found-participants p none st = (refl, refl)
  found-participants p (some c) st = (refl, refl)

  -- What the rest of a join reads and writes.
  rest-participants :
      (sid : String) (p : SessionParticipant) (o : Option RepairSessionContext) (st : Store)
      → ((joined clock p (context_or_new clock sid o st)).1.participants ≡ st.participants)
        × ((joined clock p (context_or_new clock sid o st)).1.client_devices ≡ st.client_devices)
  unfolding save_context
  rest-participants sid p none st = (refl, refl)
  rest-participants sid p (some c) st = (refl, refl)

  join_session-participants :
      (sid : String) (p : SessionParticipant) (st : Store)
      → ((join_session clock sid p st).1.participants ≡ put st.participants p.id p)
        × ((join_session clock sid p st).1.client_devices ≡ st.client_devices)
  unfolding join_session add_participant
  join_session-participants sid p st =
      let entry =
        found-participants p (get st.contexts p.repair_session_id)
          (record st { participants = put st.participants p.id p }) in
      let rest =
        rest-participants sid p (get_context sid (add_participant clock p st))
          (add_participant clock p st) in
      (rest.0 ∙ entry.0, rest.1 ∙ entry.1)

  rest-contexts :
      (sid : String) (p : SessionParticipant) (o : Option RepairSessionContext) (st : Store)
      → ((c : RepairSessionContext) → o ≡ some c → c.repair_session_id ≡ sid)
      → let after = joined clock p (context_or_new clock sid o st) in
        get after.1.contexts sid ≡ some after.0
  unfolding save_context
  rest-contexts sid p none st keyed = get-put_same _ _ _
  rest-contexts sid p (some c) st keyed = rw⁻¹ (keyed c refl) (get-put_same _ _ _)

  -- The context that a join returns is the one that is stored for the session.
  join_session-stored :
      (sid : String) (p : SessionParticipant) (st : Store)
      → IsKeyed st
      → let after = join_session clock sid p st in get after.1.contexts sid ≡ some after.0
  unfolding join_session get_context
  join_session-stored sid p st keyed =
      rest-contexts sid p _ (add_participant clock p st)
        ((add_participant-IsKeyed p st keyed).at sid)

  -- A participant that joins its session, which had no context, is stored, and the context that the
  -- session gets is stored; but its list of active participants is empty.
  pub join_session_unlisted :
      (p : SessionParticipant) (st : Store)
      → get st.contexts p.repair_session_id ≡ none
      → let after = join_session clock p.repair_session_id p st in
        (get after.1.participants p.id ≡ some p)
        × (get after.1.contexts p.repair_session_id ≡ some after.0)
        × (after.0.active_participant_ids ≡ [])
  unfolding join_session add_participant get_context save_context
  join_session_unlisted p st missing =
      rw (missing, missing) (get-put_same _ _ _, get-put_same _ _ _, refl)

module _ (clock : ℕ → ℕ) (arrange : List String → List String) where
  -- When the order of a set loses no member and the contexts are stored under their sessions' ids: an
  -- active participant whose device is one of the user's, and that joins its session, makes the
  -- session's context, as the join returns it, one of the active contexts of the user.
  pub join_session_offered :
      (p : SessionParticipant) (d : ClientDevice) (user_id : String) (st : Store)
      → ((xs : List String) (x : String) → Memᴰ x xs → Memᴰ x (arrange xs))
      → IsKeyed st
      → p.is_active ≡ true
      → get st.client_devices p.client_device_id ≡ some d
      → d.id ≡ p.client_device_id
      → d.user_id ≡ user_id
      → let after = join_session clock p.repair_session_id p st in
        Memᴰ after.0 (active_contexts_for_user arrange user_id after.1)
  unfolding active_contexts_for_user session_ids_for_user client_devices_for_user
  join_session_offered p d user_id st arranged keyed active owned same_id same_user =
      let after : RepairSessionContext × Store = join_session clock p.repair_session_id p st in
      let (participants, devices) = join_session-participants clock p.repair_session_id p st in
      let there : get after.1.participants p.id ≡ some p = rw participants (get-put_same _ _ _) in
      let of_user : Memᴰ d (client_devices_for_user user_id after.1) =
        unfold client_devices_for_user in
        rw devices (
          Mem-keep _ _ d (rw (same_user, eq_refl user_id) refl)
            (Mem-values st.client_devices p.client_device_id d owned)) in
      let ids = map (λ x. x.id) (client_devices_for_user user_id after.1) in
      let known : is_in p.client_device_id ids ≡ true =
        ap (λ x. is_in x ids) (sym same_id)
        ∙ Mem-is_in ids d.id (Mem-map (λ x. x.id) _ d of_user) in
      Mem-contexts_of _ after.1.contexts p.repair_session_id after.0
        (arranged _ p.repair_session_id (
          Mem-unique _ p.repair_session_id (
            Mem-map (λ x. x.repair_session_id) _ p
              (Mem-keep _ (values after.1.participants) p (rw (known, active) refl)
                (Mem-values after.1.participants p.id p there)))))
        (join_session-stored clock p.repair_session_id p st keyed)
