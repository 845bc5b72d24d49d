-- ===== src/Tests/Repair.antt =====
-- Repair sessions on several devices: the properties at concrete inputs.
use alpilab_ai.Base.{ℕ, String, true, some, List, [], ◌∷◌, ◌≡◌, refl}
use alpilab_ai.Base.Dict.{get}
use alpilab_ai.Base.Members.{Memᴰ}
use alpilab_ai.Repair.Store.{Store, ClientDevice, SessionParticipant, active_contexts_for_user}
use alpilab_ai.Repair.Resume.{only, join_session, resume_for_user, recent_sessions_for_user}
use alpilab_ai.Repair.Resume.Offers.{resume_for_user_offered}
use alpilab_ai.Repair.Resume.Joining.{IsKeyed, join_session_unlisted, join_session_offered}

abbrev clock : ℕ → ℕ
clock n = n

abbrev in_order : List String → List String
in_order xs = xs

abbrev tablet : ClientDevice
tablet = record { id = "tablet"; user_id = "anna" }

abbrev participant : SessionParticipant
participant = record {
  id = "p1";
  repair_session_id = "r1";
  client_device_id = "tablet";
  user_id = "anna";
  is_active = true;
}

abbrev store : Store
store = record {
  users = [];
  client_devices = ("tablet", tablet) ∷ [];
  contexts = [];
  participants = [];
  event_log = [];
  reads = 4;
}

store-IsKeyed : IsKeyed store
unfolding get
store-IsKeyed = record { at = λ k c found. cc }

join_session_unlisted_example :
    let after = join_session clock "r1" participant store in
    (get after.1.participants "p1" ≡ some participant)
    × (get after.1.contexts "r1" ≡ some after.0)
    × (after.0.active_participant_ids ≡ [])
unfolding get
join_session_unlisted_example = join_session_unlisted clock participant store refl

join_session_offered_example :
    let after = join_session clock "r1" participant store in
    Memᴰ after.0 (active_contexts_for_user in_order "anna" after.1)
unfolding get
join_session_offered_example =
    join_session_offered clock in_order participant tablet "anna" store (λ xs x m. m) store-IsKeyed
      refl refl refl refl

resume_for_user_offered_example :
    let after : Store = (join_session clock "r1" participant store).1 in
    resume_for_user in_order "anna" after ≡ only (recent_sessions_for_user in_order "anna" 5 after)
resume_for_user_offered_example =
    resume_for_user_offered in_order "anna" 3 (join_session clock "r1" participant store).1
