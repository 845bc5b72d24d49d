-- ===== src/Repair/Resume.antt =====
-- app/session/resume.py: a technician goes on with a repair session on another device.
pub mod Offers
pub mod Joining
use alpilab_ai.Base.{ℕ, String, Option, none, some, List, [], ◌∷◌}
use alpilab_ai.Base.Lists.{take}
use alpilab_ai.Repair.Store.{
  Store, SessionParticipant, RepairSessionContext, active, add_participant, get_context,
  save_context, active_contexts_for_user, recent_contexts,
}

-- `RepairSessionContext(repair_session_id=...)`
abbrev pub new_context : String → RepairSessionContext
new_context repair_session_id = record {
  repair_session_id = repair_session_id;
  flow_state = active;
  active_participant_ids = [];
  last_active_client_device_id = none;
  last_activity_at = none;
}

module _ (clock : ℕ → ℕ) where
  abbrev pub joined :
      SessionParticipant → RepairSessionContext × Store → RepairSessionContext × Store
  joined participant (context, st) =
      save_context clock
        (record context { last_active_client_device_id = some participant.client_device_id }) st

  abbrev pub context_or_new :
      String → Option RepairSessionContext → Store → RepairSessionContext × Store
  context_or_new repair_session_id none st = save_context clock (new_context repair_session_id) st
  context_or_new repair_session_id (some context) st = (context, st)

  unfoldable pub join_session : String → SessionParticipant → Store → RepairSessionContext × Store
  join_session repair_session_id participant st =
      let st1 = add_participant clock participant st in
      joined participant (context_or_new repair_session_id (get_context repair_session_id st1) st1)

-- the only one of a list
abbrev pub only : List RepairSessionContext → Option RepairSessionContext
only (context ∷ []) = some context
only _ = none

module _ (arrange : List String → List String) where
  -- Of the recent contexts only five are asked for.
  abbrev pub resume_active : List RepairSessionContext → Store → Option RepairSessionContext
  resume_active [] st = only (recent_contexts 5 st)
  resume_active (context ∷ []) st = some context
  resume_active _ st = none

  unfoldable pub resume_for_user : String → Store → Option RepairSessionContext
  resume_for_user user_id st = resume_active (active_contexts_for_user arrange user_id st) st

  abbrev pub offered : ℕ → List RepairSessionContext → Store → List RepairSessionContext
  offered limit [] st = recent_contexts limit st
  offered limit (context ∷ contexts) st = take limit (context ∷ contexts)

  unfoldable pub recent_sessions_for_user : String → ℕ → Store → List RepairSessionContext
  recent_sessions_for_user user_id limit st =
      offered limit (active_contexts_for_user arrange user_id st) st
