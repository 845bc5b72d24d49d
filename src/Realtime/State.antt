-- ===== src/Realtime/State.antt =====
-- app/realtime/session_state.py: the state of one repair session, in memory.
use Prim.Native.String.{◌++◌ as ◌<>◌}
use alpilab_ai.Base.{
  ℕ, ◌+◌, String, Bool, Option, none, some, List, [], ◌∷◌, true, false, ◌&&◌, not, is_some,
}
use alpilab_ai.Base.Dict.{Dict, values}
use alpilab_ai.Base.Text.{prefix}
use alpilab_ai.Agent.Payloads.{Presence}
use alpilab_ai.Conversation.Products.{ProductSearchContext}
use alpilab_ai.Realtime.Payloads.{
  AssistantStatus, idle, assistant, user, ChatMessage, DevicePresence, RepairContext,
  DiagnosticTest, DetectedDevice, DeviceContext, Snapshot,
}

-- `ConnectedDevice` has the fields of the presence that it is shown as.
abbrev pub ConnectedDevice : Type 0
ConnectedDevice = DevicePresence

pub record SessionData : Type 0 where
  pub session_id : String
  pub label : String
  pub device : Option String
  pub issue : Option String
  pub status : String
  pub diagnosis_label : String
  pub messages : List ChatMessage
  pub devices : Dict ConnectedDevice
  pub diagnostics : List DiagnosticTest
  pub assistant_status : AssistantStatus
  pub state_version : ℕ
  pub pc_agent : Option Presence
  pub device_context : Option DeviceContext
  pub detected_devices : List DetectedDevice
  pub product_search_context : Option ProductSearchContext
  pub created_at : ℕ

-- the defaults of the dataclass
abbrev fresh : String → String → ℕ → SessionData
fresh session_id label created_at = record {
  session_id = session_id;
  label = label;
  device = none;
  issue = none;
  status = "active";
  diagnosis_label = "Diagnosis in progress";
  messages = [];
  devices = [];
  diagnostics = [];
  assistant_status = idle;
  state_version = 0;
  pc_agent = none;
  device_context = none;
  detected_devices = [];
  product_search_context = none;
  created_at = created_at;
}

unfoldable pub repair_context : SessionData → RepairContext
repair_context s = record {
  id = s.session_id;
  label = s.label;
  device = s.device;
  issue = s.issue;
  status = s.status;
  diagnosis_label = s.diagnosis_label;
}

unfoldable pub participants : SessionData → List DevicePresence
participants s = values s.devices

unfoldable pub snapshot : SessionData → Snapshot
unfolding repair_context participants
snapshot s = record {
  session = repair_context s;
  participants = participants s;
  conversation = s.messages;
  repair_context = repair_context s;
  diagnostic_state = s.diagnostics;
  assistant_status = s.assistant_status;
  state_version = s.state_version;
  pc_agent = s.pc_agent;
  device_context = s.device_context;
  detected_devices = s.detected_devices;
}

demo_messages : String → List ChatMessage
demo_messages session_id =
    record {
      message_id = "m1";
      session_id = session_id;
      device_id = none;
      role = assistant;
      content = "Dimmi cosa dobbiamo riparare.";
      timestamp = "09:10";
    }
    ∷ record {
      message_id = "m2";
      session_id = session_id;
      device_id = some "phone-seed";
      role = user;
      content = "iPhone 13 Pro che non si accende.";
      timestamp = "09:11";
    }
    ∷ record {
      message_id = "m3";
      session_id = session_id;
      device_id = none;
      role = assistant;
      content = "Ricevuto. Iniziamo la diagnosi.";
      timestamp = "09:11";
    }
    ∷ []

demo_diagnostics : List DiagnosticTest
demo_diagnostics =
    record { id = "t1"; name = "Battery voltage"; value = some "3.81 V"; status = "PASSED" }
    ∷ record { id = "t2"; name = "USB communication"; value = some "FAILED"; status = "FAILED" }
    ∷ record { id = "t3"; name = "PP_VDD_MAIN"; value = none; status = "PENDING" }
    ∷ []

-- `created_at` is the clock when the dataclass is built.
unfoldable pub default_demo_session : String → ℕ → SessionData
unfolding demo_messages demo_diagnostics
default_demo_session session_id created_at = record (fresh session_id "Repair #001" created_at) {
  device = some "iPhone 13 Pro";
  issue = some "No Power";
  messages = demo_messages session_id;
  diagnostics = demo_diagnostics;
}

-- With no id the manager draws one first.
unfoldable pub new_session : String → ℕ → SessionData
new_session sid created_at = fresh sid ("Repair " <> prefix 8 sid) created_at

abbrev is_nil {ℓ} : {A : Type ℓ} → List A → Bool
is_nil [] = true
is_nil (x ∷ xs) = false

unfoldable pub session_is_unseeded : SessionData → Bool
session_is_unseeded s =
    not (is_some s.device) && not (is_some s.issue) && is_nil s.messages && is_nil s.diagnostics

unfoldable pub apply_demo_seed : ℕ → SessionData → SessionData
unfolding default_demo_session
apply_demo_seed now s =
    let demo = default_demo_session s.session_id now in
    record s {
      label = demo.label;
      device = demo.device;
      issue = demo.issue;
      status = demo.status;
      diagnosis_label = demo.diagnosis_label;
      messages = demo.messages;
      diagnostics = demo.diagnostics;
      state_version = s.state_version + 1;
    }
