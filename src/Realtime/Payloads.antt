-- ===== src/Realtime/Payloads.antt =====
-- app/realtime/payloads.py and app/schemas/device_context.py: the data that sessions hold and
-- clients see. Times are microseconds since the epoch.
use Prim.Native.String.{count}
use alpilab_ai.Base.{ℕ, String, Bool, Option, List, ltb, if◌then◌else◌}
use alpilab_ai.Base.Exec.{Result, ok, err}
use alpilab_ai.Base.Text.{strip, is_empty}
use alpilab_ai.Base.Json.{Fields}
use alpilab_ai.Agent.Payloads.{Presence}

-- `ValueError` (pydantic's `ValidationError` is one), the one that names a device that is not in the
-- detected list, and `StateUpdateRejected`.
pub data Error : Type 0 where
  device_not_detected : String → Error
  value_error : String → Error
  rejected : String → Option String → Error

pub data DeviceType : Type 0 where
  pc phone tablet : DeviceType

pub data AssistantStatus : Type 0 where
  idle listening thinking speaking working warning error : AssistantStatus

pub data MessageRole : Type 0 where
  user assistant system : MessageRole

abbrev pub max_message_length : ℕ
max_message_length = 4000

pub record ChatMessage : Type 0 where
  pub message_id : String
  pub session_id : String
  pub device_id : Option String
  pub role : MessageRole
  pub content : String
  pub timestamp : String

-- the field validator of `ChatMessagePayload.content`
unfoldable pub validate_content : String → Result Error String
validate_content value =
    let trimmed = strip value in
    if is_empty trimmed
    then err (value_error "content must not be empty")
    else if ltb max_message_length (count trimmed)
    then err (value_error "content exceeds 4000 characters")
    else ok trimmed

pub record DevicePresence : Type 0 where
  pub device_id : String
  pub device_type : DeviceType
  pub device_name : String
  pub online : Bool
  pub connected_at : ℕ
  pub last_seen : ℕ

pub record RepairContext : Type 0 where
  pub id : String
  pub label : String
  pub device : Option String
  pub issue : Option String
  pub status : String
  pub diagnosis_label : String

pub record DiagnosticTest : Type 0 where
  pub id : String
  pub name : String
  pub value : Option String
  pub status : String

pub data ConnectionType : Type 0 where
  usb wifi bluetooth manual unknown : ConnectionType

pub data DeviceSource : Type 0 where
  adb alpilab_check tools3u manual unknown : DeviceSource

pub record DetectedDevice : Type 0 where
  pub id : String
  pub brand : Option String
  pub model : Option String
  pub variant : Option String
  pub serial_number : Option String
  pub imei : Option String
  pub connection_type : ConnectionType
  pub source : DeviceSource
  pub detected_at : Option ℕ
  pub metadata : Fields

pub record DeviceContext : Type 0 where
  pub id : String
  pub brand : Option String
  pub model : Option String
  pub variant : Option String
  pub serial_number : Option String
  pub imei : Option String
  pub color : Option String
  pub storage : Option String
  pub battery_health : Option String
  pub connection_type : ConnectionType
  pub source : DeviceSource
  pub detected_at : Option ℕ
  pub associated_at : Option ℕ
  pub metadata : Fields

pub record Snapshot : Type 0 where
  pub session : RepairContext
  pub participants : List DevicePresence
  pub conversation : List ChatMessage
  pub repair_context : RepairContext
  pub diagnostic_state : List DiagnosticTest
  pub assistant_status : AssistantStatus
  pub state_version : ℕ
  pub pc_agent : Option Presence
  pub device_context : Option DeviceContext
  pub detected_devices : List DetectedDevice

pub data MessageType : Type 0 where
  chat_message heartbeat assistant_status diagnostic_update diagnosis_pause : MessageType
  repair_context_update request_snapshot associate_repair_device : MessageType
  unassociate_repair_device : MessageType

pub record ClientMessage : Type 0 where
  pub kind : MessageType
  pub content : Option String
  pub role : MessageRole
  pub status : Option AssistantStatus
  pub test_id : Option String
  pub value : Option String
  pub paused : Option Bool
  pub device : Option String
  pub issue : Option String
  pub label : Option String
  pub repair_device_id : Option String
