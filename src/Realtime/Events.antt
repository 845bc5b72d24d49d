-- ===== src/Realtime/Events.antt =====
-- app/realtime/events.py, and the payload that each kind of event carries.
use alpilab_ai.Base.{ℕ, String, Bool, Option, List}
use alpilab_ai.Base.Json.{Json}
use alpilab_ai.Agent.Payloads.{Presence, ResultEnvelope}
use alpilab_ai.Realtime.Payloads.{
  AssistantStatus, DeviceType, ChatMessage, DevicePresence, DiagnosticTest, DetectedDevice,
  DeviceContext, Snapshot,
}

pub data EventType : Type 0 where
  session_created session_updated session_snapshot message_created chat_message : EventType
  message_updated ai_response_started ai_response_chunk ai_response_completed : EventType
  assistant_status voice_transcript measurement_created image_created image_updated : EventType
  annotation_created diagnostic_test_updated diagnostic_updated : EventType
  diagnostic_test_started diagnostic_test_completed tool_state_changed : EventType
  device_connected device_disconnected device_heartbeat session_resumed : EventType
  session_state_updated state_update_rejected agent_connected agent_disconnected : EventType
  agent_heartbeat agent_test_result tool_execution_started tool_execution_completed : EventType
  tool_execute_result repair_device_detected repair_device_list_updated : EventType
  repair_device_associated repair_device_unassociated repair_device_disconnected : EventType

-- The `repair_context` entry of a change: an absent key is `none`, a key with None is `some none`.
pub record ContextChanges : Type 0 where
  pub label : Option (Option String)
  pub device : Option (Option String)
  pub issue : Option (Option String)
  pub status : Option (Option String)
  pub diagnosis_label : Option (Option String)

-- The `changes` of a state update; each key may be absent.
pub record Changes : Type 0 where
  pub repair_context : Option ContextChanges
  pub assistant_status : Option AssistantStatus
  pub diagnostic_test : Option DiagnosticTest

pub record StateUpdate : Type 0 where
  pub event_id : String
  pub session_id : String
  pub timestamp : ℕ
  pub source_device_id : String
  pub state_version : ℕ
  pub changes : Changes

-- The audit of a tool execution: its start has no outcome.
pub record ToolAudit : Type 0 where
  pub request_id : String
  pub command_id : Option String
  pub tool_id : Option String
  pub agent_id : String
  pub source : String
  pub success : Option Bool
  pub error : Option String
  pub result_summary : Option Json

pub data Payload : Type 0 where
  snapshot : Snapshot → Payload
  device_online : DevicePresence → Payload
  device_offline : String → DeviceType → String → ℕ → Payload
  device_seen : String → ℕ → Payload
  message : ChatMessage → Payload
  state_update : StateUpdate → Payload
  status_changed : AssistantStatus → ℕ → Payload
  tests : List DiagnosticTest → ℕ → Payload
  refusal : String → Option String → ℕ → Payload
  detected : List DetectedDevice → Payload
  associated : DeviceContext → Payload
  unassociated : Option String → Payload
  agent : Presence → Payload
  audit : ToolAudit → Payload
  result : ResultEnvelope → Payload

pub record Event : Type 0 where
  pub id : String
  pub repair_session_id : String
  pub event_type : EventType
  pub payload : Payload
  pub emitted_at : ℕ
  pub source_client_device_id : Option String
