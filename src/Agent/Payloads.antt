-- ===== src/Agent/Payloads.antt =====
-- app/agent/payloads.py: what a PC agent and the server exchange.
use alpilab_ai.Base.{ℕ, String, Bool, Option}
use alpilab_ai.Base.Json.{Fields}

pub data ConnectionState : Type 0 where
  offline connecting connected registering online reconnecting error : ConnectionState

pub data AgentPlatform : Type 0 where
  windows linux macos unknown : AgentPlatform

pub record Capabilities : Type 0 where
  pub safe_test : Bool
  pub windows_apps : Bool
  pub alpilab_check : Bool
  pub microscope : Bool
  pub thermal_camera : Bool
  pub multimeter : Bool
  pub power_supply : Bool

pub record Registration : Type 0 where
  pub agent_id : String
  pub agent_name : String
  pub platform : AgentPlatform
  pub agent_version : String
  pub capabilities : Capabilities

pub record Presence : Type 0 where
  pub agent_id : String
  pub agent_name : String
  pub platform : AgentPlatform
  pub agent_version : String
  pub is_online : Bool
  pub status : ConnectionState
  pub capabilities : Capabilities
  pub last_seen : ℕ

-- `payload` holds the tool id and the arguments of a TOOL_EXECUTE.
pub record CommandEnvelope : Type 0 where
  pub command_id : String
  pub request_id : String
  pub kind : String
  pub source : String
  pub target : String
  pub timestamp : ℕ
  pub payload : Fields

pub record ResultEnvelope : Type 0 where
  pub request_id : String
  pub command_id : Option String
  pub agent_id : String
  pub tool_id : Option String
  pub success : Bool
  pub result : Fields
  pub error : Option String
  pub timestamp : ℕ

-- The fields that the gateway reads of an inbound result message.
pub record InboundResult : Type 0 where
  pub agent_id : Option String
  pub request_id : Option String
  pub command_id : Option String
  pub tool_id : Option String
  pub success : Option Bool
  pub result : Option Fields
  pub error : Option String
  pub timestamp : Option ℕ

pub data Outbound : Type 0 where
  command : CommandEnvelope → Outbound
  command_rejected : String → String → ℕ → Outbound
