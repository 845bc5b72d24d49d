-- ===== src/Tests.antt =====
-- Runs of the model, and the properties at concrete inputs.
pub mod Machine
pub mod Realtime
pub mod Agents
pub mod Conversation
pub mod Products
pub mod Service
pub mod Pairing
pub mod Workbench
pub mod Routes
pub mod Repair
pub mod Waiting
