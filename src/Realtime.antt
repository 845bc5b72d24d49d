-- ===== src/Realtime.antt =====
-- app/realtime: repair sessions that several devices share.
pub mod Payloads
pub mod DeviceContext
pub mod Events
pub mod State
pub mod Measurement
pub mod Sync
pub mod Manager
pub mod Persistence
