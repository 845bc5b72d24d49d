-- ===== src/Repair.antt =====
-- app/session: the repair sessions that a technician goes on with on another device.
pub mod Store
pub mod Resume
