-- ===== src/Diagnostics.antt =====
-- app/diagnostics: the life of the diagnostic tests, and which test is recommended next.
pub mod StateManager
pub mod Recommendations
