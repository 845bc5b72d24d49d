-- ===== src/Commands.antt =====
-- app/commands and app/security/authorization.py: from a text to an intent, from an intent to a
-- tool or a command.
pub mod Intents
pub mod Parser
pub mod Engine
