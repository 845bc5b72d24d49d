-- ===== src/Tools.antt =====
-- app/tools and app/security/tool_authorization.py: the tools that the server may have a PC agent
-- run, and who decides it.
pub mod Executable
pub mod Authorization
