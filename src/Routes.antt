-- ===== src/Routes.antt =====
-- app/api/ws.py and app/agent/ws.py: the sockets of the clients and of the PC agents.
pub mod Sessions
pub mod Agents
