-- ===== src/Agent.antt =====
-- app/agent: the PC agents, the tools they run for the server, and what the server does with their
-- results.
pub mod Payloads
pub mod Executions
pub mod Registry
pub mod Gateway
pub mod Executor
