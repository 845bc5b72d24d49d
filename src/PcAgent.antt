-- ===== src/PcAgent.antt =====
-- pc_agent: the process on the bench's PC that runs the tools the server asks for.
pub mod Dispatcher
pub mod Commands
pub mod Once
