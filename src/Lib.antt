-- ===== src/Lib.antt =====
-- Alpilab AI: a model of the server that joins a repair session's phones, tablets and PCs with the PC
-- agents that run tools at the bench, and what makes it correct.
--
-- The parts, and the code they follow (paths from the repository's root):
--   Realtime: app/realtime and app/schemas/device_context.py. `Manager` is the state of
--     RealtimeSessionManager: the sessions, the event log, the subscribers, the sockets and the table
--     of snapshots. Manager/Presence, Updates, Bench and Inbound hold its handlers, each a function
--     from the manager to its result and the manager; Sync and Measurement are state_sync.py,
--     Persistence is persistence.py and the restore. The other modules below Manager are proofs.
--   Agent: app/agent. Registry, Executions (execution_store.py), Gateway with its Commands and
--     ResultMessages, and Executor (tool_executor.py). The three singletons that they share are the
--     record `Server`; the gateway writes the agents into the sessions and announces through the
--     manager.
--   Tools: app/tools/executable.py, the executable part of app/tools/registry.py and
--     app/security/tool_authorization.py, which the executor asks before it sends a command.
--   Pairing: app/pairing/service.py with its tables of app/session/sqlite_store.py, and
--     app/security/client_auth.py, which asks them who may open the socket of a session.
--   Commands: app/commands/natural_language_parser.py (Parser), from a text to an intent;
--     tool_resolution.py (Intents), from an intent to a tool; app/commands/engine.py and
--     app/security/authorization.py (Engine).
--   Conversation: app/conversation. Products is the context of the last product search with the words
--     about products, Followup reads a text as a follow-up to it, Answering holds the replies and the
--     conversation with the AI router, and Service joins them: `handle_user_message` parses a chat
--     message, answers it through the manager and calls the executor, up to the wait for the tool;
--     `resume` goes on after the wait. Service/Receive is the whole way of a client's message.
--   PcAgent: pc_agent/tools/dispatcher.py and pc_agent/commands.py, the other end of the executor's
--     commands. A handler acts on a bench of any type.
--   Diagnostics: app/diagnostics, the tests' records and the limit on repeated recommendations.
--   Repair: app/session/store.py, the repair sessions with their participants and devices, and
--     app/session/resume.py, by which a technician goes on with one on another device. The order in
--     which Python goes through a set is an argument.
--   Routes: app/api/ws.py (Sessions) and app/agent/ws.py (Agents), the sockets of clients and agents as
--     machines that read texts and call the manager, the service and the gateway. Sessions/Steps has
--     the steps of one socket and, between them, of the others that the process serves.
--   Base: conditionals, texts, patterns of `re`, dictionaries in insertion order, lists and JSON values.
--   Tests: a machine, a session and the properties at concrete inputs.
--
-- A handler named `f` in the source is `f` here, without its leading underscore. Where it looks up an
-- object and goes on with what it found, the rest is `f_found` or a like name, by clauses. A raised
-- exception is `err`; what was written before it stays written, since the state comes back beside it.
-- The mutable objects of the manager are owned by its dictionaries: a write to a session is
-- `set_session`.
--
-- Kept apart from the code: what is asked of the machine (uuid4, the clock, Unicode tables, secrets,
-- the text of a number) is a parameter, `Platform` or `Chance`, and the n-th question gets the n-th
-- answer. Sends are recorded in an outbox. A handler runs to its end: handlers that run while another
-- waits for a send, and sends that fail, are not modelled; the wait of a tool execution for its result
-- is, by futures.
-- The dump and validation of pydantic and JSON are the identity on the typed values. Times are numbers.
-- Numbers have no bound in the source, and ℕ has none. Every loop is a recursion on its list; there is
-- no fuel. The patterns of `re` are the type Base/Regex.Pattern, matched by backtracking; what the AI
-- router generates for a prompt is an argument. Left out: the HTTP routes, the SQL of the session
-- contexts, the AI providers, the mock parser and mock hub, the PC agent's socket client and scanner,
-- the user interfaces.
pub mod Base
pub mod Commands
pub mod Agent
pub mod Tools
pub mod Realtime
pub mod Pairing
pub mod PcAgent
pub mod Conversation
pub mod Diagnostics
pub mod Repair
pub mod Routes
pub mod Tests
