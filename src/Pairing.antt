-- ===== src/Pairing.antt =====
-- app/pairing/service.py, the pairing tables of app/session/sqlite_store.py and
-- app/security/client_auth.py: who may join a session over the local network.
pub mod Service
pub mod OneUse
pub mod Clients
pub mod ClientAuth
