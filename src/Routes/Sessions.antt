-- ===== src/Routes/Sessions.antt =====
-- app/api/ws.py: the socket of a client, as a machine that reads texts. What the socket is sent
-- directly is the list of a turn; what the manager sends it is in the manager's outbox.
pub mod Durable
pub mod Steps
pub mod Strangers
use alpilab_ai.Base.{ℕ, String, Bool, Option, List, [], ◌∷◌}
use Prim.Native.String.{◌++◌}
use alpilab_ai.Base.Exec.{Result, ok, err}
use alpilab_ai.Base.Dict.{Dict}
use alpilab_ai.Base.Platform.{Platform}
use alpilab_ai.Agent.Executor.{Ended}
use alpilab_ai.Agent.Gateway.{Server}
use alpilab_ai.Conversation.Service.{
  Call, Progress, finished, raised, pending, cancelled, handle_user_message, resume,
}
use alpilab_ai.Pairing.ClientAuth.{
  ClientAuthError, pairing_required, unauthorized, Settings, authorize_session_client,
}
use alpilab_ai.Realtime.Payloads.{
  Error, value_error, device_not_detected, rejected, Snapshot, ClientMessage,
}
use alpilab_ai.Realtime.Manager.{Manager, register_ws}
use alpilab_ai.Realtime.Manager.Presence.{connect_device, disconnect_device}
use alpilab_ai.Realtime.Manager.Inbound.{
  Reply, ack, snapshot_sent, respond, handle_client_message, send_state_rejected,
}
use alpilab_ai.Tools.Executable.{ExecutableToolSpec}

-- `WsEnvelope`
pub data Sent : Type 0 where
  snapshot : Snapshot → Sent
  acknowledged : Sent
  error : String → Sent

-- What the socket reads: a text of more than 8192 characters, a text that is no JSON or no object, an
-- object that is no inbound message, with the words of the error, a message, or the disconnection.
pub data Text : Type 0 where
  too_large not_json not_object : Text
  invalid : String → Text
  message : ClientMessage → Text
  gone : Text

-- The socket listens, waits for a tool, or is over.
pub data State : Type 0 where
  listening : State
  awaiting : Call → String → ℕ → State
  over : State

pub record Turn : Type 0 where
  pub state : State
  pub sent : List Sent
  pub server : Server

-- `exc.code`
abbrev pub code : ClientAuthError → String
code pairing_required = "PAIRING_REQUIRED"
code unauthorized = "UNAUTHORIZED"

abbrev pub listens : List Sent → Server → Turn
listens sent srv = record { state = listening; sent = sent; server = srv }

-- Who opens the socket, and what the process runs with; `repr` is Python's, of a text.
pub record Client : Type 0 where
  pub session_id : String
  pub device_id : String
  pub device_type : String
  pub device_name : String
  pub seed_demo : Bool
  pub pairing_token : Option String
  pub client_host : Option String

pub record Process : Type 0 where
  pub platform : Platform
  pub settings : Settings
  pub registry : Dict ExecutableToolSpec
  pub generate : String → String
  pub repr : String → String

module _ (process : Process) (c : Client) where
  -- the `finally` of the handler, which runs however it ends
  abbrev pub closes : List Sent → Server → Turn
  closes sent srv = record {
    state = over;
    sent = sent;
    server = record srv {
      manager = disconnect_device process.platform c.session_id c.device_id srv.manager;
    };
  }

  -- An error that is no refusal is a `ValueError`: it is told and ends the socket.
  abbrev pub fails : Error → Server → Turn
  fails (rejected reason request_type) srv = listens (acknowledged ∷ []) (record srv {
    manager =
        send_state_rejected process.platform c.session_id c.device_id reason request_type
          srv.manager;
  })
  fails (value_error words) srv = closes (error words ∷ []) srv
  fails (device_not_detected id) srv =
      closes (error ("device " ++ (process.repr id ++ " not in detected list")) ∷ []) srv

  abbrev pub progressed : Progress × Server → Turn
  progressed (finished, srv) = listens (acknowledged ∷ []) srv
  progressed (raised e, srv) = fails e srv
  progressed (pending call request_id future, srv) = record {
    state = awaiting call request_id future;
    sent = [];
    server = srv;
  }
  progressed (cancelled, srv) = closes [] srv

  abbrev pub handled : Result Error Reply × Manager → Server → Turn
  handled (ok ack, m) srv = listens (acknowledged ∷ []) (record srv { manager = m })
  handled (ok snapshot_sent, m) srv = listens [] (record srv { manager = m })
  handled (ok (respond text), m) srv = progressed (
      handle_user_message process.platform c.session_id c.device_id process.registry
        process.generate text (record srv { manager = m }))
  handled (err e, m) srv = fails e (record srv { manager = m })

  -- one turn of the loop
  unfoldable pub read : Text → Server → Turn
  read too_large srv = listens (error "payload too large" ∷ []) srv
  read not_json srv = listens (error "invalid json" ∷ []) srv
  read not_object srv = listens (error "invalid payload" ∷ []) srv
  read (invalid words) srv = closes (error words ∷ []) srv
  read (message msg) srv =
      handled (handle_client_message process.platform c.session_id c.device_id msg srv.manager) srv
  read gone srv = closes [] srv

  abbrev pub connected : Result Error Snapshot × Manager → Server → Turn
  connected (err (rejected _ _), m) srv = closes [] (record srv { manager = m })
  connected (err e, m) srv = fails e (record srv { manager = m })
  connected (ok snap, m) srv =
      listens (snapshot snap ∷ []) (record srv { manager = register_ws c.session_id c.device_id m })

  abbrev pub authorized : Result ClientAuthError (Unit {0}) → Server → Turn
  authorized (err e) srv = closes (error (code e) ∷ []) srv
  authorized (ok _) srv =
      connected
        (connect_device process.platform c.session_id c.device_id c.device_type c.device_name
          c.seed_demo srv.manager)
        srv

  -- from the opening of the socket to the first turn of the loop
  unfoldable pub session_websocket : Server → Turn
  session_websocket srv =
      authorized
        (authorize_session_client process.settings c.client_host c.device_id c.device_type
          c.pairing_token)
        srv

  -- the rest of a turn that waited for a tool
  unfoldable pub woken : Call → Ended → Server → Turn
  woken call e srv = progressed (resume process.platform c.session_id c.device_id call e srv)
