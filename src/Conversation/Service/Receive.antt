-- ===== src/Conversation/Service/Receive.antt =====
-- `handle_client_message` of app/realtime/session_manager.py as a whole: the message of a client, and
-- the answer of the natural language service to a chat message of a user.
use alpilab_ai.Base.{String, ◌≡◌, ◌⊎◌, inl, inr, refl}
use alpilab_ai.Base.Exec.{Result, ok, err}
use alpilab_ai.Base.Dict.{Dict}
use alpilab_ai.Base.Platform.{Platform}
use alpilab_ai.Agent.Gateway.{Server}
use alpilab_ai.Conversation.Service.{Progress, finished, raised, handle_user_message}
use alpilab_ai.Conversation.Service.Durable.{handle_user_message-IsDurable}
use alpilab_ai.Conversation.Service.Sending.{Instructed, handle_user_message-Instructed}
use alpilab_ai.Realtime.Payloads.{Error, ClientMessage}
use alpilab_ai.Realtime.Manager.{Manager}
use alpilab_ai.Realtime.Manager.Durability.{IsDurable}
use alpilab_ai.Realtime.Manager.DurableMessages.{handle_client_message-IsDurable}
use alpilab_ai.Realtime.Manager.Inbound.{Reply, ack, snapshot_sent, respond, handle_client_message}
use alpilab_ai.Tools.Executable.{ExecutableToolSpec}

module _ (p : Platform) (registry : Dict ExecutableToolSpec) (generate : String → String)
    (sid device_id : String) where
  abbrev answered : Result Error Reply × Manager → Server → Progress × Server
  answered (ok ack, m) srv = (finished, record srv { manager = m })
  answered (ok snapshot_sent, m) srv = (finished, record srv { manager = m })
  answered (ok (respond text), m) srv =
      handle_user_message p sid device_id registry generate text (record srv { manager = m })
  answered (err e, m) srv = (raised e, record srv { manager = m })

  unfoldable pub receive : ClientMessage → Server → Progress × Server
  receive msg srv = answered (handle_client_message p sid device_id msg srv.manager) srv

  answered-IsDurable :
      (r : Result Error Reply × Manager) (srv : Server)
      → IsDurable r.1
      → IsDurable (answered r srv).1.manager
  answered-IsDurable (ok ack, m) srv h = h
  answered-IsDurable (ok snapshot_sent, m) srv h = h
  answered-IsDurable (ok (respond text), m) srv h =
      handle_user_message-IsDurable p sid device_id registry generate text
        (record srv { manager = m }) h
  answered-IsDurable (err e, m) srv h = h

  -- If every session is on disk, then it is after any inbound message of a client together with the
  -- answer of the service to it, as far as the answer gets without waiting for a tool.
  pub receive-IsDurable :
      (msg : ClientMessage) (srv : Server)
      → IsDurable srv.manager
      → IsDurable (receive msg srv).1.manager
  unfolding receive
  receive-IsDurable msg srv h =
      answered-IsDurable _ srv (handle_client_message-IsDurable p sid device_id msg srv.manager h)

  -- Nothing was sent, or what the text instructs, in the state that the message left.
  abbrev SendsAnswer : Result Error Reply × Manager → Server → Server → Type 0
  SendsAnswer r srv srv' =
      (srv'.agent_outbox ≡ srv.agent_outbox)
      ⊎ ((text : String) × ((r.0 ≡ ok (respond text))
            × Instructed p registry sid text (record srv { manager = r.1 }) srv'))

  answered-SendsAnswer :
      (r : Result Error Reply × Manager) (srv : Server) → SendsAnswer r srv (answered r srv).1
  answered-SendsAnswer (ok ack, m) srv = inl refl
  answered-SendsAnswer (ok snapshot_sent, m) srv = inl refl
  answered-SendsAnswer (err e, m) srv = inl refl
  answered-SendsAnswer (ok (respond text), m) srv =
      elim (handle_user_message-Instructed p registry sid device_id generate text
        (record srv { manager = m })) [ inl same ↦ inl same | inr sent ↦ inr (text, (refl, sent)) ]

  -- An inbound message of a client makes the server send nothing to any agent, or exactly one
  -- TOOL_EXECUTE, and then the message was a chat message of the user that the manager took in, and
  -- the command is one that its text instructs: for a tool that is registered, takes the arguments,
  -- may run by itself, and whose capabilities the agent has.
  pub receive-Instructed :
      (msg : ClientMessage) (srv : Server)
      → ((receive msg srv).1.agent_outbox ≡ srv.agent_outbox)
        ⊎ ((text : String) × (((handle_client_message p sid device_id msg srv.manager).0
                ≡ ok (respond text))
              × Instructed p registry sid text
                  (record srv {
                    manager = (handle_client_message p sid device_id msg srv.manager).1;
                  })
                  (receive msg srv).1))
  unfolding receive
  receive-Instructed msg srv =
      answered-SendsAnswer (handle_client_message p sid device_id msg srv.manager) srv
