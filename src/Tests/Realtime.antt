-- ===== src/Tests/Realtime.antt =====
-- The sessions: runs, and the properties of app/realtime at concrete inputs.
use alpilab_ai.Base.{ℕ, true, none, some, List, [], ◌∷◌, ◌++◌, map, ◌≡◌, refl}
use alpilab_ai.Base.Text.{join_colon}
use alpilab_ai.Base.Dict.{get, put, values}
use alpilab_ai.Realtime.Payloads.{MessageType, ClientMessage}
use alpilab_ai.Realtime.Events.{Event, device_heartbeat, device_seen}
use alpilab_ai.Realtime.Manager.{
  Envelope, get_session, set_session, persist_session, persistable_snapshot, register_ws,
  Connection, unregister_ws, announce,
}
use alpilab_ai.Realtime.Manager.Presence.{connect_device, disconnect_device}
use alpilab_ai.Realtime.Manager.Inbound.{handle_client_message, dispatch}
use alpilab_ai.Realtime.Manager.Durability.{IsDurable}
use alpilab_ai.Realtime.Manager.DurablePresence.{
  connect_device-IsDurable, disconnect_device-IsDurable,
}
use alpilab_ai.Realtime.Manager.DurableMessages.{handle_client_message-IsDurable}
use alpilab_ai.Realtime.Manager.Growth.{Grows}
use alpilab_ai.Realtime.Manager.Fairness.{
  handle_client_message-Grows, handle_client_message_refused,
}
use alpilab_ai.Realtime.Manager.Delivery.{Chosen, KeysMatch, register-KeysMatch, announce_delivers}
use alpilab_ai.Realtime.Persistence.{attach_persistence, restart_recovers}
use alpilab_ai.Tests.Machine.{
  machine, empty_manager, session, manager, manager-IsDurable, chat_message,
}

abbrev without_value : ClientMessage
without_value = record chat_message { kind = MessageType.diagnostic_update; test_id = some "vph" }

sockets-KeysMatch : KeysMatch manager.ws_connections
unfolding persist_session set_session get_session get put join_colon
sockets-KeysMatch = (refl, (refl, tt))

handle_client_message-IsDurable_example :
    IsDurable (handle_client_message machine "s1" "a" chat_message manager).1
handle_client_message-IsDurable_example =
    handle_client_message-IsDurable machine "s1" "a" chat_message manager manager-IsDurable

handle_client_message-Grows_example :
    Grows manager (handle_client_message machine "s1" "a" chat_message manager).1
handle_client_message-Grows_example =
    handle_client_message-Grows machine "s1" "a" chat_message manager

handle_client_message_refused_example :
    (handle_client_message machine "s1" "a" without_value manager).1.sessions ≡ manager.sessions
unfolding handle_client_message dispatch
handle_client_message_refused_example =
    handle_client_message_refused machine "s1" "a" without_value manager
      "test_id and value required" (some "diagnostic_update") refl

connect_device-IsDurable_example :
    IsDurable (connect_device machine "s1" "c" "tablet" "Banco" true manager).1
connect_device-IsDurable_example =
    connect_device-IsDurable machine "s1" "c" "tablet" "Banco" true manager manager-IsDurable

disconnect_device-IsDurable_example : IsDurable (disconnect_device machine "s1" "a" manager)
disconnect_device-IsDurable_example =
    disconnect_device-IsDurable machine "s1" "a" manager manager-IsDurable

restart_recovers_example :
    (now : ℕ) × (get
        (attach_persistence machine
          (("s1", persistable_snapshot session) ∷ [])
          (record empty_manager { persistence_store = none })).sessions
        "s1"
      ≡ some (record session {
        devices = [];
        pc_agent = none;
        product_search_context = none;
        created_at = now;
      }))
unfolding persist_session set_session get_session get put join_colon
restart_recovers_example =
    restart_recovers machine manager (record empty_manager { persistence_store = none })
      (("s1", persistable_snapshot session) ∷ []) "s1" session manager-IsDurable refl refl refl

register-KeysMatch_example :
    KeysMatch (register_ws "s1" "c" manager).ws_connections
    × KeysMatch (unregister_ws "s1" "c" manager).ws_connections
register-KeysMatch_example = register-KeysMatch "s1" "c" manager sockets-KeysMatch

announce_delivers_example :
    (e : Event) × (chosen : List Connection) × (e.repair_session_id ≡ "s1")
    × (e.event_type ≡ device_heartbeat)
    × (e.payload ≡ device_seen "a" 5)
    × (e.source_client_device_id ≡ some "a")
    × ((announce machine "s1" device_heartbeat
          (device_seen "a" 5)
          (some "a")
          (some "a")
          manager).event_log
        ≡ manager.event_log ++ e ∷ [])
    × Chosen "s1" (some "a") (values manager.ws_connections) chosen
    × ((announce machine "s1" device_heartbeat
          (device_seen "a" 5)
          (some "a")
          (some "a")
          manager).outbox
        ≡ manager.outbox
          ++ map
              (λ c. record {
                session_id = "s1";
                device_id = c.device_id;
                envelope = Envelope.event e;
              })
              chosen)
announce_delivers_example =
    announce_delivers machine "s1" device_heartbeat (device_seen "a" 5) (some "a") (some "a")
      manager sockets-KeysMatch
