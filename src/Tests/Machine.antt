-- ===== src/Tests/Machine.antt =====
-- A machine and a session for the runs.
use alpilab_ai.Base.{true, none, some, [], ◌∷◌, ◌≡◌, ◌==◌}
use alpilab_ai.Base.Platform.{Platform}
use alpilab_ai.Base.Dict.{get}
use alpilab_ai.Realtime.Payloads.{user, MessageType, ClientMessage}
use alpilab_ai.Realtime.State.{SessionData, default_demo_session}
use alpilab_ai.Realtime.Manager.{Manager, set_session, persist_session}
use alpilab_ai.Realtime.Manager.Durability.{
  IsDurable, set_session-IsDurableBut, IsDurable-IsDurableBut, persist_session-IsDurable,
}

abbrev pub machine : Platform
machine = record {
  uuid = λ n. "id";
  clock = λ n. n;
  isalnum = λ c. true;
  decimal = λ c. none;
  lower = λ s. s;
  text_of = λ v. "";
  is_zero = λ n. n == "0";
  two_places = λ n. n;
}

abbrev pub empty_manager : Manager
empty_manager = record {
  sessions = [];
  event_log = [];
  subscribers = [];
  delivered = [];
  ws_connections =
      ("s1:a", record { session_id = "s1"; device_id = "a" })
      ∷ ("s1:b", record { session_id = "s1"; device_id = "b" })
      ∷ [];
  outbox = [];
  persistence_store = some [];
  reads = 0;
}

abbrev pub session : SessionData
session = default_demo_session "s1" 7

-- The manager with one session, which is saved.
abbrev pub manager : Manager
manager = persist_session "s1" (set_session "s1" session empty_manager)

pub empty_manager-IsDurable : IsDurable empty_manager
empty_manager-IsDurable = record {
  at = λ sid s table e k. let missing : none ≡ some s = unfold get in e in cc;
}

pub manager-IsDurable : IsDurable manager
manager-IsDurable = persist_session-IsDurable "s1" (set_session "s1" session empty_manager) (
    set_session-IsDurableBut "s1" session empty_manager
      (IsDurable-IsDurableBut "s1" empty_manager-IsDurable))

abbrev pub chat_message : ClientMessage
chat_message = record {
  kind = MessageType.chat_message;
  content = some "ciao";
  role = user;
  status = none;
  test_id = none;
  value = none;
  paused = none;
  device = none;
  issue = none;
  label = none;
  repair_device_id = none;
}
