-- ===== src/Tests/Conversation.antt =====
-- The answers to chat messages: the properties at concrete inputs.
use alpilab_ai.Base.{String, ◌≡◌, some, refl}
use alpilab_ai.Base.Exec.{err}
use alpilab_ai.Base.Dict.{get, put}
use alpilab_ai.Base.Text.{strip}
use alpilab_ai.Realtime.Payloads.{value_error, thinking, validate_content}
use alpilab_ai.Realtime.State.{SessionData}
use alpilab_ai.Realtime.Manager.{get_session, set_session, persist_session}
use alpilab_ai.Realtime.Manager.Durability.{IsDurable}
use alpilab_ai.Conversation.Answering.{converse}
use alpilab_ai.Conversation.Answers.{converse-IsDurable, converse_refused}
use alpilab_ai.Tests.Machine.{machine, manager, manager-IsDurable, session}

abbrev blank : String → String
blank text = "  "

converse-IsDurable_example : IsDurable (converse machine "s1" "a" blank "ciao" manager).1
converse-IsDurable_example =
    converse-IsDurable machine blank "s1" "a" "ciao" manager manager-IsDurable

converse_refused_example :
    ((converse machine "s1" "a" blank "ciao" manager).0
      ≡ err (value_error "content must not be empty"))
    × ((s' : SessionData) × (get (converse machine "s1" "a" blank "ciao" manager).1.sessions "s1"
          ≡ some s')
        × (s'.assistant_status ≡ thinking))
unfolding persist_session get_session set_session get put validate_content strip
converse_refused_example =
    converse_refused machine blank "s1" "a" "ciao" (value_error "content must not be empty") session
      manager refl refl
