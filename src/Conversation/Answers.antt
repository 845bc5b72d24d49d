-- ===== src/Conversation/Answers.antt =====
-- What the answers do to the sessions.
use alpilab_ai.Base.{String, Option, some, ◌≡◌, refl}
use alpilab_ai.Base.Exec.{Result, ok, err}
use alpilab_ai.Base.Platform.{Platform}
use alpilab_ai.Base.Text.{strip}
use alpilab_ai.Base.Dict.{get, get-put_same}
use alpilab_ai.Realtime.Payloads.{
  Error, assistant, ChatMessage, AssistantStatus, thinking, validate_content,
}
use alpilab_ai.Realtime.State.{SessionData}
use alpilab_ai.Realtime.Manager.{Manager, get_session, set_session, uuid4, utc_now}
use alpilab_ai.Realtime.Sync.{apply_assistant_status_change}
use alpilab_ai.Realtime.Manager.Frame.{announce-SameCore}
use alpilab_ai.Realtime.Manager.Updates.{
  add_chat_message, set_assistant_status, broadcast_state_update, apply_changes,
}
use alpilab_ai.Realtime.Manager.Durability.{IsDurable}
use alpilab_ai.Realtime.Manager.DurableUpdates.{
  add_chat_message-IsDurable, set_assistant_status-IsDurable,
}
use alpilab_ai.Realtime.Manager.Growth.{Grows, sessions-persist_session}
use alpilab_ai.Realtime.Manager.Verdicts.{add_chat_message-IsFair, set_assistant_status-Grows}
use alpilab_ai.Conversation.Answering.{replied, reply, set_status, then_speaking, converse}

module _ (p : Platform) (sid device_id : String) where
  pub replied-IsDurable :
      (r : Result Error ChatMessage × Manager)
      → IsDurable r.1
      → IsDurable (replied p sid device_id r).1
  replied-IsDurable (ok msg, m) h = h
  replied-IsDurable (err e, m) h = h

  spoken-IsDurable :
      (r : Result Error (Unit {0}) × Manager)
      → IsDurable r.1
      → IsDurable (then_speaking p sid device_id r).1
  unfolding set_status
  spoken-IsDurable (ok u, m) h =
      set_assistant_status-IsDurable p sid _ _ _ (set_assistant_status-IsDurable p sid _ _ m h)
  spoken-IsDurable (err e, m) h = h

  replied-Grows :
      (m : Manager) (r : Result Error ChatMessage × Manager)
      → Grows m r.1
      → Grows m (replied p sid device_id r).1
  replied-Grows m (ok msg, m') h = h
  replied-Grows m (err e, m') h = h

-- If every session is saved, then it is after the conversation with the AI router, whatever the
-- router generates, an answer that is refused too.
pub converse-IsDurable :
    (p : Platform) (generate : String → String) (sid device_id text : String) (m : Manager)
    → IsDurable m
    → IsDurable (converse p sid device_id generate text m).1
unfolding converse reply set_status
converse-IsDurable p generate sid device_id text m h = spoken-IsDurable p sid device_id _ (
    replied-IsDurable p sid device_id _ (
      add_chat_message-IsDurable p sid device_id _ _ _
        (set_assistant_status-IsDurable p sid _ _ m h)))

reply-Grows :
    (p : Platform) (sid device_id content : String) (m : Manager)
    → Grows m (reply p sid device_id content m).1
unfolding reply
reply-Grows p sid device_id content m =
    replied-Grows p sid device_id m (add_chat_message p sid device_id content assistant m)
      (add_chat_message-IsFair p sid device_id content assistant m).grows

set_status-Grows :
    (p : Platform) (sid device_id : String) (status : AssistantStatus) (m : Manager)
    → Grows m (set_status p sid device_id status m)
unfolding set_status
set_status-Grows p sid device_id status m =
    set_assistant_status-Grows p sid status (some device_id) m

-- The session after the status was set has that status.
set_assistant_status-found :
    (p : Platform) (sid : String) (status : AssistantStatus) (source : Option String)
    (s : SessionData) (m : Manager)
    → get m.sessions sid ≡ some s
    → (s' : SessionData) × (get (set_assistant_status p sid status source m).sessions sid ≡ some s')
      × (s'.assistant_status ≡ status)
unfolding set_assistant_status get_session broadcast_state_update set_session uuid4 utc_now
    apply_changes apply_assistant_status_change
set_assistant_status-found p sid status source s m found =
    rw
      (
        found,
        (announce-SameCore p sid _ _ _ _ _).sessions,
        sessions-persist_session sid _,
        (announce-SameCore p sid _ _ _ _ _).sessions,
      )
      (_, get-put_same m.sessions sid _, refl)

reply_refused :
    (p : Platform) (sid device_id content : String) (e : Error) (s : SessionData) (m : Manager)
    → get m.sessions sid ≡ some s
    → validate_content (strip content) ≡ err e
    → ((reply p sid device_id content m).0 ≡ err e)
      × ((reply p sid device_id content m).1.sessions ≡ m.sessions)
unfolding reply add_chat_message get_session uuid4 utc_now
reply_refused p sid device_id content e s m found long = rw (found, long) (refl, refl)

spoken_refused :
    (p : Platform) (sid device_id : String) (e : Error) (r : Result Error (Unit {0}) × Manager)
    → r.0 ≡ err e
    → ((then_speaking p sid device_id r).0 ≡ err e)
      × ((then_speaking p sid device_id r).1.sessions ≡ r.1.sessions)
spoken_refused p sid device_id e (ok u, m) h = cc
spoken_refused p sid device_id e (err e', m) h = (h, refl)

-- If the session exists and the router generates what no chat message may hold, nothing or more than
-- 4000 characters, then the conversation raises that error and leaves the assistant's status at
-- THINKING.
pub converse_refused :
    (p : Platform) (generate : String → String) (sid device_id text : String) (e : Error)
    (s : SessionData) (m : Manager)
    → get m.sessions sid ≡ some s
    → validate_content (strip (generate text)) ≡ err e
    → ((converse p sid device_id generate text m).0 ≡ err e)
      × ((s' : SessionData) × (get (converse p sid device_id generate text m).1.sessions sid
            ≡ some s')
          × (s'.assistant_status ≡ thinking))
unfolding converse set_status
converse_refused p generate sid device_id text e s m found long =
    let m1 : Manager = set_status p sid device_id thinking m in
    let (s', found', status) =
      set_assistant_status-found p sid thinking (some device_id) s m found in
    let (raised, same) = reply_refused p sid device_id (generate text) e s' m1 found' long in
    let (raised', same') =
      spoken_refused p sid device_id e (reply p sid device_id (generate text) m1) raised in
    (raised', (s', rw (same', same) found', status))
