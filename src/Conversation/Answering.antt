-- ===== src/Conversation/Answering.antt =====
-- app/conversation/natural_language_service.py: `_reply`, and the branches of `handle_user_message`
-- that end in words alone. What the AI router generates for a prompt is an argument; the parsing of
-- commands and their dispatch to tools are not modelled.
use alpilab_ai.Base.{String, some}
use alpilab_ai.Base.Exec.{Result, ok, err}
use alpilab_ai.Base.Platform.{Platform}
use alpilab_ai.Realtime.Payloads.{
  Error, assistant, ChatMessage, AssistantStatus, idle, thinking, speaking,
}
use alpilab_ai.Realtime.Manager.{Manager}
use alpilab_ai.Realtime.Manager.Updates.{add_chat_message, set_assistant_status}

module _ (p : Platform) (session_id device_id : String) where
  abbrev pub replied : Result Error ChatMessage × Manager → Result Error (Unit {0}) × Manager
  replied (ok _, m) = (ok tt, m)
  replied (err e, m) = (err e, m)

  unfoldable pub reply : String → Manager → Result Error (Unit {0}) × Manager
  reply content m = replied (add_chat_message p session_id device_id content assistant m)

  unfoldable pub set_status : AssistantStatus → Manager → Manager
  set_status status m = set_assistant_status p session_id status (some device_id) m

  abbrev pub then_idle : Result Error (Unit {0}) × Manager → Result Error (Unit {0}) × Manager
  then_idle (ok _, m) = (ok tt, set_status idle m)
  then_idle (err e, m) = (err e, m)

  abbrev pub then_speaking : Result Error (Unit {0}) × Manager → Result Error (Unit {0}) × Manager
  then_speaking (ok _, m) = (ok tt, set_status idle (set_status speaking m))
  then_speaking (err e, m) = (err e, m)

  -- an answer with fixed words: a selection, a clarification
  unfoldable pub answer_words : String → Manager → Result Error (Unit {0}) × Manager
  answer_words words m = then_idle (reply words m)

  -- the answer to an ambiguous or refused command
  unfoldable pub explain : String → Manager → Result Error (Unit {0}) × Manager
  explain words m = then_idle (reply words (set_status thinking m))

  -- the conversation with the AI router
  unfoldable pub converse : (String → String) → String → Manager → Result Error (Unit {0}) × Manager
  converse generate text m = then_speaking (reply (generate text) (set_status thinking m))
