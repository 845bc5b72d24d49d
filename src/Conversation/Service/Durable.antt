-- ===== src/Conversation/Service/Durable.antt =====
-- What the answer to a chat message does to the sessions that are saved.
use alpilab_ai.Base.{ℕ, String, Option, none, some, ◌≡◌, refl, ◌==◌, not, is_some, if_rule}
use alpilab_ai.Base.Exec.{Result, ok, err}
use alpilab_ai.Base.Dict.{Dict, get}
use alpilab_ai.Base.Json.{Fields}
use alpilab_ai.Base.Platform.{Platform}
use alpilab_ai.Agent.Payloads.{ResultEnvelope}
use alpilab_ai.Agent.Registry.{RegisteredAgent, find_agent}
use alpilab_ai.Agent.Gateway.{Server}
use alpilab_ai.Agent.Executor.{
  Started, returned, refused, failed, waiting, Ended, delivered, timeout, lost,
}
use alpilab_ai.Agent.Executor.Frame.{execute_tool-SameCore}
use alpilab_ai.Commands.Engine.{build_command, authorize_command}
use alpilab_ai.Commands.Intents.{Intent, resolve_tool_id}
use alpilab_ai.Commands.Parser.{
  ParseOutcome, conversation, action_command, ambiguous, command_not_supported, unknown_application,
  invalid_command, NaturalLanguageParseResult, parse,
}
use alpilab_ai.Conversation.Answering.{reply, answer_words, explain, then_idle, set_status}
use alpilab_ai.Conversation.Answers.{replied-IsDurable, converse-IsDurable}
use alpilab_ai.Conversation.Followup.Resolve.{
  FollowUpOutcome, FollowUpResolution, no_match, selection, clarification, resolve_product_followup,
}
use alpilab_ai.Conversation.Products.{ProductSearchContext}
use alpilab_ai.Conversation.Service.{
  Call, Progress, on_manager, reply_then, then_status, say, conclude, succeed, with_context,
  remember_built, started, resume, on_tool, on_agent, on_spec, on_command, on_tool_id, choose_agent,
  dispatch_tool_intent, talk, words_or_talk, act_or_talk, on_followup, act, on_outcome, is_clear,
  handle_user_message, context_of, remember, remember_found,
}
use alpilab_ai.Realtime.Payloads.{Error, AssistantStatus, idle, speaking, working, thinking}
use alpilab_ai.Realtime.State.{SessionData, snapshot}
use alpilab_ai.Realtime.Manager.{Manager, get_session, uuid4, utc_now, persistable_snapshot}
use alpilab_ai.Realtime.Manager.Durability.{IsDurable, SameCore-IsDurable, set_session-IsDurable}
use alpilab_ai.Realtime.Manager.DurableUpdates.{
  add_chat_message-IsDurable, set_assistant_status-IsDurable,
}
use alpilab_ai.Tools.Authorization.{ActionAuthorization, authorize_tool_execution}
use alpilab_ai.Tools.Executable.{ExecutableToolSpec, get_executable}

persistable_snapshot_contextless :
    (s : SessionData) (context : Option ProductSearchContext)
    → persistable_snapshot (record s { product_search_context = context }) ≡ persistable_snapshot s
unfolding persistable_snapshot snapshot
persistable_snapshot_contextless s context = refl

remember_found-IsDurable :
    (sid : String) (context : Option ProductSearchContext) (o : Option SessionData) (m : Manager)
    → get m.sessions sid ≡ o
    → IsDurable m
    → IsDurable (remember_found sid context o m)
remember_found-IsDurable sid context none m found h = h
remember_found-IsDurable sid context (some s) m found h =
    set_session-IsDurable sid s (record s { product_search_context = context }) m found
      (persistable_snapshot_contextless s context) h

remember-IsDurable :
    (sid : String) (context : Option ProductSearchContext) (m : Manager)
    → IsDurable m
    → IsDurable (remember sid context m)
unfolding remember get_session
remember-IsDurable sid context m h = remember_found-IsDurable sid context _ m refl h

on_manager-IsDurable :
    (srv : Server) (r : Result Error (Unit {0}) × Manager)
    → IsDurable r.1
    → IsDurable (on_manager srv r).1.manager
on_manager-IsDurable srv (ok _, m) h = h
on_manager-IsDurable srv (err e, m) h = h

module _ (p : Platform) (sid device_id : String) where
  utc_now-IsDurable : (m : Manager) → IsDurable m → IsDurable (utc_now p m).1
  unfolding utc_now
  utc_now-IsDurable m h = record { at = h.at }

  uuid4-IsDurable : (m : Manager) → IsDurable m → IsDurable (uuid4 p m).1
  unfolding uuid4
  uuid4-IsDurable m h = record { at = h.at }

  set_status-IsDurable :
      (status : AssistantStatus) (m : Manager)
      → IsDurable m
      → IsDurable (set_status p sid device_id status m)
  unfolding set_status
  set_status-IsDurable status m h = set_assistant_status-IsDurable p sid status (some device_id) m h

  reply-IsDurable :
      (words : String) (m : Manager) → IsDurable m → IsDurable (reply p sid device_id words m).1
  unfolding reply
  reply-IsDurable words m h =
      replied-IsDurable p sid device_id _ (add_chat_message-IsDurable p sid device_id words _ m h)

  then_status-IsDurable :
      (status : AssistantStatus) (r : Result Error (Unit {0}) × Manager)
      → IsDurable r.1
      → IsDurable (then_status p sid device_id status r).1
  then_status-IsDurable status (ok _, m) h = set_status-IsDurable status m h
  then_status-IsDurable status (err e, m) h = h

  then_idle-IsDurable :
      (r : Result Error (Unit {0}) × Manager)
      → IsDurable r.1
      → IsDurable (then_idle p sid device_id r).1
  then_idle-IsDurable (ok _, m) h = set_status-IsDurable idle m h
  then_idle-IsDurable (err e, m) h = h

  reply_then-IsDurable :
      (words : String) (status : AssistantStatus) (m : Manager)
      → IsDurable m
      → IsDurable (reply_then p sid device_id words status m).1
  unfolding reply_then
  reply_then-IsDurable words status m h = then_status-IsDurable status _ (reply-IsDurable words m h)

  say-IsDurable :
      (words : String) (status : AssistantStatus) (srv : Server)
      → IsDurable srv.manager
      → IsDurable (say p sid device_id words status srv).1.manager
  say-IsDurable words status srv h =
      on_manager-IsDurable srv _ (reply_then-IsDurable words status srv.manager h)

  built-IsDurable :
      (built : Option ProductSearchContext) (m : Manager)
      → IsDurable m
      → IsDurable (remember_built p sid device_id built m)
  built-IsDurable none m h = remember-IsDurable sid none m h
  built-IsDurable (some context) m h =
      remember-IsDurable sid (some context) _ (utc_now-IsDurable m h)

  conclude-IsDurable :
      (call : Call) (r : ResultEnvelope) (srv : Server)
      → IsDurable srv.manager
      → IsDurable (conclude p sid device_id call r srv).1.manager
  unfolding conclude
  conclude-IsDurable call r srv h =
      let m : Manager = with_context p sid device_id call r srv.manager in
      let context : IsDurable m = if_rule IsDurable _ (built-IsDurable _ srv.manager h) h in
      if_rule {A = Progress × Server} (λ x. IsDurable x.1.manager) r.success
        (on_manager-IsDurable srv (succeed p sid device_id call r m)
          (then_status-IsDurable idle _ (reply_then-IsDurable _ speaking m context)))
        (say-IsDurable _ _ srv h)

  started-IsDurable :
      (call : Call) (x : Started × Server)
      → IsDurable x.1.manager
      → IsDurable (started p sid device_id call x).1.manager
  started-IsDurable call (returned r, srv) h = conclude-IsDurable call r srv h
  started-IsDurable call (refused code, srv) h = say-IsDurable _ _ srv h
  started-IsDurable call (failed e, srv) h = h
  started-IsDurable call (waiting request_id future, srv) h = h

  -- If every session is saved when the wait for a tool is over, however it ends, then it is after the
  -- rest of the answer.
  pub resume-IsDurable :
      (call : Call) (e : Ended) (srv : Server)
      → IsDurable srv.manager
      → IsDurable (resume p sid device_id call e srv).1.manager
  unfolding resume
  resume-IsDurable call (delivered r) srv h = conclude-IsDurable call r srv h
  resume-IsDurable call timeout srv h = say-IsDurable _ _ srv h
  resume-IsDurable call lost srv h = h

  module _ (registry : Dict ExecutableToolSpec) where
    tool-IsDurable :
        (call : Call) (aid : String) (args : Fields) (spec : ExecutableToolSpec)
        (o : Option RegisteredAgent) (srv : Server)
        → IsDurable srv.manager
        → IsDurable (on_tool p sid device_id registry call aid args spec o srv).1.manager
    tool-IsDurable call aid args spec none srv h = say-IsDurable _ _ srv h
    tool-IsDurable call aid args spec (some agent) srv h =
        let m : Manager = set_status p sid device_id working srv.manager in
        if_rule {A = Progress × Server} (λ x. IsDurable x.1.manager)
          (not (authorize_tool_execution spec agent.capabilities).allowed) (say-IsDurable _ _ srv h)
          (started-IsDurable call _ (
            SameCore-IsDurable
              (execute_tool-SameCore p registry sid aid call.tool_id args none
                (record srv { manager = m }))
              (set_status-IsDurable working srv.manager h)))

    agent-IsDurable :
        (call : Call) (args : Fields) (spec : ExecutableToolSpec) (o : Option String) (srv : Server)
        → IsDurable srv.manager
        → IsDurable (on_agent p sid device_id registry call args spec o srv).1.manager
    agent-IsDurable call args spec none srv h = say-IsDurable _ _ srv h
    agent-IsDurable call args spec (some aid) srv h =
        tool-IsDurable call aid args spec (find_agent sid aid srv.agents) srv h

    spec-IsDurable :
        (call : Call) (args : Fields) (o : Option ExecutableToolSpec) (srv : Server)
        → IsDurable srv.manager
        → IsDurable (on_spec p sid device_id registry call args o srv).1.manager
    spec-IsDurable call args none srv h = say-IsDurable _ _ srv h
    spec-IsDurable call args (some spec) srv h =
        agent-IsDurable call args spec (choose_agent sid srv) srv h

    command-IsDurable :
        (call : Call) (args : Fields) (auth : ActionAuthorization) (srv : Server)
        → IsDurable srv.manager
        → IsDurable (on_command p sid device_id registry call args auth srv).1.manager
    command-IsDurable call args auth srv h =
        if_rule {A = Progress × Server} (λ x. IsDurable x.1.manager) (not auth.allowed)
          (say-IsDurable _ _ srv h)
          (spec-IsDurable call args (get_executable call.tool_id registry) srv h)

    tool_id-IsDurable :
        (o : Option String) (intent : Intent) (focus : Option String) (index : Option ℕ)
        (srv : Server)
        → IsDurable srv.manager
        → IsDurable (on_tool_id p sid device_id registry o intent focus index srv).1.manager
    tool_id-IsDurable none intent focus index srv h = say-IsDurable _ _ srv h
    tool_id-IsDurable (some tool_id) intent focus index srv h =
        let (id, m1) = uuid4 p srv.manager in
        let (now, m2) = utc_now p m1 in
        command-IsDurable
          (record {
            tool_id = tool_id;
            detail_focus = focus;
            product_index = index;
            had_session = is_some (get_session sid srv.manager);
          })
          intent.parameters (authorize_command (build_command id now sid intent))
          (record srv { manager = m2 }) (utc_now-IsDurable m1 (uuid4-IsDurable srv.manager h))

    intent-IsDurable :
        (intent : Intent) (focus : Option String) (index : Option ℕ) (srv : Server)
        → IsDurable srv.manager
        → IsDurable (dispatch_tool_intent p sid device_id registry intent focus index srv).1.manager
    unfolding dispatch_tool_intent
    intent-IsDurable intent focus index srv h =
        tool_id-IsDurable (resolve_tool_id intent) intent focus index srv h

    module _ (generate : String → String) where
      talk-IsDurable :
          (text : String) (srv : Server)
          → IsDurable srv.manager
          → IsDurable (talk p sid device_id registry generate text srv).1.manager
      talk-IsDurable text srv h =
          on_manager-IsDurable srv _
            (converse-IsDurable p generate sid device_id text srv.manager h)

      words-IsDurable :
          (o : Option String) (text : String) (srv : Server)
          → IsDurable srv.manager
          → IsDurable (words_or_talk p sid device_id registry generate o text srv).1.manager
      unfolding answer_words
      words-IsDurable none text srv h = talk-IsDurable text srv h
      words-IsDurable (some words) text srv h =
          if_rule {A = Progress × Server} (λ x. IsDurable x.1.manager) (words == "")
            (talk-IsDurable text srv h)
            (on_manager-IsDurable srv _
              (then_idle-IsDurable _ (reply-IsDurable words srv.manager h)))

      act_or_talk-IsDurable :
          (o : Option Intent) (r : FollowUpResolution) (text : String) (srv : Server)
          → IsDurable srv.manager
          → IsDurable (act_or_talk p sid device_id registry generate o r text srv).1.manager
      act_or_talk-IsDurable none r text srv h = talk-IsDurable text srv h
      act_or_talk-IsDurable (some intent) r text srv h =
          intent-IsDurable intent r.detail_focus r.product_index srv h

      followup-IsDurable :
          (outcome : FollowUpOutcome) (r : FollowUpResolution) (text : String) (srv : Server)
          → IsDurable srv.manager
          → IsDurable (on_followup p sid device_id registry generate outcome r text srv).1.manager
      followup-IsDurable no_match r text srv h = talk-IsDurable text srv h
      followup-IsDurable FollowUpOutcome.action r text srv h =
          act_or_talk-IsDurable r.intent r text srv h
      followup-IsDurable selection r text srv h = words-IsDurable r.message text srv h
      followup-IsDurable clarification r text srv h = words-IsDurable r.message text srv h

      explained-IsDurable :
          (words : String) (srv : Server)
          → IsDurable srv.manager
          → IsDurable (on_manager srv (explain p sid device_id words srv.manager)).1.manager
      unfolding explain
      explained-IsDurable words srv h = on_manager-IsDurable srv _ (
          then_idle-IsDurable _
            (reply-IsDurable words _ (set_status-IsDurable thinking srv.manager h)))

      act-IsDurable :
          (o : Option Intent) (srv : Server)
          → IsDurable srv.manager
          → IsDurable (act p sid device_id registry generate o srv).1.manager
      act-IsDurable none srv h =
          set_status-IsDurable idle _ (set_status-IsDurable thinking srv.manager h)
      act-IsDurable (some intent) srv h =
          intent-IsDurable intent none none
            (record srv { manager = set_status p sid device_id thinking srv.manager })
            (set_status-IsDurable thinking srv.manager h)

      outcome-IsDurable :
          (outcome : ParseOutcome) (r : NaturalLanguageParseResult) (text : String) (srv : Server)
          → IsDurable srv.manager
          → IsDurable (on_outcome p sid device_id registry generate outcome r text srv).1.manager
      outcome-IsDurable conversation r text srv h =
          let (f, context) =
            resolve_product_followup p text (context_of (get_session sid srv.manager)) in
          followup-IsDurable f.outcome f text
            (record srv { manager = remember sid context srv.manager })
            (remember-IsDurable sid context srv.manager h)
      outcome-IsDurable ambiguous r text srv h = explained-IsDurable _ srv h
      outcome-IsDurable command_not_supported r text srv h = explained-IsDurable _ srv h
      outcome-IsDurable unknown_application r text srv h = explained-IsDurable _ srv h
      outcome-IsDurable invalid_command r text srv h = explained-IsDurable _ srv h
      outcome-IsDurable action_command r text srv h = act-IsDurable r.intent srv h

      -- If every session is saved, then it is after the answer to any chat message of a user, as far
      -- as the answer gets without waiting for a tool, an answer that fails too.
      pub handle_user_message-IsDurable :
          (text : String) (srv : Server)
          → IsDurable srv.manager
          → IsDurable (handle_user_message p sid device_id registry generate text srv).1.manager
      unfolding handle_user_message
      handle_user_message-IsDurable text srv h =
          let r = parse p text in
          if_rule {A = Progress × Server} (λ x. IsDurable x.1.manager) (is_clear r)
            (outcome-IsDurable r.outcome r text srv h)
            (on_manager-IsDurable srv _ (reply-IsDurable _ srv.manager h))
