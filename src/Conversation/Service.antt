-- ===== src/Conversation/Service.antt =====
-- app/conversation/natural_language_service.py: the answer to a chat message of a user, cut at the
-- wait of `execute_tool`. What the AI router generates for a prompt is an argument.
pub mod Sending
pub mod Durable
pub mod Receive
use alpilab_ai.Base.{
  ℕ, String, Bool, true, false, Option, none, some, List, [], ◌∷◌, ◌==◌, not, ◌&&◌, if◌then◌else◌,
  is_some, or_else, leb,
}
use alpilab_ai.Base.Exec.{Result, ok, err}
use alpilab_ai.Base.Dict.{Dict}
use alpilab_ai.Base.Json.{Fields}
use alpilab_ai.Base.Lists.{keep, get_elem?}
use alpilab_ai.Base.Platform.{Platform}
use alpilab_ai.Agent.Payloads.{Presence, ResultEnvelope}
use alpilab_ai.Agent.Registry.{Agents, RegisteredAgent, find_agent, list_agents, is_online_state}
use alpilab_ai.Agent.Gateway.{Server}
use alpilab_ai.Agent.Executor.{
  Started, returned, refused, failed, waiting, Ended, delivered, timeout, lost, execute_tool,
}
use alpilab_ai.Commands.Engine.{Command, build_command, authorize_command}
use alpilab_ai.Commands.Intents.{Intent, resolve_tool_id}
use alpilab_ai.Commands.Parser.{
  ParseOutcome, conversation, action_command, ambiguous, command_not_supported, unknown_application,
  invalid_command, NaturalLanguageParseResult, parse,
}
use alpilab_ai.Conversation.Answering.{
  reply, set_status, then_idle, answer_words, explain, converse,
}
use alpilab_ai.Conversation.Followup.Resolve as Followup
use alpilab_ai.Conversation.Followup.Resolve.{
  FollowUpOutcome, FollowUpResolution, no_match, selection, clarification, resolve_product_followup,
}
use alpilab_ai.Conversation.Products.{
  ProductSearchContext, build_product_search_context, format_product_label,
}
use alpilab_ai.Conversation.Products.Details.{error_message, success_message_for_tool}
use alpilab_ai.Realtime.DeviceContext.{truthy}
use alpilab_ai.Realtime.Payloads.{Error, AssistantStatus, idle, thinking, speaking, working}
use alpilab_ai.Realtime.Payloads
use alpilab_ai.Realtime.State.{SessionData}
use alpilab_ai.Realtime.Manager.{Manager, get_session, set_session, uuid4, utc_now}
use alpilab_ai.Tools.Authorization.{ActionAuthorization, authorize_tool_execution}
use alpilab_ai.Tools.Executable.{ExecutableToolSpec, get_executable}

-- What the service remembers over the wait: `had_session` is whether the session was found before.
pub record Call : Type 0 where
  pub tool_id : String
  pub detail_focus : Option String
  pub product_index : Option ℕ
  pub had_session : Bool

-- How far an answer gets: to its end, to an error, to the wait for a future under a request id, or to
-- a cancellation.
pub data Progress : Type 0 where
  finished : Progress
  raised : Error → Progress
  pending : Call → String → ℕ → Progress
  cancelled : Progress

-- The session's search context is changed in place: nothing is saved or announced.
abbrev pub remember_found :
    String → Option ProductSearchContext → Option SessionData → Manager → Manager
remember_found session_id context none m = m
remember_found session_id context (some s) m =
    set_session session_id (record s { product_search_context = context }) m

unfoldable pub remember : String → Option ProductSearchContext → Manager → Manager
remember session_id context m = remember_found session_id context (get_session session_id m) m

abbrev pub context_of : Option SessionData → Option ProductSearchContext
context_of none = none
context_of (some s) = s.product_search_context

abbrev pub on_manager : Server → Result Error (Unit {0}) × Manager → Progress × Server
on_manager srv (ok _, m) = (finished, record srv { manager = m })
on_manager srv (err e, m) = (raised e, record srv { manager = m })

-- `session.pc_agent` if it is online
abbrev presence_id : Option Presence → Option String
presence_id none = none
presence_id (some agent) = if agent.is_online then truthy (some agent.agent_id) else none

abbrev session_agent : Option SessionData → Option String
session_agent none = none
session_agent (some s) = presence_id s.pc_agent

abbrev first_id : List RegisteredAgent → Option String
first_id [] = none
first_id (a ∷ rest) = truthy (some a.agent_id)

abbrev or_online : Option String → String → Agents → Option String
or_online (some agent_id) session_id agents = some agent_id
or_online none session_id agents =
    first_id (keep (λ a. is_online_state a.status) (list_agents (some session_id) agents))

unfoldable pub choose_agent : String → Server → Option String
choose_agent session_id srv =
    or_online (session_agent (get_session session_id srv.manager)) session_id srv.agents

abbrev label_of : Option ProductSearchContext → Option ℕ → Option String
label_of none index = none
label_of (some context) none = none
label_of (some context) (some index) = elim (get_elem? context.items index) [
  | none ↦ none
  | some item ↦ some (format_product_label item)
]

-- `outcome == CONVERSATION or confidence >= CONFIDENCE_THRESHOLD`, in tenths
abbrev pub is_clear : NaturalLanguageParseResult → Bool
is_clear r = elim r.outcome [ conversation ↦ true | _ ↦ leb 8 r.confidence ]

module _ (p : Platform) (session_id device_id : String) where
  abbrev then_status :
      AssistantStatus → Result Error (Unit {0}) × Manager → Result Error (Unit {0}) × Manager
  then_status status (ok _, m) = (ok tt, set_status p session_id device_id status m)
  then_status status (err e, m) = (err e, m)

  -- a reply, and then a status of the assistant
  unfoldable pub reply_then : String → AssistantStatus → Manager → Result Error (Unit {0}) × Manager
  reply_then words status m = then_status status (reply p session_id device_id words m)

  abbrev pub say : String → AssistantStatus → Server → Progress × Server
  say words status srv = on_manager srv (reply_then words status srv.manager)

  -- The clock is read for a context only.
  abbrev pub remember_built : Option ProductSearchContext → Manager → Manager
  remember_built none m = remember session_id none m
  remember_built (some context) m =
      let (now, m1) = utc_now p m in remember session_id (some context) m1

  -- `search_products` replaces the context of the session, if there is one.
  abbrev pub with_context : Call → ResultEnvelope → Manager → Manager
  with_context call r m =
      let built = build_product_search_context p (utc_now p m).0 r.result in
      if call.tool_id == "alpilab_check.search_products" && call.had_session
      then remember_built built m
      else m

  abbrev known_context : Call → Manager → Option ProductSearchContext
  known_context call m = if call.had_session then context_of (get_session session_id m) else none

  abbrev pub succeed : Call → ResultEnvelope → Manager → Result Error (Unit {0}) × Manager
  succeed call r m =
      let context = known_context call m in
      let words =
        success_message_for_tool p call.tool_id r.result call.detail_focus
          (label_of context call.product_index) context in
      then_status idle (reply_then words speaking m)

  -- what follows a result of the tool
  unfoldable pub conclude : Call → ResultEnvelope → Server → Progress × Server
  conclude call r srv =
      if r.success
      then on_manager srv (succeed call r (with_context call r srv.manager))
      else say (error_message (or_else (truthy r.error) "TOOL_EXECUTION_FAILED")) Payloads.error srv

  -- `ToolExecutionError`
  abbrev pub tool_failed : String → Server → Progress × Server
  tool_failed code srv = say (error_message code) Payloads.error srv

  abbrev pub started : Call → Started × Server → Progress × Server
  started call (returned r, srv) = conclude call r srv
  started call (refused code, srv) = tool_failed code srv
  started call (failed e, srv) = (raised e, srv)
  started call (waiting request_id future, srv) = (pending call request_id future, srv)

  abbrev ended : Call → Ended → Server → Progress × Server
  ended call (delivered r) srv = conclude call r srv
  ended call timeout srv = tool_failed "TOOL_EXECUTION_TIMEOUT" srv
  ended call lost srv = (cancelled, srv)

  -- the rest of the answer when the wait is over
  unfoldable pub resume : Call → Ended → Server → Progress × Server
  resume call e srv = ended call e srv

  module _ (registry : Dict ExecutableToolSpec) where
    abbrev pub on_tool :
        Call
        → String
        → Fields
        → ExecutableToolSpec
        → Option RegisteredAgent
        → Server
        → Progress × Server
    on_tool call agent_id parameters spec none srv =
        say (error_message "AGENT_NOT_FOUND") Payloads.error srv
    on_tool call agent_id parameters spec (some agent) srv =
        let auth = authorize_tool_execution spec agent.capabilities in
        let go = started call (
          execute_tool p registry session_id agent_id call.tool_id parameters none
            (record srv { manager = set_status p session_id device_id working srv.manager })) in
        if not auth.allowed
        then say (error_message (or_else auth.error "AUTHORIZATION_DENIED")) Payloads.error srv
        else go

    abbrev pub on_agent :
        Call → Fields → ExecutableToolSpec → Option String → Server → Progress × Server
    on_agent call parameters spec none srv =
        say (error_message "AGENT_NOT_FOUND") Payloads.error srv
    on_agent call parameters spec (some agent_id) srv =
        on_tool call agent_id parameters spec (find_agent session_id agent_id srv.agents) srv

    abbrev pub on_spec : Call → Fields → Option ExecutableToolSpec → Server → Progress × Server
    on_spec call parameters none srv = say (error_message "TOOL_NOT_FOUND") idle srv
    on_spec call parameters (some spec) srv =
        on_agent call parameters spec (choose_agent session_id srv) srv

    abbrev pub on_command : Call → Fields → ActionAuthorization → Server → Progress × Server
    on_command call parameters auth srv =
        let go = on_spec call parameters (get_executable call.tool_id registry) srv in
        if not auth.allowed then say (error_message "AUTHORIZATION_DENIED") idle srv else go

    abbrev pub on_tool_id :
        Option String → Intent → Option String → Option ℕ → Server → Progress × Server
    on_tool_id none intent focus index srv = say (error_message "UNKNOWN_APPLICATION") idle srv
    on_tool_id (some tool_id) intent focus index srv =
        let (id, m1) = uuid4 p srv.manager in
        let (now, m2) = utc_now p m1 in
        on_command
          (record {
            tool_id = tool_id;
            detail_focus = focus;
            product_index = index;
            had_session = is_some (get_session session_id srv.manager);
          })
          intent.parameters (authorize_command (build_command id now session_id intent))
          (record srv { manager = m2 })

    unfoldable pub dispatch_tool_intent :
        Intent → Option String → Option ℕ → Server → Progress × Server
    dispatch_tool_intent intent focus index srv =
        on_tool_id (resolve_tool_id intent) intent focus index srv

    module _ (generate : String → String) where
      abbrev pub talk : String → Server → Progress × Server
      talk text srv = on_manager srv (converse p session_id device_id generate text srv.manager)

      -- `followup.message` if it is not empty
      abbrev pub words_or_talk : Option String → String → Server → Progress × Server
      words_or_talk none text srv = talk text srv
      words_or_talk (some words) text srv =
          if words == ""
          then talk text srv
          else on_manager srv (answer_words p session_id device_id words srv.manager)

      abbrev pub act_or_talk :
          Option Intent → FollowUpResolution → String → Server → Progress × Server
      act_or_talk none r text srv = talk text srv
      act_or_talk (some intent) r text srv =
          dispatch_tool_intent intent r.detail_focus r.product_index srv

      abbrev pub on_followup :
          FollowUpOutcome → FollowUpResolution → String → Server → Progress × Server
      on_followup no_match r text srv = talk text srv
      on_followup FollowUpOutcome.action r text srv = act_or_talk r.intent r text srv
      on_followup selection r text srv = words_or_talk r.message text srv
      on_followup clarification r text srv = words_or_talk r.message text srv

      abbrev pub follow_up :
          FollowUpResolution × Option ProductSearchContext → String → Server → Progress × Server
      follow_up (r, context) text srv =
          on_followup r.outcome r text
            (record srv { manager = remember session_id context srv.manager })

      -- `parsed.error_code or parsed.outcome.value.upper()`; a refusal of the parser has a code.
      abbrev pub refuse : Option String → String → Server → Progress × Server
      refuse code outcome srv = on_manager srv (
          explain p session_id device_id (error_message (or_else (truthy code) outcome))
            srv.manager)

      abbrev pub act : Option Intent → Server → Progress × Server
      act none srv = (
        finished,
        record srv {
          manager =
              set_status p session_id device_id idle
                (set_status p session_id device_id thinking srv.manager);
        },
      )
      act (some intent) srv =
          dispatch_tool_intent intent none none
            (record srv { manager = set_status p session_id device_id thinking srv.manager })

      abbrev pub on_outcome :
          ParseOutcome → NaturalLanguageParseResult → String → Server → Progress × Server
      on_outcome conversation r text srv =
          follow_up
            (resolve_product_followup p text (context_of (get_session session_id srv.manager))) text
            srv
      on_outcome ambiguous r text srv = on_manager srv (
          explain p session_id device_id
            (or_else (truthy r.clarification) (error_message "AMBIGUOUS_COMMAND")) srv.manager)
      on_outcome command_not_supported r text srv = refuse r.error_code "COMMAND_NOT_SUPPORTED" srv
      on_outcome unknown_application r text srv = refuse r.error_code "UNKNOWN_APPLICATION" srv
      on_outcome invalid_command r text srv = refuse r.error_code "INVALID_COMMAND" srv
      on_outcome action_command r text srv = act r.intent srv

      unfoldable pub handle_user_message : String → Server → Progress × Server
      handle_user_message text srv =
          let r = parse p text in
          let go = on_outcome r.outcome r text srv in
          if is_clear r
          then go
          else on_manager srv
              (reply p session_id device_id "Puoi chiarire la richiesta?" srv.manager)
