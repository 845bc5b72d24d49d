-- ===== src/Conversation/Service/Sending.antt =====
-- What the answer to a chat message may send to the agents.
use alpilab_ai.Base.{
  ℕ, String, Option, none, some, ◌≡◌, ◌⊎◌, inl, inr, refl, ◌∙◌, ◌==◌, not, is_some, if_rule,
}
use alpilab_ai.Base.Exec.{Result, ok, err}
use alpilab_ai.Base.Dict.{Dict}
use alpilab_ai.Base.Json.{Fields}
use alpilab_ai.Base.Platform.{Platform}
use alpilab_ai.Agent.Payloads.{ResultEnvelope}
use alpilab_ai.Agent.Registry.{RegisteredAgent, find_agent}
use alpilab_ai.Agent.Gateway.{Server}
use alpilab_ai.Agent.Executor.{Started, returned, refused, failed, waiting, execute_tool}
use alpilab_ai.Agent.Executor.Safety.{Dispatched, execute_tool-Dispatched}
use alpilab_ai.Commands.Engine.{build_command, authorize_command}
use alpilab_ai.Commands.Intents.{Intent, resolve_tool_id}
use alpilab_ai.Commands.Parser.{
  ParseOutcome, conversation, action_command, ambiguous, command_not_supported, unknown_application,
  invalid_command, parse,
}
use alpilab_ai.Conversation.Followup.Resolve.{
  FollowUpOutcome, FollowUpResolution, no_match, selection, clarification, resolve_product_followup,
}
use alpilab_ai.Conversation.Service.{
  Call, Progress, on_manager, conclude, started, on_tool, on_agent, on_spec, on_command, on_tool_id,
  choose_agent, dispatch_tool_intent, words_or_talk, act_or_talk, on_followup, act, on_outcome,
  is_clear, handle_user_message, context_of,
}
use alpilab_ai.Conversation.Answering.{set_status}
use alpilab_ai.Realtime.Payloads.{Error, thinking}
use alpilab_ai.Realtime.Manager.{Manager, get_session, uuid4, utc_now}
use alpilab_ai.Tools.Authorization.{ActionAuthorization, authorize_tool_execution}
use alpilab_ai.Tools.Executable.{ExecutableToolSpec, get_executable}

on_manager_outbox :
    (srv : Server) (r : Result Error (Unit {0}) × Manager)
    → (on_manager srv r).1.agent_outbox ≡ srv.agent_outbox
on_manager_outbox srv (ok _, m) = refl
on_manager_outbox srv (err e, m) = refl

-- A change of the manager alone, before or after, changes nothing of a dispatch.
Dispatched-around :
    {registry : Dict ExecutableToolSpec} {sid aid tid : String} {args : Fields} (srv : Server)
    (m : Manager) (after later : Server)
    → later.agent_outbox ≡ after.agent_outbox
    → Dispatched registry sid aid tid args (record srv { manager = m }) after
    → Dispatched registry sid aid tid args srv later
Dispatched-around srv m after later e d = record {
  spec = d.spec;
  agent = d.agent;
  envelope = d.envelope;
  known = d.known;
  valid = d.valid;
  found = d.found;
  may_run = d.may_run;
  kind = d.kind;
  target = d.target;
  payload = d.payload;
  sent_to = e ∙ d.sent_to;
}

module _ (p : Platform) (registry : Dict ExecutableToolSpec) (sid device_id : String) where
  conclude_outbox :
      (call : Call) (r : ResultEnvelope) (srv : Server)
      → (conclude p sid device_id call r srv).1.agent_outbox ≡ srv.agent_outbox
  unfolding conclude
  conclude_outbox call r srv =
      if_rule {A = Progress × Server} (λ x. x.1.agent_outbox ≡ srv.agent_outbox) r.success
        (on_manager_outbox srv _) (on_manager_outbox srv _)

  started_outbox :
      (call : Call) (x : Started × Server)
      → (started p sid device_id call x).1.agent_outbox ≡ x.1.agent_outbox
  started_outbox call (returned r, srv) = conclude_outbox call r srv
  started_outbox call (refused code, srv) = on_manager_outbox srv _
  started_outbox call (failed e, srv) = refl
  started_outbox call (waiting request_id future, srv) = refl

  -- Nothing was sent, or one command for the tool and the arguments.
  abbrev SendsTool : String → Fields → Server → Server → Type 0
  SendsTool tool_id arguments srv srv' =
      (srv'.agent_outbox ≡ srv.agent_outbox)
      ⊎ ((aid : String) × Dispatched registry sid aid tool_id arguments srv srv')

  executed-SendsTool :
      (call : Call) (aid : String) (args : Fields) (srv : Server) (m : Manager)
      → SendsTool call.tool_id args srv
          (started p sid device_id call
            (execute_tool p registry sid aid call.tool_id args none (record srv { manager = m }))).1
  executed-SendsTool call aid args srv m =
      let x : Started × Server =
        execute_tool p registry sid aid call.tool_id args none (record srv { manager = m }) in
      elim (execute_tool-Dispatched p registry sid aid call.tool_id args none
        (record srv { manager = m })) [
          | inl same ↦ inl (started_outbox call x ∙ same)
          | inr d ↦ inr (aid, Dispatched-around srv m x.1 _ (started_outbox call x) d)
        ]

  tool-SendsTool :
      (call : Call) (aid : String) (args : Fields) (spec : ExecutableToolSpec)
      (o : Option RegisteredAgent) (srv : Server)
      → SendsTool call.tool_id args srv
          (on_tool p sid device_id registry call aid args spec o srv).1
  tool-SendsTool call aid args spec none srv = inl (on_manager_outbox srv _)
  tool-SendsTool call aid args spec (some agent) srv =
      if_rule {A = Progress × Server} (λ x. SendsTool call.tool_id args srv x.1)
        (not (authorize_tool_execution spec agent.capabilities).allowed)
        (inl (on_manager_outbox srv _)) (executed-SendsTool call aid args srv _)

  agent-SendsTool :
      (call : Call) (args : Fields) (spec : ExecutableToolSpec) (o : Option String) (srv : Server)
      → SendsTool call.tool_id args srv (on_agent p sid device_id registry call args spec o srv).1
  agent-SendsTool call args spec none srv = inl (on_manager_outbox srv _)
  agent-SendsTool call args spec (some aid) srv =
      tool-SendsTool call aid args spec (find_agent sid aid srv.agents) srv

  spec-SendsTool :
      (call : Call) (args : Fields) (o : Option ExecutableToolSpec) (srv : Server)
      → SendsTool call.tool_id args srv (on_spec p sid device_id registry call args o srv).1
  spec-SendsTool call args none srv = inl (on_manager_outbox srv _)
  spec-SendsTool call args (some spec) srv =
      agent-SendsTool call args spec (choose_agent sid srv) srv

  command-SendsTool :
      (call : Call) (args : Fields) (auth : ActionAuthorization) (srv : Server)
      → SendsTool call.tool_id args srv (on_command p sid device_id registry call args auth srv).1
  command-SendsTool call args auth srv =
      if_rule {A = Progress × Server} (λ x. SendsTool call.tool_id args srv x.1) (not auth.allowed)
        (inl (on_manager_outbox srv _))
        (spec-SendsTool call args (get_executable call.tool_id registry) srv)

  -- Nothing was sent, or one command for the tool of the intent, with its parameters.
  abbrev SendsIntent : Intent → Server → Server → Type 0
  SendsIntent intent srv srv' =
      (srv'.agent_outbox ≡ srv.agent_outbox)
      ⊎ ((tool_id : String) × ((resolve_tool_id intent ≡ some tool_id)
            × ((aid : String) × Dispatched registry sid aid tool_id intent.parameters srv srv')))

  resolved-SendsIntent :
      (intent : Intent) (tool_id : String) (srv : Server) (m : Manager) (srv' : Server)
      → resolve_tool_id intent ≡ some tool_id
      → SendsTool tool_id intent.parameters (record srv { manager = m }) srv'
      → SendsIntent intent srv srv'
  resolved-SendsIntent intent tool_id srv m srv' e (inl same) = inl same
  resolved-SendsIntent intent tool_id srv m srv' e (inr (aid, d)) =
      inr (tool_id, (e, (aid, Dispatched-around srv m srv' srv' refl d)))

  tool_id-SendsIntent :
      (o : Option String) (intent : Intent) (focus : Option String) (index : Option ℕ)
      (srv : Server)
      → resolve_tool_id intent ≡ o
      → SendsIntent intent srv (on_tool_id p sid device_id registry o intent focus index srv).1
  tool_id-SendsIntent none intent focus index srv e = inl (on_manager_outbox srv _)
  tool_id-SendsIntent (some tool_id) intent focus index srv e =
      let (id, m1) = uuid4 p srv.manager in
      let (now, m2) = utc_now p m1 in
      resolved-SendsIntent intent tool_id srv m2 _ e (
        command-SendsTool
          (record {
            tool_id = tool_id;
            detail_focus = focus;
            product_index = index;
            had_session = is_some (get_session sid srv.manager);
          })
          intent.parameters (authorize_command (build_command id now sid intent))
          (record srv { manager = m2 }))

  dispatch_tool_intent-SendsIntent :
      (intent : Intent) (focus : Option String) (index : Option ℕ) (srv : Server)
      → SendsIntent intent srv
          (dispatch_tool_intent p sid device_id registry intent focus index srv).1
  unfolding dispatch_tool_intent
  dispatch_tool_intent-SendsIntent intent focus index srv =
      tool_id-SendsIntent (resolve_tool_id intent) intent focus index srv refl

-- One command went out for the text of the user: its tool and arguments are those of an intent that
-- the parser read in the text, or of the follow-up of the text to the last product search.
pub record Instructed (p : Platform) (registry : Dict ExecutableToolSpec) (sid text : String)
    (srv srv' : Server) : Type 0 where
  pub intent : Intent
  pub tool_id : String
  pub agent_id : String
  pub origin :
      ((parse p text).intent ≡ some intent)
      ⊎ ((resolve_product_followup p text (context_of (get_session sid srv.manager))).0.intent
          ≡ some intent)
  pub resolved : resolve_tool_id intent ≡ some tool_id
  pub dispatched : Dispatched registry sid agent_id tool_id intent.parameters srv srv'

module _ (p : Platform) (registry : Dict ExecutableToolSpec) (sid device_id : String)
    (generate : String → String) where
  abbrev Sends : String → Server → Server → Type 0
  Sends text srv srv' =
      (srv'.agent_outbox ≡ srv.agent_outbox) ⊎ Instructed p registry sid text srv srv'

  -- The intent came from the text, and a change of the manager went before.
  intent-Sends :
      (intent : Intent) (text : String) (srv : Server) (m : Manager) (srv' : Server)
      → ((parse p text).intent ≡ some intent)
        ⊎ ((resolve_product_followup p text (context_of (get_session sid srv.manager))).0.intent
            ≡ some intent)
      → SendsIntent p registry sid device_id intent (record srv { manager = m }) srv'
      → Sends text srv srv'
  intent-Sends intent text srv m srv' from (inl same) = inl same
  intent-Sends intent text srv m srv' from (inr (tool_id, (e, (aid, d)))) = inr (record {
    intent = intent;
    tool_id = tool_id;
    agent_id = aid;
    origin = from;
    resolved = e;
    dispatched = Dispatched-around srv m srv' srv' refl d;
  })

  words-outbox :
      (o : Option String) (text : String) (srv : Server)
      → (words_or_talk p sid device_id registry generate o text srv).1.agent_outbox
        ≡ srv.agent_outbox
  words-outbox none text srv = on_manager_outbox srv _
  words-outbox (some words) text srv =
      if_rule {A = Progress × Server} (λ x. x.1.agent_outbox ≡ srv.agent_outbox) (words == "")
        (on_manager_outbox srv _) (on_manager_outbox srv _)

  act_or_talk-Sends :
      (o : Option Intent) (r : FollowUpResolution) (text : String) (srv : Server) (m : Manager)
      → (resolve_product_followup p text (context_of (get_session sid srv.manager))).0.intent ≡ o
      → Sends text srv
          (act_or_talk p sid device_id registry generate o r text (record srv { manager = m })).1
  act_or_talk-Sends none r text srv m e = inl (on_manager_outbox (record srv { manager = m }) _)
  act_or_talk-Sends (some intent) r text srv m e = intent-Sends intent text srv m _ (inr e) (
      dispatch_tool_intent-SendsIntent p registry sid device_id intent r.detail_focus
        r.product_index (record srv { manager = m }))

  followup-Sends :
      (outcome : FollowUpOutcome) (text : String) (srv : Server) (m : Manager)
      → let r = (resolve_product_followup p text (context_of (get_session sid srv.manager))).0 in
        Sends text srv
          (on_followup p sid device_id registry generate outcome r text
            (record srv { manager = m })).1
  followup-Sends no_match text srv m = inl (on_manager_outbox (record srv { manager = m }) _)
  followup-Sends FollowUpOutcome.action text srv m = act_or_talk-Sends _ _ text srv m refl
  followup-Sends selection text srv m = inl (
      words-outbox
        (resolve_product_followup p text (context_of (get_session sid srv.manager))).0.message text
        (record srv { manager = m }))
  followup-Sends clarification text srv m = inl (
      words-outbox
        (resolve_product_followup p text (context_of (get_session sid srv.manager))).0.message text
        (record srv { manager = m }))

  act-Sends :
      (o : Option Intent) (text : String) (srv : Server)
      → (parse p text).intent ≡ o
      → Sends text srv (act p sid device_id registry generate o srv).1
  act-Sends none text srv e = inl refl
  act-Sends (some intent) text srv e =
      intent-Sends intent text srv (set_status p sid device_id thinking srv.manager) _ (inl e) (
        dispatch_tool_intent-SendsIntent p registry sid device_id intent none none
          (record srv { manager = set_status p sid device_id thinking srv.manager }))

  outcome-Sends :
      (outcome : ParseOutcome) (text : String) (srv : Server)
      → Sends text srv
          (on_outcome p sid device_id registry generate outcome (parse p text) text srv).1
  outcome-Sends conversation text srv = followup-Sends _ text srv _
  outcome-Sends ambiguous text srv = inl (on_manager_outbox srv _)
  outcome-Sends command_not_supported text srv = inl (on_manager_outbox srv _)
  outcome-Sends unknown_application text srv = inl (on_manager_outbox srv _)
  outcome-Sends invalid_command text srv = inl (on_manager_outbox srv _)
  outcome-Sends action_command text srv = act-Sends (parse p text).intent text srv refl

  -- The answer to a chat message of a user sends nothing to any agent, or exactly one TOOL_EXECUTE:
  -- for the tool of an intent that the parser read in the text or that is the follow-up of the text
  -- to the last product search, with the parameters of that intent, to an agent registered for the
  -- session; the tool is in the registry, takes the arguments, is enabled, its risk lets it run by
  -- itself, and the agent has the capabilities it requires.
  pub handle_user_message-Instructed :
      (text : String) (srv : Server)
      → ((handle_user_message p sid device_id registry generate text srv).1.agent_outbox
          ≡ srv.agent_outbox)
        ⊎ Instructed p registry sid text srv
            (handle_user_message p sid device_id registry generate text srv).1
  unfolding handle_user_message
  handle_user_message-Instructed text srv =
      if_rule {A = Progress × Server} (λ x. Sends text srv x.1) (is_clear (parse p text))
        (outcome-Sends (parse p text).outcome text srv) (inl (on_manager_outbox srv _))
