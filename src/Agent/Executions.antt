-- ===== src/Agent/Executions.antt =====
-- app/agent/execution_store.py: the pending and the completed tool executions. A future is a number;
-- `outcomes` holds what each future that is done ended with, the latest first. The field `created_at`
-- of a pending execution, which nothing reads, is left out.
pub mod Soundness
pub mod Answers
use alpilab_ai.Base.{
  ℕ, suc, String, Bool, true, false, Option, none, some, List, [], ◌∷◌, ◌=?◌, is_some,
  if◌then◌else◌,
}
use alpilab_ai.Base.Dict.{Dict, get, put, remove}
use alpilab_ai.Agent.Payloads.{ResultEnvelope}

pub record PendingExecution : Type 0 where
  pub request_id : String
  pub command_id : String
  pub tool_id : String
  pub agent_id : String
  pub session_id : String
  pub future : ℕ

-- `cancelled` is what `asyncio.wait_for` leaves of a future when its time is over.
pub data Outcome : Type 0 where
  resolved : ResultEnvelope → Outcome
  timed_out : String → Outcome
  cancelled : Outcome

-- `created` counts the futures made.
pub record ToolExecutionStore : Type 0 where
  pub pending : Dict PendingExecution
  pub completed : Dict ResultEnvelope
  pub outcomes : List (ℕ × Outcome)
  pub created : ℕ

unfoldable pub outcome_of : ℕ → List (ℕ × Outcome) → Option Outcome
outcome_of f [] = none
outcome_of f ((g, o) ∷ rest) = if g =? f then some o else outcome_of f rest

-- `if not future.done(): future.set_…`
unfoldable pub settle : ℕ → Outcome → List (ℕ × Outcome) → List (ℕ × Outcome)
settle f o outcomes = if is_some (outcome_of f outcomes) then outcomes else (f, o) ∷ outcomes

unfoldable pub get_completed : String → ToolExecutionStore → Option ResultEnvelope
get_completed request_id st = get st.completed request_id

abbrev pub register_new :
    String
    → String
    → String
    → String
    → String
    → Option PendingExecution
    → ToolExecutionStore
    → ℕ × ToolExecutionStore
register_new request_id command_id tool_id agent_id session_id (some p) st = (p.future, st)
register_new request_id command_id tool_id agent_id session_id none st = (
  st.created,
  record st {
    pending = put st.pending request_id (record {
      request_id = request_id;
      command_id = command_id;
      tool_id = tool_id;
      agent_id = agent_id;
      session_id = session_id;
      future = st.created;
    });
    created = suc st.created;
  },
)

abbrev pub register_found :
    String
    → String
    → String
    → String
    → String
    → Option ResultEnvelope
    → ToolExecutionStore
    → ℕ × ToolExecutionStore
register_found request_id command_id tool_id agent_id session_id (some existing) st = (
  st.created,
  record st { outcomes = (st.created, resolved existing) ∷ st.outcomes; created = suc st.created },
)
register_found request_id command_id tool_id agent_id session_id none st =
    register_new request_id command_id tool_id agent_id session_id (get st.pending request_id) st

unfoldable pub register_pending :
    String → String → String → String → String → ToolExecutionStore → ℕ × ToolExecutionStore
register_pending request_id command_id tool_id agent_id session_id st =
    register_found request_id command_id tool_id agent_id session_id (get st.completed request_id)
      st

abbrev pub settle_pending :
    Option PendingExecution → Outcome → List (ℕ × Outcome) → List (ℕ × Outcome)
settle_pending none o outcomes = outcomes
settle_pending (some p) o outcomes = settle p.future o outcomes

abbrev pub complete_found :
    Option ResultEnvelope → ResultEnvelope → ToolExecutionStore → Bool × ToolExecutionStore
complete_found (some old) result st = (false, st)
complete_found none result st = (
  true,
  record st {
    completed = put st.completed result.request_id result;
    pending = remove st.pending result.request_id;
    outcomes = settle_pending (get st.pending result.request_id) (resolved result) st.outcomes;
  },
)

unfoldable pub complete : ResultEnvelope → ToolExecutionStore → Bool × ToolExecutionStore
complete result st = complete_found (get st.completed result.request_id) result st

unfoldable pub fail_pending : String → String → ToolExecutionStore → ToolExecutionStore
fail_pending request_id error st = record st {
  pending = remove st.pending request_id;
  outcomes = settle_pending (get st.pending request_id) (timed_out error) st.outcomes;
}

unfoldable pub clear : ToolExecutionStore → ToolExecutionStore
clear st = record st { pending = []; completed = [] }
