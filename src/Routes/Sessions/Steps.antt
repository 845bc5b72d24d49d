-- ===== src/Routes/Sessions/Steps.antt =====
-- The socket of a client step by step, the waits for tools included, among the other clients and
-- the agents that the process serves meanwhile.
use alpilab_ai.Base.{ℕ, String, Option, some, ◌≡◌}
use alpilab_ai.Agent.Executor.{Ended, wake, expire}
use alpilab_ai.Agent.Gateway.{Server}
use alpilab_ai.Conversation.Service.{Call}
use alpilab_ai.Realtime.Manager.Durability.{IsDurable}
use alpilab_ai.Agent.Gateway.Requests.{Request, serve, serve-IsDurable}
use alpilab_ai.Routes.Agents as Agents
use alpilab_ai.Routes.Agents.Durable as Durable
use alpilab_ai.Routes.Sessions.Durable.{
  opened-IsDurable, read-IsDurable, wake-IsDurable, expire-IsDurable,
}
use alpilab_ai.Routes.Sessions.{
  Text, State, listening, awaiting, Turn, Client, Process, read, session_websocket, woken,
}

abbrev pub outcome : Turn → State × Server
outcome turn = (turn.state, turn.server)

-- What the process does for the others: a client opens a socket, its socket reads a text, its tool ends
-- or its time is over; the socket of an agent reads a text; the gateway is asked.
pub data Other (process : Process) : Server → Server → Type 0 where
  opens : (c : Client) (srv : Server) → Other process srv (session_websocket process c srv).server
  speaks : (c : Client) (t : Text) (srv : Server) → Other process srv (read process c t srv).server
  goes_on :
      (c : Client) (call : Call) (request_id : String) (future : ℕ) (e : Ended) (srv : Server)
      → (wake request_id future srv).0 ≡ some e
      → Other process srv (woken process c call e (wake request_id future srv).1).server
  gives_up :
      (c : Client) (call : Call) (request_id : String) (future : ℕ) (srv : Server)
      → Other process srv
          (woken process c call
            (expire request_id future srv).0
            (expire request_id future srv).1).server
  agent_speaks :
      (sid agent_id : String) (channel : ℕ) (t : Agents.Text) (id : Option String) (srv : Server)
      → Other process srv (Agents.read process.platform sid agent_id channel t id srv).server
  asked :
      (sid : String) (r : Request) (srv : Server)
      → Other process srv (serve process.platform sid r srv)

-- A step: the socket reads a text while it listens; while it waits for a tool, the future is done or
-- the time for it is over; or the process does something for the others.
pub data Step (process : Process) (c : Client) : State × Server → State × Server → Type 0 where
  reads :
      {state : State} (t : Text) (srv : Server)
      → state ≡ listening
      → Step process c (state, srv) (outcome (read process c t srv))
  wakes :
      {state : State} (call : Call) (request_id : String) (future : ℕ) (e : Ended) (srv : Server)
      → state ≡ awaiting call request_id future
      → (wake request_id future srv).0 ≡ some e
      → Step process c
          (state, srv)
          (outcome (woken process c call e (wake request_id future srv).1))
  expires :
      {state : State} (call : Call) (request_id : String) (future : ℕ) (srv : Server)
      → state ≡ awaiting call request_id future
      → Step process c
          (state, srv)
          (outcome (
            woken process c call (expire request_id future srv).0 (expire request_id future srv).1))
  others :
      {state : State} {srv srv' : Server}
      → Other process srv srv'
      → Step process c (state, srv) (state, srv')

-- Any number of steps.
pub data Steps (process : Process) (c : Client) : State × Server → State × Server → Type 0 where
  stop : (x : State × Server) → Steps process c x x
  next : {x y z : State × Server} → Step process c x y → Steps process c y z → Steps process c x z

other-IsDurable :
    {process : Process} {srv srv' : Server}
    → Other process srv srv'
    → IsDurable srv.manager
    → IsDurable srv'.manager
other-IsDurable {process} (opens c srv) h = opened-IsDurable process c srv h
other-IsDurable {process} (speaks c t srv) h = read-IsDurable process c t srv h
other-IsDurable {process} (goes_on c call request_id future e srv found) h =
    wake-IsDurable process c call request_id future e srv h
other-IsDurable {process} (gives_up c call request_id future srv) h =
    expire-IsDurable process c call request_id future srv h
other-IsDurable {process} (agent_speaks sid agent_id channel t id srv) h =
    Durable.read-IsDurable process.platform sid agent_id channel t id srv h
other-IsDurable {process} (asked sid r srv) h = serve-IsDurable process.platform sid r srv h

module _ (process : Process) (c : Client) where
  step-IsDurable :
      {x y : State × Server} → Step process c x y → IsDurable x.1.manager → IsDurable y.1.manager
  step-IsDurable (reads t srv listens) h = read-IsDurable process c t srv h
  step-IsDurable (wakes call request_id future e srv waits found) h =
      wake-IsDurable process c call request_id future e srv h
  step-IsDurable (expires call request_id future srv waits) h =
      expire-IsDurable process c call request_id future srv h
  step-IsDurable (others o) h = other-IsDurable o h

  steps-IsDurable :
      {x y : State × Server} → Steps process c x y → IsDurable x.1.manager → IsDurable y.1.manager
  steps-IsDurable (stop x) h = h
  steps-IsDurable (next s ss) h = steps-IsDurable ss (step-IsDurable s h)

-- If every session is saved when a client opens its socket, then every session is saved after the
-- opening and after any steps of the socket, between which the process serves any other clients, agents
-- and requests to the gateway: texts that are read, refused or answered, tools whose results come or
-- whose time runs out, errors and the end of the socket.
pub session_websocket-IsDurable :
    {process : Process} {c : Client} {state : State} {after : Server} (srv : Server)
    → Steps process c (outcome (session_websocket process c srv)) (state, after)
    → IsDurable srv.manager
    → IsDurable after.manager
session_websocket-IsDurable {process} {c} srv steps h =
    steps-IsDurable process c steps (opened-IsDurable process c srv h)
