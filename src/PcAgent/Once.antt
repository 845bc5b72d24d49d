-- ===== src/PcAgent/Once.antt =====
-- A tool runs once for a request: a success is remembered and given again.
use alpilab_ai.Base.{
  ℕ, String, true, Option, none, some, List, [], ◌∷◌, not, ◌==◌, ◌≡◌, ◌⊎◌, refl, inl, inr,
  Bool-cases, if_rule,
}
use alpilab_ai.Base.Dict.{get, get-put_same, get-put_new}
use alpilab_ai.Base.Json.{Fields}
use alpilab_ai.PcAgent.Dispatcher.{
  Handled, gave, app_error, raised, LocalToolSpec, ResultMessage, Dispatcher, Call, result_message,
  after_handler, has_capability, same_keys, on_spec, on_cache, dispatch,
}
use alpilab_ai.PcAgent.Commands.{
  Command, is_allowed_command, rejection, pong, call_of, handle_command,
}

module _ {W : Type 0} (clock : ℕ → ℕ) where
  abbrev Remembers : String → ResultMessage → Dispatcher W → Type 0
  Remembers k r d = get d.completed k ≡ some r

  handled-Remembers :
      (k : String) (r : ResultMessage) (c : Call) (x : Handled × W) (d : Dispatcher W)
      → get d.completed c.request_id ≡ none
      → Remembers k r d
      → Remembers k r (after_handler clock c x d).1
  unfolding result_message
  handled-Remembers k r c (gave result, w) d fresh h =
      get-put_new d.completed c.request_id k _ r fresh h
  handled-Remembers k r c (app_error code, w) d fresh h = h
  handled-Remembers k r c (raised code, w) d fresh h = h

  spec-Remembers :
      (k : String) (r : ResultMessage) (c : Call) (arguments : Fields)
      (o : Option (LocalToolSpec W)) (d : Dispatcher W)
      → get d.completed c.request_id ≡ none
      → Remembers k r d
      → Remembers k r (on_spec clock c arguments o d).1
  unfolding result_message
  spec-Remembers k r c arguments none d fresh h = h
  spec-Remembers k r c arguments (some spec) d fresh h =
      if_rule {A = ResultMessage × Dispatcher W} (λ x. Remembers k r x.1)
        (not (has_capability clock spec.required_capability d)) h
        (if_rule {A = ResultMessage × Dispatcher W} (λ x. Remembers k r x.1)
          (not (same_keys clock arguments spec)) h
          (handled-Remembers k r c (spec.handler arguments d.bench) d fresh h))

  cache-Remembers :
      (k : String) (r : ResultMessage) (c : Call) (arguments : Fields) (o : Option ResultMessage)
      (d : Dispatcher W)
      → get d.completed c.request_id ≡ o
      → Remembers k r d
      → Remembers k r (on_cache clock c arguments o d).1
  cache-Remembers k r c arguments (some old) d e h = h
  cache-Remembers k r c arguments none d e h =
      spec-Remembers k r c arguments (get d.registry c.tool_id) d e h

  command-Remembers :
      (k : String) (r : ResultMessage) (c : Command) (agent_id : String) (d : Dispatcher W)
      → Remembers k r d
      → Remembers k r (handle_command clock c agent_id d).1
  unfolding handle_command rejection pong dispatch
  command-Remembers k r c agent_id d h =
      if_rule {A = Option ResultMessage × Dispatcher W} (λ x. Remembers k r x.1)
        (c.request_id == "") h
        (if_rule {A = Option ResultMessage × Dispatcher W} (λ x. Remembers k r x.1)
          (not (is_allowed_command c.kind)) h
          (if_rule {A = Option ResultMessage × Dispatcher W} (λ x. Remembers k r x.1)
            (c.kind == "AGENT_TEST") h
            (if_rule {A = Option ResultMessage × Dispatcher W} (λ x. Remembers k r x.1)
              (c.kind == "TOOL_EXECUTE")
              (cache-Remembers k r (call_of agent_id c) c.arguments (get d.completed c.request_id) d
                refl h)
              h)))

  -- The state after commands for agents.
  unfoldable pub handle_all : List (Command × String) → Dispatcher W → Dispatcher W
  handle_all [] d = d
  handle_all ((c, agent_id) ∷ cs) d = handle_all cs (handle_command clock c agent_id d).1

  all-Remembers :
      (k : String) (r : ResultMessage) (cs : List (Command × String)) (d : Dispatcher W)
      → Remembers k r d
      → Remembers k r (handle_all cs d)
  unfolding handle_all
  all-Remembers k r [] d h = h
  all-Remembers k r ((c, agent_id) ∷ cs) d h =
      all-Remembers k r cs (handle_command clock c agent_id d).1
        (command-Remembers k r c agent_id d h)

  success_handled :
      (c : Call) (x : Handled × W) (d : Dispatcher W)
      → (after_handler clock c x d).0.success ≡ true
      → Remembers c.request_id (after_handler clock c x d).0 (after_handler clock c x d).1
  unfolding result_message
  success_handled c (gave result, w) d e = get-put_same d.completed c.request_id _
  success_handled c (app_error code, w) d e = cc
  success_handled c (raised code, w) d e = cc

  success_spec :
      (c : Call) (arguments : Fields) (o : Option (LocalToolSpec W)) (d : Dispatcher W)
      → (on_spec clock c arguments o d).0.success ≡ true
      → Remembers c.request_id (on_spec clock c arguments o d).0 (on_spec clock c arguments o d).1
  unfolding result_message
  success_spec c arguments none d = λ e. cc
  success_spec c arguments (some spec) d =
      if_rule {A = ResultMessage × Dispatcher W}
        (λ x. x.0.success ≡ true → Remembers c.request_id x.0 x.1)
        (not (has_capability clock spec.required_capability d)) (λ e. cc)
        (if_rule {A = ResultMessage × Dispatcher W}
          (λ x. x.0.success ≡ true → Remembers c.request_id x.0 x.1)
          (not (same_keys clock arguments spec)) (λ e. cc)
          (success_handled c (spec.handler arguments d.bench) d))

  success_cached :
      (c : Call) (arguments : Fields) (o : Option ResultMessage) (d : Dispatcher W)
      → get d.completed c.request_id ≡ o
      → (on_cache clock c arguments o d).0.success ≡ true
      → Remembers c.request_id (on_cache clock c arguments o d).0 (on_cache clock c arguments o d).1
  success_cached c arguments (some old) d found e = found
  success_cached c arguments none d found e =
      success_spec c arguments (get d.registry c.tool_id) d e

  -- Once a call has succeeded, every later call under its request id, whatever its tool and arguments
  -- and after any commands, gives the same message and changes nothing: no handler runs again.
  pub dispatch_once :
      (c again : Call) (arguments arguments' : Fields) (cs : List (Command × String))
      (d : Dispatcher W)
      → (dispatch clock c arguments d).0.success ≡ true
      → again.request_id ≡ c.request_id
      → let later : Dispatcher W = handle_all cs (dispatch clock c arguments d).1 in
        dispatch clock again arguments' later ≡ ((dispatch clock c arguments d).0, later)
  unfolding dispatch
  dispatch_once c again arguments arguments' cs d done same =
      let first : ResultMessage × Dispatcher W =
        on_cache clock c arguments (get d.completed c.request_id) d in
      let kept : get (handle_all cs first.1).completed c.request_id ≡ some first.0 =
        all-Remembers c.request_id first.0 cs first.1
          (success_cached c arguments (get d.completed c.request_id) d refl done) in
      rw (same, kept) refl

  -- The bench is as before, or the handler of a registered tool has acted on it, once.
  abbrev pub Acted : Call → Fields → Dispatcher W → Dispatcher W → Type 0
  Acted c arguments d d' =
      (d'.bench ≡ d.bench)
      ⊎ ((spec : LocalToolSpec W) × (get d.registry c.tool_id ≡ some spec)
          × (get d.completed c.request_id ≡ none)
          × (has_capability clock spec.required_capability d ≡ true)
          × (same_keys clock arguments spec ≡ true)
          × (d'.bench ≡ (spec.handler arguments d.bench).1))

  bench_handled :
      (c : Call) (x : Handled × W) (d : Dispatcher W) → (after_handler clock c x d).1.bench ≡ x.1
  unfolding result_message
  bench_handled c (gave result, w) d = refl
  bench_handled c (app_error code, w) d = refl
  bench_handled c (raised code, w) d = refl

  spec-Acted :
      (c : Call) (arguments : Fields) (o : Option (LocalToolSpec W)) (d : Dispatcher W)
      → get d.registry c.tool_id ≡ o
      → get d.completed c.request_id ≡ none
      → Acted c arguments d (on_spec clock c arguments o d).1
  unfolding result_message
  spec-Acted c arguments none d known fresh = inl refl
  spec-Acted c arguments (some spec) d known fresh =
      elim (Bool-cases (has_capability clock spec.required_capability d)) [
        | inr lacks ↦ rw lacks (inl refl)
        | inl has ↦ elim (Bool-cases (same_keys clock arguments spec)) [
          | inr differ ↦ rw (has, differ) (inl refl)
          | inl fit ↦
              rw (has, fit)
                (inr (
                  spec,
                  known,
                  fresh,
                  has,
                  fit,
                  bench_handled c (spec.handler arguments d.bench) d,
                ))
        ]
      ]

  cache-Acted :
      (c : Call) (arguments : Fields) (o : Option ResultMessage) (d : Dispatcher W)
      → get d.completed c.request_id ≡ o
      → Acted c arguments d (on_cache clock c arguments o d).1
  cache-Acted c arguments (some old) d found = inl refl
  cache-Acted c arguments none d found =
      spec-Acted c arguments (get d.registry c.tool_id) d refl found

  -- A call leaves the bench alone, or runs one handler on it, once, with the call's arguments: the
  -- handler of the tool's registered spec, for a request that has not succeeded before, with the
  -- capability that the spec requires and exactly the argument keys that it allows.
  pub dispatch-Acted :
      (c : Call) (arguments : Fields) (d : Dispatcher W)
      → Acted c arguments d (dispatch clock c arguments d).1
  unfolding dispatch
  dispatch-Acted c arguments d = cache-Acted c arguments (get d.completed c.request_id) d refl
