-- ===== src/Agent/Executions/Answers.antt =====
-- What the waiters of a request get, and that an answer stays.
use alpilab_ai.Base.{
  ℕ, String, Bool, true, false, Option, none, some, List, [], ◌∷◌, ◌==◌, ◌≡◌, refl, arith, eq_iff,
  eq_refl,
}
use alpilab_ai.Base.Lists.{All}
use alpilab_ai.Base.Dict.{get, get-put, get-put_new, get-put_same, get-remove}
use alpilab_ai.Agent.Payloads.{ResultEnvelope}
use alpilab_ai.Agent.Executions.{
  ToolExecutionStore, PendingExecution, resolved, outcome_of, settle, register_pending,
  register_found, register_new, complete, complete_found, fail_pending, get_completed,
}
use alpilab_ai.Agent.Executions.Soundness.{
  IsSound, Call, registering, completing, failing, apply, apply_all, apply-IsSound,
}

-- Every sequence of calls keeps the store sound.
pub apply_all-IsSound :
    (cs : List Call) (st : ToolExecutionStore) → IsSound st → IsSound (apply_all cs st)
unfolding apply_all
apply_all-IsSound [] st h = h
apply_all-IsSound (c ∷ cs) st h = apply_all-IsSound cs (apply c st) (apply-IsSound c st h)

register_new-keeps :
    (r c t a s k : String) (st : ToolExecutionStore) (found : Option PendingExecution)
    → get (register_new r c t a s found st).1.completed k ≡ get st.completed k
register_new-keeps r c t a s k st none = refl
register_new-keeps r c t a s k st (some q) = refl

register_found-keeps :
    (r c t a s k : String) (st : ToolExecutionStore) (found : Option ResultEnvelope)
    → get (register_found r c t a s found st).1.completed k ≡ get st.completed k
register_found-keeps r c t a s k st (some old) = refl
register_found-keeps r c t a s k st none = register_new-keeps r c t a s k st (get st.pending r)

complete_found-keeps :
    (result old : ResultEnvelope) (k : String) (st : ToolExecutionStore)
    (found : Option ResultEnvelope)
    → get st.completed result.request_id ≡ found
    → get st.completed k ≡ some old
    → get (complete_found found result st).1.completed k ≡ some old
complete_found-keeps result old k st (some x) e h = h
complete_found-keeps result old k st none e h =
    ground (arith, get-put st.completed result.request_id k result, eq_iff result.request_id k)

apply-keeps :
    (c : Call) (k : String) (old : ResultEnvelope) (st : ToolExecutionStore)
    → get st.completed k ≡ some old
    → get (apply c st).completed k ≡ some old
unfolding apply register_pending complete fail_pending
apply-keeps (registering r c t a s) k old st h =
    rw (register_found-keeps r c t a s k st (get st.completed r)) h
apply-keeps (completing result) k old st h =
    complete_found-keeps result old k st (get st.completed result.request_id) refl h
apply-keeps (failing r error) k old st h = h

-- A completed result never changes: whatever results, registrations and timeouts come after it.
pub get_completed-apply_all :
    (cs : List Call) (k : String) (old : ResultEnvelope) (st : ToolExecutionStore)
    → get_completed k st ≡ some old
    → get_completed k (apply_all cs st) ≡ some old
unfolding get_completed apply_all
get_completed-apply_all [] k old st h = h
get_completed-apply_all (c ∷ cs) k old st h =
    get_completed-apply_all cs k old (apply c st) (apply-keeps c k old st h)

-- The call can settle the future that the request waits for.
abbrev pub ends : String → Call → Bool
ends k (registering r c t a s) = false
ends k (completing result) = result.request_id == k
ends k (failing r error) = r == k

-- The request waits for the future.
abbrev pub Waits : String → ℕ → ToolExecutionStore → Type 0
Waits k f st = (q : PendingExecution) × (get st.pending k ≡ some q) × (q.future ≡ f)

register_new-Waits :
    (r c t a s k : String) (f : ℕ) (st : ToolExecutionStore) (found : Option PendingExecution)
    → get st.pending r ≡ found
    → Waits k f st
    → Waits k f (register_new r c t a s found st).1
register_new-Waits r c t a s k f st (some q) e h = h
register_new-Waits r c t a s k f st none e h = (h.0, get-put_new st.pending r k _ h.0 e h.1, h.2)

register_found-Waits :
    (r c t a s k : String) (f : ℕ) (st : ToolExecutionStore) (found : Option ResultEnvelope)
    → Waits k f st
    → Waits k f (register_found r c t a s found st).1
register_found-Waits r c t a s k f st (some old) h = h
register_found-Waits r c t a s k f st none h =
    register_new-Waits r c t a s k f st (get st.pending r) refl h

complete_found-Waits :
    (result : ResultEnvelope) (k : String) (f : ℕ) (st : ToolExecutionStore)
    (found : Option ResultEnvelope)
    → (result.request_id == k) ≡ false
    → Waits k f st
    → Waits k f (complete_found found result st).1
complete_found-Waits result k f st (some old) other h = h
complete_found-Waits result k f st none other h =
    (h.0, ground (arith, h.1, get-remove st.pending result.request_id k), h.2)

apply-Waits :
    (c : Call) (k : String) (f : ℕ) (st : ToolExecutionStore)
    → ends k c ≡ false
    → Waits k f st
    → Waits k f (apply c st)
unfolding apply register_pending complete fail_pending
apply-Waits (registering r c t a s) k f st e h =
    register_found-Waits r c t a s k f st (get st.completed r) h
apply-Waits (completing result) k f st e h =
    complete_found-Waits result k f st (get st.completed result.request_id) e h
apply-Waits (failing r error) k f st e h =
    (h.0, ground (arith, h.1, get-remove st.pending r k), h.2)

apply_all-Waits :
    (cs : List Call) (k : String) (f : ℕ) (st : ToolExecutionStore)
    → All (λ c. ends k c ≡ false) cs
    → Waits k f st
    → Waits k f (apply_all cs st)
unfolding apply_all
apply_all-Waits [] k f st e h = h
apply_all-Waits (c ∷ cs) k f st e h =
    apply_all-Waits cs k f (apply c st) e.1 (apply-Waits c k f st e.0 h)

register_new-starts :
    (r c t a s : String) (st : ToolExecutionStore) (found : Option PendingExecution)
    → get st.pending r ≡ found
    → Waits r (register_new r c t a s found st).0 (register_new r c t a s found st).1
register_new-starts r c t a s st (some q) e = (q, e, refl)
register_new-starts r c t a s st none e = (_, get-put_same st.pending r _, refl)

register_pending-starts :
    (r c t a s : String) (st : ToolExecutionStore)
    → get_completed r st ≡ none
    → Waits r (register_pending r c t a s st).0 (register_pending r c t a s st).1
unfolding register_pending get_completed
register_pending-starts r c t a s st e =
    rw e (register_new-starts r c t a s st (get st.pending r) refl)

complete-answers :
    (result : ResultEnvelope) (f : ℕ) (st : ToolExecutionStore)
    → IsSound st
    → Waits result.request_id f st
    → ((complete result st).0 ≡ true)
      × (outcome_of f (complete result st).1.outcomes ≡ some (resolved result))
      × (get_completed result.request_id (complete result st).1 ≡ some result)
unfolding complete get_completed settle outcome_of
complete-answers result f st h w =
    let fresh = h.apart result.request_id w.0 w.1 in
    let undone = h.unsettled result.request_id w.0 w.1 in
    rw fresh rw w.1 (
      refl,
      ground arith,
      ground (
        arith,
        get-put st.completed result.request_id result.request_id result,
        eq_refl result.request_id,
      ),
    )

-- In a sound store, whoever registers a request that is not completed gets its answer: after any
-- calls that neither complete nor fail this request, the result that comes for it is new, it
-- resolves the future that was given, and it is the completed result of the request.
pub register_pending_answered :
    (c t a s : String) (cs : List Call) (result : ResultEnvelope) (st : ToolExecutionStore)
    → IsSound st
    → get_completed result.request_id st ≡ none
    → All (λ x. ends result.request_id x ≡ false) cs
    → let started : ℕ × ToolExecutionStore = register_pending result.request_id c t a s st in
      let later : ToolExecutionStore = apply_all cs started.1 in
      ((complete result later).0 ≡ true)
      × (outcome_of started.0 (complete result later).1.outcomes ≡ some (resolved result))
      × (get_completed result.request_id (complete result later).1 ≡ some result)
register_pending_answered c t a s cs result st h fresh others =
    let started : ℕ × ToolExecutionStore = register_pending result.request_id c t a s st in
    let sound : IsSound started.1 =
      unfold apply in apply-IsSound (registering result.request_id c t a s) st h in
    complete-answers result started.0 (apply_all cs started.1)
      (apply_all-IsSound cs started.1 sound)
      (apply_all-Waits cs result.request_id started.0 started.1 others
        (register_pending-starts result.request_id c t a s st fresh))
