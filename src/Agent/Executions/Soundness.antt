-- ===== src/Agent/Executions/Soundness.antt =====
-- A request is answered once: the invariant of the store, and what the waiters get.
use alpilab_ai.Base.{
  ℕ, String, false, Option, none, some, List, [], ◌∷◌, ◌=?◌, ◌==◌, ◌≡◌, ◌<◌, ◌≢◌, ◌⊎◌, refl, inl,
  inr, is_some, if◌then◌else◌, arith, eq_iff, Option-cases, ap,
}
use alpilab_ai.Base.Dict.{Dict, get, put, remove, get-put, get-put_cases, get-remove_cases}
use alpilab_ai.Agent.Payloads.{ResultEnvelope}
use alpilab_ai.Agent.Executions.{
  ToolExecutionStore, PendingExecution, Outcome, resolved, timed_out, outcome_of, settle,
  settle_pending, register_pending, register_found, register_new, complete, complete_found,
  fail_pending,
}

-- No request is both pending and completed, a pending request waits for a future that was made and
-- is not done, and no two requests wait for one future.
pub record IsSound (st : ToolExecutionStore) : Type 0 where
  pub apart :
      (k : String) (q : PendingExecution) → get st.pending k ≡ some q → get st.completed k ≡ none
  pub unsettled :
      (k : String) (q : PendingExecution)
      → get st.pending k ≡ some q
      → outcome_of q.future st.outcomes ≡ none
  pub made : (k : String) (q : PendingExecution) → get st.pending k ≡ some q → q.future < st.created
  pub done_made : (f : ℕ) (o : Outcome) → outcome_of f st.outcomes ≡ some o → f < st.created
  pub own :
      (j k : String) (q r : PendingExecution)
      → get st.pending j ≡ some q
      → get st.pending k ≡ some r
      → q.future ≡ r.future
      → j ≡ k

-- What a caller of the store does.
pub data Call : Type 0 where
  registering : String → String → String → String → String → Call
  completing : ResultEnvelope → Call
  failing : String → String → Call

unfoldable pub apply : Call → ToolExecutionStore → ToolExecutionStore
apply (registering r c t a s) st = (register_pending r c t a s st).1
apply (completing result) st = (complete result st).1
apply (failing r error) st = fail_pending r error st

unfoldable pub apply_all : List Call → ToolExecutionStore → ToolExecutionStore
apply_all [] st = st
apply_all (c ∷ cs) st = apply_all cs (apply c st)

outcome-settle :
    (f g : ℕ) (o : Outcome) (done : List (ℕ × Outcome))
    → outcome_of g (settle f o done) ≡ (
        if f =? g
        then (if is_some (outcome_of f done) then outcome_of f done else some o)
        else outcome_of g done)
unfolding settle outcome_of
outcome-settle f g o done = ground arith

outcome_other :
    (f g : ℕ) (o : Outcome) (done : List (ℕ × Outcome))
    → f ≢ g
    → outcome_of g done ≡ none
    → outcome_of g ((f, o) ∷ done) ≡ none
unfolding outcome_of
outcome_other f g o done differs h = ground arith

outcome_cases :
    (f g : ℕ) (o : Outcome) (done : List (ℕ × Outcome)) (o' : Outcome)
    → outcome_of g ((f, o) ∷ done) ≡ some o'
    → (f ≡ g) ⊎ (outcome_of g done ≡ some o')
unfolding outcome_of
outcome_cases f g o done o' e = ground arith

settle_other :
    (f g : ℕ) (o : Outcome) (done : List (ℕ × Outcome))
    → f ≢ g
    → outcome_of g done ≡ none
    → outcome_of g (settle f o done) ≡ none
settle_other f g o done differs h = ground (arith, outcome-settle f g o done)

settle_cases :
    (f g : ℕ) (o o' : Outcome) (done : List (ℕ × Outcome))
    → outcome_of g (settle f o done) ≡ some o'
    → (f ≡ g) ⊎ (outcome_of g done ≡ some o')
settle_cases f g o o' done e = ground (arith, outcome-settle f g o done)

differ : (j k : String) → (j == k) ≡ false → j ≢ k
differ j k e same = ground (arith, eq_iff j k)

created_open : (st : ToolExecutionStore) → IsSound st → outcome_of st.created st.outcomes ≡ none
created_open st h = elim (Option-cases (outcome_of st.created st.outcomes)) [
  | inl open_still ↦ open_still
  | inr done ↦ let b = h.done_made st.created done.0 done.1 in ground arith
]

register_new-IsSound :
    (r c t a s : String) (st : ToolExecutionStore) (found : Option PendingExecution)
    → get st.completed r ≡ none
    → get st.pending r ≡ found
    → IsSound st
    → IsSound (register_new r c t a s found st).1
register_new-IsSound r c t a s st (some q) fresh e h = h
register_new-IsSound r c t a s st none fresh missing h = record {
  apart = λ k q e. elim (get-put_cases st.pending r k _ q e) [
    | inl new ↦ rw (← new.0) fresh
    | inr old ↦ h.apart k q old.1
  ];
  unsettled = λ k q e. elim (get-put_cases st.pending r k _ q e) [
    | inl new ↦ rw (← new.1) (created_open st h)
    | inr old ↦ h.unsettled k q old.1
  ];
  made = λ k q e. elim (get-put_cases st.pending r k _ q e) [
    | inl new ↦ rw (← new.1) (omega arith)
    | inr old ↦ let b = h.made k q old.1 in omega arith
  ];
  done_made = λ f o e. let b = h.done_made f o e in omega arith;
  own = λ j k q q' e e' same. elim (get-put_cases st.pending r j _ q e) [
    | inl new ↦ elim (get-put_cases st.pending r k _ q' e') [
      | inl new' ↦ cc
      | inr old' ↦
          let b = h.made k q' old'.1 in
          let z : st.created ≡ q.future = ap (λ x. x.future) new.1 in ground arith
    ]
    | inr old ↦ elim (get-put_cases st.pending r k _ q' e') [
      | inl new' ↦
          let b = h.made j q old.1 in
          let z : st.created ≡ q'.future = ap (λ x. x.future) new'.1 in ground arith
      | inr old' ↦ h.own j k q q' old.1 old'.1 same
    ]
  ];
}

register_found-IsSound :
    (r c t a s : String) (st : ToolExecutionStore) (found : Option ResultEnvelope)
    → get st.completed r ≡ found
    → IsSound st
    → IsSound (register_found r c t a s found st).1
register_found-IsSound r c t a s st none e h =
    register_new-IsSound r c t a s st (get st.pending r) e refl h
register_found-IsSound r c t a s st (some old) e h = record {
  apart = h.apart;
  unsettled = λ k q e'.
      let b = h.made k q e' in
      outcome_other st.created q.future _ _ (omega arith) (h.unsettled k q e');
  made = λ k q e'. let b = h.made k q e' in omega arith;
  done_made = λ f o e'. elim (outcome_cases st.created f _ st.outcomes o e') [
    | inl new ↦ omega arith
    | inr old' ↦ let b = h.done_made f o old' in omega arith
  ];
  own = h.own;
}

-- What is left after a request is taken out and its future is settled.
settled-IsSound :
    (r : String) (o : Outcome) (st : ToolExecutionStore) (found : Option PendingExecution)
    (completed : Dict ResultEnvelope)
    → get st.pending r ≡ found
    → ((k : String) → (r == k) ≡ false → get st.completed k ≡ none → get completed k ≡ none)
    → IsSound st
    → IsSound (record st {
      pending = remove st.pending r;
      completed = completed;
      outcomes = settle_pending found o st.outcomes;
    })
settled-IsSound r o st none completed e keeps h = record {
  apart = λ k q e'. let c = get-remove_cases st.pending r k q e' in keeps k c.0 (h.apart k q c.1);
  unsettled = λ k q e'. let c = get-remove_cases st.pending r k q e' in h.unsettled k q c.1;
  made = λ k q e'. let c = get-remove_cases st.pending r k q e' in h.made k q c.1;
  done_made = h.done_made;
  own = λ j k q q' e1 e2 same.
      h.own j k q q' (get-remove_cases st.pending r j q e1).1
        (get-remove_cases st.pending r k q' e2).1 same;
}
settled-IsSound r o st (some p) completed e keeps h = record {
  apart = λ k q e'. let c = get-remove_cases st.pending r k q e' in keeps k c.0 (h.apart k q c.1);
  unsettled = λ k q e'.
      let c = get-remove_cases st.pending r k q e' in
      settle_other p.future q.future o st.outcomes
        (λ same. differ r k c.0 (h.own r k p q e c.1 same)) (h.unsettled k q c.1);
  made = λ k q e'. let c = get-remove_cases st.pending r k q e' in h.made k q c.1;
  done_made = λ f o' e'. elim (settle_cases p.future f o o' st.outcomes e') [
    | inl new ↦ let b = h.made r p e in omega arith
    | inr old ↦ h.done_made f o' old
  ];
  own = λ j k q q' e1 e2 same.
      h.own j k q q' (get-remove_cases st.pending r j q e1).1
        (get-remove_cases st.pending r k q' e2).1 same;
}

complete_found-IsSound :
    (result : ResultEnvelope) (st : ToolExecutionStore) (found : Option ResultEnvelope)
    → IsSound st
    → IsSound (complete_found found result st).1
complete_found-IsSound result st (some old) h = h
complete_found-IsSound result st none h =
    settled-IsSound result.request_id (resolved result) st (get st.pending result.request_id)
      (put st.completed result.request_id result) refl
      (λ k other e. ground (arith, get-put st.completed result.request_id k result)) h

-- Every call of the store keeps it sound.
pub apply-IsSound : (c : Call) (st : ToolExecutionStore) → IsSound st → IsSound (apply c st)
unfolding apply register_pending complete fail_pending
apply-IsSound (registering r c t a s) st h =
    register_found-IsSound r c t a s st (get st.completed r) refl h
apply-IsSound (completing result) st h =
    complete_found-IsSound result st (get st.completed result.request_id) h
apply-IsSound (failing r error) st h =
    settled-IsSound r (timed_out error) st (get st.pending r) st.completed refl (λ k _ e. e) h
