-- ===== src/Diagnostics/Recommendations.antt =====
-- How often a test is recommended.
use alpilab_ai.Base.{
  ℕ, suc, ◌+◌, ◌≤◌, ◌<◌, String, Bool, true, false, Option, none, some, List, [], ◌∷◌, ◌++◌, not,
  ◌==◌, ◌≡◌, ◌⊎◌, refl, inl, inr, leb, if◌then◌else◌, Bool-cases, arith, eq_iff, sym, ap, ◌∙◌,
  if_rule,
}
use alpilab_ai.Base.Lists.{length, keep}
use alpilab_ai.Base.Platform.{Platform}
use alpilab_ai.Base.Text.{join_colon}
use alpilab_ai.Base.Dict.{Dict, get, put, get-put}
use alpilab_ai.Diagnostics.StateManager.{
  TestStatus, RecordedEvidence, TestRecord, Detector, TestManager, entries_of,
  record_recommendation, is_repeated, should_recommend_test, find_test_by_name, start_test,
  start_found, complete_found, register_test, complete_test, recommend_found, recommend_test,
  recommend_next_test,
}

-- What is asked of the manager.
pub data Call : Type 0 where
  registering : String → String → Call
  starting : String → Call
  completing : String → TestStatus → Option RecordedEvidence → Call
  recommending : String → String → Call

-- No test has more recommendations on record than are allowed.
pub record IsBounded (d : Detector) : Type 0 where
  pub at : (k : String) → length (entries_of (get d.history k)) ≤ d.max_repeats

-- The detector is as before, or a recommendation was recorded that was not a repeated one.
abbrev Progress : Detector → Detector → Type 0
Progress d d' =
    (d' ≡ d)
    ⊎ ((session_id test_name : String) × (now : ℕ) × (is_repeated session_id test_name d ≡ false)
        × (d' ≡ record_recommendation session_id test_name now d))

length-keep : {A : Type 0} (p : A → Bool) (xs : List A) → length (keep p xs) ≤ length xs
unfolding keep
length-keep p [] = omega arith
length-keep p (x ∷ xs) = elim (Bool-cases (p x)) [
  | inl kept ↦ rw kept (let b = length-keep p xs in omega arith)
  | inr dropped ↦ rw dropped (let b = length-keep p xs in omega arith)
]

length-snoc : {A : Type 0} (xs : List A) (x : A) → length (xs ++ x ∷ []) ≡ suc (length xs)
length-snoc [] x = refl
length-snoc (y ∷ xs) x = ap suc (length-snoc xs x)

entries-put :
    (h : Dict (List ℕ)) (k j : String) (ts : List ℕ)
    → entries_of (get (put h k ts) j) ≡ (if k == j then ts else entries_of (get h j))
entries-put h k j ts = elim (Bool-cases (k == j)) [
  | inl same ↦ rw (get-put h k j ts, same) refl
  | inr other ↦ rw (get-put h k j ts, other) refl
]

not_repeated : (a b : ℕ) → leb a b ≡ false → b < a
not_repeated a b e = ground arith

Progress-IsBounded : (d d' : Detector) → Progress d d' → IsBounded d → IsBounded d'
unfolding is_repeated record_recommendation
Progress-IsBounded d d' (inl same) h = rw same h
Progress-IsBounded d d' (inr (s, n, now, new, e)) h = rw e (record {
  at = λ k.
      let ts = entries_of (get d.history (join_colon s n)) in
      let fewer : length (keep (λ t. leb now (t + d.window)) (ts ++ now ∷ [])) ≤ suc (length ts) =
        rw (← length-snoc ts now) (length-keep _ (ts ++ now ∷ [])) in
      let room : length ts < d.max_repeats = not_repeated d.max_repeats (length ts) new in
      let old = h.at k in
      elim (Bool-cases (join_colon s n == k)) [
        | inl same ↦ rw (entries-put d.history (join_colon s n) k _, same) (omega arith)
        | inr other ↦ rw (entries-put d.history (join_colon s n) k _, other) old
      ];
})

-- A repeated test stays repeated.
Progress-repeated :
    (d d' : Detector) (s n : String)
    → Progress d d'
    → is_repeated s n d ≡ true
    → is_repeated s n d' ≡ true
unfolding is_repeated record_recommendation
Progress-repeated d d' s n (inl same) h = rw same h
Progress-repeated d d' s n (inr (s', n', now, new, e)) h =
    rw e (elim (Bool-cases (join_colon s' n' == join_colon s n)) [
      | inl same ↦
          let key : join_colon s' n' ≡ join_colon s n =
            ground (arith, eq_iff (join_colon s' n') (join_colon s n)) in
          let clash : false ≡ true = sym (rw key at new) ∙ h in cc
      | inr other ↦ rw (entries-put d.history (join_colon s' n') (join_colon s n) _, other) h
    ])

start_found-detector :
    (test_id : String) (o : Option TestRecord) (m : TestManager)
    → (start_found test_id o m).1.detector ≡ m.detector
start_found-detector test_id none m = refl
start_found-detector test_id (some t) m = refl

module _ (p : Platform) where
  unfoldable pub apply : Call → TestManager → TestManager
  apply (registering s n) m = (register_test p s n m).1
  apply (starting test_id) m = (start_test test_id m).1
  apply (completing test_id status evidence) m = (complete_test p test_id status evidence m).1
  apply (recommending s n) m = (recommend_next_test p s n m).1

  unfoldable pub apply_all : List Call → TestManager → TestManager
  apply_all [] m = m
  apply_all (c ∷ cs) m = apply_all cs (apply c m)

  complete_found-detector :
      (test_id : String) (status : TestStatus) (evidence : Option RecordedEvidence)
      (o : Option TestRecord) (m : TestManager)
      → (complete_found p test_id status evidence o m).1.detector ≡ m.detector
  complete_found-detector test_id status evidence none m = refl
  complete_found-detector test_id status evidence (some t) m = refl

  found-Progress :
      (s n : String) (t : TestRecord) (m : TestManager)
      → Progress m.detector (recommend_found p s n t m).1.detector
  found-Progress s n t m =
      if_rule {A = Bool × TestManager} (λ r. Progress m.detector r.1.detector)
        (not (should_recommend_test t false)) (inl refl)
        (elim (Bool-cases (is_repeated s n m.detector)) [
          | inl again ↦ rw again (inl refl)
          | inr new ↦ rw new (inr (s, n, _, new, refl))
        ])

  recommended-Progress :
      (s n : String) (o : Option TestRecord) (m : TestManager)
      → Progress m.detector (recommend_test p s n o m).1.detector
  unfolding register_test
  recommended-Progress s n none m = found-Progress s n _ _
  recommended-Progress s n (some t) m = found-Progress s n t m

  apply-Progress : (c : Call) (m : TestManager) → Progress m.detector (apply c m).detector
  unfolding apply register_test start_test complete_test recommend_next_test
  apply-Progress (registering s n) m = inl refl
  apply-Progress (starting test_id) m = inl (start_found-detector test_id (get m.tests test_id) m)
  apply-Progress (completing test_id status evidence) m =
      inl (complete_found-detector test_id status evidence (get m.tests test_id) m)
  apply-Progress (recommending s n) m = recommended-Progress s n (find_test_by_name s n m) m

  -- If no test has more recommendations on record than are allowed, then none has after any
  -- registrations, starts, completions and recommendations.
  pub apply_all-IsBounded :
      (cs : List Call) (m : TestManager)
      → IsBounded m.detector
      → IsBounded (apply_all cs m).detector
  unfolding apply_all
  apply_all-IsBounded [] m h = h
  apply_all-IsBounded (c ∷ cs) m h =
      apply_all-IsBounded cs (apply c m)
        (Progress-IsBounded m.detector (apply c m).detector (apply-Progress c m) h)

  all-repeated :
      (cs : List Call) (s n : String) (m : TestManager)
      → is_repeated s n m.detector ≡ true
      → is_repeated s n (apply_all cs m).detector ≡ true
  unfolding apply_all
  all-repeated [] s n m h = h
  all-repeated (c ∷ cs) s n m h =
      all-repeated cs s n (apply c m)
        (Progress-repeated m.detector (apply c m).detector s n (apply-Progress c m) h)

  found_refused :
      (s n : String) (t : TestRecord) (m : TestManager)
      → is_repeated s n m.detector ≡ true
      → (recommend_found p s n t m).0 ≡ false
  found_refused s n t m h =
      if_rule {A = Bool × TestManager} (λ r. r.0 ≡ false) (not (should_recommend_test t false)) refl
        (rw h refl)

  recommended_refused :
      (s n : String) (o : Option TestRecord) (m : TestManager)
      → is_repeated s n m.detector ≡ true
      → (recommend_test p s n o m).0 ≡ false
  unfolding register_test
  recommended_refused s n none m h = found_refused s n _ _ h
  recommended_refused s n (some t) m h = found_refused s n t m h

  -- A test of a session that was recommended as often as allowed is never recommended again, after
  -- any registrations, starts, completions and recommendations, and however much time they take.
  pub recommend_next_test_exhausted :
      (cs : List Call) (s n : String) (m : TestManager)
      → is_repeated s n m.detector ≡ true
      → (recommend_next_test p s n (apply_all cs m)).0 ≡ false
  unfolding recommend_next_test
  recommend_next_test_exhausted cs s n m h =
      recommended_refused s n _ (apply_all cs m) (all-repeated cs s n m h)
