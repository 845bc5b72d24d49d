-- ===== src/Diagnostics/StateManager.antt =====
-- app/diagnostics: models.py, anti_loop.py and state_manager.py. The manager owns its detector.
use alpilab_ai.Base.{
  ℕ, suc, ◌+◌, String, Bool, true, false, Option, none, some, List, [], ◌∷◌, ◌++◌, not, ◌&&◌, ◌==◌,
  ltb, leb, if◌then◌else◌, is_some,
}
use alpilab_ai.Base.Exec.{Result, ok, err}
use alpilab_ai.Base.Lists.{length, find, keep}
use alpilab_ai.Base.Platform.{Platform}
use alpilab_ai.Base.Text.{join_colon}
use alpilab_ai.Base.Dict.{Dict, get, put, values}
use alpilab_ai.Base.Json.{Json, Fields}

pub data TestStatus : Type 0 where
  pending in_progress passed failed skipped invalid : TestStatus

pub data EvidenceKind : Type 0 where
  observation measurement hypothesis diagnosis : EvidenceKind

pub data DiagnosisConfidence : Type 0 where
  low medium high confirmed : DiagnosisConfidence

pub record RecordedEvidence : Type 0 where
  pub value : Option Json
  pub unit : Option String
  pub source : Option String
  pub tool_id : Option String
  pub recorded_at : Option ℕ
  pub notes : Option String
  pub confidence : Option DiagnosisConfidence
  pub metadata : Fields

pub record DiagnosticEvidence : Type 0 where
  pub id : String
  pub repair_session_id : String
  pub kind : EvidenceKind
  pub label : String
  pub content : Option String
  pub evidence : Option RecordedEvidence
  pub diagnostic_test_id : Option String
  pub created_at : ℕ

-- The metadata of a test, which nothing writes, are left out.
pub record TestRecord : Type 0 where
  pub id : String
  pub repair_session_id : String
  pub name : String
  pub status : TestStatus
  pub evidence : Option RecordedEvidence
  pub retry_count : ℕ
  pub max_retries : ℕ
  pub last_recommended_at : Option ℕ

-- The event DIAGNOSTIC_TEST_COMPLETED, the only one that is logged.
pub record TestCompleted : Type 0 where
  pub id : String
  pub repair_session_id : String
  pub test_id : String
  pub status : TestStatus
  pub created_at : ℕ

-- `RepeatedRecommendationDetector`; the window is in the unit of the clock
pub record Detector : Type 0 where
  pub window : ℕ
  pub max_repeats : ℕ
  pub history : Dict (List ℕ)

pub record TestManager : Type 0 where
  pub tests : Dict TestRecord
  pub evidence : List DiagnosticEvidence
  pub session_events : List TestCompleted
  pub max_retries : ℕ
  pub detector : Detector
  pub reads : ℕ

abbrev pub entries_of : Option (List ℕ) → List ℕ
entries_of none = []
entries_of (some ts) = ts

unfoldable pub record_recommendation : String → String → ℕ → Detector → Detector
record_recommendation session_id test_name now d =
    let key = join_colon session_id test_name in
    record d {
      history =
          put d.history key
            (keep (λ ts. leb now (ts + d.window)) (entries_of (get d.history key) ++ now ∷ []));
    }

unfoldable pub is_repeated : String → String → Detector → Bool
is_repeated session_id test_name d =
    leb d.max_repeats (length (entries_of (get d.history (join_colon session_id test_name))))

abbrev is_invalid : TestStatus → Bool
is_invalid pending = false
is_invalid in_progress = false
is_invalid passed = false
is_invalid failed = false
is_invalid skipped = false
is_invalid invalid = true

-- PASSED, FAILED or SKIPPED
abbrev is_finished : TestStatus → Bool
is_finished pending = false
is_finished in_progress = false
is_finished passed = true
is_finished failed = true
is_finished skipped = true
is_finished invalid = false

-- PENDING or IN_PROGRESS
abbrev is_unfinished : TestStatus → Bool
is_unfinished pending = true
is_unfinished in_progress = true
is_unfinished passed = false
is_unfinished failed = false
is_unfinished skipped = false
is_unfinished invalid = false

unfoldable pub should_recommend_test : TestRecord → Bool → Bool
should_recommend_test t force =
    if force
    then true
    else if is_finished t.status && (is_some t.evidence && not (is_invalid t.status))
    then false
    else if is_invalid t.status
    then ltb t.retry_count t.max_retries
    else is_unfinished t.status

-- `KeyError`
pub data MissingTest : Type 0 where
  missing_test : String → MissingTest

unfoldable pub get_test : String → TestManager → Option TestRecord
get_test test_id m = get m.tests test_id

unfoldable pub find_test_by_name : String → String → TestManager → Option TestRecord
find_test_by_name session_id test_name m =
    find (λ t. t.repair_session_id == session_id && t.name == test_name) (values m.tests)

abbrev pub start_found :
    String → Option TestRecord → TestManager → Result MissingTest TestRecord × TestManager
start_found test_id none m = (err (missing_test test_id), m)
start_found test_id (some t) m =
    let t' : TestRecord = record t { status = in_progress } in
    (ok t', record m { tests = put m.tests test_id t' })

unfoldable pub start_test : String → TestManager → Result MissingTest TestRecord × TestManager
start_test test_id m = start_found test_id (get m.tests test_id) m

module _ (p : Platform) where
  abbrev uuid4 : TestManager → String × TestManager
  uuid4 m = (p.uuid m.reads, record m { reads = suc m.reads })

  abbrev now : TestManager → ℕ × TestManager
  now m = (p.clock m.reads, record m { reads = suc m.reads })

  unfoldable pub register_test : String → String → TestManager → TestRecord × TestManager
  register_test session_id name m =
      let (id, m1) = uuid4 m in
      let t : TestRecord = record {
        id = id;
        repair_session_id = session_id;
        name = name;
        status = pending;
        evidence = none;
        retry_count = 0;
        max_retries = m.max_retries;
        last_recommended_at = none;
      } in
      (t, record m1 { tests = put m1.tests id t })

  abbrev pub complete_found :
      String
      → TestStatus
      → Option RecordedEvidence
      → Option TestRecord
      → TestManager
      → Result MissingTest TestRecord × TestManager
  complete_found test_id status evidence none m = (err (missing_test test_id), m)
  complete_found test_id status evidence (some t) m =
      let t' : TestRecord = record t { status = status; evidence = evidence } in
      let (id, m1) = uuid4 (record m { tests = put m.tests test_id t' }) in
      let (at, m2) = now m1 in
      let e : TestCompleted = record {
        id = id;
        repair_session_id = t.repair_session_id;
        test_id = test_id;
        status = status;
        created_at = at;
      } in
      (ok t', record m2 { session_events = m2.session_events ++ e ∷ [] })

  unfoldable pub complete_test :
      String
      → TestStatus
      → Option RecordedEvidence
      → TestManager
      → Result MissingTest TestRecord × TestManager
  complete_test test_id status evidence m =
      complete_found test_id status evidence (get m.tests test_id) m

  unfoldable pub add_evidence :
      String
      → EvidenceKind
      → String
      → Option String
      → Option RecordedEvidence
      → Option String
      → TestManager
      → DiagnosticEvidence × TestManager
  add_evidence session_id kind label content evidence test_id m =
      let (id, m1) = uuid4 m in
      let (at, m2) = now m1 in
      let item : DiagnosticEvidence = record {
        id = id;
        repair_session_id = session_id;
        kind = kind;
        label = label;
        content = content;
        evidence = evidence;
        diagnostic_test_id = test_id;
        created_at = at;
      } in
      (item, record m2 { evidence = m2.evidence ++ item ∷ [] })

  -- the recommendation of a test that may be recommended
  abbrev pub recommend : String → String → TestRecord → TestManager → Bool × TestManager
  recommend session_id test_name t m =
      let (at, m1) = now m in
      let (at', m2) =
        now (record m1 { detector = record_recommendation session_id test_name at m1.detector }) in
      (true, record m2 { tests = put m2.tests t.id (record t { last_recommended_at = some at' }) })

  abbrev pub recommend_found : String → String → TestRecord → TestManager → Bool × TestManager
  recommend_found session_id test_name t m =
      if not (should_recommend_test t false)
      then (false, m)
      else if is_repeated session_id test_name m.detector
      then (false, m)
      else recommend session_id test_name t m

  abbrev pub recommend_test : String → String → Option TestRecord → TestManager → Bool × TestManager
  recommend_test session_id test_name (some t) m = recommend_found session_id test_name t m
  recommend_test session_id test_name none m =
      let (t, m1) = register_test session_id test_name m in
      recommend_found session_id test_name t m1

  unfoldable pub recommend_next_test : String → String → TestManager → Bool × TestManager
  recommend_next_test session_id test_name m =
      recommend_test session_id test_name (find_test_by_name session_id test_name m) m
