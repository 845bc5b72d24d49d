-- ===== src/Realtime/Sync.antt =====
-- app/realtime/state_sync.py: the changes that a request makes to a session.
use alpilab_ai.Base.{
  String, Bool, true, false, Option, none, some, List, [], ◌∷◌, ◌==◌, if◌then◌else◌,
}
use alpilab_ai.Base.Exec.{Result, ok, err}
use alpilab_ai.Base.Platform.{Platform}
use alpilab_ai.Base.Text.{strip}
use alpilab_ai.Realtime.Payloads.{Error, rejected, AssistantStatus, DiagnosticTest}
use alpilab_ai.Realtime.DeviceContext.{truthy}
use alpilab_ai.Realtime.Events.{Changes, ContextChanges}
use alpilab_ai.Realtime.Measurement.{evaluate_measurement, reject_measurement}

abbrev pub no_context : ContextChanges
no_context = record {
  label = none;
  device = none;
  issue = none;
  status = none;
  diagnosis_label = none;
}

abbrev pub no_changes : Changes
no_changes = record { repair_context = none; assistant_status = none; diagnostic_test = none }

-- The loop writes the first test with the id; the test written comes back beside the list.
unfoldable pub write_test :
    String → String → String → List DiagnosticTest → Option (DiagnosticTest × List DiagnosticTest)
write_test test_id value status [] = none
write_test test_id value status (t ∷ ts) =
    if t.id == test_id
    then (let t' = record t { value = some value; status = status } in some (t', t' ∷ ts))
    else elim (write_test test_id value status ts) [
      | none ↦ none
      | some (t', ts') ↦ some (t', t ∷ ts')
    ]

-- The tests after the update, and the change.
unfoldable pub apply_diagnostic_update :
    Platform → List DiagnosticTest → String → String → Result Error (List DiagnosticTest × Changes)
unfolding write_test
apply_diagnostic_update p diagnostics test_id value = elim (evaluate_measurement p value) [
  | err e ↦ err e
  | ok (formatted, status) ↦ elim (write_test test_id formatted status diagnostics) [
    | none ↦ err (reject_measurement "diagnostic test not found")
    | some (t, ts) ↦ ok (ts, record no_changes { diagnostic_test = some t })
  ]
]

unfoldable pub apply_diagnosis_pause : Bool → Changes
apply_diagnosis_pause true = record no_changes {
  repair_context = some (record no_context {
    status = some (some "paused");
    diagnosis_label = some (some "Diagnosis paused");
  });
}
apply_diagnosis_pause false = record no_changes {
  repair_context = some (record no_context {
    status = some (some "active");
    diagnosis_label = some (some "Diagnosis in progress");
  });
}

-- `x.strip() or None`, where x is given
abbrev stripped : Option String → Option (Option String)
stripped none = none
stripped (some s) = some (truthy (some (strip s)))

-- `if not ctx`
abbrev refuse_empty :
    ContextChanges → Option String → Option String → Option String → Result Error Changes
refuse_empty ctx none none none =
    err
      (rejected "repair_context_update requires at least one field" (some "repair_context_update"))
refuse_empty ctx _ _ _ = ok (record no_changes { repair_context = some ctx })

unfoldable pub apply_repair_context_update :
    Option String → Option String → Option String → Result Error Changes
apply_repair_context_update device issue label =
    refuse_empty
      (record no_context {
        label = stripped label;
        device = stripped device;
        issue = stripped issue;
      })
      device issue label

unfoldable pub apply_assistant_status_change : AssistantStatus → Changes
apply_assistant_status_change status = record no_changes { assistant_status = some status }
