-- ===== src/Tests/Workbench.antt =====
-- The PC agent's dispatcher and the diagnostics: the properties at concrete inputs.
use alpilab_ai.Base.{ℕ, suc, true, false, none, List, [], ◌∷◌, ◌≡◌, refl, arith}
use alpilab_ai.Base.Dict.{get, put}
use alpilab_ai.Base.Json.{end, keys}
use alpilab_ai.Base.Text.{join_colon}
use alpilab_ai.Tools.Executable.{is_subset}
use alpilab_ai.PcAgent.Dispatcher.{gave, LocalToolSpec, Dispatcher, Call, dispatch, result_message}
use alpilab_ai.PcAgent.Commands.{Command}
use alpilab_ai.PcAgent.Once.{handle_all, dispatch_once, Acted, dispatch-Acted}
use alpilab_ai.Diagnostics.StateManager.{TestManager, is_repeated, recommend_next_test}
use alpilab_ai.Diagnostics.Recommendations as Recommendations
use alpilab_ai.Tests.Machine.{machine}

-- A bench that counts how often a tool ran.
abbrev counting : LocalToolSpec ℕ
counting = record {
  tool_id = "demo.safe_test";
  required_capability = "safe_test";
  allowed_argument_keys = [];
  handler = λ arguments n. (gave end, suc n);
}

abbrev dispatcher : Dispatcher ℕ
dispatcher = record {
  registry = ("demo.safe_test", counting) ∷ [];
  capabilities = ("safe_test", true) ∷ [];
  completed = [];
  bench = 0;
  reads = 0;
}

abbrev call : Call
call = record { tool_id = "demo.safe_test"; request_id = "r1"; command_id = none; agent_id = "pc1" }

abbrev other_command : Command
other_command = record {
  kind = "TOOL_EXECUTE";
  request_id = "r2";
  command_id = none;
  tool_id = "demo.safe_test";
  arguments = end;
}

ran_once : (dispatch (λ n. n) call end dispatcher).1.bench ≡ 1
unfolding dispatch result_message get put keys is_subset
ran_once = refl

dispatch_once_example :
    let later : Dispatcher ℕ =
      handle_all (λ n. n) ((other_command, "pc1") ∷ []) (dispatch (λ n. n) call end dispatcher).1 in
    dispatch (λ n. n) call end later ≡ ((dispatch (λ n. n) call end dispatcher).0, later)
unfolding dispatch result_message get put keys is_subset
dispatch_once_example =
    dispatch_once (λ n. n) call call end end ((other_command, "pc1") ∷ []) dispatcher refl refl

dispatch-Acted_example :
    Acted (λ n. n) call end dispatcher (dispatch (λ n. n) call end dispatcher).1
dispatch-Acted_example = dispatch-Acted (λ n. n) call end dispatcher

-- A manager that allows two recommendations, and one where "s1:vph" has had both.
abbrev fresh_tests : TestManager
fresh_tests = record {
  tests = [];
  evidence = [];
  session_events = [];
  max_retries = 3;
  detector = record { window = 300; max_repeats = 2; history = [] };
  reads = 0;
}

abbrev used_tests : TestManager
used_tests = record fresh_tests {
  detector = record { window = 300; max_repeats = 2; history = ("s1:vph", 0 ∷ 1 ∷ []) ∷ [] };
}

abbrev asking : List Recommendations.Call
asking = Recommendations.registering "s1" "vcc" ∷ Recommendations.recommending "s1" "vph" ∷ []

fresh_tests-IsBounded : Recommendations.IsBounded fresh_tests.detector
unfolding get
fresh_tests-IsBounded = record { at = λ k. omega arith }

apply_all-IsBounded_example :
    Recommendations.IsBounded (Recommendations.apply_all machine asking fresh_tests).detector
apply_all-IsBounded_example =
    Recommendations.apply_all-IsBounded machine asking fresh_tests fresh_tests-IsBounded

recommend_next_test_exhausted_example :
    (recommend_next_test machine "s1" "vph" (Recommendations.apply_all machine asking used_tests)).0
    ≡ false
unfolding is_repeated get join_colon
recommend_next_test_exhausted_example =
    Recommendations.recommend_next_test_exhausted machine asking "s1" "vph" used_tests refl
