-- ===== src/Validation/Row.antt =====
-- repogauge/validation/validate.py: the arguments of _eval_instance, and the row that it returns.
use repogauge.Prelude.{
  ℕ, String, Bool, not, ◌&&◌, Option, none, some, List, [], ◌==◌, if◌then◌else◌, is_empty,
}
use repogauge.Prelude.Text.{Text}
use repogauge.Validation.Outcomes.{Outcomes}
use repogauge.Validation.Evidence.{normalize_failure_reason}
use repogauge.Validation.RunTest.{AttemptEntry}
use repogauge.Validation.Pass.{names_pytest, PassResult}

-- The arguments of `_eval_instance` that decide its result. `pred_patch` is the patch after
-- exclude_patch_paths, and the withheld paths are what that call was given and has removed. The test
-- inputs are those of build_targeted_test_plan, whose command is here split at white space, and
-- `commands` is what _test_command_attempts makes of it.
pub record Instance : Type 0 where
  pub test_patch : Text
  pub pred_patch : Text
  pub declared_ftp : List String
  pub declared_ptp : List String
  pub is_python : Bool
  pub test_cmd : List Text
  pub test_inputs : List Text
  pub commands : List (List Text)
  pub withheld_test_paths : List String
  pub withheld_test_paths_touched : List String

-- `test_strategy`
unfoldable pub test_strategy : Instance → String
test_strategy inst =
    let targeted = not (is_empty inst.test_inputs) in
    if inst.is_python && names_pytest inst.test_cmd
    then (if targeted then "targeted_pytest" else "full_pytest")
    else if targeted
    then "targeted_command"
    else "full_command"

-- What the result row shows of a pass.
pub record Shown : Type 0 where
  pub log : Text
  pub outcomes : Outcomes
  pub attempts : List AttemptEntry

abbrev pub shown : PassResult → Shown
shown p = record { log = p.log; outcomes = p.outcomes; attempts = p.attempts }

abbrev pub log_only : PassResult → Shown
log_only p = record { log = p.log; outcomes = []; attempts = p.attempts }

abbrev pub hidden : Shown
hidden = record { log = []; outcomes = []; attempts = [] }

pub record EvalResult : Type 0 where
  pub status : String
  pub error : Option Text
  pub reason : Option String
  pub failure_code : Option String
  pub test_strategy : String
  pub run_a : Shown
  pub run_b : Shown
  pub run_c : Shown
  pub run_b_rerun : Shown
  pub run_c_rerun : Shown
  pub flake_runs : ℕ
  pub fail_to_pass : List String
  pub pass_to_pass : List String
  pub resolved : Bool
  pub withheld_test_paths : List String
  pub withheld_test_paths_touched : List String
  pub withheld_test_patch_sanitized : Bool

-- The five passes of a row, as far as they were made.
pub record Shows : Type 0 where
  pub a : Shown
  pub b : Shown
  pub c : Shown
  pub b_rerun : Shown
  pub c_rerun : Shown

abbrev normalized : String → Option String → Option String → Option String
normalized status none failure_code = none
normalized status (some reason) failure_code =
    if status == "resolved"
    then some reason
    else some (normalize_failure_reason status (some reason) failure_code)

module _ (inst : Instance) where
  -- _build_eval_result
  unfoldable pub build_eval_result :
      String
      → Option Text
      → Option String
      → Option String
      → Shows
      → ℕ
      → List String
      → List String
      → Bool
      → EvalResult
  build_eval_result status error reason failure_code shows flake_runs ftp ptp resolved = record {
    status = status;
    error = error;
    reason = normalized status reason failure_code;
    failure_code = failure_code;
    test_strategy = test_strategy inst;
    run_a = shows.a;
    run_b = shows.b;
    run_c = shows.c;
    run_b_rerun = shows.b_rerun;
    run_c_rerun = shows.c_rerun;
    flake_runs = flake_runs;
    fail_to_pass = ftp;
    pass_to_pass = ptp;
    resolved = resolved;
    withheld_test_paths = inst.withheld_test_paths;
    withheld_test_paths_touched = inst.withheld_test_paths_touched;
    withheld_test_patch_sanitized = not (is_empty inst.withheld_test_paths_touched);
  }
