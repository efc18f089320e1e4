-- ===== src/Validation/Examples.antt =====
-- repogauge/validation at small inputs.
use repogauge.Prelude.Text.{Text, codes, is_blank}
use repogauge.Prelude.{
  ℕ, String, ◌≡◌, refl, ◌↔◌, ◌⊎◌, true, false, ◌&&◌, Option, none, some, List, [], ◌∷◌, nat_eq,
  if◌then◌else◌, member, get,
}
use repogauge.Validation.Outcomes.{
  Outcomes, pass, fail, is_failing, is_pass, same_outcomes, sorted_set,
}
use repogauge.Validation.Evidence.{
  failure_taxonomy, normalize_failure_reason, normalize_failure_reason-taxonomy,
}
use repogauge.Prelude.Text.{codes}
use repogauge.Prelude.Int.{pos}
use repogauge.Validation.RunTest.{
  Ran, ran, parsed, run_test, commands_loop, pending_loop, round, TestRun, loop_start,
}
use repogauge.Validation.Inputs.{pytest_file_fallback_inputs, should_retry_pytest_with_file_inputs}
use repogauge.Validation.Pass.Consistent.{IsConsistent, run_validation_pass-IsConsistent}
use repogauge.Validation.RunTest.Reports.{IsReported}
use repogauge.Validation.RunTest.Outcome.{IsExhausted, run_test-returns}
use repogauge.Validation.Pass.{Checkout, run_validation_pass}
use repogauge.Validation.Verdict.{
  fail_to_pass, pass_to_pass, is_resolved, is_flaky, has_pass_to_pass_regression,
  declared_ftp_not_resolved, judge, member-fail_to_pass,
}
use repogauge.Validation.Instance.{eval_instance, after_reruns, judged, with_both}
use repogauge.Validation.Row.{Instance, build_eval_result}
use repogauge.Validation.Instance.Resolved.{Resolves, eval_instance-resolved}
use repogauge.Validation.Instance.Reasons.{IsExplained, eval_instance-IsExplained}

abbrev before : Outcomes
before = ("tests/a.py::t", fail) ∷ ("tests/a.py::u", pass) ∷ []

abbrev after : Outcomes
after = ("tests/a.py::u", pass) ∷ ("tests/a.py::t", pass) ∷ []

-- The patch fixes `t` and keeps `u`.
abbrev report : Outcomes → Ran
report outcomes = ran (record {
  returncode = pos 0;
  timed_out = false;
  stdout = [];
  stderr = [];
  report = parsed outcomes;
})

abbrev good : Checkout
good = record {
  reset = λ _. none;
  apply_patch_text = λ _ _. none;
  exists = λ _ _ _. true;
  collect = λ _ _ _. report [];
  run = λ _ r _ _ _. if r.apply_pred_patch then report after else report before;
}

abbrev task : Instance
task = record {
  test_patch = codes "diff";
  pred_patch = codes "diff";
  declared_ftp = "tests/a.py::t" ∷ [];
  declared_ptp = "tests/a.py::u" ∷ [];
  is_python = false;
  test_cmd = codes "make" ∷ codes "test" ∷ [];
  test_inputs = [];
  commands = (codes "make" ∷ codes "test" ∷ []) ∷ [];
  withheld_test_paths = [];
  withheld_test_paths_touched = [];
}

program : Unit {0}
unfolding eval_instance after_reruns judged build_eval_result judge is_resolved is_flaky
    same_outcomes has_pass_to_pass_regression declared_ftp_not_resolved fail_to_pass pass_to_pass
    sorted_set run_validation_pass is_blank run_test commands_loop pending_loop round
    pytest_file_fallback_inputs should_retry_pytest_with_file_inputs
program = tt

eval_instance-task : (eval_instance task good).status ≡ "resolved"
unfolding program
eval_instance-task = refl

member-fail_to_pass_example :
    member "tests/a.py::t" (fail_to_pass before after [])
    ≡ (is_failing (get before "tests/a.py::t") && is_pass (get after "tests/a.py::t"))
member-fail_to_pass_example = member-fail_to_pass before after "tests/a.py::t"

eval_instance-resolved_example : ((eval_instance task good).resolved ≡ true) ↔ Resolves task good
eval_instance-resolved_example = eval_instance-resolved task good

eval_instance-IsExplained_example : IsExplained (eval_instance task good)
eval_instance-IsExplained_example = eval_instance-IsExplained task good

normalize_failure_reason-taxonomy_example :
    (member (normalize_failure_reason "error" (some "run_b_rerun_failed") none) failure_taxonomy
      ≡ true)
    ⊎ ((◌≡◌ {A = String} "error" "not_resolved")
        × (◌≡◌ {A = Option String} (some "run_b_rerun_failed") (some "declared_ftp_not_resolved"))
        × (normalize_failure_reason "error" (some "run_b_rerun_failed") none
            ≡ "declared_ftp_not_resolved"))
normalize_failure_reason-taxonomy_example =
    normalize_failure_reason-taxonomy "error" (some "run_b_rerun_failed") none

run_validation_pass-IsConsistent_example :
    IsConsistent good []
      (with_both task (codes "c"))
      (run_validation_pass good [] (with_both task (codes "c")))
run_validation_pass-IsConsistent_example =
    run_validation_pass-IsConsistent good [] (with_both task (codes "c"))

-- Pytest knows no node of the file, and is run again with the file.
abbrev node_missing : ℕ → List Text → List Text → Ran
node_missing n command inputs = ran (record {
  returncode = if nat_eq n 1 then pos 4 else pos 0;
  timed_out = false;
  stdout = [];
  stderr = codes "ERROR: Not found: t.py::x";
  report = parsed (if nat_eq n 1 then [] else before);
})

abbrev pytest : List (List Text)
pytest = (codes "pytest" ∷ []) ∷ []

abbrev node : List Text
node = codes "t.py::x" ∷ []

run_test-returns_example :
    (t : TestRun) × (run_test true node_missing 2 pytest node ≡ some t)
    × (IsReported true node_missing pytest node t
        ⊎ IsExhausted true node_missing node pytest loop_start t)
run_test-returns_example = run_test-returns true node_missing node 0 pytest
