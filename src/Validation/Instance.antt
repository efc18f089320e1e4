-- ===== src/Validation/Instance.antt =====
-- repogauge/validation/validate.py: _eval_instance, from the five passes to the result row.
pub mod Resolved
pub mod Reasons
use repogauge.Prelude.Text.{
  Text, codes, text_eq, text_eq_sound, text_eq_refl, strip_prefix, strip_prefix-append, starts_with,
  contains,
}
use repogauge.Prelude.{
  ℕ, zero, suc, ◌+◌, ◌-◌, ◌*◌, ◌/◌, ◌%◌, ◌≤◌, ◌<◌, String, ◌≡◌, refl, sym, ap, ◌∙◌, subst, ◌≢◌, ◌↔◌,
  ◌⊎◌, inl, inr, Bool, true, false, not, ◌&&◌, ◌||◌, Option, none, some, List, [], ◌∷◌, ◌++◌, map,
  arith, ◌==◌, eq_iff, eq_refl, ltb, leb, nat_eq, if◌then◌else◌, ltb→lt, lt→ltb, ltb→le, leb→le,
  le→leb, nat_eq→eq, nat_eq_refl, tests, Bool-cases, Option-cases, is_some, length, any, all, keep,
  is_empty, All, length-append, All-append, In, member, member→In, In→member, Dict, get, put,
  get-put, keys, branches_hold,
}
use repogauge.Validation.Outcomes.{Outcomes, same_outcomes}
use repogauge.Validation.Evidence.{normalize_failure_reason}
use repogauge.Validation.Pass.{names_pytest, Request, Checkout, PassResult, run_validation_pass}
use repogauge.Validation.Verdict.{
  judge, fail_to_pass, pass_to_pass, is_resolved, is_flaky, has_pass_to_pass_regression,
  declared_ftp_not_resolved,
}
use repogauge.Validation.Row.{
  Instance, Shown, EvalResult, Shows, build_eval_result, shown, log_only, hidden, test_strategy,
}

module _ (inst : Instance) where
  abbrev error_result : PassResult → String → Shows → ℕ → EvalResult
  error_result p reason shows flake_runs =
      build_eval_result inst "error" p.error (some reason) p.failure_code shows flake_runs [] []
        false

  abbrev pub without_patches : Request
  without_patches = record {
    label = codes "a";
    test_patch = [];
    pred_patch = [];
    apply_test_patch = false;
    apply_pred_patch = false;
    test_files = inst.test_inputs;
    test_cmd = inst.test_cmd;
    commands = inst.commands;
    is_python = inst.is_python;
  }

  abbrev pub with_tests : Text → Request
  with_tests label = record {
    label = label;
    test_patch = inst.test_patch;
    pred_patch = [];
    apply_test_patch = true;
    apply_pred_patch = false;
    test_files = inst.test_inputs;
    test_cmd = inst.test_cmd;
    commands = inst.commands;
    is_python = inst.is_python;
  }

  abbrev pub with_both : Text → Request
  with_both label = record {
    label = label;
    test_patch = inst.test_patch;
    pred_patch = inst.pred_patch;
    apply_test_patch = true;
    apply_pred_patch = true;
    test_files = inst.test_inputs;
    test_cmd = inst.test_cmd;
    commands = inst.commands;
    is_python = inst.is_python;
  }

  abbrev flaky_reason : Bool → Bool → String
  flaky_reason same_b same_c =
      if not same_b
      then "run_b_rerun_mismatch"
      else if not same_c
      then "run_c_rerun_mismatch"
      else "unstable_reruns"

  module _ (checkout : Checkout) where
    -- The passes in their order, each after those before it.
    abbrev pub pass_a : PassResult
    pass_a = run_validation_pass checkout [] without_patches

    abbrev pub pass_b : PassResult
    pass_b = run_validation_pass checkout (without_patches ∷ []) (with_tests (codes "b"))

    abbrev pub pass_c : PassResult
    pass_c =
        run_validation_pass checkout (without_patches ∷ with_tests (codes "b") ∷ [])
          (with_both (codes "c"))

    abbrev pub pass_b_rerun : PassResult
    pass_b_rerun =
        run_validation_pass checkout
          (without_patches ∷ with_tests (codes "b") ∷ with_both (codes "c") ∷ [])
          (with_tests (codes "b_rerun"))

    abbrev pub pass_c_rerun : PassResult
    pass_c_rerun =
        run_validation_pass checkout
          (without_patches
            ∷ with_tests (codes "b")
            ∷ with_both (codes "c")
            ∷ with_tests (codes "b_rerun")
            ∷ [])
          (with_both (codes "c_rerun"))

    abbrev pub all_shown : Shows
    all_shown = record {
      a = shown pass_a;
      b = shown pass_b;
      c = shown pass_c;
      b_rerun = shown pass_b_rerun;
      c_rerun = shown pass_c_rerun;
    }

    abbrev pub judged_as : Bool × Option String → EvalResult
    judged_as (resolved, reason) =
        build_eval_result inst (if resolved then "resolved" else "not_resolved") none reason none
          all_shown 2 (fail_to_pass pass_b.outcomes pass_c.outcomes inst.declared_ftp)
          (pass_to_pass pass_b.outcomes pass_c.outcomes inst.declared_ptp) resolved

    unfoldable pub judged : EvalResult
    judged = judged_as (judge pass_b.outcomes pass_c.outcomes inst.declared_ftp inst.declared_ptp)

    unfoldable pub after_reruns : EvalResult
    after_reruns =
        if pass_b_rerun.failed
        then error_result pass_b_rerun "run_b_rerun_failed" all_shown 2
        else if pass_c_rerun.failed
        then error_result pass_c_rerun "run_c_rerun_failed" all_shown 2
        else if is_flaky pass_b.outcomes pass_b_rerun.outcomes pass_c.outcomes pass_c_rerun.outcomes
        then build_eval_result inst "flaky" (some (codes "rerun outcomes changed"))
            (some (
              flaky_reason (same_outcomes pass_b.outcomes pass_b_rerun.outcomes)
                (same_outcomes pass_c.outcomes pass_c_rerun.outcomes)))
            (some "flaky_outcomes") all_shown 2 [] [] false
        else judged

    -- _eval_instance
    unfoldable pub eval_instance : EvalResult
    eval_instance =
        if pass_a.failed
        then error_result pass_a "run_a_failed"
            (record {
              a = shown pass_a;
              b = hidden;
              c = hidden;
              b_rerun = hidden;
              c_rerun = hidden;
            })
            0
        else if pass_b.failed
        then error_result pass_b "run_b_failed"
            (record {
              a = shown pass_a;
              b = shown pass_b;
              c = hidden;
              b_rerun = hidden;
              c_rerun = hidden;
            })
            0
        else if pass_c.failed
        then error_result pass_c "run_c_failed"
            (record {
              a = shown pass_a;
              b = shown pass_b;
              c = log_only pass_c;
              b_rerun = hidden;
              c_rerun = hidden;
            })
            0
        else after_reruns
