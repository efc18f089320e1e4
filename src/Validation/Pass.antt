-- ===== src/Validation/Pass.antt =====
-- repogauge/validation/validate.py: _run_validation_pass, over a checkout and a test runner that may
-- raise.
pub mod Consistent
use repogauge.Prelude.Text.{
  Text, codes, text_eq, text_eq_sound, text_eq_refl, strip_prefix, strip_prefix-append, starts_with,
  contains, is_blank,
}
use repogauge.Prelude.{
  ℕ, zero, suc, ◌+◌, ◌-◌, ◌*◌, ◌/◌, ◌%◌, ◌≤◌, ◌<◌, String, ◌≡◌, refl, sym, ap, ◌∙◌, subst, ◌≢◌, ◌↔◌,
  ◌⊎◌, inl, inr, Bool, true, false, not, ◌&&◌, ◌||◌, Option, none, some, List, [], ◌∷◌, ◌++◌, map,
  arith, ◌==◌, eq_iff, eq_refl, ltb, leb, nat_eq, if◌then◌else◌, ltb→lt, lt→ltb, ltb→le, leb→le,
  le→leb, nat_eq→eq, nat_eq_refl, Bool-cases, Option-cases, is_some, length, any, all, keep,
  is_empty, All, length-append, All-append, In, member, member→In, In→member, Dict, get, put,
  get-put, keys,
}
use repogauge.Prelude.Int.{pos}
use repogauge.Prelude.Split.{ends_with}
use repogauge.Validation.Outcomes.{Outcomes}
use repogauge.Validation.Inputs.{pytest_file_inputs, parse_pytest_collected_nodes, is_code}
use repogauge.Validation.RunTest.{
  AttemptEntry, entry, PassError, patch_error, execution_error, other_error, CommandRun, Ran, ran,
  crashed, TestRun, tests, broken, run_test, raw_output,
}

-- What one pass is asked to do. `commands` is what _test_command_attempts gives for the targeted
-- command, and `test_cmd` is that command split at white space.
pub record Request : Type 0 where
  pub label : Text
  pub test_patch : Text
  pub pred_patch : Text
  pub apply_test_patch : Bool
  pub apply_pred_patch : Bool
  pub test_files : List Text
  pub test_cmd : List Text
  pub commands : List (List Text)
  pub is_python : Bool

-- The checkout and the commands. Their answers may depend on the passes that were made before.
-- `collect` runs pytest's collection on files, `run` the n-th test command with its inputs, and reads
-- the report.
pub record Checkout : Type 0 where
  pub reset : List Request → Option PassError
  pub apply_patch_text : List Request → Text → Option PassError
  pub exists : List Request → Request → Text → Bool
  pub collect : List Request → Request → List Text → Ran
  pub run : List Request → Request → ℕ → List Text → List Text → Ran

pub record PassResult : Type 0 where
  pub failed : Bool
  pub error : Option Text
  pub outcomes : Outcomes
  pub log : Text
  pub attempts : List AttemptEntry
  pub failure_code : Option String

-- `"pytest" in tokens or tokens[:2] == ["python", "-m"] and len(tokens) > 2 and tokens[2] == "pytest"`
unfoldable pub names_pytest : List Text → Bool
names_pytest tokens = any (text_eq (codes "pytest")) tokens || is_module tokens
  where
    is_module : List Text → Bool
    is_module (a ∷ b ∷ c ∷ rest) =
        text_eq a (codes "python") && text_eq b (codes "-m") && text_eq c (codes "pytest")
    is_module _ = false

message : PassError → Text
message (patch_error e) = e
message (execution_error e attempts) = e
message (other_error e) = e

attempts_of : PassError → List AttemptEntry
attempts_of (execution_error e attempts) = attempts
attempts_of _ = []

failure_code_of : Request → PassError → String
failure_code_of r (patch_error e) =
    if r.apply_pred_patch
    then "patch_apply_failed"
    else if r.apply_test_patch
    then "test_patch_apply_failed"
    else "unknown_validator_failure"
failure_code_of r (execution_error e attempts) = "missing_junit"
failure_code_of r (other_error e) = "unknown_validator_failure"

-- `log if not collector_log else f"{collector_log}\n{log}"`
abbrev log_with : Text → Text → Text
log_with collector_log log =
    if is_empty collector_log then log else collector_log ++ (codes "\n" ++ log)

-- The result of a pass that raised, after what collection logged and noted.
unfoldable pub failed_pass : Request → Text → List AttemptEntry → PassError → PassResult
unfolding message attempts_of failure_code_of
failed_pass r collector_log attempts e = record {
  failed = true;
  error = some (r.label ++ (codes " failed: " ++ message e));
  outcomes = [];
  log = log_with collector_log [];
  attempts = attempts ++ attempts_of e;
  failure_code = some (failure_code_of r e);
}

abbrev passed : Outcomes → Text → List AttemptEntry → PassResult
passed outcomes log attempts = record {
  failed = false;
  error = none;
  outcomes = outcomes;
  log = log;
  attempts = attempts;
  failure_code = none;
}

abbrev finish_pass : Request → Text → List AttemptEntry → TestRun → PassResult
finish_pass r collector_log attempts (broken e) = failed_pass r collector_log attempts e
finish_pass r collector_log attempts (tests outcomes log made) =
    passed outcomes (log_with collector_log log) (attempts ++ made)

-- The result of a run on fuel; the loop is given enough.
abbrev returned_run : Option TestRun → TestRun
returned_run (some t) = t
returned_run none = broken (other_error [])

abbrev skipped_log : Text
skipped_log =
    codes
      "[stdout]\n\n[stderr]\npytest collection skipped: targeted files are absent in this checkout\n"

module _ (checkout : Checkout) (past : List Request) where
  abbrev tests_on : Request → List Text → Text → List AttemptEntry → PassResult
  tests_on r inputs collector_log attempts =
      finish_pass r collector_log attempts
        (returned_run (run_test r.is_python (checkout.run past r) 2 r.commands inputs))

  -- _run_pytest_collection: the collected nodes, or the files that are there
  unfoldable pub collected_inputs : Request → List Text → Text → List Text
  collected_inputs r inputs stdout =
      let nodes = parse_pytest_collected_nodes stdout in
      let files = keep (checkout.exists past r) (pytest_file_inputs inputs) in
      if is_empty nodes then files else nodes

  abbrev collection_status : List Text → CommandRun → String
  collection_status nodes c =
      if not (is_empty nodes)
      then "collection_resolved"
      else if c.timed_out
      then "collection_timeout"
      else if is_code 0 c.returncode
      then "collection_empty"
      else "collection_fallback"

  abbrev collection_entry : Request → List Text → CommandRun → AttemptEntry
  collection_entry r inputs c =
      let nodes = parse_pytest_collected_nodes c.stdout in
      let files = keep (checkout.exists past r) (pytest_file_inputs inputs) in
      entry 0 c.returncode (collection_status nodes c) (some (length nodes))
        (if is_empty nodes && not (is_empty files) then some files else none)

  abbrev after_collection : Request → List Text → Ran → PassResult
  after_collection r inputs (crashed e) = failed_pass r [] [] e
  after_collection r inputs (ran c) =
      let chosen = collected_inputs r inputs c.stdout in
      let raw = raw_output c.stdout c.stderr in
      let note = collection_entry r inputs c ∷ [] in
      if is_empty chosen then passed [] raw note else tests_on r chosen raw note

  -- What collection is tried on: the files of the inputs, if all are Python files.
  abbrev collects_from_files : List Text → Bool
  collects_from_files inputs = not (is_empty inputs) && all (ends_with (codes ".py")) inputs

  abbrev on_pytest : Request → List Text → PassResult
  on_pytest r inputs =
      let present = keep (checkout.exists past r) inputs in
      if not (collects_from_files inputs)
      then tests_on r r.test_files [] []
      else if is_empty present
      then passed [] skipped_log (entry 0 (pos 0) "collection_missing" (some 0) (some inputs) ∷ [])
      else after_collection r present (checkout.collect past r present)

  abbrev on_tests : Request → PassResult
  on_tests r =
      if r.is_python && names_pytest r.test_cmd
      then on_pytest r (pytest_file_inputs r.test_files)
      else tests_on r r.test_files [] []

  -- `if patch.strip(): apply_patch_text(worktree, patch)`
  abbrev apply_unless_blank : Text → Option PassError
  apply_unless_blank patch = if is_blank patch then none else checkout.apply_patch_text past patch

  abbrev after_pred : Request → Option PassError → PassResult
  after_pred r (some e) = failed_pass r [] [] e
  after_pred r none = on_tests r

  abbrev after_test : Request → Option PassError → PassResult
  after_test r (some e) = failed_pass r [] [] e
  after_test r none = after_pred r (apply_unless_blank r.pred_patch)

  abbrev after_reset : Request → Option PassError → PassResult
  after_reset r (some e) = failed_pass r [] [] e
  after_reset r none = after_test r (apply_unless_blank r.test_patch)

  unfoldable pub run_validation_pass : Request → PassResult
  run_validation_pass r = after_reset r (checkout.reset past)
