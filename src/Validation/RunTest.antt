-- ===== src/Validation/RunTest.antt =====
-- repogauge/validation/validate.py: _run_test, the loop over the commands of a test run.
pub mod Reports
pub mod Outcome
use repogauge.Prelude.{
  ℕ, zero, suc, ◌+◌, ◌-◌, ◌*◌, ◌/◌, ◌%◌, ◌≤◌, ◌<◌, String, ◌≡◌, refl, sym, ap, ◌∙◌, subst, ◌≢◌, ◌↔◌,
  ◌⊎◌, inl, inr, Bool, true, false, not, ◌&&◌, ◌||◌, Option, none, some, List, [], ◌∷◌, ◌++◌, map,
  arith, ◌==◌, eq_iff, eq_refl, ltb, leb, nat_eq, if◌then◌else◌, ltb→lt, lt→ltb, ltb→le, leb→le,
  le→leb, nat_eq→eq, nat_eq_refl, Bool-cases, Option-cases, is_some, length, any, all, keep,
  is_empty, All, length-append, All-append, In, member, member→In, In→member, Dict, get, put,
  get-put, keys, branches_hold, taken_holds, some_of_else, member-keep, differ→≢, str_lt, count,
  take, drop, then_lt, then_lt_trans, total, IsDistinct,
}
use repogauge.Prelude.Text.{
  is_space, text_lt_irrefl, text_lt, text_lt_trans, Text, codes, text_eq, text_eq_sound,
  text_eq_refl, strip_prefix, strip_prefix-append, starts_with, contains,
}
use repogauge.Prelude.Decimal.{decimal}
use repogauge.Prelude.Int.{ℤ}
use repogauge.Validation.Outcomes.{Outcomes}
use repogauge.Validation.Inputs.{pytest_file_fallback_inputs, should_retry_pytest_with_file_inputs}

-- An entry of `attempts`, without the command and the times.
pub record AttemptEntry : Type 0 where
  pub attempt : ℕ
  pub returncode : ℤ
  pub status : String
  pub tests_run : Option ℕ
  pub fallback_test_inputs : Option (List Text)

-- The exceptions that a validation pass tells apart: CommandPatchError, TestExecutionError with its
-- attempts, and any other.
pub data PassError : Type 0 where
  patch_error : Text → PassError
  execution_error : Text → List AttemptEntry → PassError
  other_error : Text → PassError

-- What the adapter reads from the report: outcomes, or JUnitParseError.
pub data Report : Type 0 where
  parsed : Outcomes → Report
  unparsed : Text → Report

-- class CommandResult, and the report that is there after the command
pub record CommandRun : Type 0 where
  pub returncode : ℤ
  pub timed_out : Bool
  pub stdout : Text
  pub stderr : Text
  pub report : Report

pub data Ran : Type 0 where
  ran : CommandRun → Ran
  crashed : PassError → Ran

-- What `_run_test` returns or raises.
pub data TestRun : Type 0 where
  tests : Outcomes → Text → List AttemptEntry → TestRun
  broken : PassError → TestRun

-- f"[stdout]\n{stdout}\n[stderr]\n{stderr}"
abbrev pub raw_output : Text → Text → Text
raw_output stdout stderr = codes "[stdout]\n" ++ (stdout ++ (codes "\n[stderr]\n" ++ stderr))

-- What the loops carry on.
pub record LoopState : Type 0 where
  pub attempts : List AttemptEntry
  pub attempt_number : ℕ
  pub last_parse_error : Option Text

abbrev pub loop_start : LoopState
loop_start = record { attempts = []; attempt_number = 0; last_parse_error = none }

-- How one command ends: the run is over, the command is made again with files, or the next is tried.
pub data Round : Type 0 where
  finished : TestRun → Round
  retry : List Text → LoopState → Round
  next : LoopState → Round

pub data Loop : Type 0 where
  done : TestRun → Loop
  dry : LoopState → Loop

abbrev pub same_inputs : List Text → List Text → Bool
same_inputs [] [] = true
same_inputs (x ∷ xs) (y ∷ ys) = text_eq x y && same_inputs xs ys
same_inputs _ _ = false

abbrev pub entry : ℕ → ℤ → String → Option ℕ → Option (List Text) → AttemptEntry
entry n returncode status tests_run fallback = record {
  attempt = n;
  returncode = returncode;
  status = status;
  tests_run = tests_run;
  fallback_test_inputs = fallback;
}

-- The two `raise` at the end; the second message ends in the list of test files, left out here.
abbrev pub final_error : LoopState → PassError
final_error s = elim s.last_parse_error [
  | none ↦ execution_error (codes "test execution produced no parseable output") s.attempts
  | some e ↦
      if is_empty e
      then execution_error (codes "test execution produced no parseable output") s.attempts
      else execution_error
          (codes "failed to obtain valid junit output after "
            ++ (decimal (length s.attempts) ++ (codes " attempt(s): " ++ e)))
          s.attempts
]

-- `run n command inputs` is the n-th command that is run, with the inputs appended.
module _ (is_python : Bool) (run : ℕ → List Text → List Text → Ran) where
  -- `if fallback_inputs and fallback_inputs != current_test_inputs`
  abbrev pub falls_back : List Text → CommandRun → Bool
  falls_back inputs r =
      should_retry_pytest_with_file_inputs is_python inputs r.returncode r.stderr
      && not (is_empty (pytest_file_fallback_inputs inputs))
      && not (same_inputs (pytest_file_fallback_inputs inputs) inputs)

  abbrev pub on_report : List Text → ℕ → LoopState → CommandRun → Report → Round
  on_report inputs n s r (unparsed e) = next (record {
    attempts = s.attempts ++ entry n r.returncode "parse_error" none none ∷ [];
    attempt_number = n;
    last_parse_error = some e;
  })
  on_report inputs n s r (parsed outcomes) =
      let count = some (length outcomes) in
      let fallback = pytest_file_fallback_inputs inputs in
      if falls_back inputs r
      then retry fallback (record {
        attempts =
            s.attempts ++ entry n r.returncode "collector_fallback" count (some fallback) ∷ [];
        attempt_number = n;
        last_parse_error = s.last_parse_error;
      })
      else finished (
          tests outcomes (raw_output r.stdout r.stderr)
            (s.attempts ++ entry n r.returncode "success" count none ∷ []))

  abbrev pub on_ran : List Text → ℕ → LoopState → Ran → Round
  on_ran inputs n s (crashed e) = finished (broken e)
  on_ran inputs n s (ran r) = on_report inputs n s r r.report

  unfoldable pub round : List Text → List Text → LoopState → Round
  round command inputs s = let n = s.attempt_number + 1 in on_ran inputs n s (run n command inputs)

  -- `while pending_test_inputs`, with fuel
  unfoldable pub pending_loop : ℕ → List Text → List (List Text) → LoopState → Option Loop
  unfolding round
  pending_loop fuel command [] s = some (dry s)
  pending_loop zero command (inputs ∷ pending) s = none
  pending_loop (suc fuel) command (inputs ∷ pending) s = elim (round command inputs s) [
    | finished t ↦ some (done t)
    | retry fallback s' ↦ pending_loop fuel command (pending ++ fallback ∷ []) s'
    | next s' ↦ pending_loop fuel command pending s'
  ]

  -- `for base_cmd in command_attempts`
  unfoldable pub commands_loop : ℕ → List (List Text) → List Text → LoopState → Option TestRun
  unfolding pending_loop
  commands_loop fuel [] test_files s = some (broken (final_error s))
  commands_loop fuel (command ∷ commands) test_files s =
      elim (pending_loop fuel command (test_files ∷ []) s) [
        | none ↦ none
        | some (done t) ↦ some t
        | some (dry s') ↦ commands_loop fuel commands test_files s'
      ]

  -- _run_test, with fuel for each command
  unfoldable pub run_test : ℕ → List (List Text) → List Text → Option TestRun
  unfolding commands_loop
  run_test fuel commands test_files = commands_loop fuel commands test_files loop_start
