-- ===== src/Validation/RunTest/Outcome.antt =====
-- repogauge/validation/validate.py: how _run_test ends.
use repogauge.Prelude.{
  ℕ, suc, ◌+◌, ◌*◌, ◌≤◌, ◌≡◌, refl, ◌⊎◌, inl, inr, Bool, some, List, [], ◌∷◌, arith, length,
}
use repogauge.Prelude.Text.{Text}
use repogauge.Validation.RunTest.{
  Loop, done, dry, LoopState, loop_start, pending_loop, commands_loop, run_test, Ran, TestRun,
  broken, final_error,
}
use repogauge.Validation.RunTest.Reports.{
  IsReported, IsSpent, Ends, Counts, first_round, round-IsRound,
}

module _ (is_python : Bool) (run : ℕ → List Text → List Text → Ran) (test_files : List Text) where
  -- The states between the runs of some commands, each of which gave no result.
  abbrev pub IsHistory : List (List Text) → LoopState → LoopState → Type 0
  IsHistory [] s s' = s' ≡ s
  IsHistory (command ∷ commands) s s' =
      (m : LoopState) × IsSpent is_python run command test_files s m × IsHistory commands m s'

  -- The test run ends in the error of the last state, after one run or two for each command.
  pub record IsExhausted (commands : List (List Text)) (s : LoopState) (t : TestRun) : Type 0 where
    pub state : LoopState
    pub error : t ≡ broken (final_error state)
    pub history : IsHistory commands s state
    pub at_least : length s.attempts + length commands ≤ length state.attempts
    pub at_most : length state.attempts ≤ length s.attempts + 2 * length commands

  abbrev IsResult : List (List Text) → LoopState → TestRun → Type 0
  IsResult commands s t = IsReported is_python run commands test_files t ⊎ IsExhausted commands s t

  abbrev Returns : ℕ → List (List Text) → LoopState → Type 0
  Returns fuel commands s =
      (t : TestRun) × (commands_loop is_python run (suc (suc fuel)) commands test_files s ≡ some t)
      × IsResult commands s t

  later-IsResult :
      (command : List Text) (commands : List (List Text)) (s s' : LoopState) (t : TestRun)
      → Ends is_python run command test_files s (dry s')
      → IsResult commands s' t
      → IsResult (command ∷ commands) s t
  later-IsResult command commands s s' t ends (inl found) = inl (record {
    n = found.n;
    command = found.command;
    inputs = found.inputs;
    listed = inr found.listed;
    given = found.given;
    answers = found.answers;
  })
  later-IsResult command commands s s' t (c, more, few, runs) (inr spent) = inr (record {
    state = spent.state;
    error = spent.error;
    history = (s', runs, spent.history);
    at_least = omega (arith, more, spent.at_least);
    at_most = omega (arith, few, spent.at_most);
  })

  after_loop :
      (fuel : ℕ) (command : List Text) (commands : List (List Text)) (s : LoopState) (l : Loop)
      → pending_loop is_python run (suc (suc fuel)) command (test_files ∷ []) s ≡ some l
      → Ends is_python run command test_files s l
      → ((s' : LoopState) → Counts is_python run s' → Returns fuel commands s')
      → Returns fuel (command ∷ commands) s
  unfolding commands_loop
  after_loop fuel command commands s (done t) e (n, inputs, given, few, answers) rest = (
    t,
    rw (e, commands_loop) refl,
    inl (record {
      n = n;
      command = command;
      inputs = inputs;
      listed = inl refl;
      given = given;
      answers = answers;
    }),
  )
  after_loop fuel command commands s (dry s') e ends rest =
      let (t, found, result) = rest s' ends.0 in
      (t, rw (e, commands_loop) found, later-IsResult command commands s s' t ends result)

  commands_loop-Returns :
      (fuel : ℕ) (commands : List (List Text)) (s : LoopState)
      → Counts is_python run s
      → Returns fuel commands s
  unfolding commands_loop
  commands_loop-Returns fuel [] s c = (
    broken (final_error s),
    refl,
    inr (record {
      state = s;
      error = refl;
      history = refl;
      at_least = omega arith;
      at_most = omega arith;
    }),
  )
  commands_loop-Returns fuel (command ∷ commands) s c =
      let (l, found, ends) =
        first_round is_python run fuel command test_files s _ c refl
          (round-IsRound is_python run command test_files s c) in
      after_loop fuel command commands s l found ends
        (λ s' c'. commands_loop-Returns fuel commands s' c')

  -- With two rounds of fuel or more for each command, the test run returns. Either some run of one of
  -- the commands, made with the test files or with the files that their inputs lie in, gave the result:
  -- the outcomes of its report and its output, or its exception. Or the result is an error with one
  -- entry for each run, in order: every command was run once with the test files and left a report that
  -- could not be read, or, where such a run left a report but pytest could not collect its inputs, was
  -- run once more with their files and left a report that could not be read. The error quotes the
  -- message of the last report, if there is one that is not empty.
  pub run_test-returns :
      (fuel : ℕ) (commands : List (List Text))
      → (t : TestRun) × (run_test is_python run (suc (suc fuel)) commands test_files ≡ some t)
        × (IsReported is_python run commands test_files t ⊎ IsExhausted commands loop_start t)
  unfolding run_test
  run_test-returns fuel commands = commands_loop-Returns fuel commands loop_start refl
