-- ===== src/Validation/Pass/Consistent.antt =====
-- repogauge/validation/validate.py: what the result of a validation pass says, and where its outcomes
-- come from.
use repogauge.Prelude.{
  ℕ, ◌≡◌, refl, sym, subst, ◌⊎◌, inl, inr, true, not, ◌&&◌, Option, none, some, List, [], ◌∷◌,
  if◌then◌else◌, is_some, keep, is_empty, In, branches_hold,
}
use repogauge.Prelude.Text.{Text}
use repogauge.Validation.Outcomes.{Outcomes}
use repogauge.Validation.RunTest.{
  raw_output, AttemptEntry, PassError, Ran, ran, crashed, CommandRun, parsed, TestRun, tests,
  broken, run_test,
}
use repogauge.Validation.RunTest.Reports.{Answers}
use repogauge.Validation.RunTest.Outcome.{run_test-returns}
use repogauge.Validation.Pass.{
  collection_entry, Request, Checkout, PassResult, run_validation_pass, failed_pass, finish_pass,
  tests_on, after_collection, on_pytest, on_tests, after_pred, after_test, after_reset,
  returned_run, names_pytest, collects_from_files, collected_inputs,
}

module _ (checkout : Checkout) (past : List Request) (r : Request) where
  -- A run of one of the test commands gave the outcomes.
  pub record IsRead (outcomes : Outcomes) : Type 0 where
    pub n : ℕ
    pub command : List Text
    pub inputs : List Text
    pub answer : CommandRun
    pub listed : In command r.commands
    pub made : checkout.run past r n command inputs ≡ ran answer
    pub read : answer.report ≡ parsed outcomes

  -- A pass that failed has an error, a failure code and no outcomes. Another has no error and no code,
  -- and its outcomes are empty or were read from the report of a test command.
  abbrev pub IsConsistent : PassResult → Type 0
  IsConsistent p =
      if p.failed
      then (is_some p.error ≡ true) × (is_some p.failure_code ≡ true) × (p.outcomes ≡ [])
      else (p.error ≡ none) × (p.failure_code ≡ none) × ((p.outcomes ≡ []) ⊎ IsRead p.outcomes)

  failed_pass-IsConsistent :
      (log : Text) (attempts : List AttemptEntry) (e : PassError)
      → IsConsistent (failed_pass r log attempts e)
  unfolding failed_pass
  failed_pass-IsConsistent log attempts e = (refl, refl, refl)

  -- What a test run that returned is worth.
  abbrev IsGood : TestRun → Type 0
  IsGood (tests outcomes log made) = IsRead outcomes
  IsGood (broken e) = Unit

  finish_pass-IsConsistent :
      (log : Text) (attempts : List AttemptEntry) (t : TestRun)
      → IsGood t
      → IsConsistent (finish_pass r log attempts t)
  finish_pass-IsConsistent log attempts (broken e) g = failed_pass-IsConsistent log attempts e
  finish_pass-IsConsistent log attempts (tests outcomes raw made) g = (refl, refl, inr g)

  answer-IsGood :
      (a : Ran) (n : ℕ) (command inputs : List Text) (t : TestRun)
      → checkout.run past r n command inputs ≡ a
      → In command r.commands
      → Answers r.is_python (checkout.run past r) a n t
      → IsGood t
  answer-IsGood (crashed e) n command inputs t made listed h = subst IsGood (sym h) tt
  answer-IsGood (ran c) n command inputs t made listed (outcomes, attempts, read, e, count) =
      subst IsGood (sym e) (record {
        n = n;
        command = command;
        inputs = inputs;
        answer = c;
        listed = listed;
        made = made;
        read = read;
      })

  run_test-IsGood :
      (inputs : List Text)
      → IsGood (returned_run (run_test r.is_python (checkout.run past r) 2 r.commands inputs))
  run_test-IsGood inputs =
      let (t, e, result) = run_test-returns r.is_python (checkout.run past r) inputs 0 r.commands in
      rw e (elim result [
        | inl found ↦
            answer-IsGood _ found.n found.command found.inputs t refl found.listed found.answers
        | inr spent ↦ subst IsGood (sym spent.error) tt
      ])

  tests_on-IsConsistent :
      (inputs : List Text) (log : Text) (attempts : List AttemptEntry)
      → IsConsistent (tests_on checkout past r inputs log attempts)
  tests_on-IsConsistent inputs log attempts =
      finish_pass-IsConsistent log attempts _ (run_test-IsGood inputs)

  after_collection-IsConsistent :
      (inputs : List Text) (a : Ran) → IsConsistent (after_collection checkout past r inputs a)
  after_collection-IsConsistent inputs (crashed e) = failed_pass-IsConsistent [] [] e
  after_collection-IsConsistent inputs (ran c) =
      branches_hold IsConsistent (is_empty (collected_inputs checkout past r inputs c.stdout)) _ _
        (refl, refl, inl refl)
        (tests_on-IsConsistent _ (raw_output c.stdout c.stderr)
          (collection_entry checkout past r inputs c ∷ []))

  on_pytest-IsConsistent : (inputs : List Text) → IsConsistent (on_pytest checkout past r inputs)
  on_pytest-IsConsistent inputs =
      branches_hold IsConsistent (not (collects_from_files checkout past inputs)) _ _
        (tests_on-IsConsistent r.test_files [] [])
        (branches_hold IsConsistent (is_empty (keep (checkout.exists past r) inputs)) _ _
          (refl, refl, inl refl) (after_collection-IsConsistent _ _))

  on_tests-IsConsistent : IsConsistent (on_tests checkout past r)
  on_tests-IsConsistent =
      branches_hold IsConsistent (r.is_python && names_pytest r.test_cmd) _ _
        (on_pytest-IsConsistent _) (tests_on-IsConsistent r.test_files [] [])

  after_pred-IsConsistent : (o : Option PassError) → IsConsistent (after_pred checkout past r o)
  after_pred-IsConsistent none = on_tests-IsConsistent
  after_pred-IsConsistent (some e) = failed_pass-IsConsistent [] [] e

  after_test-IsConsistent : (o : Option PassError) → IsConsistent (after_test checkout past r o)
  after_test-IsConsistent none = after_pred-IsConsistent _
  after_test-IsConsistent (some e) = failed_pass-IsConsistent [] [] e

  after_reset-IsConsistent : (o : Option PassError) → IsConsistent (after_reset checkout past r o)
  after_reset-IsConsistent none = after_test-IsConsistent _
  after_reset-IsConsistent (some e) = failed_pass-IsConsistent [] [] e

  -- Whatever the checkout and the commands answer, the pass returns. If it failed, it has an error, a
  -- failure code and no outcomes. If not, it has no error and no code, and its outcomes are empty or
  -- stood in the report that one of the test commands left in this pass.
  pub run_validation_pass-IsConsistent : IsConsistent (run_validation_pass checkout past r)
  unfolding run_validation_pass
  run_validation_pass-IsConsistent = after_reset-IsConsistent _
