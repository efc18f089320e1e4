-- ===== src/Validation/RunTest/Reports.antt =====
-- repogauge/validation/validate.py: where the outcomes of _run_test come from, and that it ends.
use repogauge.Prelude.{
  ℕ, suc, ◌+◌, ◌≤◌, ◌<◌, ◌≡◌, refl, ap, ◌∙◌, ◌⊎◌, inl, inr, Bool, true, none, some, List, [], ◌∷◌,
  ◌++◌, arith, Bool-cases, length, length-append, In,
}
use repogauge.Prelude.Text.{Text}
use repogauge.Validation.Inputs.{pytest_file_fallback_inputs, fallback-final}
use repogauge.Validation.RunTest.{
  round, Round, finished, retry, next, LoopState, Ran, ran, crashed, CommandRun, Report, parsed,
  unparsed, TestRun, tests, broken, raw_output, falls_back, on_ran, on_report, Outcomes,
  AttemptEntry, entry, Loop, pending_loop, done, dry,
}

module _ (is_python : Bool) (run : ℕ → List Text → List Text → Ran) where
  -- What the run of number `n` answered is what the test run gives.
  abbrev pub Answers : Ran → ℕ → TestRun → Type 0
  Answers (crashed e) n t = t ≡ broken e
  Answers (ran r) n t =
      (outcomes : Outcomes) × (attempts : List AttemptEntry) × (r.report ≡ parsed outcomes)
      × (t ≡ tests outcomes (raw_output r.stdout r.stderr) attempts)
      × (length attempts ≡ n)

  abbrev Follows : LoopState → LoopState → Type 0
  Follows s s' =
      (s'.attempt_number ≡ s.attempt_number + 1) × (length s'.attempts ≡ length s.attempts + 1)

  -- A run left a report that could not be read: it adds an entry that says so, and its message is kept.
  pub record IsUnread (command inputs : List Text) (s s' : LoopState) : Type 0 where
    pub result : CommandRun
    pub message : Text
    pub made : run (s.attempt_number + 1) command inputs ≡ ran result
    pub unread : result.report ≡ unparsed message
    pub state : s' ≡ record {
      attempts =
          s.attempts ++ entry (s.attempt_number + 1) result.returncode "parse_error" none none ∷ [];
      attempt_number = s.attempt_number + 1;
      last_parse_error = some message;
    }

  -- A run left a report that was read, but is made again with the files of its inputs.
  pub record IsFallback (command inputs : List Text) (s s' : LoopState) : Type 0 where
    pub result : CommandRun
    pub outcomes : Outcomes
    pub made : run (s.attempt_number + 1) command inputs ≡ ran result
    pub read : result.report ≡ parsed outcomes
    pub falls : falls_back is_python run inputs result ≡ true
    pub state : s' ≡ record {
      attempts =
          s.attempts
          ++ entry
              (s.attempt_number + 1)
              result.returncode
              "collector_fallback"
              (some (length outcomes))
              (some (pytest_file_fallback_inputs inputs))
            ∷ [];
      attempt_number = s.attempt_number + 1;
      last_parse_error = s.last_parse_error;
    }

  IsUnread→Follows : (c i : List Text) (s s' : LoopState) → IsUnread c i s s' → Follows s s'
  IsUnread→Follows c i s s' h = (
    ap (λ t. t.attempt_number) h.state,
    ap (λ t. length t.attempts) h.state ∙ length-append s.attempts _,
  )

  IsFallback→Follows : (c i : List Text) (s s' : LoopState) → IsFallback c i s s' → Follows s s'
  IsFallback→Follows c i s s' h = (
    ap (λ t. t.attempt_number) h.state,
    ap (λ t. length t.attempts) h.state ∙ length-append s.attempts _,
  )

  -- What a round does to the state of the loops.
  abbrev IsRound : List Text → List Text → LoopState → Round → Type 0
  IsRound command inputs s (finished t) =
      Answers (run (s.attempt_number + 1) command inputs) (s.attempt_number + 1) t
  IsRound command inputs s (retry fallback s') =
      (fallback ≡ pytest_file_fallback_inputs inputs) × IsFallback command inputs s s'
  IsRound command inputs s (next s') = IsUnread command inputs s s'

  abbrev pub Counts : LoopState → Type 0
  Counts s = s.attempt_number ≡ length s.attempts

  on_parsed-IsRound :
      (command inputs : List Text) (s : LoopState) (r : CommandRun) (outcomes : Outcomes)
      → Counts s
      → run (s.attempt_number + 1) command inputs ≡ ran r
      → r.report ≡ parsed outcomes
      → IsRound command inputs s
          (on_report is_python run inputs (s.attempt_number + 1) s r (parsed outcomes))
  on_parsed-IsRound command inputs s r outcomes c made read =
      elim (Bool-cases (falls_back is_python run inputs r)) [
        | inl falls ↦ rw falls (
          refl,
          record {
            result = r;
            outcomes = outcomes;
            made = made;
            read = read;
            falls = falls;
            state = refl;
          },
        )
        | inr stays ↦
            rw (stays, made)
              (
                outcomes,
                s.attempts ++ _ ∷ [],
                read,
                refl,
                omega (arith, c, length-append s.attempts _),
              )
      ]

  on_report-IsRound :
      (command inputs : List Text) (s : LoopState) (r : CommandRun) (report : Report)
      → Counts s
      → run (s.attempt_number + 1) command inputs ≡ ran r
      → r.report ≡ report
      → IsRound command inputs s (on_report is_python run inputs (s.attempt_number + 1) s r report)
  on_report-IsRound command inputs s r (parsed outcomes) c made read =
      on_parsed-IsRound command inputs s r outcomes c made read
  on_report-IsRound command inputs s r (unparsed e) c made read = record {
    result = r;
    message = e;
    made = made;
    unread = read;
    state = refl;
  }

  on_ran-IsRound :
      (command inputs : List Text) (s : LoopState) (a : Ran)
      → Counts s
      → run (s.attempt_number + 1) command inputs ≡ a
      → IsRound command inputs s (on_ran is_python run inputs (s.attempt_number + 1) s a)
  on_ran-IsRound command inputs s (crashed e) c made = rw made refl
  on_ran-IsRound command inputs s (ran r) c made =
      on_report-IsRound command inputs s r r.report c made refl

  pub round-IsRound :
      (command inputs : List Text) (s : LoopState)
      → Counts s
      → IsRound command inputs s (round is_python run command inputs s)
  unfolding round
  round-IsRound command inputs s c = on_ran-IsRound command inputs s _ c refl

  -- The runs of a command that gave no result: one whose report could not be read, or one that was made
  -- again with the files of its inputs, and that one.
  abbrev pub IsSpent : List Text → List Text → LoopState → LoopState → Type 0
  IsSpent command test_files s s' =
      IsUnread command test_files s s'
      ⊎ ((m : LoopState) × IsFallback command test_files s m
          × IsUnread command (pytest_file_fallback_inputs test_files) m s')

  abbrev pub Ends : List Text → List Text → LoopState → Loop → Type 0
  Ends command test_files s (done t) =
      (n : ℕ) × (inputs : List Text) × ((inputs ≡ test_files)
        ⊎ (inputs ≡ pytest_file_fallback_inputs test_files))
      × (n ≤ s.attempt_number + 2)
      × Answers (run n command inputs) n t
  Ends command test_files s (dry s') =
      Counts s'
      × (length s.attempts < length s'.attempts)
      × (length s'.attempts ≤ length s.attempts + 2)
      × IsSpent command test_files s s'

  no_third :
      (test_files : List Text) (r : CommandRun)
      → falls_back is_python run (pytest_file_fallback_inputs test_files) r ≡ true
      → ⊥
  no_third test_files r h =
      ground (arith, fallback-final is_python test_files r.returncode r.stderr, h)

  -- The inputs of a second round name files only, so there is no third.
  second_round :
      (fuel : ℕ) (command test_files : List Text) (s s' : LoopState) (r : Round)
      → Counts s
      → IsFallback command test_files s s'
      → round is_python run command (pytest_file_fallback_inputs test_files) s' ≡ r
      → IsRound command (pytest_file_fallback_inputs test_files) s' r
      → (l : Loop) × (pending_loop is_python run
            (suc fuel)
            command
            (pytest_file_fallback_inputs test_files ∷ [])
            s'
          ≡ some l)
        × Ends command test_files s l
  unfolding pending_loop
  second_round fuel command test_files s s' (finished t) c f e h =
      let follows = IsFallback→Follows command test_files s s' f in
      (
        done t,
        rw (e, pending_loop) refl,
        (
          s'.attempt_number + 1,
          pytest_file_fallback_inputs test_files,
          inr refl,
          omega (arith, follows.0),
          h,
        ),
      )
  second_round fuel command test_files s s' (next s'') c f e h =
      let d = IsFallback→Follows command test_files s s' f in
      let g = IsUnread→Follows command (pytest_file_fallback_inputs test_files) s' s'' h in
      (
        dry s'',
        rw (e, pending_loop) refl,
        (
          omega (arith, c, d.0, d.1, g.0, g.1),
          omega (arith, d.1, g.1),
          omega (arith, d.1, g.1),
          inr (s', f, h),
        ),
      )
  second_round fuel command test_files s s' (retry fallback s'') c f e (_, again) =
      absurd (no_third test_files again.result again.falls)

  pub first_round :
      (fuel : ℕ) (command test_files : List Text) (s : LoopState) (r : Round)
      → Counts s
      → round is_python run command test_files s ≡ r
      → IsRound command test_files s r
      → (l : Loop) × (pending_loop is_python run (suc (suc fuel)) command (test_files ∷ []) s
          ≡ some l)
        × Ends command test_files s l
  unfolding pending_loop
  first_round fuel command test_files s (finished t) c e h = (
    done t,
    rw (e, pending_loop) refl,
    (s.attempt_number + 1, test_files, inl refl, omega arith, h),
  )
  first_round fuel command test_files s (next s') c e h =
      let g = IsUnread→Follows command test_files s s' h in
      (
        dry s',
        rw (e, pending_loop) refl,
        (omega (arith, c, g.0, g.1), omega (arith, g.1), omega (arith, g.1), inl h),
      )
  first_round fuel command test_files s (retry fallback s') c e (same, f) =
      let g = IsFallback→Follows command test_files s s' f in
      let (l, found, ends) = second_round fuel command test_files s s' _ c f refl (
        round-IsRound command (pytest_file_fallback_inputs test_files) s'
          (omega (arith, c, g.0, g.1))) in
      (l, rw (e, pending_loop, same) found, ends)

  -- Some run of one of the commands, with the test files or the files of their inputs, gave the result.
  pub record IsReported (commands : List (List Text)) (test_files : List Text) (t : TestRun)
      : Type 0 where
    pub n : ℕ
    pub command : List Text
    pub inputs : List Text
    pub listed : In command commands
    pub given : (inputs ≡ test_files) ⊎ (inputs ≡ pytest_file_fallback_inputs test_files)
    pub answers : Answers (run n command inputs) n t
