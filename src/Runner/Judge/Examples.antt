-- ===== src/Runner/Judge/Examples.antt =====
-- repogauge/runner/judge.py at three predictions of two solvers.
use repogauge.Prelude.{
  String, ◌≡◌, refl, Bool, Option, none, some, List, [], ◌∷◌, map, ◌==◌, length, All, count,
}
use repogauge.Runner.Judge.Rows.{
  by_instance, prediction_solver_id, row_of, prediction_key, DatasetRow, Prediction, error,
  resolved, skipped, HarnessResult, by_ids, ResultRow,
}
use repogauge.Runner.Judge.Batches.{
  Pair, dataset_by_id, scored_pairs, chunk_size, Batch, batch_of, prepare_batches,
}
use repogauge.Runner.Judge.Batches.Lossless.{held_in, IsBatch, prepare_batches-IsLossless}
use repogauge.Runner.Judge.Evaluation.{run_batch, row_by_key, judged_row, evaluation_rows}
use repogauge.Runner.Analysis.Predictions.{LoggedAttempt, build_predictions_from_attempts}
use repogauge.Runner.Judge.Artifacts.Aligned.{IsKnown, resolved_dataset_rows-aligned}
use repogauge.Runner.Judge.Artifacts.{
  resolved_dataset_rows, extract_failure_summary, resolved_keys, resolved_prediction_rows,
}
use repogauge.Runner.Judge.Evaluation.Scored.{ended}
use repogauge.Runner.Judge.Evaluation.Last.{
  IsClear, last_status, or_error, answers_to, judged_row-last,
}
use repogauge.Prelude.Text.{codes}
use repogauge.Runner.Judge.Evaluation.Duplicates.{Repeats, judged_row-repeated}

abbrev issue : String → DatasetRow
issue id = record { instance_id = id; repo = "repo"; version = "1"; solver = "" }

abbrev answer : String → String → Prediction
answer id solver = record { instance_id = id; solver_id = solver; model_name_or_path = "model" }

-- Two solvers of one model: their predictions share a batch.
abbrev issues : List DatasetRow
issues = issue "a" ∷ issue "b" ∷ issue "c" ∷ []

abbrev answers : List Prediction
answers = answer "a" "fast" ∷ answer "b" "fast" ∷ answer "a" "slow" ∷ []

abbrev of_issue : String → Pair → Bool
of_issue id p = p.row.instance_id == id

prepare_batches-IsLossless_example :
    (held_in (of_issue "a") (prepare_batches issues answers 2).0
      ≡ count (of_issue "a") (scored_pairs (dataset_by_id [] issues) answers))
    × All (IsBatch (chunk_size 2)) (prepare_batches issues answers 2).0
prepare_batches-IsLossless_example = prepare_batches-IsLossless issues answers 2 (of_issue "a")

two_batches : map (λ b. length b.pairs) (prepare_batches issues answers 2).0 ≡ 2 ∷ 1 ∷ []
unfolding prepare_batches
two_batches = refl

-- A harness that resolves both issues, and logs that say nothing.
abbrev all_resolved : Batch → HarnessResult
all_resolved b = by_ids ("a" ∷ "b" ∷ []) [] [] []

abbrev no_logs : ResultRow → Option (String × String)
no_logs row = none

abbrev judged : List Batch → List ResultRow
judged bs = ended no_logs all_resolved bs

-- In batches of 2 the predictions of "a" fall apart, and every one is resolved.
apart :
    map
      (λ r. r.status)
      (evaluation_rows issues answers 2 (judged (prepare_batches issues answers 2).0))
    ≡ resolved ∷ resolved ∷ resolved ∷ skipped ∷ []
unfolding evaluation_rows run_batch prepare_batches
apart = refl

-- In one batch both of them are errors.
together :
    map
      (λ r. r.status)
      (evaluation_rows issues answers 9 (judged (prepare_batches issues answers 9).0))
    ≡ error ∷ resolved ∷ error ∷ skipped ∷ []
unfolding evaluation_rows run_batch prepare_batches
together = refl

abbrev one_batch : List Batch
one_batch = batch_of [] (scored_pairs (dataset_by_id [] issues) answers) ∷ []

one_batch-Repeats : All (Repeats "a") one_batch
unfolding scored_pairs dataset_by_id
one_batch-Repeats = (record { solverless = (refl, (refl, (refl, tt))); not_one = refl }, tt)

judged_row-repeated_example :
    (judged_row (row_by_key [] (judged one_batch)) ("fast", "a") (issue "a")).status ≡ error
    × (judged_row (row_by_key [] (judged one_batch)) ("fast", "a") (issue "a")).reason
      ≡ some "no harness result for prediction"
    × (judged_row (row_by_key [] (judged one_batch)) ("fast", "a") (issue "a")).solver_id ≡ "fast"
judged_row-repeated_example =
    judged_row-repeated no_logs all_resolved one_batch "fast" "a" (issue "a") one_batch-Repeats

-- The rows of batches of 2, where the harness resolves both issues.
abbrev rows : List ResultRow
rows = evaluation_rows issues answers 2 (judged (prepare_batches issues answers 2).0)

-- Its two batches: each issue is predicted once in each.
abbrev apart_batches : List Batch
apart_batches = (prepare_batches issues answers 2).0

apart_batches-IsClear : All (IsClear all_resolved) apart_batches
unfolding prepare_batches by_instance prediction_solver_id
apart_batches-IsClear = (
  record {
    some_pair = refl;
    some_answer = refl;
    all_sole = (
      record { own = refl; has_id = refl; solverless = refl; named = refl; sole = refl },
      (record { own = refl; has_id = refl; solverless = refl; named = refl; sole = refl }, tt),
    );
  },
  (
    record {
      some_pair = refl;
      some_answer = refl;
      all_sole =
          (record { own = refl; has_id = refl; solverless = refl; named = refl; sole = refl }, tt);
    },
    tt,
  ),
)

judged_row-last_example :
    (judged_row
      (row_by_key [] (ended no_logs all_resolved apart_batches))
      ("slow", "a")
      (issue "a")).status
    ≡ or_error (last_status ("slow", "a") (answers_to all_resolved apart_batches) none)
judged_row-last_example =
    judged_row-last no_logs all_resolved apart_batches ("slow", "a") (issue "a")
      apart_batches-IsClear

last_answer :
    or_error (last_status ("slow", "a") (answers_to all_resolved apart_batches) none) ≡ resolved
unfolding prepare_batches by_instance prediction_solver_id row_of prediction_key
last_answer = refl

rows-IsKnown : All (λ r. IsKnown (dataset_by_id [] issues) r.instance_id) rows
unfolding evaluation_rows run_batch prepare_batches dataset_by_id
rows-IsKnown = (refl, (refl, (refl, (refl, tt))))

resolved_dataset_rows-aligned_example :
    map
      (λ r. r.instance_id)
      (resolved_dataset_rows
        (dataset_by_id [] issues)
        (resolved_prediction_rows (resolved_keys rows) answers))
    ≡ map (λ p. p.instance_id) (resolved_prediction_rows (resolved_keys rows) answers)
resolved_dataset_rows-aligned_example =
    resolved_dataset_rows-aligned issues answers rows rows-IsKnown

resolved_ids :
    map (λ p. p.instance_id) (resolved_prediction_rows (resolved_keys rows) answers)
    ≡ "a" ∷ "b" ∷ "a" ∷ []
unfolding resolved_prediction_rows resolved_keys evaluation_rows run_batch prepare_batches
resolved_ids = refl

log_summary :
    extract_failure_summary
      (some (codes "start\n202x - INFO - Test timed out after 9s \n202x - INFO - stop\n\nend\n"))
    ≡ some (codes "202x - INFO - Test timed out after 9s\nstop")
unfolding extract_failure_summary
log_summary = refl

-- A solver that the plan ran with two seeds: both its patches for "a" are predictions.
abbrev logged : String → LoggedAttempt
logged id = record { instance_id = id; solver_id = "fast"; model_patch = codes "+x" }

abbrev two_seeds : List Prediction
two_seeds = build_predictions_from_attempts (logged "a" ∷ logged "a" ∷ logged "b" ∷ [])

dropped_seeds :
    map
      (λ r. r.status)
      (evaluation_rows issues two_seeds 9 (judged (prepare_batches issues two_seeds 9).0))
    ≡ error ∷ error ∷ resolved ∷ skipped ∷ []
unfolding build_predictions_from_attempts evaluation_rows run_batch prepare_batches
dropped_seeds = refl
