-- ===== src/Lib.antt =====
-- RepoGauge mines the history of a repository for bug fixes, turns them into tasks, lets solvers write
-- patches for the tasks, and evaluates the patches. The parts modelled here are the validation of a
-- patch, the plan and the scheduler of solver jobs, their cost, the handling of diffs, and the scoring
-- of mined commits.
--
-- Validation (repogauge/validation) decides whether a patch resolves a task. `_eval_instance` of
-- validate.py makes five passes over one checkout: run A without patches, run B with the test patch,
-- run C with the test patch and the solver's patch, and a rerun of B and of C. Each pass is
-- `_run_validation_pass`, which resets the checkout, applies the patches, collects pytest nodes where
-- the tests are pytest files, and runs the tests through `_run_test`. The outcomes of the passes are
-- compared, and the verdict and its reason, normalized by evidence.py, make up the result row.
--   Validation.Outcomes: the outcomes of junit_parser.py, equality of outcome dictionaries, sorted sets
--   Validation.Evidence: FAILURE_TAXONOMY and normalize_failure_reason
--   Validation.Inputs: _pytest_file_inputs, _pytest_file_fallback_inputs, _parse_pytest_collected_nodes
--     and _should_retry_pytest_with_file_inputs
--   Validation.RunTest: the loops of _run_test; RunTest.Reports and RunTest.Outcome prove how they end
--   Validation.Pass: _run_validation_pass and _run_pytest_collection; Pass.Consistent has the proofs
--   Validation.Verdict: _derive_test_lists, _is_resolved, _is_flaky, _has_pass_to_pass_regression,
--     _declared_ftp_not_resolved and the last part of _eval_instance
--   Validation.Row: the arguments and the row of _eval_instance, and _build_eval_result
--   Validation.Instance: _eval_instance; Instance.Resolved and Instance.Reasons have the proofs
--
-- The scheduler (repogauge/runner/scheduler.py) runs the jobs that a plan has expanded. A job makes
-- attempts with an adapter until one ends it or its budget is spent. An attempt may run in a workspace,
-- holds two semaphores and passes a rate limiter. Every change of a job and every attempt is appended
-- to JSONL files, which are lists here.
--   Runner.Scheduler.State: the states, requests, results and rows
--   Runner.Scheduler.AttemptId: attempt ids and _coerce_attempt_index
--   Runner.Scheduler.Attempt: one attempt of _execute_job, and _normalize_workspace_result
--   Runner.Scheduler.Job: _execute_job, _attempt_budget, _persist_job and _persist_attempt; Job.Retries
--     and Job.History have the proofs
--   Runner.Scheduler.Guards: _resource_guards as a step relation; Guards.Balance and Guards.Progress
--   Runner.Scheduler.RateLimit: _SimpleRateLimiter; RateLimit.Window and RateLimit.Interleaved
--
-- The planner (repogauge/runner/planner.py) expands a matrix into jobs, and pricing.py estimates what an
-- attempt has cost.
--   Runner.Planner: _apply_filters, _providers_by_id, _plan_instance_order and plan_jobs; Planner.Filters
--     and Planner.Expansion have the proofs
--   Runner.Pricing: estimate_public_api_cost_usd and its table; Pricing.Caching has the proofs
--
-- Mining (repogauge/mining/score.py) scores the commits of a history and puts each in a band.
--   Mining.Pattern: a matcher for the regular expressions
--   Mining.Reject: the hard rejects
--   Mining.Signals: _BUGFIX_KEYWORDS, _ISSUE_REFERENCE_RE, _TEST_FUNCTION_RE and _ASSERTION_RE
--   Mining.Score: score_scan_commit; Score.Bounds has the proofs
--
-- Diffs: repogauge/export/split_patch.py divides a diff into the patch and the test patch, and
-- repogauge/runner/normalize_patch.py takes withheld paths out of a solver's patch.
--   Export.Shlex: shlex.split
--   Export.SplitPatch: _split_diff_files; SplitPatch.Buckets: split_prod_and_test; SplitPatch.Lossless
--     and SplitPatch.Sorted have the proofs
--   Runner.NormalizePatch: exclude_patch_paths; NormalizePatch.Excluded has the proofs
--
-- The router (repogauge/runner/router.py) learns from judged attempts when a cheap solver is enough.
--   Runner.Router.Aggregate: _aggregate_solver_instance_rows and _rank_solvers
--   Runner.Router.Policies: build_router_training_rows, the four policies and the oracle of an instance;
--     Policies.Oracle and Policies.Ordered have the proofs
--   Runner.Router.Labels: the rows, their labels, counts and Gini impurity
--   Runner.Router.Partition: _router_split_rows; Partition.Classes and Partition.Dealt have the proofs
--   Runner.Router.Tree: _router_best_split, _train_router_tree, _predict_router_label and
--     _router_accuracy; Tree.Accuracy has the proofs
--   Runner.Router.Model: _build_router_model_payload; Model.Depth and Model.Trained have the proofs
--   The features are counts and flags, so natural numbers; thresholds are held doubled; accuracies,
--   impurities and averages are exact fractions, compared with the tolerance of the source. The hash
--   that orders a class and the rounding of a fraction of a count are arguments.
--
-- The analysis (repogauge/runner/analyze.py) summarizes the joined attempts and compares the solvers.
--   Runner.Analysis.Metrics and Runner.Analysis.Resolution: _group_rows and summarize_attempt_metrics;
--     Resolution.Sets, Resolution.Valid and Resolution.Bounds have the proofs
--   Runner.Analysis.Summary: the rows of the solver table and the orders _solver_ranking_key and
--     _solver_cost_key
--   Runner.Analysis.Budget: _build_budget_frontier; Budget.Buckets, Budget.Best and Budget.Frontier have
--     the specification and the proofs
--   Runner.Analysis.Pareto: _dominates and _build_pareto_frontier; Pareto.Covered has the proofs
--   Runner.Analysis.Failure: the reasons of failures and _build_failure_breakdown; Failure.Breakdown has
--     the proofs
--   A float that is only compared is counted in units of which every float is a multiple; costs that are
--   added are whole nanodollars. What json.loads says of a line is an argument.
--
-- The judge (repogauge/runner/judge.py) runs the harness on batches of predictions and gives each a row.
--   Runner.Judge.Rows: _normalize_status, _result_row_from_instance and _parse_harness_results; Rows.Given
--     has the status that an answer of the harness gives an instance
--   Runner.Judge.Batches: _prepare_batches and _iter_chunks; Batches.Lossless has the proofs
--   Runner.Judge.Evaluation: _run_batch, and of run_harness_evaluation what comes after the batches;
--     Evaluation.Scored and Evaluation.Last have the proofs, and Evaluation.Duplicates is about an
--     instance that a batch holds twice
--   Runner.Judge.Artifacts: _write_resolved_eval_artifacts, _extract_failure_summary,
--     _build_gold_predictions and _coerce_judge_config; Artifacts.Aligned has the proofs
--   Runner.Analysis.Predictions: build_predictions_from_attempts of analyze.py, from which the judge's
--     predictions come
--   The answer of the harness to a batch and what the logs say of a failure are arguments, the threads
--   are an order of the batches, and the metadata of rows is left out.
--
-- Numbers are native numbers; times are numbers of one unit from a common origin, where the source has
-- floats. Return codes are integers of Prelude.Int. Texts that the code walks are lists of code points
-- (Prelude.Text, Prelude.Split), other texts are native strings. Exceptions are values. Adapters, the
-- checkout, the command runner, the report readers and the clock are arguments of the definitions, and
-- may answer each call differently.
--
-- Bounds: `attempts_loop` is given as many rounds as the budget, which the loop compares with its count
-- of attempts, so none is missing. `run_test` is given two rounds for each command: a command is run
-- with the given inputs and, at most once more, with the files of these inputs.
--
-- Not modelled: everything that only reads or writes files, calls programs or language models, or
-- formats reports; SolverScheduler.run; the assembly of command lines; timing fields of the rows.
pub mod Prelude
pub mod Runner
pub mod Validation
pub mod Mining
pub mod Export
