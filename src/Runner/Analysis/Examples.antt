-- ===== src/Runner/Analysis/Examples.antt =====
-- repogauge/runner/analyze.py at small reports.
use repogauge.Prelude.{
  ℕ, ◌≤◌, String, ◌≡◌, refl, Bool, true, false, Option, none, some, List, [], ◌∷◌, map,
  if◌then◌else◌, length, keep, All, count, total,
}
use repogauge.Prelude.Text.{Text, codes, text_eq}
use repogauge.Prelude.Sort.{Ascending}
use repogauge.Runner.Analysis.Summary.{SummaryRow}
use repogauge.Runner.Analysis.Budget.{is_eligible, build_budget_frontier}
use repogauge.Runner.Analysis.Budget.Best.{best_at, IsBest}
use repogauge.Runner.Analysis.Budget.Frontier.{build_budget_frontier-IsBest}
use repogauge.Runner.Analysis.Pareto.{dominates, build_pareto_frontier}
use repogauge.Runner.Analysis.Pareto.Covered.{IsCovered, build_pareto_frontier-IsCovered}
use repogauge.Runner.Analysis.Failure.{
  FailureRow, TelemetryError, counted_reason, build_failure_breakdown,
}
use repogauge.Runner.Analysis.Failure.Breakdown.{build_failure_breakdown-counts}
use repogauge.Runner.Analysis.Metrics.{MetricRow}
use repogauge.Runner.Analysis.Resolution.{ResolutionMetrics, percentile, summarize_attempt_metrics}
use repogauge.Runner.Analysis.Resolution.Bounds.{IsBounded, summarize_attempt_metrics-IsBounded}

abbrev solver : Text → ℕ → ℕ → ℕ → SummaryRow
solver id rate cost latency = record {
  group_solver_id = id;
  solver_id = [];
  raw_resolution_rate = rate;
  resolved_instance_count = rate;
  cost_per_resolved_issue = some cost;
  latency_ms_per_resolved_issue = some latency;
  total_cost_usd = cost;
  total_duration_ms = latency;
}

-- Three solvers: cheap and weak, dear and strong, and one that the second dominates.
abbrev solvers : List SummaryRow
solvers =
    solver (codes "strong") 9 50 10
    ∷ solver (codes "slow") 8 60 20
    ∷ solver (codes "weak") 3 5 10
    ∷ []

frontier :
    build_pareto_frontier solvers
    ≡ solver (codes "weak") 3 5 10 ∷ solver (codes "strong") 9 50 10 ∷ []
unfolding build_pareto_frontier
frontier = refl

afforded : best_at none (build_budget_frontier solvers) 49 ≡ some (solver (codes "weak") 3 5 10)
unfolding build_budget_frontier
afforded = refl

build_budget_frontier-IsBest_example :
    IsBest 49 (keep is_eligible solvers) (best_at none (build_budget_frontier solvers) 49)
build_budget_frontier-IsBest_example = build_budget_frontier-IsBest 49 solvers

build_pareto_frontier-IsCovered_example :
    All (λ row. All (λ other. dominates other row ≡ false) solvers) (build_pareto_frontier solvers)
    × All (IsCovered (build_pareto_frontier solvers)) solvers
build_pareto_frontier-IsCovered_example = build_pareto_frontier-IsCovered solvers

-- A row that timed out, and one whose telemetry has an error.
abbrev failure : Text → List (Option TelemetryError) → FailureRow
failure exit_reason events = record {
  harness_outcome = codes "failed";
  status = [];
  failure_reason = [];
  reason = [];
  exit_reason = exit_reason;
  attempt_state = codes "failed";
  raw_output = [];
  total_tokens = 0;
  tool_calls = 0;
  events = events;
}

abbrev failures : List FailureRow
failures =
    failure (codes "Request Timeout") []
    ∷ failure [] (none ∷ some (record { message = codes "Hit your limit"; name = [] }) ∷ [])
    ∷ failure (codes "timed-out") []
    ∷ []

-- No line of the output is JSON.
abbrev not_json : Text → Option Text
not_json line = none

labels :
    map (counted_reason not_json) failures
    ≡ codes "timeout" ∷ codes "rate_limit" ∷ codes "timeout" ∷ []
unfolding counted_reason
labels = refl

build_failure_breakdown-counts_example :
    (total
        (λ x. if text_eq x.reason (codes "timeout") then x.count else 0)
        (build_failure_breakdown not_json failures)
      ≡ count (λ row. text_eq (counted_reason not_json row) (codes "timeout")) failures)
    × (count (λ x. text_eq x.reason (codes "timeout")) (build_failure_breakdown not_json failures)
        ≤ 1)
    × All (λ x. x.total ≡ length failures) (build_failure_breakdown not_json failures)
    × Ascending (λ x y. y.count ≤ x.count) (build_failure_breakdown not_json failures)
build_failure_breakdown-counts_example =
    build_failure_breakdown-counts not_json failures (codes "timeout")

abbrev attempt : String → Bool → ℕ → ℕ → MetricRow
attempt id resolved cost duration = record {
  fields = ("solver_id", "s") ∷ [];
  metadata = [];
  instance_id = id;
  resolved = resolved;
  duration_ms = duration;
  attempt_cost_usd = some cost;
  input_tokens = 1;
  output_tokens = 1;
  total_tokens = 2;
  tool_calls = 0;
}

abbrev attempts : List MetricRow
attempts = attempt "i" false 7 10 ∷ attempt "i" true 5 30 ∷ attempt "j" true 1 20 ∷ []

summed :
    map
      (λ (m : ResolutionMetrics). m.resolved_cost_usd)
      (summarize_attempt_metrics 5 ("solver_id" ∷ []) attempts)
    ≡ 6 ∷ []
unfolding summarize_attempt_metrics
summed = refl

middle : percentile (10 ∷ 30 ∷ 20 ∷ []) 50 ≡ some 20
unfolding percentile
middle = refl

summarize_attempt_metrics-IsBounded_example :
    All IsBounded (summarize_attempt_metrics 5 ("solver_id" ∷ []) attempts)
summarize_attempt_metrics-IsBounded_example =
    summarize_attempt_metrics-IsBounded 5 ("solver_id" ∷ []) attempts
