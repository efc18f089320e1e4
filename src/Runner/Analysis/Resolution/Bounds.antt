-- ===== src/Runner/Analysis/Resolution/Bounds.antt =====
-- repogauge/runner/analyze.py: how the counts of a summary bound one another.
use repogauge.Prelude.{
  ℕ, ◌+◌, ◌≤◌, String, ◌≡◌, refl, subst, Bool, true, List, [], ◌∷◌, map, arith, length, keep, All,
  member, Dict, branches_hold, member-keep, count, IsDistinct,
}
use repogauge.Prelude.Sort.{All-sort_by, All-weaken, All-keep}
use repogauge.Runner.Analysis.Metrics.{
  MetricRow, GroupKey, Sums, no_sums, add_metric_rows, group_rows,
}
use repogauge.Runner.Analysis.Resolution.{
  safe_rate, sum, least, all_costs, resolved_costs, is_exclusive, ResolutionMetrics, metrics_of,
  summarize_group, group_before, summarize_attempt_metrics,
}
use repogauge.Runner.Analysis.Resolution.Sets.{Within, length-Within}
use repogauge.Runner.Analysis.Resolution.Valid.{IsValid, add_metric_rows-IsValid}

least-le-sum : (costs : List ℕ) → least costs ≤ sum costs
least-le-sum [] = omega arith
least-le-sum (n ∷ []) = omega arith
least-le-sum (n ∷ m ∷ ns) = ground (arith, least-le-sum (m ∷ ns))

-- What the resolved instances cost at least is part of what all attempts cost.
resolved_costs-le :
    (resolved : List String) (d : Dict (List ℕ)) → resolved_costs resolved d ≤ all_costs d
resolved_costs-le resolved [] = omega arith
resolved_costs-le resolved ((i, costs) ∷ d) =
    ground (arith, least-le-sum costs, resolved_costs-le resolved d)

-- An exclusive instance is one of the expensive ones.
is_exclusive-member :
    (threshold : ℕ) (s : Sums) (id : String)
    → is_exclusive threshold s id ≡ true
    → member id s.expensive_resolved_instances ≡ true
unfolding is_exclusive
is_exclusive-member threshold s id h = ground arith

keep-IsDistinct : (p : String → Bool) (xs : List String) → IsDistinct xs → IsDistinct (keep p xs)
keep-IsDistinct p [] h = tt
keep-IsDistinct p (x ∷ xs) h =
    branches_hold IsDistinct (p x) (x ∷ keep p xs) (keep p xs)
      (rw (member-keep x p xs, h.0) refl, keep-IsDistinct p xs h.1) (keep-IsDistinct p xs h.1)

count-keep : (p : String → Bool) (xs : List String) → count p xs ≡ length (keep p xs)
count-keep p [] = refl
count-keep p (x ∷ xs) = ground (arith, count-keep p xs)

exclusive-le :
    (threshold n : ℕ) (s : Sums)
    → IsValid n s
    → count (is_exclusive threshold s) s.resolved_instances ≤ length s.expensive_resolved_instances
exclusive-le threshold n s v =
    let kept = keep (is_exclusive threshold s) s.resolved_instances in
    let inside : Within kept s.expensive_resolved_instances =
      All-weaken (is_exclusive-member threshold s) kept
        (All-keep (is_exclusive threshold s) s.resolved_instances) in
    omega (
      arith,
      count-keep (is_exclusive threshold s) s.resolved_instances,
      length-Within kept s.expensive_resolved_instances
          (keep-IsDistinct (is_exclusive threshold s) s.resolved_instances v.distinct_resolved)
          inside,
    )

-- A summary that is consistent with itself.
pub record IsBounded (m : ResolutionMetrics) : Type 0 where
  pub exclusive : m.exclusive_expensive_win_rate.num ≤ m.expensive_coverage.num
  pub same_den : m.exclusive_expensive_win_rate.den ≡ m.expensive_coverage.den
  pub coverage : m.expensive_coverage.num ≤ m.expensive_coverage.den
  pub rate : m.raw_resolution_rate.num ≤ m.raw_resolution_rate.den
  pub resolved : m.resolved_instance_count ≤ m.unique_instance_count
  pub unique : m.unique_instance_count ≤ m.attempt_count
  pub cost : m.resolved_cost_usd ≤ m.total_cost_usd
  pub duration : m.resolved_duration_ms ≤ m.total_duration_ms

safe_rate-le : (n d : ℕ) → n ≤ d → (safe_rate n d).num ≤ (safe_rate n d).den
unfolding safe_rate
safe_rate-le n d h = ground arith

safe_rate_mono : (m n d : ℕ) → m ≤ n → (safe_rate m d).num ≤ (safe_rate n d).num
unfolding safe_rate
safe_rate_mono m n d h = ground arith

safe_rate-den : (m n d : ℕ) → (safe_rate m d).den ≡ (safe_rate n d).den
unfolding safe_rate
safe_rate-den m n d = ground arith

metrics_of-IsBounded :
    (threshold : ℕ) (key : GroupKey) (n : ℕ) (s : Sums)
    → IsValid n s
    → IsBounded (metrics_of threshold key n s)
unfolding metrics_of
metrics_of-IsBounded threshold key n s v =
    let resolved = length s.resolved_instances in
    let expensive = length s.expensive_resolved_instances in
    let exclusive = count (is_exclusive threshold s) s.resolved_instances in
    let resolved_le : resolved ≤ length s.instances =
      length-Within s.resolved_instances s.instances v.distinct_resolved v.resolved_within in
    let expensive_le : expensive ≤ resolved =
      length-Within s.expensive_resolved_instances s.resolved_instances v.distinct_expensive
        v.expensive_within in
    record {
      exclusive = safe_rate_mono exclusive expensive resolved (exclusive-le threshold n s v);
      same_den = safe_rate-den exclusive expensive resolved;
      coverage = safe_rate-le expensive resolved expensive_le;
      rate = safe_rate-le resolved (length s.instances) resolved_le;
      resolved = resolved_le;
      unique = v.few;
      cost = resolved_costs-le s.resolved_instances s.instance_costs;
      duration = v.durations;
    }

summarize_group-IsBounded :
    (threshold : ℕ) (key : GroupKey) (rows : List MetricRow)
    → IsBounded (summarize_group threshold key rows)
unfolding summarize_group
summarize_group-IsBounded threshold key rows =
    let start : IsValid 0 no_sums = record {
      distinct_instances = tt;
      distinct_resolved = tt;
      distinct_expensive = tt;
      resolved_within = tt;
      expensive_within = tt;
      few = omega arith;
      durations = omega arith;
    } in
    let valid = add_metric_rows-IsValid threshold 0 no_sums rows start in
    let e : 0 + length rows ≡ length rows = omega arith in
    metrics_of-IsBounded threshold key (length rows) (add_metric_rows threshold no_sums rows)
      (subst (λ n. IsValid n (add_metric_rows threshold no_sums rows)) e valid)

groups-IsBounded :
    (threshold : ℕ) (groups : List (GroupKey × List MetricRow))
    → All IsBounded (map (λ g. summarize_group threshold g.0 g.1) groups)
groups-IsBounded threshold [] = tt
groups-IsBounded threshold ((key, rows) ∷ groups) =
    (summarize_group-IsBounded threshold key rows, groups-IsBounded threshold groups)

-- Every summary bounds itself: exclusive expensive wins are among the expensive wins, these among the
-- resolved instances, these among the instances, and these are no more than the attempts, so that the
-- rates are at most 1; and what the resolved instances cost at least, and took, is at most what all
-- attempts did.
pub summarize_attempt_metrics-IsBounded :
    (threshold : ℕ) (group_by : List String) (joined : List MetricRow)
    → All IsBounded (summarize_attempt_metrics threshold group_by joined)
unfolding summarize_attempt_metrics
summarize_attempt_metrics-IsBounded threshold group_by joined =
    All-sort_by IsBounded group_before
      (map (λ g. summarize_group threshold g.0 g.1) (group_rows group_by [] joined))
      (groups-IsBounded threshold (group_rows group_by [] joined))
