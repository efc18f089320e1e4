-- ===== src/Runner/Analysis/Resolution/Valid.antt =====
-- repogauge/runner/analyze.py: the invariant of the loop over a group of rows.
use repogauge.Prelude.{
  ℕ, suc, ◌+◌, ◌≤◌, String, ◌≡◌, Bool, true, false, ◌&&◌, List, [], ◌∷◌, arith, ◌==◌, if◌then◌else◌,
  length, branches_hold, IsDistinct,
}
use repogauge.Runner.Analysis.Metrics.{
  MetricRow, add_to_set, is_expensive, Sums, add_metric_row, add_metric_rows,
}
use repogauge.Runner.Analysis.Resolution.Sets.{
  Within, add_to_set-IsDistinct, Within-add_to_set, add_to_set-Within,
}

-- The sums of some rows.
pub record IsValid (rows : ℕ) (s : Sums) : Type 0 where
  pub distinct_instances : IsDistinct s.instances
  pub distinct_resolved : IsDistinct s.resolved_instances
  pub distinct_expensive : IsDistinct s.expensive_resolved_instances
  pub resolved_within : Within s.resolved_instances s.instances
  pub expensive_within : Within s.expensive_resolved_instances s.resolved_instances
  pub few : length s.instances ≤ rows
  pub durations : s.resolved_duration_ms ≤ s.duration_ms_sum

length-add_to_set : (x : String) (xs : List String) → length (add_to_set x xs) ≤ suc (length xs)
length-add_to_set x xs = ground arith

-- A set that an instance joins on a condition.
joins_on :
    (b : Bool) (x : String) (xs : List String)
    → IsDistinct xs
    → IsDistinct (if b then add_to_set x xs else xs)
joins_on b x xs h = branches_hold IsDistinct b (add_to_set x xs) xs (add_to_set-IsDistinct x xs h) h

resolved_grows :
    (b : Bool) (x : String) (xs ys : List String)
    → Within xs ys
    → Within (if b then add_to_set x xs else xs) (add_to_set x ys)
resolved_grows b x xs ys h =
    branches_hold (λ l. Within l (add_to_set x ys)) b (add_to_set x xs) xs
      (add_to_set-Within x xs ys h) (Within-add_to_set x xs ys h)

expensive_grows :
    (b c : Bool) (x : String) (xs ys : List String)
    → Within xs ys
    → Within (if b && c then add_to_set x xs else xs) (if b then add_to_set x ys else ys)
expensive_grows true c x xs ys h = resolved_grows c x xs ys h
expensive_grows false c x xs ys h = h

durations_grow : (b : Bool) (d m n : ℕ) → m ≤ n → m + (if b then d else 0) ≤ n + d
durations_grow true d m n h = omega arith
durations_grow false d m n h = omega arith

add_metric_row-IsValid :
    (threshold n : ℕ) (s : Sums) (row : MetricRow)
    → IsValid n s
    → IsValid (suc n) (add_metric_row threshold s row)
unfolding add_metric_row
add_metric_row-IsValid threshold n s row v =
    branches_hold (IsValid (suc n)) (row.instance_id == "") s _
      (record {
        distinct_instances = v.distinct_instances;
        distinct_resolved = v.distinct_resolved;
        distinct_expensive = v.distinct_expensive;
        resolved_within = v.resolved_within;
        expensive_within = v.expensive_within;
        few = omega (arith, v.few);
        durations = v.durations;
      })
      (record {
        distinct_instances = add_to_set-IsDistinct row.instance_id s.instances v.distinct_instances;
        distinct_resolved =
            joins_on row.resolved row.instance_id s.resolved_instances v.distinct_resolved;
        distinct_expensive =
            joins_on (row.resolved && is_expensive threshold row.attempt_cost_usd) row.instance_id
              s.expensive_resolved_instances v.distinct_expensive;
        resolved_within =
            resolved_grows row.resolved row.instance_id s.resolved_instances s.instances
              v.resolved_within;
        expensive_within =
            expensive_grows row.resolved (is_expensive threshold row.attempt_cost_usd)
              row.instance_id s.expensive_resolved_instances s.resolved_instances
              v.expensive_within;
        few = omega (arith, v.few, length-add_to_set row.instance_id s.instances);
        durations = durations_grow row.resolved row.duration_ms _ _ v.durations;
      })

pub add_metric_rows-IsValid :
    (threshold n : ℕ) (s : Sums) (rows : List MetricRow)
    → IsValid n s
    → IsValid (n + length rows) (add_metric_rows threshold s rows)
unfolding add_metric_rows
add_metric_rows-IsValid threshold n s [] v = let e : n + 0 ≡ n = omega arith in rw e v
add_metric_rows-IsValid threshold n s (row ∷ rows) v =
    let e : n + suc (length rows) ≡ suc n + length rows = omega arith in
    rw e (
      add_metric_rows-IsValid threshold (suc n) (add_metric_row threshold s row) rows
        (add_metric_row-IsValid threshold n s row v))
