-- ===== src/Runner/Analysis/Resolution.antt =====
-- repogauge/runner/analyze.py: what summarize_attempt_metrics makes of the sums of a group, and the
-- summaries in order.
pub mod Sets
pub mod Valid
pub mod Bounds
use repogauge.Prelude.Text.{
  is_space, text_lt_irrefl, text_lt, text_lt_trans, Text, codes, text_eq, text_eq_sound,
  text_eq_refl, strip_prefix, strip_prefix-append, starts_with, contains,
}
use repogauge.Prelude.{
  ℕ, zero, suc, ◌+◌, ◌-◌, ◌*◌, ◌/◌, ◌%◌, ◌≤◌, ◌<◌, String, ◌≡◌, refl, sym, ap, ◌∙◌, subst, ◌≢◌, ◌↔◌,
  ◌⊎◌, inl, inr, Bool, true, false, not, ◌&&◌, ◌||◌, Option, none, some, List, [], ◌∷◌, ◌++◌, map,
  arith, ◌==◌, eq_iff, eq_refl, ltb, leb, nat_eq, if◌then◌else◌, ltb→lt, lt→ltb, ltb→le, leb→le,
  le→leb, nat_eq→eq, nat_eq_refl, tests, Bool-cases, Option-cases, is_some, length, any, all, keep,
  is_empty, All, length-append, All-append, In, member, member→In, In→member, Dict, get, put,
  get-put, keys, branches_hold, taken_holds, some_of_else, member-keep, differ→≢, str_lt, count,
  take, drop, then_lt, then_lt_trans, total, IsDistinct,
}
use repogauge.Prelude.Sort.{sort_by}
use repogauge.Runner.Analysis.Metrics.{
  MetricRow, GroupKey, key_lt, group_rows, Sums, no_sums, add_metric_rows,
}

-- `n / d`, exactly.
pub record Ratio : Type 0 where
  pub num : ℕ
  pub den : ℕ

-- _safe_rate
unfoldable pub safe_rate : ℕ → ℕ → Ratio
safe_rate n d = if leb d 0 then record { num = 0; den = 1 } else record { num = n; den = d }

-- `total / count if count > 0 else None`
abbrev pub per : ℕ → ℕ → Option Ratio
per n d = if ltb 0 d then some (record { num = n; den = d }) else none

-- `sum(values)`
abbrev pub sum : List ℕ → ℕ
sum ns = total (λ n. n) ns

-- `min(costs)` of a list that is not empty; 0 for the empty one, which no entry holds
abbrev pub least : List ℕ → ℕ
least [] = 0
least (n ∷ []) = n
least (n ∷ m ∷ ns) = let rest = least (m ∷ ns) in if leb n rest then n else rest

-- the costs of every attempt
abbrev pub all_costs : Dict (List ℕ) → ℕ
all_costs [] = 0
all_costs ((i, costs) ∷ d) = sum costs + all_costs d

-- `min(costs) for ... if instance_id in resolved_instances and costs`
abbrev pub resolved_costs : List String → Dict (List ℕ) → ℕ
resolved_costs resolved [] = 0
resolved_costs resolved ((i, costs) ∷ d) =
    (if member i resolved && not (is_empty costs) then least costs else 0)
    + resolved_costs resolved d

-- `instance_costs.get(instance_id, [])`
abbrev pub costs_of : Dict (List ℕ) → String → List ℕ
costs_of d id = elim (get d id) [ none ↦ [] | some costs ↦ costs ]

-- an instance that only expensive attempts resolved
unfoldable pub is_exclusive : ℕ → Sums → String → Bool
unfolding sort_by
is_exclusive threshold s id =
    let ordered = sort_by ltb (costs_of s.instance_costs id) in
    elim ordered [
      | [] ↦ false
      | cheapest ∷ rest ↦ leb threshold cheapest && member id s.expensive_resolved_instances
    ]

-- _percentile: the element at the rounded place; `percentile / 100 * (n - 1) + 0.5`, floored
abbrev pub element : List ℕ → ℕ → Option ℕ
element [] i = none
element (n ∷ ns) zero = some n
element (n ∷ ns) (suc i) = element ns i

unfoldable pub percentile : List ℕ → ℕ → Option ℕ
unfolding sort_by
percentile values p =
    let ordered = sort_by ltb values in
    let index = (p * (length ordered - 1) + 50) / 100 in
    if is_empty ordered
    then none
    else element ordered (if leb index (length ordered - 1) then index else length ordered - 1)

-- the least costs of the resolved instances that have one, in the order of the set
abbrev pub least_costs : Sums → List String → List ℕ
least_costs s [] = []
least_costs s (id ∷ ids) =
    let costs = costs_of s.instance_costs id in
    let rest = least_costs s ids in if is_empty costs then rest else least costs ∷ rest

-- `right - left for left, right in zip(costs, costs[1:])`, of sorted costs
abbrev pub deltas : List ℕ → List ℕ
deltas [] = []
deltas (a ∷ []) = []
deltas (a ∷ b ∷ ns) = (b - a) ∷ deltas (b ∷ ns)

unfoldable pub marginal_cost : Sums → Option Ratio
unfolding sort_by
marginal_cost s =
    if ltb (length s.resolved_instances) 2
    then none
    else let steps = deltas (sort_by ltb (least_costs s s.resolved_instances)) in
      per (sum steps) (length steps)

-- class ResolutionMetrics, with the number of the exclusive instances, whose rate it holds
pub record ResolutionMetrics : Type 0 where
  pub group : GroupKey
  pub attempt_count : ℕ
  pub unique_instance_count : ℕ
  pub resolved_instance_count : ℕ
  pub raw_resolution_rate : Ratio
  pub total_duration_ms : ℕ
  pub resolved_duration_ms : ℕ
  pub total_cost_usd : ℕ
  pub resolved_cost_usd : ℕ
  pub cost_per_resolved_issue : Option Ratio
  pub latency_ms_per_resolved_issue : Option Ratio
  pub expensive_coverage : Ratio
  pub exclusive_expensive_win_rate : Ratio
  pub marginal_cost_per_extra_resolve : Option Ratio
  pub avg_attempt_duration_ms : Ratio
  pub p50_attempt_duration_ms : Option ℕ
  pub p95_attempt_duration_ms : Option ℕ
  pub total_input_tokens : ℕ
  pub total_output_tokens : ℕ
  pub total_tokens : ℕ
  pub avg_total_tokens_per_attempt : Ratio
  pub tokens_per_resolved_issue : Option Ratio
  pub total_tool_calls : ℕ
  pub avg_tool_calls_per_attempt : Ratio
  pub tool_calls_per_resolved_issue : Option Ratio

-- the summary of a group, from its sums
unfoldable pub metrics_of : ℕ → GroupKey → ℕ → Sums → ResolutionMetrics
unfolding safe_rate is_exclusive percentile marginal_cost
metrics_of threshold key attempt_count s =
    let resolved = length s.resolved_instances in
    let resolved_cost = resolved_costs s.resolved_instances s.instance_costs in
    record {
      group = key;
      attempt_count = attempt_count;
      unique_instance_count = length s.instances;
      resolved_instance_count = resolved;
      raw_resolution_rate = safe_rate resolved (length s.instances);
      total_duration_ms = s.duration_ms_sum;
      resolved_duration_ms = s.resolved_duration_ms;
      total_cost_usd = all_costs s.instance_costs;
      resolved_cost_usd = resolved_cost;
      cost_per_resolved_issue = per resolved_cost resolved;
      latency_ms_per_resolved_issue = per s.resolved_duration_ms resolved;
      expensive_coverage = safe_rate (length s.expensive_resolved_instances) resolved;
      exclusive_expensive_win_rate =
          safe_rate (count (is_exclusive threshold s) s.resolved_instances) resolved;
      marginal_cost_per_extra_resolve = marginal_cost s;
      avg_attempt_duration_ms = safe_rate s.duration_ms_sum attempt_count;
      p50_attempt_duration_ms = percentile s.attempt_durations_ms 50;
      p95_attempt_duration_ms = percentile s.attempt_durations_ms 95;
      total_input_tokens = s.total_input_tokens;
      total_output_tokens = s.total_output_tokens;
      total_tokens = s.total_tokens;
      avg_total_tokens_per_attempt = safe_rate s.total_tokens attempt_count;
      tokens_per_resolved_issue = per s.total_tokens resolved;
      total_tool_calls = s.total_tool_calls;
      avg_tool_calls_per_attempt = safe_rate s.total_tool_calls attempt_count;
      tool_calls_per_resolved_issue = per s.total_tool_calls resolved;
    }

unfoldable pub summarize_group : ℕ → GroupKey → List MetricRow → ResolutionMetrics
unfolding metrics_of add_metric_rows
summarize_group threshold key rows =
    metrics_of threshold key (length rows) (add_metric_rows threshold no_sums rows)

abbrev pub group_before : ResolutionMetrics → ResolutionMetrics → Bool
group_before a b = key_lt a.group b.group

-- summarize_attempt_metrics, from the rows that join_attempt_rows joined
unfoldable pub summarize_attempt_metrics : ℕ → List String → List MetricRow → List ResolutionMetrics
unfolding group_rows summarize_group sort_by
summarize_attempt_metrics threshold group_by joined =
    sort_by group_before
      (map (λ g. summarize_group threshold g.0 g.1) (group_rows group_by [] joined))
