-- ===== src/Runner/Analysis/Metrics.antt =====
-- repogauge/runner/analyze.py: summarize_attempt_metrics, the summary of a group of joined rows. Costs are
-- whole nanodollars, where the source has floats; rates and averages are exact fractions.
use repogauge.Prelude.{
  ℕ, ◌+◌, String, Bool, true, false, ◌&&◌, Option, none, some, List, [], ◌∷◌, ◌++◌, map, ◌==◌, ltb,
  leb, if◌then◌else◌, member, Dict, get, str_lt, then_lt,
}

-- A joined row, as far as the summary reads it. A cost of none is `None`.
pub record MetricRow : Type 0 where
  pub fields : Dict String
  pub metadata : Dict String
  pub instance_id : String
  pub resolved : Bool
  pub duration_ms : ℕ
  pub attempt_cost_usd : Option ℕ
  pub input_tokens : ℕ
  pub output_tokens : ℕ
  pub total_tokens : ℕ
  pub tool_calls : ℕ

-- _read_group_value
unfoldable pub read_group_value : MetricRow → String → String
read_group_value row field = elim (get row.fields field) [
  | some v ↦ v
  | none ↦ elim (get row.metadata field) [ some v ↦ v | none ↦ "unknown" ]
]

abbrev pub GroupKey : Type 0
GroupKey = List (String × String)

abbrev pub key_eq : GroupKey → GroupKey → Bool
key_eq [] [] = true
key_eq ((a, v) ∷ k) ((b, w) ∷ l) = a == b && v == w && key_eq k l
key_eq _ _ = false

-- `tuple(...) < tuple(...)`, for keys of the same dimensions
abbrev pub key_lt : GroupKey → GroupKey → Bool
key_lt ((a, v) ∷ k) ((b, w) ∷ l) =
    then_lt (str_lt a b) (str_lt b a) (then_lt (str_lt v w) (str_lt w v) (key_lt k l))
key_lt k [] = false
key_lt [] (e ∷ l) = true

unfoldable pub group_key : List String → MetricRow → GroupKey
unfolding read_group_value
group_key dimensions row = map (λ d. (d, read_group_value row d)) dimensions

-- `grouped[key].append(row)`
unfoldable pub add_to_group :
    GroupKey → MetricRow → List (GroupKey × List MetricRow) → List (GroupKey × List MetricRow)
add_to_group key row [] = (key, row ∷ []) ∷ []
add_to_group key row ((k, rows) ∷ groups) =
    if key_eq k key then (k, rows ++ row ∷ []) ∷ groups else (k, rows) ∷ add_to_group key row groups

-- _group_rows
unfoldable pub group_rows :
    List String
    → List (GroupKey × List MetricRow)
    → List MetricRow
    → List (GroupKey × List MetricRow)
unfolding group_key add_to_group
group_rows dimensions groups [] = groups
group_rows dimensions groups (row ∷ rows) =
    group_rows dimensions (add_to_group (group_key dimensions row) row groups) rows

-- `seen.add(x)`
abbrev pub add_to_set : String → List String → List String
add_to_set x xs = if member x xs then xs else x ∷ xs

-- The locals of the loop over a group.
pub record Sums : Type 0 where
  pub instances : List String
  pub resolved_instances : List String
  pub expensive_resolved_instances : List String
  pub resolved_duration_ms : ℕ
  pub duration_ms_sum : ℕ
  pub attempt_durations_ms : List ℕ
  pub instance_costs : Dict (List ℕ)
  pub total_input_tokens : ℕ
  pub total_output_tokens : ℕ
  pub total_tokens : ℕ
  pub total_tool_calls : ℕ

abbrev pub no_sums : Sums
no_sums = record {
  instances = [];
  resolved_instances = [];
  expensive_resolved_instances = [];
  resolved_duration_ms = 0;
  duration_ms_sum = 0;
  attempt_durations_ms = [];
  instance_costs = [];
  total_input_tokens = 0;
  total_output_tokens = 0;
  total_tokens = 0;
  total_tool_calls = 0;
}

-- `instance_costs[instance_id].append(cost)`
unfoldable pub append_cost : String → ℕ → Dict (List ℕ) → Dict (List ℕ)
append_cost id cost [] = (id, cost ∷ []) ∷ []
append_cost id cost ((i, costs) ∷ d) =
    if i == id then (i, costs ++ cost ∷ []) ∷ d else (i, costs) ∷ append_cost id cost d

-- a positive cost is kept
abbrev pub with_cost : String → Option ℕ → Dict (List ℕ) → Dict (List ℕ)
with_cost id none d = d
with_cost id (some cost) d = if ltb 0 cost then append_cost id cost d else d

-- `cost is not None and float(cost) >= threshold`
abbrev pub is_expensive : ℕ → Option ℕ → Bool
is_expensive threshold none = false
is_expensive threshold (some cost) = leb threshold cost

-- one round of the loop
unfoldable pub add_metric_row : ℕ → Sums → MetricRow → Sums
unfolding append_cost
add_metric_row threshold s row =
    let id = row.instance_id in
    if id == "" then s else record {
      instances = add_to_set id s.instances;
      resolved_instances =
          if row.resolved then add_to_set id s.resolved_instances else s.resolved_instances;
      expensive_resolved_instances =
          if row.resolved && is_expensive threshold row.attempt_cost_usd
          then add_to_set id s.expensive_resolved_instances
          else s.expensive_resolved_instances;
      resolved_duration_ms = s.resolved_duration_ms + (if row.resolved then row.duration_ms else 0);
      duration_ms_sum = s.duration_ms_sum + row.duration_ms;
      attempt_durations_ms = s.attempt_durations_ms ++ row.duration_ms ∷ [];
      instance_costs = with_cost id row.attempt_cost_usd s.instance_costs;
      total_input_tokens = s.total_input_tokens + row.input_tokens;
      total_output_tokens = s.total_output_tokens + row.output_tokens;
      total_tokens = s.total_tokens + row.total_tokens;
      total_tool_calls = s.total_tool_calls + row.tool_calls;
    }

unfoldable pub add_metric_rows : ℕ → Sums → List MetricRow → Sums
unfolding add_metric_row
add_metric_rows threshold s [] = s
add_metric_rows threshold s (row ∷ rows) =
    add_metric_rows threshold (add_metric_row threshold s row) rows
