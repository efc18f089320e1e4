-- ===== src/Runner/Analysis/Budget.antt =====
-- repogauge/runner/analyze.py: _build_budget_frontier, the best solver that each budget affords.
pub mod Buckets
pub mod Best
pub mod Frontier
use repogauge.Prelude.Text.{
  text_lt, text_lt_trans, Text, codes, text_eq, text_eq_sound, text_eq_refl, strip_prefix,
  strip_prefix-append, starts_with, contains,
}
use repogauge.Prelude.{
  ℕ, zero, suc, ◌+◌, ◌-◌, ◌*◌, ◌/◌, ◌%◌, ◌≤◌, ◌<◌, String, ◌≡◌, refl, sym, ap, ◌∙◌, subst, ◌≢◌, ◌↔◌,
  ◌⊎◌, inl, inr, Bool, true, false, not, ◌&&◌, ◌||◌, Option, none, some, List, [], ◌∷◌, ◌++◌, map,
  arith, ◌==◌, eq_iff, eq_refl, ltb, leb, nat_eq, if◌then◌else◌, ltb→lt, lt→ltb, ltb→le, leb→le,
  le→leb, nat_eq→eq, nat_eq_refl, tests, Bool-cases, Option-cases, is_some, length, any, all, keep,
  is_empty, All, length-append, All-append, In, member, member→In, In→member, Dict, get, put,
  get-put, keys, branches_hold, taken_holds, some_of_else, member-keep, differ→≢, str_lt, count,
  take, drop, then_lt, then_lt_trans,
}
use repogauge.Prelude.Sort.{sort_by}
use repogauge.Runner.Analysis.Summary.{
  SummaryRow, solver_id_from_row, metric_lt, metric_le, ranks_before, costs_before,
}

-- the rows with a cost and a resolved instance
unfoldable pub is_eligible : SummaryRow → Bool
is_eligible row = is_some row.cost_per_resolved_issue && ltb 0 row.resolved_instance_count

-- A row of the frontier.
pub record BudgetRow : Type 0 where
  pub budget : Option ℕ
  pub best : SummaryRow
  pub affordable_solver_ids : List Text

abbrev pub Bucket : Type 0
Bucket = Option ℕ × List SummaryRow

abbrev pub same_cost : Option ℕ → Option ℕ → Bool
same_cost a b = not (metric_lt a b) && not (metric_lt b a)

-- itertools.groupby by cost: neighbours with the same cost
abbrev pub onto_bucket : SummaryRow → List Bucket → List Bucket
onto_bucket row [] = (row.cost_per_resolved_issue, row ∷ []) ∷ []
onto_bucket row ((budget, rows) ∷ buckets) =
    if same_cost row.cost_per_resolved_issue budget
    then (row.cost_per_resolved_issue, row ∷ rows) ∷ buckets
    else (row.cost_per_resolved_issue, row ∷ []) ∷ (budget, rows) ∷ buckets

unfoldable pub groupby : List SummaryRow → List Bucket
groupby [] = []
groupby (row ∷ rows) = onto_bucket row (groupby rows)

-- `if best_row is None or key(row) < key(best_row): best_row = row`
unfoldable pub better_row : Option SummaryRow → SummaryRow → SummaryRow
unfolding ranks_before
better_row none row = row
better_row (some best) row = if ranks_before row best then row else best

unfoldable pub best_of : Option SummaryRow → List SummaryRow → Option SummaryRow
unfolding better_row
best_of best [] = best
best_of best (row ∷ rows) = best_of (some (better_row best row)) rows

-- a row of the frontier, where there is a best row
unfoldable pub budget_rows : Option ℕ → List SummaryRow → Option SummaryRow → List BudgetRow
unfolding solver_id_from_row
budget_rows budget bucket none = []
budget_rows budget bucket (some best) =
    (record { budget = budget; best = best; affordable_solver_ids = map solver_id_from_row bucket })
    ∷ []

-- the loop over the buckets
unfoldable pub frontier_loop : Option SummaryRow → List Bucket → List BudgetRow
unfolding best_of budget_rows
frontier_loop best [] = []
frontier_loop best ((budget, bucket) ∷ buckets) =
    let found = best_of best bucket in
    budget_rows budget bucket found ++ frontier_loop found buckets

-- _build_budget_frontier
unfoldable pub build_budget_frontier : List SummaryRow → List BudgetRow
unfolding is_eligible costs_before sort_by groupby frontier_loop
build_budget_frontier rows =
    frontier_loop none (groupby (sort_by costs_before (keep is_eligible rows)))
