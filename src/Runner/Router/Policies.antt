-- ===== src/Runner/Router/Policies.antt =====
-- repogauge/runner/router.py: build_router_training_rows, which says for each instance what four
-- routing policies would have got, and what they would have paid.
pub mod Oracle
pub mod Ordered
use repogauge.Prelude.{
  ℕ, zero, suc, ◌+◌, ◌-◌, ◌*◌, ◌/◌, ◌%◌, ◌≤◌, ◌<◌, String, ◌≡◌, refl, sym, ap, ◌∙◌, subst, ◌≢◌, ◌↔◌,
  ◌⊎◌, inl, inr, Bool, true, false, not, ◌&&◌, ◌||◌, Option, none, some, List, [], ◌∷◌, ◌++◌, map,
  arith, ◌==◌, eq_iff, eq_refl, ltb, leb, nat_eq, if◌then◌else◌, ltb→lt, lt→ltb, ltb→le, leb→le,
  le→leb, nat_eq→eq, nat_eq_refl, tests, Bool-cases, Option-cases, is_some, length, any, all, keep,
  is_empty, All, length-append, All-append, In, member, member→In, In→member, Dict, get, put,
  get-put, keys, branches_hold, taken_holds, some_of_else, member-keep, differ→≢, str_lt, count,
  take, drop, then_lt, then_lt_trans,
}
use repogauge.Prelude.Text.{
  text_lt, text_lt_trans, Text, codes, text_eq, text_eq_sound, text_eq_refl, strip_prefix,
  strip_prefix-append, starts_with, contains,
}
use repogauge.Prelude.Split.{lower}
use repogauge.Validation.Outcomes.{sorted_set}
use repogauge.Prelude.Sort.{sort_by}
use repogauge.Runner.Router.Labels.{Label, cheap_is_enough, needs_expensive, likely_unsolved}
use repogauge.Runner.Router.Aggregate.{
  JoinedAttempt, SolverRow, last_of, aggregate_solver_instance_rows, RankedSolver, rank_solvers,
}

-- _pick_solver_row: the row of the solver, or else the first of the rows by solver, or the last
unfoldable pub find_solver : String → List SolverRow → Option SolverRow
find_solver solver_id [] = none
find_solver solver_id (row ∷ rows) =
    if row.solver_id == solver_id then some row else find_solver solver_id rows

abbrev pub solver_before : SolverRow → SolverRow → Bool
solver_before a b = str_lt a.solver_id b.solver_id

-- `ordered[-1] if prefer_last else ordered[0]`
abbrev pub end_of : Bool → List SolverRow → Option SolverRow
end_of prefer_last [] = none
end_of prefer_last (x ∷ xs) = some (if prefer_last then last_of x xs else x)

unfoldable pub pick_solver_row : List SolverRow → String → Bool → Option SolverRow
unfolding find_solver sort_by
pick_solver_row rows solver_id prefer_last = elim (find_solver solver_id rows) [
  | some row ↦ some row
  | none ↦ end_of prefer_last (sort_by solver_before rows)
]

-- _ESCALATION_SIGNAL_TERMS
abbrev pub escalation_signal_terms : List Text
escalation_signal_terms =
    codes "invalid_patch"
    ∷ codes "invalid patch"
    ∷ codes "timed_out"
    ∷ codes "timed out"
    ∷ codes "timeout"
    ∷ codes "no_progress"
    ∷ codes "no progress"
    ∷ codes "no-progress"
    ∷ codes "budget_exceeded"
    ∷ codes "budget exceeded"
    ∷ []

-- `" ".join([...])`
abbrev pub haystack_of : SolverRow → Text
haystack_of row =
    row.attempt_state
    ++ codes " "
    ++ row.failure_reason
    ++ codes " "
    ++ row.exit_reason
    ++ codes " "
    ++ row.harness_outcome

-- _policy_trigger_on_signal
unfoldable pub policy_trigger_on_signal : SolverRow → Bool
unfolding lower contains text_eq
policy_trigger_on_signal row =
    if row.resolved
    then false
    else if any (λ state. text_eq state (lower row.attempt_state))
        (codes "invalid_patch" ∷ codes "timed_out" ∷ codes "budget_exceeded" ∷ [])
    then true
    else any (λ term. contains term (lower (haystack_of row))) escalation_signal_terms

-- _policy_result
pub record Policy : Type 0 where
  pub resolved : Bool
  pub cost_usd : ℕ
  pub latency_ms : ℕ
  pub escalated : Bool
  pub solver_id : String

-- A row of build_router_training_rows, less what it copies for reports.
pub record RouterRow : Type 0 where
  pub instance_id : String
  pub solver_count : ℕ
  pub resolved_solver_count : ℕ
  pub solver_ranked_ids : List String
  pub cheap : Policy
  pub expensive : Policy
  pub on_failure : Policy
  pub on_signal : Policy
  pub policy_signal_triggered : Bool
  pub oracle : Option SolverRow
  pub route_label : Label

-- a policy of one solver
abbrev pub sole_policy : SolverRow → String → Policy
sole_policy row solver_id = record {
  resolved = row.resolved;
  cost_usd = row.total_cost_usd;
  latency_ms = row.total_duration_ms;
  escalated = false;
  solver_id = solver_id;
}

-- failure_policy and signal_policy: the cheap solver first, and the expensive one where it escalates
unfoldable pub escalating_policy : SolverRow → SolverRow → String → String → Bool → Bool → Policy
escalating_policy cheap expensive cheap_id expensive_id escalated resolved = record {
  resolved = resolved;
  cost_usd = cheap.total_cost_usd + (if escalated then expensive.total_cost_usd else 0);
  latency_ms = cheap.total_duration_ms + (if escalated then expensive.total_duration_ms else 0);
  escalated = escalated;
  solver_id = if escalated then expensive_id else cheap_id;
}

-- `key=lambda row: (total_cost_usd, total_duration_ms, solver_id)`
unfoldable pub oracle_before : SolverRow → SolverRow → Bool
oracle_before a b =
    then_lt (ltb a.total_cost_usd b.total_cost_usd) (ltb b.total_cost_usd a.total_cost_usd) (
      then_lt (ltb a.total_duration_ms b.total_duration_ms)
        (ltb b.total_duration_ms a.total_duration_ms) (str_lt a.solver_id b.solver_id))

-- `min(rows, key=...)`: the first of the least
unfoldable pub least_from : SolverRow → List SolverRow → SolverRow
unfolding oracle_before
least_from best [] = best
least_from best (row ∷ rows) = least_from (if oracle_before row best then row else best) rows

unfoldable pub oracle_of : List SolverRow → Option SolverRow
unfolding least_from
oracle_of [] = none
oracle_of (row ∷ rows) = some (least_from row rows)

unfoldable pub route_label_of : Bool → Bool → Label
route_label_of cheap_resolved expensive_resolved =
    if not cheap_resolved && expensive_resolved
    then needs_expensive
    else if not cheap_resolved && not expensive_resolved
    then likely_unsolved
    else cheap_is_enough

-- the row of an instance, from the two rows that the policies use
unfoldable pub router_row_of :
    List String → String → String → String → List SolverRow → SolverRow → SolverRow → RouterRow
unfolding policy_trigger_on_signal escalating_policy oracle_of route_label_of
router_row_of ranked_ids cheap_id expensive_id instance_id solver_rows cheap expensive =
    let signal = policy_trigger_on_signal cheap in
    let resolved_rows = keep (λ row. row.resolved) solver_rows in
    record {
      instance_id = instance_id;
      solver_count = length solver_rows;
      resolved_solver_count = length resolved_rows;
      solver_ranked_ids = ranked_ids;
      cheap = sole_policy cheap cheap_id;
      expensive = sole_policy expensive expensive_id;
      on_failure =
          escalating_policy cheap expensive cheap_id expensive_id (not cheap.resolved)
            (cheap.resolved || expensive.resolved);
      on_signal =
          escalating_policy cheap expensive cheap_id expensive_id signal
            (cheap.resolved || signal && expensive.resolved);
      policy_signal_triggered = signal;
      oracle = oracle_of resolved_rows;
      route_label = route_label_of cheap.resolved expensive.resolved;
    }

-- one row stands in for the other that is missing
abbrev pub stand_in : Option SolverRow → Option SolverRow → Option (SolverRow × SolverRow)
stand_in none none = none
stand_in none (some e) = some (e, e)
stand_in (some c) none = some (c, c)
stand_in (some c) (some e) = some (c, e)

unfoldable pub pair_rows :
    List String
    → String
    → String
    → String
    → List SolverRow
    → Option (SolverRow × SolverRow)
    → List RouterRow
unfolding router_row_of
pair_rows ranked_ids cheap_id expensive_id instance_id solver_rows none = []
pair_rows ranked_ids cheap_id expensive_id instance_id solver_rows (some (cheap, expensive)) =
    router_row_of ranked_ids cheap_id expensive_id instance_id solver_rows cheap expensive ∷ []

-- one round of the loop over the instances; `solver_rows` is sorted by solver
unfoldable pub router_row_for :
    List String → String → String → String → List SolverRow → List RouterRow
unfolding pick_solver_row pair_rows
router_row_for ranked_ids cheap_id expensive_id instance_id solver_rows =
    pair_rows ranked_ids cheap_id expensive_id instance_id solver_rows (
      stand_in (pick_solver_row solver_rows cheap_id false)
        (pick_solver_row solver_rows expensive_id true))

-- `sorted(by_instance)`, with the rows of each instance
unfoldable pub instance_ids : List SolverRow → List String
unfolding sorted_set
instance_ids rows = sorted_set (map (λ row. row.instance_id) rows)

unfoldable pub rows_of : List SolverRow → String → List SolverRow
unfolding sort_by
rows_of rows instance_id = sort_by solver_before (keep (λ row. row.instance_id == instance_id) rows)

unfoldable pub router_rows :
    List String → String → String → List SolverRow → List String → List RouterRow
unfolding router_row_for rows_of
router_rows ranked_ids cheap_id expensive_id rows [] = []
router_rows ranked_ids cheap_id expensive_id rows (id ∷ ids) =
    router_row_for ranked_ids cheap_id expensive_id id (rows_of rows id)
    ++ router_rows ranked_ids cheap_id expensive_id rows ids

-- from the ranking on: none of the solvers, or the cheapest and the dearest
abbrev pub ranked_rows : List SolverRow → List RankedSolver → List RouterRow
ranked_rows rows [] = []
ranked_rows rows (cheapest ∷ others) =
    router_rows (map (λ r. r.solver_id) (cheapest ∷ others)) cheapest.solver_id
      (last_of cheapest others).solver_id rows (instance_ids rows)

-- build_router_training_rows, from the attempts that join_attempt_rows joined
unfoldable pub build_router_training_rows : List JoinedAttempt → List RouterRow
unfolding aggregate_solver_instance_rows rank_solvers router_rows instance_ids
build_router_training_rows joined =
    let rows = aggregate_solver_instance_rows joined in ranked_rows rows (rank_solvers rows)
