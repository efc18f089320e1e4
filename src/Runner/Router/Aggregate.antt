-- ===== src/Runner/Router/Aggregate.antt =====
-- repogauge/runner/router.py: the attempts of a solver at an instance as one row, and the solvers by
-- what they cost on average. Costs are whole nanodollars, where the source has floats, and averages are
-- exact fractions.
use repogauge.Prelude.Text.{Text}
use repogauge.Prelude.{
  ℕ, ◌+◌, ◌*◌, String, Bool, ◌&&◌, none, some, List, [], ◌∷◌, ◌++◌, map, ◌==◌, ltb, nat_eq,
  if◌then◌else◌, length, Dict, get, put, str_lt, then_lt, total,
}
use repogauge.Prelude.Sort.{sort_by}
use repogauge.Runner.Router.Labels.{Fraction}

-- A joined attempt, its texts as _coerce_str reads them. `cost` is _read_row_cost.
pub record JoinedAttempt : Type 0 where
  pub instance_id : String
  pub solver_id : String
  pub attempt_id : String
  pub attempt_index : ℕ
  pub attempt_started_at : String
  pub attempt_ended_at : String
  pub duration_ms : ℕ
  pub cost : ℕ
  pub resolved : Bool
  pub attempt_state : Text
  pub failure_reason : Text
  pub exit_reason : Text
  pub harness_outcome : Text

-- _attempt_sort_key
unfoldable pub attempt_before : JoinedAttempt → JoinedAttempt → Bool
attempt_before a b =
    then_lt (ltb a.attempt_index b.attempt_index) (ltb b.attempt_index a.attempt_index) (
      then_lt (str_lt a.attempt_ended_at b.attempt_ended_at)
        (str_lt b.attempt_ended_at a.attempt_ended_at)
        (then_lt (str_lt a.attempt_started_at b.attempt_started_at)
          (str_lt b.attempt_started_at a.attempt_started_at) (str_lt a.attempt_id b.attempt_id)))

-- A row of _aggregate_solver_instance_rows, as far as the router reads it.
pub record SolverRow : Type 0 where
  pub instance_id : String
  pub solver_id : String
  pub attempt_ids : List String
  pub attempt_count : ℕ
  pub total_duration_ms : ℕ
  pub total_cost_usd : ℕ
  pub resolved : Bool
  pub attempt_state : Text
  pub failure_reason : Text
  pub exit_reason : Text
  pub harness_outcome : Text

-- `xs[-1]`, of `x` and the rest
abbrev pub last_of {ℓ} : {A : Type ℓ} → A → List A → A
last_of x [] = x
last_of x (y ∷ ys) = last_of y ys

-- the row of one key, from its attempts in order
unfoldable pub aggregate_of : String → String → JoinedAttempt → List JoinedAttempt → SolverRow
aggregate_of instance_id solver_id first rest =
    let final_attempt = last_of first rest in
    record {
      instance_id = instance_id;
      solver_id = solver_id;
      attempt_ids = map (λ a. a.attempt_id) (first ∷ rest);
      attempt_count = length (first ∷ rest);
      total_duration_ms = total (λ a. a.duration_ms) (first ∷ rest);
      total_cost_usd = total (λ a. a.cost) (first ∷ rest);
      resolved = final_attempt.resolved;
      attempt_state = final_attempt.attempt_state;
      failure_reason = final_attempt.failure_reason;
      exit_reason = final_attempt.exit_reason;
      harness_outcome = final_attempt.harness_outcome;
    }

-- `grouped[key].append(row)`: the keys in the order in which they come first
abbrev pub Groups : Type 0
Groups = List (String × String × List JoinedAttempt)

unfoldable pub group_attempt : Groups → JoinedAttempt → Groups
group_attempt [] a = (a.instance_id, a.solver_id, a ∷ []) ∷ []
group_attempt ((i, s, as_) ∷ gs) a =
    if i == a.instance_id && s == a.solver_id
    then (i, s, as_ ++ a ∷ []) ∷ gs
    else (i, s, as_) ∷ group_attempt gs a

unfoldable pub group_attempts : Groups → List JoinedAttempt → Groups
unfolding group_attempt
group_attempts gs [] = gs
group_attempts gs (a ∷ rest) = group_attempts (group_attempt gs a) rest

-- a group holds an attempt, since it is made for one
unfoldable pub aggregate_group : String → String → List JoinedAttempt → List SolverRow
unfolding aggregate_of
aggregate_group i s [] = []
aggregate_group i s (first ∷ rest) = aggregate_of i s first rest ∷ []

unfoldable pub aggregate_groups : Groups → List SolverRow
unfolding aggregate_group attempt_before sort_by
aggregate_groups [] = []
aggregate_groups ((i, s, as_) ∷ gs) =
    aggregate_group i s (sort_by attempt_before as_) ++ aggregate_groups gs

-- `key=lambda row: (instance_id, solver_id)`
unfoldable pub row_before : SolverRow → SolverRow → Bool
row_before a b =
    then_lt (str_lt a.instance_id b.instance_id) (str_lt b.instance_id a.instance_id)
      (str_lt a.solver_id b.solver_id)

-- _aggregate_solver_instance_rows
unfoldable pub aggregate_solver_instance_rows : List JoinedAttempt → List SolverRow
unfolding group_attempts aggregate_groups row_before sort_by
aggregate_solver_instance_rows joined_rows =
    sort_by row_before (aggregate_groups (group_attempts [] joined_rows))

-- A bucket of _rank_solvers.
pub record Totals : Type 0 where
  pub cost : ℕ
  pub duration : ℕ
  pub count : ℕ
  pub resolved : ℕ

abbrev pub totals_of : Dict Totals → String → Totals
totals_of d solver = elim (get d solver) [
  | none ↦ record { cost = 0; duration = 0; count = 0; resolved = 0 }
  | some t ↦ t
]

abbrev pub add_row : Totals → SolverRow → Totals
add_row t row = record {
  cost = t.cost + row.total_cost_usd;
  duration = t.duration + row.total_duration_ms;
  count = t.count + 1;
  resolved = t.resolved + (if row.resolved then 1 else 0);
}

unfoldable pub solver_totals : Dict Totals → List SolverRow → Dict Totals
solver_totals d [] = d
solver_totals d (row ∷ rows) =
    solver_totals (put d row.solver_id (add_row (totals_of d row.solver_id) row)) rows

pub record RankedSolver : Type 0 where
  pub solver_id : String
  pub average_cost_usd : Fraction
  pub average_duration_ms : Fraction
  pub resolved_count : ℕ
  pub instance_count : ℕ

-- `totals["count"] or 1.0`
abbrev pub rank_of : String → Totals → RankedSolver
rank_of solver_id t =
    let count = if nat_eq t.count 0 then 1 else t.count in
    record {
      solver_id = solver_id;
      average_cost_usd = record { num = t.cost; den = count };
      average_duration_ms = record { num = t.duration; den = count };
      resolved_count = t.resolved;
      instance_count = t.count;
    }

abbrev pub less : Fraction → Fraction → Bool
less a b = ltb (a.num * b.den) (b.num * a.den)

unfoldable pub ranks_before : RankedSolver → RankedSolver → Bool
ranks_before a b =
    then_lt (less a.average_cost_usd b.average_cost_usd)
      (less b.average_cost_usd a.average_cost_usd)
      (then_lt (less a.average_duration_ms b.average_duration_ms)
        (less b.average_duration_ms a.average_duration_ms) (str_lt a.solver_id b.solver_id))

-- _rank_solvers
unfoldable pub rank_solvers : List SolverRow → List RankedSolver
unfolding solver_totals ranks_before sort_by
rank_solvers rows = sort_by ranks_before (map (λ e. rank_of e.0 e.1) (solver_totals [] rows))
