-- ===== src/Runner/Router/Policies/Ordered.antt =====
-- repogauge/runner/router.py: how the policies of a training row compare.
use repogauge.Prelude.{
  ℕ, ◌+◌, ◌≤◌, String, ◌≡◌, refl, ◌↔◌, inl, inr, Bool, true, false, not, ◌&&◌, ◌||◌, Option, none,
  some, List, [], ◌∷◌, map, arith, if◌then◌else◌, Bool-cases, All, All-append,
}
use repogauge.Runner.Router.Labels.{likely_unsolved}
use repogauge.Runner.Router.Aggregate.{
  JoinedAttempt, SolverRow, last_of, aggregate_solver_instance_rows, RankedSolver, rank_solvers,
}
use repogauge.Runner.Router.Policies.{
  stand_in, pair_rows, pick_solver_row, policy_trigger_on_signal, RouterRow, escalating_policy,
  route_label_of, router_row_of, router_row_for, rows_of, router_rows, ranked_rows, instance_ids,
  build_router_training_rows,
}
use repogauge.Runner.Router.Policies.Oracle.{
  Holds, Costs, PricedBy, rows_priced, pick_solver_row-Holds,
}

-- A training row: escalating buys resolution with cost, signals before failures, and the oracle is no
-- dearer than what resolves.
pub record IsOrdered (r : RouterRow) : Type 0 where
  pub signal_keeps : r.cheap.resolved ≡ true → r.on_signal.resolved ≡ true
  pub failure_keeps : r.on_signal.resolved ≡ true → r.on_failure.resolved ≡ true
  pub failure_resolves : r.on_failure.resolved ≡ (r.cheap.resolved || r.expensive.resolved)
  pub cost_from : r.cheap.cost_usd ≤ r.on_signal.cost_usd
  pub cost_between : r.on_signal.cost_usd ≤ r.on_failure.cost_usd
  pub cost_to : r.on_failure.cost_usd ≤ r.cheap.cost_usd + r.expensive.cost_usd
  pub latency_from : r.cheap.latency_ms ≤ r.on_signal.latency_ms
  pub latency_between : r.on_signal.latency_ms ≤ r.on_failure.latency_ms
  pub triggered : r.policy_signal_triggered ≡ true → r.on_failure.escalated ≡ true
  pub unsolved : (r.route_label ≡ likely_unsolved) ↔ (r.on_failure.resolved ≡ false)
  pub cheap_oracle : r.cheap.resolved ≡ true → Costs r.cheap.cost_usd r.oracle
  pub expensive_oracle : r.expensive.resolved ≡ true → Costs r.expensive.cost_usd r.oracle

policy_trigger_on_signal-resolved :
    (row : SolverRow) → policy_trigger_on_signal row ≡ true → row.resolved ≡ false
unfolding policy_trigger_on_signal
policy_trigger_on_signal-resolved row h = elim (Bool-cases row.resolved) [
  | inl e ↦ ground (arith, e)
  | inr e ↦ e
]

route_label_of-unsolved : (a b : Bool) → (route_label_of a b ≡ likely_unsolved) ↔ ((a || b) ≡ false)
unfolding route_label_of
route_label_of-unsolved true true = ground arith
route_label_of-unsolved true false = ground arith
route_label_of-unsolved false true = ground arith
route_label_of-unsolved false false = ground arith

-- An escalation that happens at least as often costs at least as much.
escalation_mono :
    (a e : ℕ) (b c : Bool)
    → (b ≡ true → c ≡ true)
    → a + (if b then e else 0) ≤ a + (if c then e else 0)
escalation_mono a e true c h = rw (h refl) (omega arith)
escalation_mono a e false c h = ground arith

escalation_least : (a e : ℕ) (b : Bool) → a ≤ a + (if b then e else 0)
escalation_least a e b = omega arith

escalation_most : (a e : ℕ) (b : Bool) → a + (if b then e else 0) ≤ a + e
escalation_most a e true = omega arith
escalation_most a e false = omega arith

or_and_mono : (a b c : Bool) → (a || b && c) ≡ true → (a || c) ≡ true
or_and_mono a b c h = ground arith

or_first : (a b : Bool) → a ≡ true → (a || b) ≡ true
or_first a b h = ground arith

module _ (rows : List SolverRow) where
  module _ (ids : List String) (cheap_id expensive_id instance_id : String) where
    router_row_of-IsOrdered :
        (cheap expensive : SolverRow)
        → PricedBy rows cheap
        → PricedBy rows expensive
        → IsOrdered (router_row_of ids cheap_id expensive_id instance_id rows cheap expensive)
    unfolding router_row_of escalating_policy
    router_row_of-IsOrdered c e hc he =
        let escalates : policy_trigger_on_signal c ≡ true → not c.resolved ≡ true =
          λ h. rw (policy_trigger_on_signal-resolved c h) refl in
        let signal = policy_trigger_on_signal c in
        record {
          signal_keeps = or_first c.resolved (signal && e.resolved);
          failure_keeps = or_and_mono c.resolved signal e.resolved;
          failure_resolves = refl;
          cost_from = escalation_least c.total_cost_usd e.total_cost_usd signal;
          cost_between =
              escalation_mono c.total_cost_usd e.total_cost_usd signal (not c.resolved) escalates;
          cost_to = escalation_most c.total_cost_usd e.total_cost_usd (not c.resolved);
          latency_from = escalation_least c.total_duration_ms e.total_duration_ms signal;
          latency_between =
              escalation_mono c.total_duration_ms e.total_duration_ms signal (not c.resolved)
                escalates;
          triggered = escalates;
          unsolved = route_label_of-unsolved c.resolved e.resolved;
          cheap_oracle = hc;
          expensive_oracle = he;
        }

    -- The rows of the pair that stand_in makes.
    pair-IsOrdered :
        (c e : Option SolverRow)
        → Holds (PricedBy rows) c
        → Holds (PricedBy rows) e
        → All IsOrdered (pair_rows ids cheap_id expensive_id instance_id rows (stand_in c e))
    unfolding pair_rows
    pair-IsOrdered none none hc he = tt
    pair-IsOrdered none (some e) hc he = (router_row_of-IsOrdered e e he he, tt)
    pair-IsOrdered (some c) none hc he = (router_row_of-IsOrdered c c hc hc, tt)
    pair-IsOrdered (some c) (some e) hc he = (router_row_of-IsOrdered c e hc he, tt)

    router_row_for-IsOrdered :
        All IsOrdered (router_row_for ids cheap_id expensive_id instance_id rows)
    unfolding router_row_for
    router_row_for-IsOrdered =
        pair-IsOrdered (pick_solver_row rows cheap_id false)
          (pick_solver_row rows expensive_id true)
          (pick_solver_row-Holds (PricedBy rows) rows cheap_id false (rows_priced rows))
          (pick_solver_row-Holds (PricedBy rows) rows expensive_id true (rows_priced rows))

router_rows-IsOrdered :
    (ids : List String) (cheap_id expensive_id : String) (rows : List SolverRow)
    (instances : List String)
    → All IsOrdered (router_rows ids cheap_id expensive_id rows instances)
unfolding router_rows
router_rows-IsOrdered ids cheap_id expensive_id rows [] = tt
router_rows-IsOrdered ids cheap_id expensive_id rows (id ∷ rest) =
    All-append IsOrdered (router_row_for ids cheap_id expensive_id id (rows_of rows id))
      (router_rows ids cheap_id expensive_id rows rest)
      (router_row_for-IsOrdered (rows_of rows id) ids cheap_id expensive_id id)
      (router_rows-IsOrdered ids cheap_id expensive_id rows rest)

ranked_rows-IsOrdered :
    (rows : List SolverRow) (ranked : List RankedSolver) → All IsOrdered (ranked_rows rows ranked)
ranked_rows-IsOrdered rows [] = tt
ranked_rows-IsOrdered rows (cheapest ∷ others) =
    router_rows-IsOrdered (map (λ r. r.solver_id) (cheapest ∷ others)) cheapest.solver_id
      (last_of cheapest others).solver_id rows (instance_ids rows)

-- In every row of build_router_training_rows: escalating on a signal resolves what the cheap solver
-- resolves, and escalating on failure what either solver does; each costs at least as much as the one
-- before and takes as long, the last at most the two solvers' costs together; a signal is a failure; the
-- label is likely_unsolved exactly where escalating on failure does not resolve; and where the cheap or
-- the expensive solver resolves, the oracle does, at no higher cost.
pub build_router_training_rows-IsOrdered :
    (joined : List JoinedAttempt) → All IsOrdered (build_router_training_rows joined)
unfolding build_router_training_rows
build_router_training_rows-IsOrdered joined =
    ranked_rows-IsOrdered (aggregate_solver_instance_rows joined)
      (rank_solvers (aggregate_solver_instance_rows joined))
