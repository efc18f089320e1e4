-- ===== src/Runner/Router/Policies/Oracle.antt =====
-- repogauge/runner/router.py: the oracle of an instance, and the rows that are picked.
use repogauge.Prelude.{
  ℕ, ◌≤◌, String, ◌≡◌, subst, inl, inr, Bool, true, false, Option, none, some, List, [], ◌∷◌, arith,
  ◌==◌, if◌then◌else◌, Option-cases, keep, All, branches_hold, taken_holds,
}
use repogauge.Prelude.Sort.{sort_by, All-sort_by, All-keep}
use repogauge.Runner.Router.Aggregate.{SolverRow, last_of}
use repogauge.Runner.Router.Policies.{
  find_solver, solver_before, end_of, pick_solver_row, oracle_before, least_from, oracle_of,
}

-- What holds of every row holds of the one that is picked.
abbrev pub Holds : (SolverRow → Type 0) → Option SolverRow → Type 0
Holds P none = Unit
Holds P (some row) = P row

module _ (P : SolverRow → Type 0) where
  find_solver-Holds :
      (id : String) (rows : List SolverRow) → All P rows → Holds P (find_solver id rows)
  unfolding find_solver
  find_solver-Holds id [] hs = tt
  find_solver-Holds id (row ∷ rows) hs =
      branches_hold (Holds P) (row.solver_id == id) (some row) (find_solver id rows) hs.0
        (find_solver-Holds id rows hs.1)

  last_of-holds : (x : SolverRow) (xs : List SolverRow) → P x → All P xs → P (last_of x xs)
  last_of-holds x [] h hs = h
  last_of-holds x (y ∷ ys) h hs = last_of-holds y ys hs.0 hs.1

  end_of-Holds : (last : Bool) (rows : List SolverRow) → All P rows → Holds P (end_of last rows)
  end_of-Holds last [] hs = tt
  end_of-Holds last (x ∷ xs) hs =
      branches_hold P last (last_of x xs) x (last_of-holds x xs hs.0 hs.1) hs.0

  pub pick_solver_row-Holds :
      (rows : List SolverRow) (id : String) (last : Bool)
      → All P rows
      → Holds P (pick_solver_row rows id last)
  unfolding pick_solver_row
  pick_solver_row-Holds rows id last hs = elim (Option-cases (find_solver id rows)) [
    | inl (row, e) ↦ rw (e, pick_solver_row) (subst (Holds P) e (find_solver-Holds id rows hs))
    | inr e ↦
        rw (e, pick_solver_row)
          (end_of-Holds last (sort_by solver_before rows) (All-sort_by P solver_before rows hs))
  ]

-- The oracle has solved the instance, and for at most a price.
abbrev pub Costs : ℕ → Option SolverRow → Type 0
Costs price none = ⊥
Costs price (some row) = (row.resolved ≡ true) × (row.total_cost_usd ≤ price)

oracle_before-le :
    (a b : SolverRow)
    → (oracle_before a b ≡ true → a.total_cost_usd ≤ b.total_cost_usd)
      × (oracle_before a b ≡ false → b.total_cost_usd ≤ a.total_cost_usd)
unfolding oracle_before
oracle_before-le a b = ground arith

abbrev cheaper : SolverRow → SolverRow → SolverRow
cheaper row best = if oracle_before row best then row else best

cheaper-least :
    (row best : SolverRow)
    → row.resolved ≡ true
    → best.resolved ≡ true
    → ((cheaper row best).resolved ≡ true)
      × ((cheaper row best).total_cost_usd ≤ row.total_cost_usd)
      × ((cheaper row best).total_cost_usd ≤ best.total_cost_usd)
cheaper-least row best h k =
    taken_holds
      (λ x.
        (x.resolved ≡ true)
        × (x.total_cost_usd ≤ row.total_cost_usd)
        × (x.total_cost_usd ≤ best.total_cost_usd))
      (oracle_before row best) row best (λ e. (h, omega arith, (oracle_before-le row best).0 e))
      (λ e. (k, (oracle_before-le row best).1 e, omega arith))

-- The least of some rows, all resolved.
least_from-least :
    (best : SolverRow) (rows : List SolverRow)
    → best.resolved ≡ true
    → All (λ row. row.resolved ≡ true) rows
    → ((least_from best rows).resolved ≡ true)
      × ((least_from best rows).total_cost_usd ≤ best.total_cost_usd)
      × All (λ row. (least_from best rows).total_cost_usd ≤ row.total_cost_usd) rows
unfolding least_from
least_from-least best [] h hs = (h, omega arith, tt)
least_from-least best (row ∷ rows) h hs =
    let step = cheaper-least row best hs.0 h in
    let ih = least_from-least (cheaper row best) rows step.0 hs.1 in
    (ih.0, omega (arith, ih.1, step.2), (omega (arith, ih.1, step.1), ih.2))

All-map {κ μ} :
    {P : SolverRow → Type κ} {Q : SolverRow → Type μ} (f : (x : SolverRow) → P x → Q x)
    (xs : List SolverRow)
    → All P xs
    → All Q xs
All-map f [] hs = tt
All-map f (x ∷ xs) hs = (f x hs.0, All-map f xs hs.1)

oracle_of-Costs :
    (rows : List SolverRow)
    → All (λ row. row.resolved ≡ true) rows
    → All (λ row. Costs row.total_cost_usd (oracle_of rows)) rows
unfolding oracle_of
oracle_of-Costs [] hs = tt
oracle_of-Costs (row ∷ rows) hs =
    let least = least_from-least row rows hs.0 hs.1 in
    ((least.0, least.1), All-map (λ x h. (least.0, h)) rows least.2)

-- What holds of the resolved rows.
unkept_step :
    (P : SolverRow → Type 0) (X : Type 0) (b : Bool) (row : SolverRow) (kept : List SolverRow)
    → All P (if b then row ∷ kept else kept)
    → (All P kept → X)
    → (b ≡ true → P row) × X
unkept_step P X true row kept hs k = (λ _. hs.0, k hs.1)
unkept_step P X false row kept hs k = (λ e. absurd (cc e), k hs)

unkept :
    (P : SolverRow → Type 0) (rows : List SolverRow)
    → All P (keep (λ row. row.resolved) rows)
    → All (λ row. row.resolved ≡ true → P row) rows
unkept P [] hs = tt
unkept P (row ∷ rows) hs =
    unkept_step P _ row.resolved row (keep (λ row. row.resolved) rows) hs (unkept P rows)

module _ (rows : List SolverRow) where
  -- A resolved row is no cheaper than the oracle.
  abbrev pub PricedBy : SolverRow → Type 0
  PricedBy row =
      row.resolved ≡ true → Costs row.total_cost_usd (oracle_of (keep (λ row. row.resolved) rows))

  pub rows_priced : All PricedBy rows
  rows_priced =
      unkept (λ row. Costs row.total_cost_usd (oracle_of (keep (λ row. row.resolved) rows))) rows
        (oracle_of-Costs (keep (λ row. row.resolved) rows) (All-keep (λ row. row.resolved) rows))
