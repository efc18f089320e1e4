-- ===== src/Runner/Analysis/Budget/Buckets.antt =====
-- repogauge/runner/analyze.py: the buckets that itertools.groupby makes of the rows by cost.
use repogauge.Prelude.{
  ℕ, ◌≡◌, refl, sym, ap, ◌∙◌, subst, inl, inr, Bool, true, false, Option, none, some, List, [], ◌∷◌,
  ◌++◌, arith, Bool-cases, All, branches_hold, taken_holds, then_lt,
}
use repogauge.Prelude.Sort.{sort_by, Ascending, sort_by-Ascending}
use repogauge.Runner.Analysis.Summary.{
  SummaryRow, metric_lt, metric_le, metric_le_trans, costs_before,
}
use repogauge.Runner.Analysis.Budget.{Bucket, same_cost, onto_bucket, groupby}

-- The rows of the buckets.
abbrev pub rows_in : List Bucket → List SummaryRow
rows_in [] = []
rows_in ((budget, rows) ∷ buckets) = rows ++ rows_in buckets

rows_in-onto_bucket :
    (row : SummaryRow) (buckets : List Bucket)
    → rows_in (onto_bucket row buckets) ≡ row ∷ rows_in buckets
rows_in-onto_bucket row [] = refl
rows_in-onto_bucket row ((budget, rows) ∷ buckets) =
    elim (Bool-cases (same_cost row.cost_per_resolved_issue budget)) [
      | inl e ↦ rw e refl
      | inr e ↦ rw e refl
    ]

pub rows_in-groupby : (rows : List SummaryRow) → rows_in (groupby rows) ≡ rows
unfolding groupby
rows_in-groupby [] = refl
rows_in-groupby (row ∷ rows) =
    rows_in-onto_bucket row (groupby rows) ∙ ap (λ l. row ∷ l) (rows_in-groupby rows)

same_cost→eq : (a b : Option ℕ) → same_cost a b ≡ true → a ≡ b
same_cost→eq none none h = refl
same_cost→eq none (some n) h = absurd (cc h)
same_cost→eq (some m) none h = absurd (cc h)
same_cost→eq (some m) (some n) h = ground arith

-- Every row of a bucket costs its budget, and later budgets are no smaller.
abbrev pub IsBucketed : List Bucket → Type 0
IsBucketed [] = Unit
IsBucketed ((budget, rows) ∷ buckets) =
    All (λ row. row.cost_per_resolved_issue ≡ budget) rows
    × All (λ k. metric_le budget k.0 ≡ true) buckets
    × IsBucketed buckets

budgets-onto_bucket :
    (Q : Option ℕ → Type 0) (row : SummaryRow) (buckets : List Bucket)
    → Q row.cost_per_resolved_issue
    → All (λ k. Q k.0) buckets
    → All (λ k. Q k.0) (onto_bucket row buckets)
budgets-onto_bucket Q row [] h hs = (h, tt)
budgets-onto_bucket Q row ((budget, rows) ∷ buckets) h hs =
    branches_hold (All (λ k. Q k.0)) (same_cost row.cost_per_resolved_issue budget) _ _ (h, hs.1)
      (h, hs)

budgets-groupby :
    (Q : Option ℕ → Type 0) (rows : List SummaryRow)
    → All (λ row. Q row.cost_per_resolved_issue) rows
    → All (λ k. Q k.0) (groupby rows)
unfolding groupby
budgets-groupby Q [] hs = tt
budgets-groupby Q (row ∷ rows) hs =
    budgets-onto_bucket Q row (groupby rows) hs.0 (budgets-groupby Q rows hs.1)

onto_bucket-IsBucketed :
    (row : SummaryRow) (buckets : List Bucket)
    → All (λ k. metric_le row.cost_per_resolved_issue k.0 ≡ true) buckets
    → IsBucketed buckets
    → IsBucketed (onto_bucket row buckets)
onto_bucket-IsBucketed row [] hs bs = ((refl, tt), tt, tt)
onto_bucket-IsBucketed row ((budget, rows) ∷ buckets) hs bs =
    taken_holds IsBucketed (same_cost row.cost_per_resolved_issue budget)
      ((row.cost_per_resolved_issue, row ∷ rows) ∷ buckets)
      ((row.cost_per_resolved_issue, row ∷ []) ∷ (budget, rows) ∷ buckets)
      (λ e.
        let same = same_cost→eq row.cost_per_resolved_issue budget e in
        (
          (refl, subst (λ c. All (λ r. r.cost_per_resolved_issue ≡ c) rows) (sym same) bs.0),
          hs.1,
          bs.2,
        ))
      (λ e. ((refl, tt), hs, bs))

abbrev NoDearer : SummaryRow → SummaryRow → Type 0
NoDearer a b = metric_le a.cost_per_resolved_issue b.cost_per_resolved_issue ≡ true

groupby-IsBucketed : (rows : List SummaryRow) → Ascending NoDearer rows → IsBucketed (groupby rows)
unfolding groupby
groupby-IsBucketed [] h = tt
groupby-IsBucketed (row ∷ rows) h =
    onto_bucket-IsBucketed row (groupby rows)
      (budgets-groupby (λ c. metric_le row.cost_per_resolved_issue c ≡ true) rows h.0)
      (groupby-IsBucketed rows h.1)

metric_first :
    (x y : Option ℕ) (r : Bool)
    → (then_lt (metric_lt x y) (metric_lt y x) r ≡ true → metric_le x y ≡ true)
      × (then_lt (metric_lt x y) (metric_lt y x) r ≡ false → metric_le y x ≡ true)
metric_first none none r = (λ h. refl, λ h. refl)
metric_first none (some n) r = (λ h. absurd (cc h), λ h. refl)
metric_first (some m) none r = (λ h. refl, λ h. absurd (cc h))
metric_first (some m) (some n) r = ground arith

costs_before-NoDearer :
    (a b : SummaryRow)
    → (costs_before a b ≡ true → NoDearer a b) × (costs_before a b ≡ false → NoDearer b a)
unfolding costs_before
costs_before-NoDearer a b = metric_first a.cost_per_resolved_issue b.cost_per_resolved_issue _

-- The buckets of the rows, sorted by cost.
pub sorted-IsBucketed : (rows : List SummaryRow) → IsBucketed (groupby (sort_by costs_before rows))
sorted-IsBucketed rows = groupby-IsBucketed (sort_by costs_before rows) (
    sort_by-Ascending NoDearer costs_before
      (λ a b c.
        metric_le_trans a.cost_per_resolved_issue b.cost_per_resolved_issue
          c.cost_per_resolved_issue)
      (λ a b. (costs_before-NoDearer a b).0) (λ a b. (costs_before-NoDearer a b).1) rows)
