-- ===== src/Runner/Analysis/Budget/Frontier.antt =====
-- repogauge/runner/analyze.py: the frontier answers every budget as its specification does.
use repogauge.Prelude.{
  ℕ, ◌≡◌, refl, sym, ◌∙◌, subst, inl, inr, true, false, Option, none, some, List, [], ◌∷◌, ◌++◌,
  Bool-cases, keep, All, All-append,
}
use repogauge.Prelude.Sort.{In-unsort_by, sort_by, unsort_by, All-weaken}
use mathlib.Core.List.{append_assoc, append-nil}
use repogauge.Runner.Analysis.Summary.{SummaryRow, metric_le, metric_le_trans, costs_before}
use repogauge.Runner.Analysis.Budget.{
  is_eligible, BudgetRow, Bucket, groupby, better_row, best_of, budget_rows, frontier_loop,
  build_budget_frontier,
}
use repogauge.Runner.Analysis.Budget.Buckets.{
  rows_in, rows_in-groupby, IsBucketed, sorted-IsBucketed,
}
use repogauge.Runner.Analysis.Budget.Best.{best_at, affords, IsBest, IsBest-beyond, IsBest-best_of}

best_of-some :
    (x : SummaryRow) (rows : List SummaryRow) → (y : SummaryRow) × (best_of (some x) rows ≡ some y)
unfolding best_of
best_of-some x [] = (x, refl)
best_of-some x (row ∷ rows) = best_of-some (better_row (some x) row) rows

module _ (b : ℕ) where
  -- A budget within b sets the answer to the best row so far.
  read_within :
      (c : Option ℕ) (best : Option SummaryRow) (bucket : List SummaryRow) (rest : List BudgetRow)
      → metric_le c (some b) ≡ true
      → best_at best (budget_rows c bucket (best_of best bucket) ++ rest) b
        ≡ best_at (best_of best bucket) rest b
  unfolding budget_rows
  read_within c none [] rest e = unfold best_of in refl
  read_within c (some x) [] rest e = unfold best_of in rw e refl
  read_within c best (row ∷ bucket) rest e =
      let found = best_of-some (better_row best row) bucket in
      let same : best_of best (row ∷ bucket) ≡ some found.0 = unfold best_of in found.1 in
      rw (same, e) refl

  -- A budget beyond b leaves the answer.
  read_beyond :
      (c : Option ℕ) (found best : Option SummaryRow) (bucket : List SummaryRow)
      (rest : List BudgetRow)
      → metric_le c (some b) ≡ false
      → best_at found (budget_rows c bucket best ++ rest) b ≡ best_at found rest b
  unfolding budget_rows
  read_beyond c found none bucket rest e = refl
  read_beyond c found (some x) bucket rest e = rw e refl

  read_beyond_buckets :
      (buckets : List Bucket) (found best : Option SummaryRow)
      → All (λ k. metric_le k.0 (some b) ≡ false) buckets
      → best_at found (frontier_loop best buckets) b ≡ found
  unfolding frontier_loop
  read_beyond_buckets [] found best hs = refl
  read_beyond_buckets ((c, bucket) ∷ buckets) found best hs =
      read_beyond c found (best_of best bucket) bucket _ hs.0
      ∙ read_beyond_buckets buckets found (best_of best bucket) hs.1

  beyond :
      (c d : Option ℕ)
      → metric_le c (some b) ≡ false
      → metric_le c d ≡ true
      → metric_le d (some b) ≡ false
  beyond c d e h = elim (Bool-cases (metric_le d (some b))) [
    | inl k ↦
        let within : metric_le c (some b) ≡ true = metric_le_trans c d (some b) h k in absurd (cc)
    | inr k ↦ k
  ]

  rows_beyond :
      (buckets : List Bucket)
      → IsBucketed buckets
      → All (λ k. metric_le k.0 (some b) ≡ false) buckets
      → All (λ row. affords b row ≡ false) (rows_in buckets)
  rows_beyond [] w hs = tt
  rows_beyond ((c, rows) ∷ buckets) w hs =
      All-append (λ row. affords b row ≡ false) rows (rows_in buckets)
        (All-weaken (λ row e. rw e hs.0) rows w.0) (rows_beyond buckets w.2 hs.1)

  -- The loop, from the rows that it has seen.
  loop-IsBest :
      (buckets : List Bucket) (rows : List SummaryRow) (best : Option SummaryRow)
      → IsBucketed buckets
      → IsBest b rows best
      → IsBest b (rows ++ rows_in buckets) (best_at best (frontier_loop best buckets) b)
  unfolding frontier_loop
  loop-IsBest [] rows best w h = subst (λ l. IsBest b l best) (sym (append-nil rows)) h
  loop-IsBest ((c, bucket) ∷ buckets) rows best w h = elim (Bool-cases (metric_le c (some b))) [
    | inl e ↦
        let found = best_of best bucket in
        let seen = IsBest-best_of b rows bucket best h (All-weaken (λ row f. rw f e) bucket w.0) in
        rw (read_within c best bucket (frontier_loop found buckets) e) (
          subst (λ l. IsBest b l (best_at found (frontier_loop found buckets) b))
            (append_assoc rows bucket (rows_in buckets))
            (loop-IsBest buckets (rows ++ bucket) found w.2 seen))
    | inr e ↦
        let later = All-weaken (λ (k : Bucket) f. beyond c k.0 e f) buckets w.1 in
        subst (IsBest b (rows ++ (bucket ++ rows_in buckets)))
          (sym (read_beyond_buckets ((c, bucket) ∷ buckets) best best (e, later)))
          (IsBest-beyond b rows (bucket ++ rows_in buckets) best h
            (rows_beyond ((c, bucket) ∷ buckets) w (e, later)))
  ]

IsBest-unsorted :
    (b : ℕ) (rows : List SummaryRow) (best : Option SummaryRow)
    → IsBest b (sort_by costs_before rows) best
    → IsBest b rows best
IsBest-unsorted b rows none h = unsort_by _ costs_before rows h
IsBest-unsorted b rows (some best) h =
    (In-unsort_by costs_before best rows h.0, h.1, unsort_by _ costs_before rows h.2)

-- The budget frontier refines its specification: for every budget, the last of its rows within that
-- budget names, of the rows with a cost and a resolved instance whose cost is within the budget, one
-- before which none ranks; and there is no such row exactly where the frontier has none within it.
pub build_budget_frontier-IsBest :
    (budget : ℕ) (rows : List SummaryRow)
    → IsBest budget (keep is_eligible rows) (best_at none (build_budget_frontier rows) budget)
unfolding build_budget_frontier
build_budget_frontier-IsBest budget rows =
    let ordered = sort_by costs_before (keep is_eligible rows) in
    IsBest-unsorted budget (keep is_eligible rows) _ (
      subst (λ l. IsBest budget l (best_at none (frontier_loop none (groupby ordered)) budget))
        (rows_in-groupby ordered)
        (loop-IsBest budget (groupby ordered) [] none (sorted-IsBucketed (keep is_eligible rows))
          tt))
