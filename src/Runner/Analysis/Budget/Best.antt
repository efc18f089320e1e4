-- ===== src/Runner/Analysis/Budget/Best.antt =====
-- repogauge/runner/analyze.py: what a budget reads off the frontier.
use repogauge.Prelude.{
  ℕ, ◌≡◌, refl, sym, subst, inl, inr, Bool, true, false, ◌&&◌, Option, none, some, List, [], ◌∷◌,
  ◌++◌, arith, if◌then◌else◌, Bool-cases, All, All-append, In, taken_holds,
}
use repogauge.Prelude.Sort.{All-weaken}
use mathlib.Core.List.{append_assoc, append-nil}
use repogauge.Runner.Analysis.Summary.{
  SummaryRow, metric_le, ranks_before, ranks_before_trans, ranks_before_irrefl,
}
use repogauge.Runner.Analysis.Budget.{BudgetRow, better_row, best_of}

-- What the frontier says of a budget: the best row of the last budget that is within it.
abbrev pub best_at : Option SummaryRow → List BudgetRow → ℕ → Option SummaryRow
best_at found [] budget = found
best_at found (row ∷ rows) budget =
    best_at (if metric_le row.budget (some budget) then some row.best else found) rows budget

-- A row is affordable within a budget.
abbrev pub affords : ℕ → SummaryRow → Bool
affords budget row = metric_le row.cost_per_resolved_issue (some budget)

-- The specification: of the rows within the budget, one before which none ranks; none where no row is
-- within it.
abbrev pub IsBest : ℕ → List SummaryRow → Option SummaryRow → Type 0
IsBest b rows none = All (λ row. affords b row ≡ false) rows
IsBest b rows (some best) =
    In best rows
    × (affords b best ≡ true)
    × All (λ row. (affords b row && ranks_before row best) ≡ false) rows

In-append : (x : SummaryRow) (xs ys : List SummaryRow) → In x xs → In x (xs ++ ys)
In-append x [] ys h = absurd h
In-append x (y ∷ xs) ys (inl e) = inl e
In-append x (y ∷ xs) ys (inr h) = inr (In-append x xs ys h)

In-last : (x : SummaryRow) (xs : List SummaryRow) → In x (xs ++ x ∷ [])
In-last x [] = inl refl
In-last x (y ∷ xs) = inr (In-last x xs)

module _ (b : ℕ) where
  -- Rows beyond the budget change nothing.
  pub IsBest-beyond :
      (rows more : List SummaryRow) (best : Option SummaryRow)
      → IsBest b rows best
      → All (λ row. affords b row ≡ false) more
      → IsBest b (rows ++ more) best
  IsBest-beyond rows more none h hs = All-append (λ row. affords b row ≡ false) rows more h hs
  IsBest-beyond rows more (some best) h hs = (
    In-append best rows more h.0,
    h.1,
    All-append (λ row. (affords b row && ranks_before row best) ≡ false) rows more h.2
        (All-weaken (λ row e. rw e refl) more hs),
  )

  -- What does not rank before the best does not rank before one that does.
  demoted :
      (best row x : SummaryRow)
      → ranks_before row best ≡ true
      → (affords b x && ranks_before x best) ≡ false
      → (affords b x && ranks_before x row) ≡ false
  demoted best row x h e = elim (Bool-cases (affords b x && ranks_before x row)) [
    | inl both ↦
        let first : ranks_before x row ≡ true = ground arith in
        let again : ranks_before x best ≡ true = ranks_before_trans x row best first h in
        ground (arith, again)
    | inr neither ↦ neither
  ]

  -- A row within the budget joins the contest.
  IsBest-better :
      (rows : List SummaryRow) (best : Option SummaryRow) (row : SummaryRow)
      → IsBest b rows best
      → affords b row ≡ true
      → IsBest b (rows ++ row ∷ []) (some (better_row best row))
  unfolding better_row
  IsBest-better rows none row h e = (
    In-last row rows,
    e,
    All-append (λ x. (affords b x && ranks_before x row) ≡ false) rows (row ∷ [])
        (All-weaken (λ x f. rw f refl) rows h) (rw (ranks_before_irrefl row) (ground arith), tt),
  )
  IsBest-better rows (some best) row h e =
      taken_holds
        (λ y.
          In y (rows ++ row ∷ [])
          × (affords b y ≡ true)
          × All (λ x. (affords b x && ranks_before x y) ≡ false) (rows ++ row ∷ []))
        (ranks_before row best) row best
        (λ new. (
          In-last row rows,
          e,
          All-append (λ x. (affords b x && ranks_before x row) ≡ false) rows (row ∷ [])
              (All-weaken (λ x. demoted best row x new) rows h.2)
              (rw (ranks_before_irrefl row) (ground arith), tt),
        ))
        (λ old. (
          In-append best rows (row ∷ []) h.0,
          h.1,
          All-append (λ x. (affords b x && ranks_before x best) ≡ false) rows (row ∷ []) h.2
              (rw old (ground arith), tt),
        ))

  pub IsBest-best_of :
      (rows bucket : List SummaryRow) (best : Option SummaryRow)
      → IsBest b rows best
      → All (λ row. affords b row ≡ true) bucket
      → IsBest b (rows ++ bucket) (best_of best bucket)
  unfolding best_of
  IsBest-best_of rows [] best h hs = subst (λ l. IsBest b l best) (sym (append-nil rows)) h
  IsBest-best_of rows (row ∷ bucket) best h hs =
      subst (λ l. IsBest b l (best_of (some (better_row best row)) bucket))
        (append_assoc rows (row ∷ []) bucket)
        (IsBest-best_of (rows ++ row ∷ []) bucket (some (better_row best row))
          (IsBest-better rows best row h hs.0) hs.1)
