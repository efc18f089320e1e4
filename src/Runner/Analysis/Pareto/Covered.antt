-- ===== src/Runner/Analysis/Pareto/Covered.antt =====
-- repogauge/runner/analyze.py: the frontier stands for all rows.
use repogauge.Prelude.{
  ℕ, zero, suc, ◌≤◌, ◌<◌, ◌≡◌, refl, ◌⊎◌, inl, inr, Bool, true, false, not, ◌||◌, Option, none,
  some, List, [], ◌∷◌, ◌++◌, arith, Bool-cases, any, keep, All, branches_hold, count, In,
}
use repogauge.Prelude.Sort.{sort_by, All-sort_by, All-weaken, All-keep}
use repogauge.Prelude.Sort.{sort_by, All-sort_by, All-weaken, All-keep, All-In, In-sort_by}
use mathlib.Core.List.{append_assoc}
use repogauge.Runner.Analysis.Summary.{
  SummaryRow, metric_lt, metric_le, metric_le_trans, costs_before,
}
use repogauge.Runner.Analysis.Pareto.{dominates, pareto_loop, build_pareto_frontier}

-- A metric that is better here and no worse there.
metric_chain :
    (a b c : Option ℕ)
    → metric_le a b ≡ true
    → metric_le b c ≡ true
    → (metric_lt a b || metric_lt b c) ≡ true
    → metric_lt a c ≡ true
metric_chain none none c h k s = ground arith
metric_chain none (some n) c h k s = absurd (cc h)
metric_chain (some m) none none h k s = refl
metric_chain (some m) none (some o) h k s = absurd (cc k)
metric_chain (some m) (some n) none h k s = refl
metric_chain (some m) (some n) (some o) h k s = ground arith

metric_not_self : (a : Option ℕ) → metric_lt a a ≡ false
metric_not_self none = refl
metric_not_self (some n) = ground arith

dominates_irrefl : (a : SummaryRow) → dominates a a ≡ false
unfolding dominates
dominates_irrefl a = ground (
  arith,
  metric_not_self a.cost_per_resolved_issue,
  metric_not_self a.latency_ms_per_resolved_issue,
)

dominates_trans :
    (a b c : SummaryRow) → dominates a b ≡ true → dominates b c ≡ true → dominates a c ≡ true
unfolding dominates
dominates_trans a b c h k = ground (
  arith,
  metric_le_trans a.cost_per_resolved_issue b.cost_per_resolved_issue c.cost_per_resolved_issue,
  metric_le_trans a.latency_ms_per_resolved_issue b.latency_ms_per_resolved_issue
      c.latency_ms_per_resolved_issue,
  metric_chain a.cost_per_resolved_issue b.cost_per_resolved_issue c.cost_per_resolved_issue,
  metric_chain a.latency_ms_per_resolved_issue b.latency_ms_per_resolved_issue
      c.latency_ms_per_resolved_issue,
)

any-append :
    (p : SummaryRow → Bool) (xs ys : List SummaryRow) → any p (xs ++ ys) ≡ (any p xs || any p ys)
any-append p [] ys = refl
any-append p (x ∷ xs) ys = ground (arith, any-append p xs ys)

-- A row does not dominate itself, so it may stand among its others.
any-others :
    (row : SummaryRow) (before after : List SummaryRow)
    → any (λ other. dominates other row) (before ++ after)
      ≡ any (λ other. dominates other row) (before ++ row ∷ after)
any-others row before after =
    rw
      (
        any-append (λ other. dominates other row) before after,
        any-append (λ other. dominates other row) before (row ∷ after),
        dominates_irrefl row,
      )
      refl

abbrev undominated : List SummaryRow → SummaryRow → Bool
undominated rows row = not (any (λ other. dominates other row) rows)

-- The loop keeps the rows that none of all rows dominates.
pareto_loop-keep :
    (before after : List SummaryRow)
    → pareto_loop before after ≡ keep (undominated (before ++ after)) after
unfolding pareto_loop
pareto_loop-keep before [] = refl
pareto_loop-keep before (row ∷ after) =
    let rest = pareto_loop-keep (before ++ row ∷ []) after in
    let all_rows : (before ++ row ∷ []) ++ after ≡ before ++ row ∷ after =
      append_assoc before (row ∷ []) after in
    rw (any-others row before after, rest, all_rows) (ground arith)

-- Where every case of one test is a case of another, and some case of that is none of the first.
count_mono :
    (p q : SummaryRow → Bool) (xs : List SummaryRow)
    → ((z : SummaryRow) → p z ≡ true → q z ≡ true)
    → count p xs ≤ count q xs
count_mono p q [] h = omega arith
count_mono p q (x ∷ xs) h = ground (arith, h x, count_mono p q xs h)

count_less :
    (p q : SummaryRow → Bool) (y : SummaryRow) (xs : List SummaryRow)
    → ((z : SummaryRow) → p z ≡ true → q z ≡ true)
    → In y xs
    → p y ≡ false
    → q y ≡ true
    → count p xs < count q xs
count_less p q y [] h i e f = absurd i
count_less p q y (x ∷ xs) h (inl same) e f =
    let px : p x ≡ false = rw same e in
    let qx : q x ≡ true = rw same f in ground (arith, count_mono p q xs h)
count_less p q y (x ∷ xs) h (inr i) e f = ground (arith, h x, count_less p q y xs h i e f)

any-In :
    (p : SummaryRow → Bool) (xs : List SummaryRow)
    → any p xs ≡ true
    → (y : SummaryRow) × In y xs × (p y ≡ true)
any-In p [] h = absurd (cc h)
any-In p (x ∷ xs) h = elim (Bool-cases (p x)) [
  | inl e ↦ (x, inl refl, e)
  | inr e ↦ let found = any-In p xs (ground arith) in (found.0, inr found.1, found.2)
]

In-keep :
    (p : SummaryRow → Bool) (x : SummaryRow) (xs : List SummaryRow)
    → In x xs
    → p x ≡ true
    → In x (keep p xs)
In-keep p x [] h e = absurd h
In-keep p x (y ∷ xs) (inl same) e = let py : p y ≡ true = rw same e in rw py (inl same)
In-keep p x (y ∷ xs) (inr h) e =
    branches_hold (In x) (p y) (y ∷ keep p xs) (keep p xs) (inr (In-keep p x xs h e))
      (In-keep p x xs h e)

-- A row is in the frontier, or a row of the frontier dominates it.
abbrev pub IsCovered : List SummaryRow → SummaryRow → Type 0
IsCovered frontier row =
    In row frontier ⊎ ((y : SummaryRow) × In y frontier × (dominates y row ≡ true))

-- What a covered row dominates is covered.
cover_step :
    (frontier : List SummaryRow) (x y : SummaryRow)
    → dominates y x ≡ true
    → IsCovered frontier y
    → IsCovered frontier x
cover_step frontier x y h (inl i) = inr (y, i, h)
cover_step frontier x y h (inr (z, i, k)) = inr (z, i, dominates_trans z y x k h)

module _ (rows : List SummaryRow) where
  abbrev dominators : SummaryRow → ℕ
  dominators x = count (λ other. dominates other x) rows

  cover :
      (fuel : ℕ) (x : SummaryRow)
      → dominators x < fuel
      → In x rows
      → IsCovered (keep (undominated rows) rows) x
  cover zero x h i = absurd (omega arith)
  cover (suc fuel) x h i = elim (Bool-cases (any (λ other. dominates other x) rows)) [
    | inr e ↦ inl (In-keep (undominated rows) x rows i (rw e refl))
    | inl e ↦
        let found = any-In (λ other. dominates other x) rows e in
        let y = found.0 in
        let fewer =
          count_less (λ other. dominates other y) (λ other. dominates other x) y rows
            (λ z k. dominates_trans z y x k found.2) found.1 (dominates_irrefl y) found.2 in
        cover_step (keep (undominated rows) rows) x y found.2 (cover fuel y (omega arith) found.1)
  ]

any-none :
    (p : SummaryRow → Bool) (xs : List SummaryRow) → any p xs ≡ false → All (λ x. p x ≡ false) xs
any-none p [] h = tt
any-none p (x ∷ xs) h = (ground arith, any-none p xs (ground arith))

sorted-IsCovered :
    (frontier : List SummaryRow) (x : SummaryRow)
    → IsCovered frontier x
    → IsCovered (sort_by costs_before frontier) x
sorted-IsCovered frontier x (inl i) = inl (In-sort_by costs_before x frontier i)
sorted-IsCovered frontier x (inr (y, i, k)) = inr (y, In-sort_by costs_before y frontier i, k)

-- No row dominates a row of the Pareto frontier, and every row is in the frontier or is dominated by a
-- row that is.
pub build_pareto_frontier-IsCovered :
    (rows : List SummaryRow)
    → All (λ row. All (λ other. dominates other row ≡ false) rows) (build_pareto_frontier rows)
      × All (IsCovered (build_pareto_frontier rows)) rows
unfolding build_pareto_frontier
build_pareto_frontier-IsCovered rows = rw (pareto_loop-keep [] rows) (
  All-sort_by (λ row. All (λ other. dominates other row ≡ false) rows) costs_before
      (keep (undominated rows) rows)
      (All-weaken (λ x e. any-none (λ other. dominates other x) rows (ground arith))
        (keep (undominated rows) rows) (All-keep (undominated rows) rows)),
  All-weaken
      (λ x i.
        sorted-IsCovered (keep (undominated rows) rows) x
          (cover rows (suc (dominators rows x)) x (omega arith) i))
      rows (All-In rows),
)
