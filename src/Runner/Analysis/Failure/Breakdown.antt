-- ===== src/Runner/Analysis/Failure/Breakdown.antt =====
-- repogauge/runner/analyze.py: what _build_failure_breakdown counts.
use repogauge.Prelude.Text.{Text, text_eq, text_eq_sound, text_eq_refl}
use repogauge.Prelude.{
  ℕ, suc, ◌+◌, ◌≤◌, ◌≡◌, refl, ap, subst, inl, inr, Bool, true, false, ◌&&◌, Option, List, [], ◌∷◌,
  map, arith, nat_eq, if◌then◌else◌, Bool-cases, length, All, count, total,
}
use repogauge.Prelude.Sort.{sort_by, count-sort_by, total-sort_by, Ascending, sort_by-Ascending}
use repogauge.Runner.Analysis.Failure.{
  reason_row, reason_before, reason_rows, build_failure_breakdown, FailureRow, counted_reason,
  add_reason, count_reasons,
}

-- Equal texts compare alike.
text_eq_same : (a b c : Text) → text_eq a b ≡ true → text_eq a c ≡ text_eq b c
text_eq_same a b c h = ap (λ t. text_eq t c) (text_eq_sound a b h)

-- How often a reason is counted, and in how many entries.
abbrev weight : Text → Text × ℕ → ℕ
weight r e = if text_eq e.0 r then e.1 else 0

abbrev names : Text → Text × ℕ → Bool
names r e = text_eq e.0 r

text_eq_both : (a b c : Text) → text_eq a c ≡ true → text_eq b c ≡ true → text_eq a b ≡ true
text_eq_both a b c h k = rw (text_eq_sound a c h, text_eq_sound b c k) (text_eq_refl c)

weight-add_reason :
    (r reason : Text) (counts : List (Text × ℕ))
    → total (weight r) (add_reason reason counts)
      ≡ (if text_eq reason r then 1 else 0) + total (weight r) counts
unfolding add_reason
weight-add_reason r reason [] = refl
weight-add_reason r reason ((k, n) ∷ counts) = elim (Bool-cases (text_eq k reason)) [
  | inl e ↦ rw (e, text_eq_same k reason r e) (ground arith)
  | inr e ↦ rw e (omega (arith, weight-add_reason r reason counts))
]

-- A reason has one entry at most.
names-add_reason :
    (r reason : Text) (counts : List (Text × ℕ))
    → count (names r) (add_reason reason counts) ≡ (
        if text_eq reason r && nat_eq (count (names r) counts) 0 then 1 else count (names r) counts)
unfolding add_reason
names-add_reason r reason [] = ground arith
names-add_reason r reason ((k, n) ∷ counts) = elim (Bool-cases (text_eq k reason)) [
  | inl e ↦ rw (e, text_eq_same k reason r e) (ground arith)
  | inr e ↦ rw e (ground (arith, names-add_reason r reason counts, text_eq_both k reason r))
]

sum-add_reason :
    (reason : Text) (counts : List (Text × ℕ))
    → total (λ e. e.1) (add_reason reason counts) ≡ suc (total (λ e. e.1) counts)
unfolding add_reason
sum-add_reason reason [] = refl
sum-add_reason reason ((k, n) ∷ counts) = ground (arith, sum-add_reason reason counts)

-- Each reason weighs as many rows as it is counted for, and has one entry at most.
module _ (event_type : Text → Option Text) where
  abbrev reasons : Text → FailureRow → Bool
  reasons r row = text_eq (counted_reason event_type row) r

  weight-count_reasons :
      (r : Text) (counts : List (Text × ℕ)) (rows : List FailureRow)
      → total (weight r) (count_reasons event_type counts rows)
        ≡ total (weight r) counts + count (reasons r) rows
  unfolding count_reasons
  weight-count_reasons r counts [] = omega arith
  weight-count_reasons r counts (row ∷ rows) =
      let reason = counted_reason event_type row in
      omega (
        arith,
        weight-count_reasons r (add_reason reason counts) rows,
        weight-add_reason r reason counts,
      )

  names-count_reasons :
      (r : Text) (counts : List (Text × ℕ)) (rows : List FailureRow)
      → count (names r) counts ≤ 1
      → count (names r) (count_reasons event_type counts rows) ≤ 1
  unfolding count_reasons
  names-count_reasons r counts [] h = h
  names-count_reasons r counts (row ∷ rows) h =
      let reason = counted_reason event_type row in
      names-count_reasons r (add_reason reason counts) rows
        (ground (arith, names-add_reason r reason counts))

  sum-count_reasons :
      (counts : List (Text × ℕ)) (rows : List FailureRow)
      → total (λ e. e.1) (count_reasons event_type counts rows)
        ≡ total (λ e. e.1) counts + length rows
  unfolding count_reasons
  sum-count_reasons counts [] = omega arith
  sum-count_reasons counts (row ∷ rows) =
      let reason = counted_reason event_type row in
      omega (arith, sum-count_reasons (add_reason reason counts) rows, sum-add_reason reason counts)

module _ (all : ℕ) where
  total-rows :
      (r : Text) (counts : List (Text × ℕ))
      → total (λ x. if text_eq x.reason r then x.count else 0) (map (reason_row all) counts)
        ≡ total (weight r) counts
  total-rows r [] = refl
  total-rows r ((k, n) ∷ counts) = omega (arith, total-rows r counts)

  count-rows :
      (r : Text) (counts : List (Text × ℕ))
      → count (λ x. text_eq x.reason r) (map (reason_row all) counts) ≡ count (names r) counts
  count-rows r [] = refl
  count-rows r ((k, n) ∷ counts) = omega (arith, count-rows r counts)

  All-rows : (counts : List (Text × ℕ)) → All (λ x. x.total ≡ all) (map (reason_row all) counts)
  All-rows [] = tt
  All-rows ((k, n) ∷ counts) = (refl, All-rows counts)

  All-later :
      (m : ℕ) (counts : List (Text × ℕ))
      → All (λ e. e.1 ≤ m) counts
      → All (λ x. x.count ≤ m) (map (reason_row all) counts)
  All-later m [] hs = tt
  All-later m ((k, n) ∷ counts) hs = (hs.0, All-later m counts hs.1)

  Ascending-rows :
      (counts : List (Text × ℕ))
      → Ascending (λ a b. b.1 ≤ a.1) counts
      → Ascending (λ x y. y.count ≤ x.count) (map (reason_row all) counts)
  Ascending-rows [] hs = tt
  Ascending-rows ((k, n) ∷ counts) hs = (All-later n counts hs.0, Ascending-rows counts hs.1)

reason_before-count :
    (a b : Text × ℕ)
    → (reason_before a b ≡ true → b.1 ≤ a.1) × (reason_before a b ≡ false → a.1 ≤ b.1)
unfolding reason_before
reason_before-count (r, m) (s, n) = ground arith

-- The failure breakdown counts each reason once, for as many rows as give it; every row of it has the
-- number of all rows as its total; and the counts do not rise.
pub build_failure_breakdown-counts :
    (event_type : Text → Option Text) (rows : List FailureRow) (r : Text)
    → (total
          (λ x. if text_eq x.reason r then x.count else 0)
          (build_failure_breakdown event_type rows)
        ≡ count (λ row. text_eq (counted_reason event_type row) r) rows)
      × (count (λ x. text_eq x.reason r) (build_failure_breakdown event_type rows) ≤ 1)
      × All (λ x. x.total ≡ length rows) (build_failure_breakdown event_type rows)
      × Ascending (λ x y. y.count ≤ x.count) (build_failure_breakdown event_type rows)
unfolding build_failure_breakdown reason_rows
build_failure_breakdown-counts event_type rows r =
    let counts = count_reasons event_type [] rows in
    let ordered = sort_by reason_before counts in
    let all : ℕ = total (λ (e : Text × ℕ). e.1) ordered in
    let all_lem : all ≡ length rows = omega (
      arith,
      total-sort_by (λ (e : Text × ℕ). e.1) reason_before counts,
      sum-count_reasons event_type [] rows,
    ) in
    (
      omega (
        arith,
        total-rows all r ordered,
        total-sort_by (weight r) reason_before counts,
        weight-count_reasons event_type r [] rows,
      ),
      omega (
        arith,
        count-rows all r ordered,
        count-sort_by (names r) reason_before counts,
        names-count_reasons event_type r [] rows (omega arith),
      ),
      subst (λ n. All (λ x. x.total ≡ n) (map (reason_row all) ordered)) all_lem
          (All-rows all ordered),
      Ascending-rows all ordered (
          sort_by-Ascending (λ a b. b.1 ≤ a.1) reason_before (λ a b c h k. omega (arith, h, k))
            (λ a b. (reason_before-count a b).0) (λ a b. (reason_before-count a b).1) counts),
    )
