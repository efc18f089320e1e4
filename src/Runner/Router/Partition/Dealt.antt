-- ===== src/Runner/Router/Partition/Dealt.antt =====
-- repogauge/runner/router.py: the parts that _router_split_rows returns.
use repogauge.Prelude.{
  ℕ, ◌+◌, ◌-◌, ◌≤◌, ◌<◌, ◌≡◌, refl, inl, inr, Bool, true, false, List, [], ◌∷◌, arith, ltb,
  if◌then◌else◌, ltb→lt, Bool-cases, length, is_empty, All, count,
}
use repogauge.Prelude.Sort.{All-keep}
use repogauge.Runner.Router.Labels.{
  Label, cheap_is_enough, needs_expensive, likely_unsolved, label_eq, labelled, PreparedRow,
}
use repogauge.Runner.Router.Partition.{
  SplitSettings, Partitions, class_of, deal_label, router_split_rows,
}
use repogauge.Runner.Router.Partition.Classes.{
  held, held-deal, deal-grows, deal-trains, deal-tests, count-classes, length-class_of,
}

empty-count : (p : PreparedRow → Bool) (xs : List PreparedRow) → is_empty xs ≡ true → count p xs ≡ 0
empty-count p [] e = refl
empty-count p (x ∷ xs) e = cc

not_empty : (xs : List PreparedRow) → 1 ≤ length xs → is_empty xs ≡ false
not_empty [] h = absurd (omega arith)
not_empty (x ∷ xs) h = refl

module _ (s : SplitSettings) (rows : List PreparedRow) where
  held-deal_label :
      (p : PreparedRow → Bool) (l : Label) (q : Partitions)
      → held p (deal_label s rows l q) ≡ held p q + count p (class_of l rows)
  unfolding deal_label
  held-deal_label p l q = elim (Bool-cases (is_empty (class_of l rows))) [
    | inl e ↦ rw e (omega (arith, empty-count p (class_of l rows) e))
    | inr e ↦ rw e (held-deal s (class_of l rows) q p)
  ]

  deal_label-grows :
      (p : PreparedRow → Bool) (l : Label) (q : Partitions)
      → (count p q.train ≤ count p (deal_label s rows l q).train)
        × (count p q.test ≤ count p (deal_label s rows l q).test)
  unfolding deal_label
  deal_label-grows p l q = elim (Bool-cases (is_empty (class_of l rows))) [
    | inl e ↦ rw e (omega arith)
    | inr e ↦ rw e (deal-grows s (class_of l rows) q p)
  ]

  of_label : (l : Label) → All (λ row. label_eq l row.label ≡ true) (class_of l rows)
  unfolding class_of
  of_label l = All-keep (λ row. label_eq l row.label) rows

  deal_label-trains :
      (l : Label) (q : Partitions)
      → 1 ≤ labelled l rows
      → 1 ≤ labelled l (deal_label s rows l q).train
  unfolding deal_label
  deal_label-trains l q h =
      let some_row : 1 ≤ length (class_of l rows) = omega (arith, length-class_of l rows) in
      rw (not_empty (class_of l rows) some_row)
        (deal-trains s (class_of l rows) q (λ row. label_eq l row.label) (of_label l) some_row)

  deal_label-tests :
      (l : Label) (q : Partitions)
      → 2 ≤ labelled l rows
      → 1 ≤ labelled l (deal_label s rows l q).test
  unfolding deal_label
  deal_label-tests l q h =
      let two_rows : 2 ≤ length (class_of l rows) = omega (arith, length-class_of l rows) in
      rw (not_empty (class_of l rows) (omega arith))
        (deal-tests s (class_of l rows) q (λ row. label_eq l row.label) (of_label l) two_rows)

no_parts : Partitions
no_parts = record { train = []; validation = []; test = [] }

module _ (s : SplitSettings) (rows : List PreparedRow) where
  -- The parts after the first label, the second and the third.
  abbrev first : Partitions
  first = deal_label s rows cheap_is_enough no_parts

  abbrev second : Partitions
  second = deal_label s rows likely_unsolved first

  pub split-held : (p : PreparedRow → Bool) → held p (router_split_rows s rows) ≡ count p rows
  unfolding router_split_rows no_parts
  split-held p = omega (
    arith,
    held-deal_label s rows p cheap_is_enough no_parts,
    held-deal_label s rows p likely_unsolved first,
    held-deal_label s rows p needs_expensive second,
    count-classes p rows,
  )

  pub split-trains :
      (l : Label) → 1 ≤ labelled l rows → 1 ≤ labelled l (router_split_rows s rows).train
  unfolding router_split_rows no_parts
  split-trains cheap_is_enough h = omega (
    arith,
    deal_label-trains s rows cheap_is_enough no_parts h,
    (deal_label-grows s rows (λ row. label_eq cheap_is_enough row.label) likely_unsolved first).0,
    (deal_label-grows s rows (λ row. label_eq cheap_is_enough row.label) needs_expensive second).0,
  )
  split-trains likely_unsolved h = omega (
    arith,
    deal_label-trains s rows likely_unsolved first h,
    (deal_label-grows s rows (λ row. label_eq likely_unsolved row.label) needs_expensive second).0,
  )
  split-trains needs_expensive h = deal_label-trains s rows needs_expensive second h

  split-tests : (l : Label) → 2 ≤ labelled l rows → 1 ≤ labelled l (router_split_rows s rows).test
  unfolding router_split_rows no_parts
  split-tests cheap_is_enough h = omega (
    arith,
    deal_label-tests s rows cheap_is_enough no_parts h,
    (deal_label-grows s rows (λ row. label_eq cheap_is_enough row.label) likely_unsolved first).1,
    (deal_label-grows s rows (λ row. label_eq cheap_is_enough row.label) needs_expensive second).1,
  )
  split-tests likely_unsolved h = omega (
    arith,
    deal_label-tests s rows likely_unsolved first h,
    (deal_label-grows s rows (λ row. label_eq likely_unsolved row.label) needs_expensive second).1,
  )
  split-tests needs_expensive h = deal_label-tests s rows needs_expensive second h

-- At least one of n: the lower bound that a test `1 <= n` gives.
abbrev pub one_of : ℕ → ℕ
one_of n = if ltb 0 n then 1 else 0

trains_one :
    (s : SplitSettings) (rows : List PreparedRow) (l : Label)
    → one_of (labelled l rows) ≤ labelled l (router_split_rows s rows).train
trains_one s rows l = elim (Bool-cases (ltb 0 (labelled l rows))) [
  | inl h ↦ rw h (split-trains s rows l (ltb→lt 0 (labelled l rows) h))
  | inr h ↦ rw h (omega arith)
]

tests_one :
    (s : SplitSettings) (rows : List PreparedRow) (l : Label)
    → one_of (labelled l rows - 1) ≤ labelled l (router_split_rows s rows).test
tests_one s rows l = elim (Bool-cases (ltb 0 (labelled l rows - 1))) [
  | inl h ↦
      let more : 0 < labelled l rows - 1 = ltb→lt 0 (labelled l rows - 1) h in
      rw h (split-tests s rows l (omega arith))
  | inr h ↦ rw h (omega arith)
]

-- _router_split_rows deals every row to exactly one of training, validation and test: of the rows that
-- pass any test, as many are in the three parts together as in the input. A label with a row has one for
-- training, and a label with two rows has one for the test too, whatever the fractions round to.
pub router_split_rows-IsPartition :
    (s : SplitSettings) (rows : List PreparedRow) (p : PreparedRow → Bool) (l : Label)
    → (held p (router_split_rows s rows) ≡ count p rows)
      × (one_of (labelled l rows) ≤ labelled l (router_split_rows s rows).train)
      × (one_of (labelled l rows - 1) ≤ labelled l (router_split_rows s rows).test)
router_split_rows-IsPartition s rows p l =
    (split-held s rows p, trains_one s rows l, tests_one s rows l)
