-- ===== src/Runner/Router/Partition/Classes.antt =====
-- repogauge/runner/router.py: where _router_split_rows puts the rows, and how many of each label.
use repogauge.Prelude.{
  ℕ, zero, suc, ◌+◌, ◌≤◌, ◌<◌, ◌≡◌, refl, sym, ap, ◌∙◌, inl, inr, Bool, true, false, ◌&&◌, List, [],
  ◌∷◌, arith, nat_eq, if◌then◌else◌, Bool-cases, length, All, count, take, drop,
}
use repogauge.Prelude.Sort.{
  sort_by, count-sort_by, length-sort_by, count-append, count-take-drop, length-take, length-drop,
  All-sort_by, All-take, All-drop, count-All,
}
use repogauge.Runner.Router.Labels.{
  Label, cheap_is_enough, needs_expensive, likely_unsolved, label_eq, labelled, PreparedRow,
}
use repogauge.Runner.Router.Partition.{
  SplitSettings, Partitions, train_size, validation_size, part_sizes, split_before, deal, class_of,
}

-- A class of two rows or more leaves one for training and one for the test.
part_sizes-room :
    (s : SplitSettings) (n : ℕ)
    → 2 ≤ n
    → (1 ≤ (part_sizes s n).0) × ((part_sizes s n).0 + (part_sizes s n).1 < n)
unfolding part_sizes train_size validation_size
part_sizes-room s n h = ground arith

drop-nil : (n : ℕ) → drop {A = PreparedRow} n [] ≡ []
drop-nil zero = refl
drop-nil (suc n) = refl

drop-drop : (a b : ℕ) (xs : List PreparedRow) → drop (a + b) xs ≡ drop b (drop a xs)
drop-drop zero b xs = ap (λ n. drop n xs) (omega arith)
drop-drop (suc a) b [] = drop-nil (suc a + b) ∙ sym (drop-nil b)
drop-drop (suc a) b (x ∷ xs) =
    let e : suc a + b ≡ suc (a + b) = omega arith in rw e (drop-drop a b xs)

-- The rows of the three parts that pass a test.
abbrev pub held : (PreparedRow → Bool) → Partitions → ℕ
held p q = count p q.train + count p q.validation + count p q.test

module _ (s : SplitSettings) (g : List PreparedRow) (q : Partitions) where
  abbrev ordered : List PreparedRow
  ordered = sort_by (split_before s) g

  abbrev sizes : ℕ × ℕ
  sizes = part_sizes s (length ordered)

  pub held-deal : (p : PreparedRow → Bool) → held p (deal s g q) ≡ held p q + count p g
  unfolding deal
  held-deal p = elim (Bool-cases (nat_eq (length ordered) 1)) [
    | inl one ↦
        rw one (omega (arith, count-append p q.train ordered, count-sort_by p (split_before s) g))
    | inr more ↦
        rw (more, drop-drop sizes.0 sizes.1 ordered)
          (omega (
            arith,
            count-append p q.train (take sizes.0 ordered),
            count-append p q.validation (take sizes.1 (drop sizes.0 ordered)),
            count-append p q.test (drop sizes.1 (drop sizes.0 ordered)),
            count-take-drop p sizes.0 ordered,
            count-take-drop p sizes.1 (drop sizes.0 ordered),
            count-sort_by p (split_before s) g,
          ))
  ]

  -- Dealing adds rows to a part and takes none away.
  pub deal-grows :
      (p : PreparedRow → Bool)
      → (count p q.train ≤ count p (deal s g q).train)
        × (count p q.test ≤ count p (deal s g q).test)
  unfolding deal
  deal-grows p = elim (Bool-cases (nat_eq (length ordered) 1)) [
    | inl one ↦ rw one (omega (arith, count-append p q.train ordered))
    | inr more ↦ rw more (
        omega (
          arith,
          count-append p q.train (take sizes.0 ordered),
          count-append p q.test (drop (sizes.0 + sizes.1) ordered),
        ))
  ]

  module _ (p : PreparedRow → Bool) (hs : All (λ row. p row ≡ true) g) where
    ordered_passes : All (λ row. p row ≡ true) ordered
    ordered_passes = All-sort_by (λ row. p row ≡ true) (split_before s) g hs

    -- The sizes of the parts, where the class has two rows or more.
    deal-room :
        2 ≤ length ordered
        → (1 ≤ count p (take sizes.0 ordered)) × (1 ≤ count p (drop (sizes.0 + sizes.1) ordered))
    deal-room h =
        let room = part_sizes-room s (length ordered) h in
        let taken = All-take (λ row. p row ≡ true) sizes.0 ordered ordered_passes in
        let left = All-drop (λ row. p row ≡ true) (sizes.0 + sizes.1) ordered ordered_passes in
        omega (
          arith,
          room.0,
          room.1,
          count-All p (take sizes.0 ordered) taken,
          count-All p (drop (sizes.0 + sizes.1) ordered) left,
          length-take sizes.0 ordered (omega (arith, room.1)),
          length-drop (sizes.0 + sizes.1) ordered,
        )

    pub deal-trains : 1 ≤ length g → 1 ≤ count p (deal s g q).train
    unfolding deal
    deal-trains h = elim (Bool-cases (nat_eq (length ordered) 1)) [
      | inl one ↦ rw one (
          omega (
            arith,
            count-append p q.train ordered,
            count-All p ordered ordered_passes,
            length-sort_by (split_before s) g,
          ))
      | inr more ↦
          let two : 2 ≤ length ordered = ground (arith, length-sort_by (split_before s) g) in
          rw more (omega (arith, (deal-room two).0, count-append p q.train (take sizes.0 ordered)))
    ]

    pub deal-tests : 2 ≤ length g → 1 ≤ count p (deal s g q).test
    unfolding deal
    deal-tests h =
        let two : 2 ≤ length ordered = omega (arith, length-sort_by (split_before s) g) in
        let more : nat_eq (length ordered) 1 ≡ false = ground arith in
        rw more (
          omega
            (arith, (deal-room two).1, count-append p q.test (drop (sizes.0 + sizes.1) ordered)))

-- The rows of a label that a class holds.
count-class_of :
    (p : PreparedRow → Bool) (l : Label) (rows : List PreparedRow)
    → count p (class_of l rows) ≡ count (λ row. label_eq l row.label && p row) rows
unfolding class_of
count-class_of p l [] = refl
count-class_of p l (row ∷ rows) = ground (arith, count-class_of p l rows)

pub length-class_of :
    (l : Label) (rows : List PreparedRow) → length (class_of l rows) ≡ labelled l rows
unfolding class_of
length-class_of l [] = refl
length-class_of l (row ∷ rows) = ground (arith, length-class_of l rows)

one_label :
    (l : Label)
    → (if label_eq cheap_is_enough l then 1 else 0)
        + (if label_eq likely_unsolved l then 1 else 0)
        + (if label_eq needs_expensive l then 1 else 0)
      ≡ 1
one_label cheap_is_enough = refl
one_label needs_expensive = refl
one_label likely_unsolved = refl

-- The three classes hold every row.
pub count-classes :
    (p : PreparedRow → Bool) (rows : List PreparedRow)
    → count p (class_of cheap_is_enough rows)
        + count p (class_of likely_unsolved rows)
        + count p (class_of needs_expensive rows)
      ≡ count p rows
count-classes p [] = unfold class_of in refl
count-classes p (row ∷ rows) =
    rw
      (
        count-class_of p cheap_is_enough (row ∷ rows),
        count-class_of p likely_unsolved (row ∷ rows),
        count-class_of p needs_expensive (row ∷ rows),
      )
      (ground (
        arith,
        one_label row.label,
        count-classes p rows,
        count-class_of p cheap_is_enough rows,
        count-class_of p likely_unsolved rows,
        count-class_of p needs_expensive rows,
      ))
