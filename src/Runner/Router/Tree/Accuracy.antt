-- ===== src/Runner/Router/Tree/Accuracy.antt =====
-- repogauge/runner/router.py: what the trained tree says of the rows that it was trained on.
use repogauge.Prelude.{
  ℕ, zero, suc, ◌+◌, ◌≤◌, String, ◌≡◌, refl, subst, inl, inr, ◌||◌, Option, none, some, List, [],
  ◌∷◌, arith, ltb, if◌then◌else◌, Bool-cases, Option-cases, length, is_empty, Dict, branches_hold,
}
use repogauge.Runner.Router.Labels.{
  Label, cheap_is_enough, needs_expensive, likely_unsolved, label_eq, PreparedRow, Counts, count_of,
  bump, class_counts, labelled, majority_label, gini, at_least, Fraction,
}
use repogauge.Runner.Router.Tree.{
  goes_left, Split, left_of, right_of, split_at, takes_over, try_threshold, try_thresholds,
  try_features, thresholds, router_best_split, NodeInfo, Tree, leaf, split, node_of,
  train_router_tree, predict_router_label, correct, accepted_split,
}

count_of-bump :
    (l k : Label) (c : Counts)
    → count_of l (bump k c) ≡ (if label_eq l k then 1 else 0) + count_of l c
count_of-bump cheap_is_enough cheap_is_enough c = omega arith
count_of-bump cheap_is_enough needs_expensive c = omega arith
count_of-bump cheap_is_enough likely_unsolved c = omega arith
count_of-bump needs_expensive cheap_is_enough c = omega arith
count_of-bump needs_expensive needs_expensive c = omega arith
count_of-bump needs_expensive likely_unsolved c = omega arith
count_of-bump likely_unsolved cheap_is_enough c = omega arith
count_of-bump likely_unsolved needs_expensive c = omega arith
count_of-bump likely_unsolved likely_unsolved c = omega arith

count_of-class_counts :
    (l : Label) (rows : List PreparedRow) → count_of l (class_counts rows) ≡ labelled l rows
unfolding class_counts
count_of-class_counts cheap_is_enough [] = refl
count_of-class_counts needs_expensive [] = refl
count_of-class_counts likely_unsolved [] = refl
count_of-class_counts l (row ∷ rows) =
    omega (arith, count_of-bump l row.label (class_counts rows), count_of-class_counts l rows)

majority_label-most : (l : Label) (c : Counts) → count_of l c ≤ count_of (majority_label c) c
unfolding majority_label
majority_label-most cheap_is_enough c = ground arith
majority_label-most needs_expensive c = ground arith
majority_label-most likely_unsolved c = ground arith

-- A split sends each row to one side.
labelled-sides :
    (l : Label) (f : String) (t : ℕ) (rows : List PreparedRow)
    → labelled l rows ≡ labelled l (left_of rows f t) + labelled l (right_of rows f t)
unfolding left_of right_of
labelled-sides l f t [] = omega arith
labelled-sides l f t (row ∷ rows) = elim (Bool-cases (goes_left f t row.features)) [
  | inl h ↦ rw h (omega (arith, labelled-sides l f t rows))
  | inr h ↦ rw h (omega (arith, labelled-sides l f t rows))
]

-- The prediction takes the side that the training row took.
predict_router_label-side :
    (n : NodeInfo) (f : String) (t : ℕ) (g : Fraction) (a b : Tree) (x : Dict ℕ)
    → predict_router_label (split n f t g a b) x
      ≡ (if goes_left f t x then predict_router_label a x else predict_router_label b x)
unfolding predict_router_label goes_left
predict_router_label-side n f t g a b x = ground arith

correct-leaf :
    (n : NodeInfo) (rows : List PreparedRow) → correct (leaf n) rows ≡ labelled n.prediction rows
unfolding correct predict_router_label
correct-leaf n [] = refl
correct-leaf n (row ∷ rows) = omega (arith, correct-leaf n rows)

correct-split :
    (n : NodeInfo) (f : String) (t : ℕ) (g : Fraction) (a b : Tree) (rows : List PreparedRow)
    → correct (split n f t g a b) rows
      ≡ correct a (left_of rows f t) + correct b (right_of rows f t)
unfolding correct left_of right_of
correct-split n f t g a b [] = omega arith
correct-split n f t g a b (row ∷ rows) = elim (Bool-cases (goes_left f t row.features)) [
  | inl h ↦
      rw (predict_router_label-side n f t g a b row.features, h)
        (omega (arith, correct-split n f t g a b rows))
  | inr h ↦
      rw (predict_router_label-side n f t g a b row.features, h)
        (omega (arith, correct-split n f t g a b rows))
]

-- The sides of a candidate are those of its feature and its threshold.
abbrev IsSplitOf : List PreparedRow → Option Split → Type 0
IsSplitOf rows none = Unit
IsSplitOf rows (some s) =
    (s.left_rows ≡ left_of rows s.feature s.threshold)
    × (s.right_rows ≡ right_of rows s.feature s.threshold)

try_threshold-IsSplitOf :
    (rows : List PreparedRow) (f : String) (best : Option Split) (t : ℕ)
    → IsSplitOf rows best
    → IsSplitOf rows (try_threshold rows f best t)
unfolding try_threshold split_at
try_threshold-IsSplitOf rows f best t h =
    let s = split_at rows f t in
    let chosen : Option Split = if takes_over s best then some s else best in
    let better : Option Split =
      if at_least s.weighted_gini (gini (class_counts rows)) then best else chosen in
    let chosen_lem : IsSplitOf rows chosen =
      branches_hold (IsSplitOf rows) (takes_over s best) (some s) best (refl, refl) h in
    let better_lem : IsSplitOf rows better =
      branches_hold (IsSplitOf rows) (at_least s.weighted_gini (gini (class_counts rows))) best
        chosen h chosen_lem in
    branches_hold (IsSplitOf rows) (is_empty s.left_rows || is_empty s.right_rows) best better h
      better_lem

try_thresholds-IsSplitOf :
    (rows : List PreparedRow) (f : String) (best : Option Split) (ts : List ℕ)
    → IsSplitOf rows best
    → IsSplitOf rows (try_thresholds rows f best ts)
unfolding try_thresholds
try_thresholds-IsSplitOf rows f best [] h = h
try_thresholds-IsSplitOf rows f best (t ∷ ts) h =
    try_thresholds-IsSplitOf rows f (try_threshold rows f best t) ts
      (try_threshold-IsSplitOf rows f best t h)

try_features-IsSplitOf :
    (rows : List PreparedRow) (best : Option Split) (fs : List String)
    → IsSplitOf rows best
    → IsSplitOf rows (try_features rows best fs)
unfolding try_features
try_features-IsSplitOf rows best [] h = h
try_features-IsSplitOf rows best (f ∷ fs) h =
    try_features-IsSplitOf rows (try_thresholds rows f best (thresholds rows f)) fs
      (try_thresholds-IsSplitOf rows f best (thresholds rows f) h)

router_best_split-IsSplitOf :
    (rows : List PreparedRow) (names : List String) → IsSplitOf rows (router_best_split rows names)
unfolding router_best_split
router_best_split-IsSplitOf rows names =
    branches_hold (IsSplitOf rows) (ltb (length rows) 2) none (try_features rows none names) tt
      (try_features-IsSplitOf rows none names tt)

accepted_split-IsSplitOf :
    (names : List String) (rows : List PreparedRow) (s : Split)
    → accepted_split names rows ≡ some s
    → IsSplitOf rows (some s)
unfolding accepted_split
accepted_split-IsSplitOf names rows s h =
    let e : router_best_split rows names ≡ some s = ground arith in
    subst (IsSplitOf rows) e (router_best_split-IsSplitOf rows names)

leaf-correct :
    (l : Label) (rows : List PreparedRow) → labelled l rows ≤ correct (leaf (node_of rows)) rows
unfolding node_of
leaf-correct l rows = omega (
  arith,
  correct-leaf (node_of rows) rows,
  majority_label-most l (class_counts rows),
  count_of-class_counts l rows,
  count_of-class_counts (majority_label (class_counts rows)) rows,
)

split-correct :
    (l : Label) (n : NodeInfo) (f : String) (t : ℕ) (g : Fraction) (a b : Tree)
    (rows : List PreparedRow)
    → labelled l (left_of rows f t) ≤ correct a (left_of rows f t)
    → labelled l (right_of rows f t) ≤ correct b (right_of rows f t)
    → labelled l rows ≤ correct (split n f t g a b) rows
split-correct l n f t g a b rows h k =
    omega (arith, labelled-sides l f t rows, correct-split n f t g a b rows)

-- On the rows that it was trained on, the tree is right at least as often as any constant answer,
-- whatever the features and the depth: each split sends a row where the prediction goes, and each leaf
-- predicts a label that most of its rows have.
pub train_router_tree-correct :
    (names : List String) (depth : ℕ) (rows : List PreparedRow) (l : Label)
    → labelled l rows ≤ correct (train_router_tree names depth rows) rows
unfolding train_router_tree
train_router_tree-correct names depth [] l = omega arith
train_router_tree-correct names zero (row ∷ rows) l = leaf-correct l (row ∷ rows)
train_router_tree-correct names (suc depth) (row ∷ rows) l =
    elim (Option-cases (accepted_split names (row ∷ rows))) [
      | inl (s, e) ↦
          let sides = accepted_split-IsSplitOf names (row ∷ rows) s e in
          let left = train_router_tree names depth s.left_rows in
          let right = train_router_tree names depth s.right_rows in
          rw (e, train_router_tree)
            (split-correct l (node_of (row ∷ rows)) s.feature s.threshold _ left right (row ∷ rows)
              (subst (λ rs. labelled l rs ≤ correct left rs) sides.0
                (train_router_tree-correct names depth s.left_rows l))
              (subst (λ rs. labelled l rs ≤ correct right rs) sides.1
                (train_router_tree-correct names depth s.right_rows l)))
      | inr e ↦ rw (e, train_router_tree) (leaf-correct l (row ∷ rows))
    ]
