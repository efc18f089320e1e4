-- ===== src/Runner/Router/Tree.antt =====
-- repogauge/runner/router.py: the decision tree of the router. A feature is a count or a flag, so a
-- natural number; a threshold, the middle of two, is held doubled.
pub mod Accuracy
use repogauge.Prelude.Text.{
  Text, codes, text_eq, text_eq_sound, text_eq_refl, strip_prefix, strip_prefix-append, starts_with,
  contains,
}
use repogauge.Prelude.{
  ℕ, zero, suc, ◌+◌, ◌-◌, ◌*◌, ◌/◌, ◌%◌, ◌≤◌, ◌<◌, String, ◌≡◌, refl, sym, ap, ◌∙◌, subst, ◌≢◌, ◌↔◌,
  ◌⊎◌, inl, inr, Bool, true, false, not, ◌&&◌, ◌||◌, Option, none, some, List, [], ◌∷◌, ◌++◌, map,
  arith, ◌==◌, eq_iff, eq_refl, ltb, leb, nat_eq, if◌then◌else◌, ltb→lt, lt→ltb, ltb→le, leb→le,
  le→leb, nat_eq→eq, nat_eq_refl, tests, Bool-cases, Option-cases, is_some, length, any, all, keep,
  is_empty, All, length-append, All-append, In, member, member→In, In→member, Dict, get, put,
  get-put, keys, branches_hold, taken_holds, some_of_else, member-keep, differ→≢, str_lt, count,
  take, drop,
}
use repogauge.Runner.Router.Labels.{
  Label, cheap_is_enough, label_eq, PreparedRow, Counts, no_counts, class_counts, seen_labels,
  majority_label, Fraction, at_least, below, not_below, close, gini,
}

-- `features.get(feature_name, 0.0)`; the rows of the training hold every feature
unfoldable pub feature_of : Dict ℕ → String → ℕ
feature_of features name = elim (get features name) [ none ↦ 0 | some v ↦ v ]

-- `sorted({...})` of numbers
unfoldable pub insert_number : ℕ → List ℕ → List ℕ
insert_number n [] = n ∷ []
insert_number n (m ∷ ms) =
    if nat_eq n m then m ∷ ms else if ltb n m then n ∷ m ∷ ms else m ∷ insert_number n ms

unfoldable pub sorted_numbers : List ℕ → List ℕ
unfolding insert_number
sorted_numbers [] = []
sorted_numbers (n ∷ ns) = insert_number n (sorted_numbers ns)

-- `left + right for left, right in zip(values, values[1:])`, the doubled middles
unfoldable pub middles : List ℕ → List ℕ
middles [] = []
middles (a ∷ []) = []
middles (a ∷ b ∷ vs) = (a + b) ∷ middles (b ∷ vs)

-- the thresholds of one feature; none where it has fewer than two values
unfoldable pub thresholds : List PreparedRow → String → List ℕ
unfolding sorted_numbers middles feature_of
thresholds rows feature_name =
    sorted_numbers
      (middles (sorted_numbers (map (λ row. feature_of row.features feature_name) rows)))

-- `float(row["features"][feature_name]) <= threshold`
unfoldable pub goes_left : String → ℕ → Dict ℕ → Bool
unfolding feature_of
goes_left feature_name threshold features = leb (2 * feature_of features feature_name) threshold

-- A candidate of _router_best_split.
pub record Split : Type 0 where
  pub feature : String
  pub threshold : ℕ
  pub left_rows : List PreparedRow
  pub right_rows : List PreparedRow
  pub weighted_gini : Fraction

unfoldable pub left_of : List PreparedRow → String → ℕ → List PreparedRow
left_of rows feature threshold = keep (λ row. goes_left feature threshold row.features) rows

unfoldable pub right_of : List PreparedRow → String → ℕ → List PreparedRow
right_of rows feature threshold = keep (λ row. not (goes_left feature threshold row.features)) rows

-- `len(left) / len(rows) * gini(left) + len(right) / len(rows) * gini(right)`
unfoldable pub weighted : List PreparedRow → List PreparedRow → ℕ → Fraction
unfolding class_counts gini
weighted left right count =
    let g = gini (class_counts left) in
    let h = gini (class_counts right) in
    record {
      num = length left * g.num * h.den + length right * h.num * g.den;
      den = count * g.den * h.den;
    }

unfoldable pub split_at : List PreparedRow → String → ℕ → Split
unfolding left_of right_of goes_left weighted
split_at rows feature threshold = record {
  feature = feature;
  threshold = threshold;
  left_rows = left_of rows feature threshold;
  right_rows = right_of rows feature threshold;
  weighted_gini =
      weighted (left_of rows feature threshold) (right_of rows feature threshold) (length rows);
}

-- `abs(len(left_rows) - len(right_rows))`
abbrev pub balance : Split → ℕ
balance s = (length s.left_rows - length s.right_rows) + (length s.right_rows - length s.left_rows)

-- `(feature_name, threshold) < (best[0], best[1])`
abbrev pub sorts_before : Split → Split → Bool
sorts_before s t =
    str_lt s.feature t.feature || (s.feature == t.feature && ltb s.threshold t.threshold)

-- the last lines of the loop: whether the candidate takes the place of the best
unfoldable pub takes_over : Split → Option Split → Bool
unfolding below close
takes_over s none = true
takes_over s (some best) =
    if below s.weighted_gini best.weighted_gini
    then true
    else if close s.weighted_gini best.weighted_gini
    then if ltb (balance s) (balance best)
      then true
      else nat_eq (balance s) (balance best) && sorts_before s best
    else false

-- one round of the loop over thresholds
unfoldable pub try_threshold : List PreparedRow → String → Option Split → ℕ → Option Split
unfolding split_at takes_over at_least gini class_counts
try_threshold rows feature best threshold =
    let s = split_at rows feature threshold in
    if is_empty s.left_rows || is_empty s.right_rows
    then best
    else if at_least s.weighted_gini (gini (class_counts rows))
    then best
    else if takes_over s best
    then some s
    else best

unfoldable pub try_thresholds : List PreparedRow → String → Option Split → List ℕ → Option Split
unfolding try_threshold
try_thresholds rows feature best [] = best
try_thresholds rows feature best (t ∷ ts) =
    try_thresholds rows feature (try_threshold rows feature best t) ts

unfoldable pub try_features : List PreparedRow → Option Split → List String → Option Split
unfolding try_thresholds thresholds
try_features rows best [] = best
try_features rows best (f ∷ fs) =
    try_features rows (try_thresholds rows f best (thresholds rows f)) fs

-- _router_best_split
unfoldable pub router_best_split : List PreparedRow → List String → Option Split
unfolding try_features
router_best_split rows feature_names =
    if ltb (length rows) 2 then none else try_features rows none feature_names

-- A node of the tree: what every node holds, and what a split adds.
pub record NodeInfo : Type 0 where
  pub prediction : Label
  pub counts : Counts
  pub sample_count : ℕ

pub data Tree : Type 0 where
  leaf : NodeInfo → Tree
  split : NodeInfo → String → ℕ → Fraction → Tree → Tree → Tree

unfoldable pub node_of : List PreparedRow → NodeInfo
unfolding class_counts majority_label
node_of rows = record {
  prediction = majority_label (class_counts rows);
  counts = class_counts rows;
  sample_count = length rows;
}

-- the returns of a leaf in _train_router_tree: one label, no split, or no gain worth the name
unfoldable pub accepted_split : List String → List PreparedRow → Option Split
unfolding router_best_split class_counts not_below gini
accepted_split feature_names rows =
    if leb (seen_labels (class_counts rows)) 1
    then none
    else elim (router_best_split rows feature_names) [
      | none ↦ none
      | some s ↦ if not_below s.weighted_gini (gini (class_counts rows)) then none else some s
    ]

-- _train_router_tree, by `max_depth - depth`, the depth that is left
unfoldable pub train_router_tree : List String → ℕ → List PreparedRow → Tree
unfolding node_of accepted_split gini class_counts
train_router_tree feature_names left [] =
    leaf (record { prediction = cheap_is_enough; counts = no_counts; sample_count = 0 })
train_router_tree feature_names zero (row ∷ rows) = leaf (node_of (row ∷ rows))
train_router_tree feature_names (suc left) (row ∷ rows) =
    elim (accepted_split feature_names (row ∷ rows)) [
      | none ↦ leaf (node_of (row ∷ rows))
      | some s ↦
          split (node_of (row ∷ rows)) s.feature s.threshold (gini (class_counts (row ∷ rows)))
            (train_router_tree feature_names left s.left_rows)
            (train_router_tree feature_names left s.right_rows)
    ]

-- _predict_router_label
unfoldable pub predict_router_label : Tree → Dict ℕ → Label
unfolding feature_of
predict_router_label (leaf node) features = node.prediction
predict_router_label (split node feature threshold g left right) features =
    if ltb threshold (2 * feature_of features feature)
    then predict_router_label right features
    else predict_router_label left features

-- the loop of _router_accuracy: how many rows the tree is right about
unfoldable pub correct : Tree → List PreparedRow → ℕ
unfolding predict_router_label
correct tree [] = 0
correct tree (row ∷ rows) =
    (if label_eq (predict_router_label tree row.features) row.label then 1 else 0)
    + correct tree rows

-- _router_accuracy
unfoldable pub router_accuracy : List PreparedRow → Tree → Fraction
unfolding correct
router_accuracy [] tree = record { num = 0; den = 1 }
router_accuracy (row ∷ rows) tree = record {
  num = correct tree (row ∷ rows);
  den = length (row ∷ rows);
}
