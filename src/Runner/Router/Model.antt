-- ===== src/Runner/Router/Model.antt =====
-- repogauge/runner/router.py: _build_router_model_payload, from the training rows to the tree: the checks,
-- the split, the depth that does best, and the last fit. Fractions are exact.
pub mod Depth
pub mod Trained
use repogauge.Prelude.Text.{
  is_space, text_lt_irrefl, text_lt, text_lt_trans, Text, codes, text_eq, text_eq_sound,
  text_eq_refl, strip_prefix, strip_prefix-append, starts_with, contains,
}
use repogauge.Prelude.{
  ℕ, zero, suc, ◌+◌, ◌-◌, ◌*◌, ◌/◌, ◌%◌, ◌≤◌, ◌<◌, String, ◌≡◌, refl, sym, ap, ◌∙◌, subst, ◌≢◌, ◌↔◌,
  ◌⊎◌, inl, inr, Bool, true, false, not, ◌&&◌, ◌||◌, Option, none, some, List, [], ◌∷◌, ◌++◌, map,
  arith, ◌==◌, eq_iff, eq_refl, ltb, leb, nat_eq, if◌then◌else◌, ltb→lt, lt→ltb, ltb→le, leb→le,
  le→leb, nat_eq→eq, nat_eq_refl, tests, Bool-cases, Option-cases, is_some, length, any, all, keep,
  is_empty, All, length-append, All-append, In, member, member→In, In→member, Dict, get, put,
  get-put, keys, branches_hold, taken_holds, some_of_else, member-keep, differ→≢, str_lt, count,
  take, drop, then_lt, then_lt_trans, total, IsDistinct,
}
use repogauge.Runner.Router.Labels.{
  TrainingRow, PreparedRow, bad_train_fraction, bad_validation_fraction, bad_fraction_sum,
  bad_max_depth, no_rows, mixed_feature_versions, no_training_rows, Checked, passed, ◌>>=◌,
  raise_if, prepare_router_training_rows, Fraction, below, close,
}
use repogauge.Prelude.Int.{ℤ, pos, leb_ℤ, pos_part, neg_part}
use repogauge.Runner.Router.Partition.{SplitSettings, Partitions, router_split_rows}
use repogauge.Runner.Router.Tree.{Tree, train_router_tree, router_accuracy}

-- A float of the arguments, which can be negative; the denominator is not 0.
pub record Share : Type 0 where
  pub num : ℤ
  pub den : ℕ

-- The arguments of train_router_model, with what they make of a row and of a count.
pub record ModelSettings : Type 0 where
  pub split : SplitSettings
  pub train_fraction : Share
  pub validation_fraction : Share
  pub max_depth : ℕ
  pub feature_names : List String

-- Whether `a >= 1`, and whether `a + b >= 1`.
abbrev pub whole : Share → Bool
whole a = leb_ℤ (pos a.den) a.num

abbrev pub whole_sum : Share → Share → Bool
whole_sum a b =
    leb (a.den * b.den + neg_part a.num * b.den + neg_part b.num * a.den)
      (pos_part a.num * b.den + pos_part b.num * a.den)

-- the distinct versions, less the empty one
unfoldable pub feature_versions : List TrainingRow → List String
feature_versions [] = []
feature_versions (row ∷ rows) =
    let rest = feature_versions rows in
    if row.task_feature_version == "" || member row.task_feature_version rest
    then rest
    else row.task_feature_version ∷ rest

-- the checks before the split, in their order
unfoldable pub check_settings : ModelSettings → List TrainingRow → Checked (Unit {0})
unfolding feature_versions
check_settings s rows = do
  _ ← raise_if (leb_ℤ s.train_fraction.num (pos 0) || whole s.train_fraction) bad_train_fraction
  _ ←
      raise_if (not (leb_ℤ (pos 0) s.validation_fraction.num) || whole s.validation_fraction)
        bad_validation_fraction
  _ ← raise_if (whole_sum s.train_fraction s.validation_fraction) bad_fraction_sum
  _ ← raise_if (ltb s.max_depth 1) bad_max_depth
  _ ← raise_if (is_empty rows) no_rows
  raise_if (ltb 1 (length (feature_versions rows))) mixed_feature_versions

-- The best depth so far with its accuracy; -1.0 is none.
pub record Best : Type 0 where
  pub depth : ℕ
  pub accuracy : Option Fraction

-- `accuracy > best_accuracy + 1e-12 or (abs(...) <= 1e-12 and depth < best_depth)`
unfoldable pub is_better : Fraction → ℕ → Best → Bool
unfolding below close
is_better accuracy depth best = elim best.accuracy [
  | none ↦ true
  | some a ↦ below a accuracy || close accuracy a && ltb depth best.depth
]

module _ (feature_names : List String) (train_rows scored_rows : List PreparedRow) where
  -- the accuracy of the tree of a depth
  unfoldable pub accuracy_at : ℕ → Fraction
  unfolding router_accuracy train_router_tree
  accuracy_at depth = router_accuracy scored_rows (train_router_tree feature_names depth train_rows)

  -- one round of the loop over the depths
  unfoldable pub try_depth : ℕ → Best → Best
  unfolding is_better accuracy_at
  try_depth depth best =
      if is_better (accuracy_at depth) depth best
      then record { depth = depth; accuracy = some (accuracy_at depth) }
      else best

  -- the loop over candidate_depths, the first `count` depths from 1
  unfoldable pub try_depths : ℕ → Best
  unfolding try_depth
  try_depths zero = record { depth = 1; accuracy = none }
  try_depths (suc count) = try_depth (suc count) (try_depths count)

pub record RouterModel : Type 0 where
  pub selected_depth : ℕ
  pub validation_accuracy : Option Fraction
  pub tree : Tree
  pub train_count : ℕ
  pub validation_count : ℕ
  pub test_count : ℕ
  pub row_count : ℕ

-- `validation_rows` if there are any, else `train_rows`
abbrev pub scored_rows : Partitions → List PreparedRow
scored_rows p = if is_empty p.validation then p.train else p.validation

abbrev pub fit_rows : Partitions → List PreparedRow
fit_rows p = if is_empty p.validation then p.train else p.train ++ p.validation

unfoldable pub fit : ModelSettings → ℕ → Partitions → RouterModel
unfolding try_depths train_router_tree
fit s row_count p =
    let best = try_depths s.feature_names p.train (scored_rows p) s.max_depth in
    record {
      selected_depth = best.depth;
      validation_accuracy = best.accuracy;
      tree = train_router_tree s.feature_names best.depth (fit_rows p);
      train_count = length p.train;
      validation_count = length p.validation;
      test_count = length p.test;
      row_count = row_count;
    }

-- _build_router_model_payload
unfoldable pub build_router_model : ModelSettings → List TrainingRow → Checked RouterModel
unfolding check_settings prepare_router_training_rows router_split_rows fit
build_router_model s rows = do
  _ ← check_settings s rows
  prepared_rows ← prepare_router_training_rows rows
  let p = router_split_rows s.split prepared_rows
  _ ← raise_if (is_empty p.train) no_training_rows
  passed (fit s (length rows) p)
