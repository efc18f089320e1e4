-- ===== src/Runner/Router/Model/Trained.antt =====
-- repogauge/runner/router.py: train_router_model trains whenever its arguments pass the checks.
use repogauge.Prelude.{
  ℕ, suc, ◌+◌, ◌≤◌, ◌≡◌, refl, sym, subst, Bool, true, false, List, [], ◌∷◌, arith, length,
  is_empty, count,
}
use repogauge.Prelude.Sort.{count-true}
use repogauge.Runner.Router.Labels.{
  Label, cheap_is_enough, needs_expensive, likely_unsolved, label_eq, labelled, TrainingRow,
  PreparedRow, Checked, passed, refused, ◌>>=◌, router_row_label, prepare_router_training_rows,
  not_below, Fraction, prepared,
}
use repogauge.Runner.Router.Partition.{SplitSettings, Partitions, router_split_rows}
use repogauge.Runner.Router.Partition.Dealt.{split-held, split-trains}
use repogauge.Runner.Router.Tree.{correct}
use repogauge.Runner.Router.Tree.Accuracy.{train_router_tree-correct}
use repogauge.Runner.Router.Model.{
  ModelSettings, check_settings, accuracy_at, RouterModel, scored_rows, fit_rows, fit,
  build_router_model,
}
use repogauge.Runner.Router.Model.Depth.{try_depths-IsBestOf}

checked :
    (s : ModelSettings) (rows : List TrainingRow)
    → check_settings s rows ≡ passed tt
    → (1 ≤ s.max_depth) × (is_empty rows ≡ false)
unfolding check_settings
checked s rows h = ground arith

abbrev HasLength : ℕ → Checked (List PreparedRow) → Type 0
HasLength n (passed ps) = length ps ≡ n
HasLength n (refused e) = Unit

cons-HasLength :
    (n : ℕ) (row : TrainingRow) (m : Checked Label) (rest : Checked (List PreparedRow))
    → HasLength n rest
    → HasLength (suc n) (do l ← m; ps ← rest; passed (prepared row l ∷ ps))
cons-HasLength n row (passed l) (passed ps) h = omega arith
cons-HasLength n row (passed l) (refused e) h = tt
cons-HasLength n row (refused e) rest h = tt

prepare-HasLength :
    (rows : List TrainingRow) → HasLength (length rows) (prepare_router_training_rows rows)
unfolding prepare_router_training_rows
prepare-HasLength [] = refl
prepare-HasLength (row ∷ rows) =
    cons-HasLength (length rows) row (router_row_label row) (prepare_router_training_rows rows)
      (prepare-HasLength rows)

label_eq_refl : (l : Label) → label_eq l l ≡ true
label_eq_refl cheap_is_enough = refl
label_eq_refl needs_expensive = refl
label_eq_refl likely_unsolved = refl

not_empty {ℓ} : {A : Type ℓ} (p : A → Bool) (xs : List A) → 1 ≤ count p xs → is_empty xs ≡ false
not_empty p [] h = absurd (omega arith)
not_empty p (x ∷ xs) h = refl

not_empty→1 {ℓ} : {A : Type ℓ} (xs : List A) → is_empty xs ≡ false → 1 ≤ length xs
not_empty→1 [] h = cc
not_empty→1 (x ∷ xs) h = omega arith

-- The accuracy by which a depth is chosen.
abbrev pub accuracy_of : ModelSettings → Partitions → ℕ → Fraction
accuracy_of s p depth = accuracy_at s.feature_names p.train (scored_rows p) depth

train_not_empty :
    (s : SplitSettings) (ps : List PreparedRow)
    → 1 ≤ length ps
    → is_empty (router_split_rows s ps).train ≡ false
train_not_empty s [] h = absurd (omega arith)
train_not_empty s (p ∷ ps) h =
    let own : 1 ≤ labelled p.label (p ∷ ps) = rw (label_eq_refl p.label) (omega arith) in
    not_empty (λ row. label_eq p.label row.label) (router_split_rows s (p ∷ ps)).train
      (split-trains s (p ∷ ps) p.label own)

-- What the training promises of the model: it fits the rows of the split.
pub record IsTrained (s : ModelSettings) (rows : List PreparedRow) (m : RouterModel) : Type 0 where
  pub sizes : m.train_count + m.validation_count + m.test_count ≡ m.row_count
  pub positive : 1 ≤ m.selected_depth
  pub within : m.selected_depth ≤ s.max_depth
  pub unbeaten :
      (d : ℕ)
      → 1 ≤ d
      → d ≤ s.max_depth
      → not_below
          (accuracy_of s (router_split_rows s.split rows) m.selected_depth)
          (accuracy_of s (router_split_rows s.split rows) d)
        ≡ true
  pub fits :
      (l : Label)
      → labelled l (fit_rows (router_split_rows s.split rows))
        ≤ correct m.tree (fit_rows (router_split_rows s.split rows))

fit-IsTrained :
    (s : ModelSettings) (rows : List PreparedRow)
    → 1 ≤ s.max_depth
    → IsTrained s rows (fit s (length rows) (router_split_rows s.split rows))
unfolding fit
fit-IsTrained s rows h =
    let p = router_split_rows s.split rows in
    let best = try_depths-IsBestOf s.feature_names p.train (scored_rows p) s.max_depth h in
    record {
      sizes = omega (
        arith,
        split-held s.split rows (λ _. true),
        count-true rows,
        count-true p.train,
        count-true p.validation,
        count-true p.test,
      );
      positive = best.positive;
      within = best.within;
      unbeaten = best.unbeaten;
      fits = train_router_tree-correct s.feature_names _ (fit_rows p);
    }

-- Where the settings pass the checks and every row has a valid label, train_router_model returns a
-- model: the error for a split with no training rows is never raised. The parts count every row once;
-- the depth is one of the candidates, and no candidate is more accurate on the rows that score it, by more
-- than the tolerance; and on the rows of the last fit the tree is right at least as often as any constant
-- answer.
pub build_router_model-IsTrained :
    (s : ModelSettings) (rows : List TrainingRow) (prepared : List PreparedRow)
    → check_settings s rows ≡ passed tt
    → prepare_router_training_rows rows ≡ passed prepared
    → (m : RouterModel) × (build_router_model s rows ≡ passed m) × IsTrained s prepared m
unfolding build_router_model
build_router_model-IsTrained s rows ps h k =
    let checks = checked s rows h in
    let same : length ps ≡ length rows =
      subst (HasLength (length rows)) k (prepare-HasLength rows) in
    let positive : 1 ≤ length ps = omega (arith, not_empty→1 rows checks.1) in
    (
      fit s (length rows) (router_split_rows s.split ps),
      rw (h, k, train_not_empty s.split ps positive) refl,
      rw (sym same) (fit-IsTrained s ps checks.0),
    )
