-- ===== src/Runner/Router/Labels.antt =====
-- repogauge/runner/router.py: the labels of the training rows, their counts and their impurity. The
-- fractions that the source computes in floats are exact here.
use repogauge.Prelude.{
  ℕ, ◌+◌, ◌-◌, ◌*◌, String, Bool, true, false, ◌&&◌, List, [], ◌∷◌, ◌==◌, ltb, leb, if◌then◌else◌,
  Dict, count,
}

-- _ROUTER_LABELS
pub data Label : Type 0 where
  cheap_is_enough needs_expensive likely_unsolved : Label

abbrev pub label_eq : Label → Label → Bool
label_eq cheap_is_enough cheap_is_enough = true
label_eq needs_expensive needs_expensive = true
label_eq likely_unsolved likely_unsolved = true
label_eq _ _ = false

abbrev pub label_name : Label → String
label_name cheap_is_enough = "cheap_is_enough"
label_name needs_expensive = "needs_expensive"
label_name likely_unsolved = "likely_unsolved"

-- A row of router training data, its texts as _coerce_str reads them.
pub record TrainingRow : Type 0 where
  pub instance_id : String
  pub route_label : String
  pub label : String
  pub task_feature_version : String
  pub features : Dict ℕ

-- What the training raises, a RuntimeError each.
pub data RouterError : Type 0 where
  bad_train_fraction bad_validation_fraction bad_fraction_sum bad_max_depth no_rows : RouterError
  mixed_feature_versions no_training_rows : RouterError
  bad_label : String → RouterError

pub data Checked {ℓ} (A : Type ℓ) : Type ℓ where
  passed : A → Checked A
  refused : RouterError → Checked A

-- What follows is only run where nothing was raised.
infixl 5 ◌>>=◌
abbrev pub ◌>>=◌ {ℓ κ} : {A : Type ℓ} {B : Type κ} → Checked A → (A → Checked B) → Checked B
refused raised >>= next = refused raised
passed value >>= next = next value

-- `if test: raise error`
abbrev pub raise_if : Bool → RouterError → Checked (Unit {0})
raise_if test error = if test then refused error else passed tt

-- `label not in _ROUTER_LABELS`
unfoldable pub label_of_text : String → String → Checked Label
label_of_text instance_id text =
    if text == "cheap_is_enough"
    then passed cheap_is_enough
    else if text == "needs_expensive"
    then passed needs_expensive
    else if text == "likely_unsolved"
    then passed likely_unsolved
    else refused (bad_label instance_id)

-- _router_row_label
unfoldable pub router_row_label : TrainingRow → Checked Label
unfolding label_of_text
router_row_label row =
    label_of_text row.instance_id (if row.route_label == "" then row.label else row.route_label)

-- A row of _prepare_router_training_rows: its label is one of the three, and its features are encoded.
pub record PreparedRow : Type 0 where
  pub instance_id : String
  pub label : Label
  pub features : Dict ℕ

abbrev pub prepared : TrainingRow → Label → PreparedRow
prepared row l = record { instance_id = row.instance_id; label = l; features = row.features }

-- _prepare_router_training_rows: the first row with no valid label raises
unfoldable pub prepare_router_training_rows : List TrainingRow → Checked (List PreparedRow)
unfolding router_row_label
prepare_router_training_rows [] = passed []
prepare_router_training_rows (row ∷ rows) =
    let rest = prepare_router_training_rows rows in
    do l ← router_row_label row; ps ← rest; passed (prepared row l ∷ ps)

-- How many rows have a label.
abbrev pub labelled : Label → List PreparedRow → ℕ
labelled l rows = count (λ row. label_eq l row.label) rows

-- The Counter of the labels; a label that it does not hold counts 0.
pub record Counts : Type 0 where
  pub cheap : ℕ
  pub needs : ℕ
  pub unsolved : ℕ

abbrev pub no_counts : Counts
no_counts = record { cheap = 0; needs = 0; unsolved = 0 }

abbrev pub count_of : Label → Counts → ℕ
count_of cheap_is_enough c = c.cheap
count_of needs_expensive c = c.needs
count_of likely_unsolved c = c.unsolved

-- `counts[label] += 1`
abbrev pub bump : Label → Counts → Counts
bump cheap_is_enough c = record c { cheap = c.cheap + 1 }
bump needs_expensive c = record c { needs = c.needs + 1 }
bump likely_unsolved c = record c { unsolved = c.unsolved + 1 }

-- _router_class_counts
unfoldable pub class_counts : List PreparedRow → Counts
class_counts [] = no_counts
class_counts (row ∷ rows) = bump row.label (class_counts rows)

abbrev pub sum_counts : Counts → ℕ
sum_counts c = c.cheap + c.needs + c.unsolved

-- `len(counts)`
abbrev pub seen_labels : Counts → ℕ
seen_labels c =
    (if ltb 0 c.cheap then 1 else 0)
    + (if ltb 0 c.needs then 1 else 0)
    + (if ltb 0 c.unsolved then 1 else 0)

-- _router_majority_label: the largest count, and of equal ones the label that sorts first; the first
-- label if there is no row
unfoldable pub majority_label : Counts → Label
majority_label c =
    if leb c.unsolved c.cheap && leb c.needs c.cheap
    then cheap_is_enough
    else if leb c.needs c.unsolved
    then likely_unsolved
    else needs_expensive

-- A fraction; the denominator is not 0.
pub record Fraction : Type 0 where
  pub num : ℕ
  pub den : ℕ

-- 1e-12, in the comparisons of a with b
abbrev pub tolerance : ℕ
tolerance = 1000000000000

-- `a >= b`
unfoldable pub at_least : Fraction → Fraction → Bool
at_least a b = leb (b.num * a.den) (a.num * b.den)

-- `a < b - 1e-12`
unfoldable pub below : Fraction → Fraction → Bool
below a b = ltb (a.num * b.den * tolerance + a.den * b.den) (b.num * a.den * tolerance)

-- `a >= b - 1e-12`
unfoldable pub not_below : Fraction → Fraction → Bool
not_below a b = leb (b.num * a.den * tolerance) (a.num * b.den * tolerance + a.den * b.den)

-- `abs(a - b) <= 1e-12`
unfoldable pub close : Fraction → Fraction → Bool
unfolding not_below
close a b = not_below a b && not_below b a

-- _router_gini: 1 - Σ (count / total)²
unfoldable pub gini : Counts → Fraction
gini c =
    let total = sum_counts c in
    if leb total 0 then record { num = 0; den = 1 } else record {
      num = total * total - (c.cheap * c.cheap + c.needs * c.needs + c.unsolved * c.unsolved);
      den = total * total;
    }
