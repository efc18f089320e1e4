-- ===== src/Runner/Router/Partition.antt =====
-- repogauge/runner/router.py: _router_split_rows, which deals the rows of each label to training,
-- validation and test.
pub mod Classes
pub mod Dealt
use repogauge.Prelude.Text.{
  Text, codes, text_eq, text_eq_sound, text_eq_refl, strip_prefix, strip_prefix-append, starts_with,
  contains,
}
use repogauge.Prelude.{
  ℕ, zero, suc, ◌+◌, ◌-◌, ◌*◌, ◌/◌, ◌%◌, ◌≤◌, ◌<◌, String, ◌≡◌, refl, sym, ap, ◌∙◌, subst, ◌≢◌, ◌↔◌,
  ◌⊎◌, inl, inr, Bool, true, false, not, ◌&&◌, ◌||◌, Option, none, some, List, [], ◌∷◌, ◌++◌, map,
  arith, ◌==◌, eq_iff, eq_refl, ltb, leb, nat_eq, if◌then◌else◌, ltb→lt, lt→ltb, ltb→le, leb→le,
  le→leb, nat_eq→eq, nat_eq_refl, tests, Bool-cases, Option-cases, is_some, length, any, all, keep,
  is_empty, All, length-append, All-append, In, member, member→In, In→member, Dict, get, put,
  get-put, keys, branches_hold, taken_holds, some_of_else, member-keep, differ→≢, str_lt, count,
  take, drop,
}
use repogauge.Prelude.Sort.{sort_by}
use repogauge.Runner.Router.Labels.{
  Label, cheap_is_enough, needs_expensive, likely_unsolved, label_eq, PreparedRow,
}

-- What the split is given: the hash of _router_split_key, which the seed salts, and what the two
-- fractions make of a count, `int(round(count * fraction))`, a float product.
pub record SplitSettings : Type 0 where
  pub split_key : PreparedRow → String
  pub rounded_train : ℕ → ℕ
  pub rounded_validation : ℕ → ℕ
  pub validates : Bool

pub record Partitions : Type 0 where
  pub train : List PreparedRow
  pub validation : List PreparedRow
  pub test : List PreparedRow

abbrev pub min : ℕ → ℕ → ℕ
min a b = if leb a b then a else b

abbrev pub max : ℕ → ℕ → ℕ
max a b = if leb a b then b else a

-- `max(1, min(count - 1, train_count))`
unfoldable pub train_size : SplitSettings → ℕ → ℕ
train_size s count = max 1 (min (count - 1) (s.rounded_train count))

-- the validation count, with one row at least where a fraction is asked for and a row is left over;
-- `count - train` is positive for the counts that come here
unfoldable pub validation_size : SplitSettings → ℕ → ℕ → ℕ
validation_size s count train =
    let remaining = count - train in
    let wanted = s.rounded_validation count in
    let asked = if s.validates && ltb 1 remaining && nat_eq wanted 0 then 1 else wanted in
    min asked (max 0 (remaining - 1))

-- the sizes of the training and the validation part, after `if test_count <= 0`
unfoldable pub part_sizes : SplitSettings → ℕ → ℕ × ℕ
unfolding train_size validation_size
part_sizes s count =
    let train = train_size s count in
    let validation = validation_size s count train in
    if leb count (train + validation)
    then if ltb 0 validation
      then (train, validation - 1)
      else if ltb 1 train
      then (train - 1, validation)
      else (train, validation)
    else (train, validation)

-- `key=lambda row: (_router_split_key(row), instance_id)`
unfoldable pub split_before : SplitSettings → PreparedRow → PreparedRow → Bool
split_before s a b =
    str_lt (s.split_key a) (s.split_key b)
    || (s.split_key a == s.split_key b && str_lt a.instance_id b.instance_id)

-- one round of the loop over the labels
unfoldable pub deal : SplitSettings → List PreparedRow → Partitions → Partitions
unfolding part_sizes split_before sort_by
deal s grouped p =
    let ordered = sort_by (split_before s) grouped in
    if nat_eq (length ordered) 1
    then record p { train = p.train ++ ordered }
    else let sizes = part_sizes s (length ordered) in
      record {
        train = p.train ++ take sizes.0 ordered;
        validation = p.validation ++ take sizes.1 (drop sizes.0 ordered);
        test = p.test ++ drop (sizes.0 + sizes.1) ordered;
      }

-- `grouped[label]`
unfoldable pub class_of : Label → List PreparedRow → List PreparedRow
class_of l rows = keep (λ row. label_eq l row.label) rows

-- a label that no row has is no key of `grouped`
unfoldable pub deal_label : SplitSettings → List PreparedRow → Label → Partitions → Partitions
unfolding deal class_of
deal_label s rows l p = if is_empty (class_of l rows) then p else deal s (class_of l rows) p

-- _router_split_rows, over the labels as they sort
unfoldable pub router_split_rows : SplitSettings → List PreparedRow → Partitions
unfolding deal_label
router_split_rows s rows = deal_label s rows needs_expensive (
    deal_label s rows likely_unsolved
      (deal_label s rows cheap_is_enough (record { train = []; validation = []; test = [] })))
