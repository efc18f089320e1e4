-- ===== src/Mining/Reject.antt =====
-- repogauge/mining/score.py: the commits that are rejected before they are scored.
use repogauge.Prelude.{
  String, ◌≡◌, refl, ◌≢◌, Bool, true, false, not, ◌&&◌, ◌||◌, Option, none, some, List, [], ◌∷◌,
  map, arith, ltb, leb, nat_eq, if◌then◌else◌, length, any, keep, is_empty, Dict, get, differ→≢,
}
use repogauge.Prelude.Text.{Text, codes, starts_with, contains}
use repogauge.Prelude.Int.{ℤ, pos, negsuc, pos_part}
use repogauge.Prelude.Split.{strip, splitlines}
use repogauge.Mining.Pattern.{Pattern, char, followed, search, is_word_char}

-- The values of the metadata: numbers, truth values, and what `int` cannot read.
pub data MetaValue : Type 0 where
  number : ℤ → MetaValue
  flag : Bool → MetaValue
  unread : Bool → MetaValue

abbrev pub Metadata : Type 0
Metadata = Dict MetaValue

abbrev int_of : Option MetaValue → ℤ
int_of none = pos 0
int_of (some (number n)) = n
int_of (some (flag b)) = if b then pos 1 else pos 0
int_of (some (unread b)) = pos 0

-- _row_metadata_int
unfoldable pub row_metadata_int : Metadata → String → ℤ
row_metadata_int metadata key = int_of (get metadata key)

abbrev pub is_zero : ℤ → Bool
is_zero (pos n) = nat_eq n 0
is_zero (negsuc n) = false

abbrev truth_of : Option MetaValue → Bool
truth_of none = false
truth_of (some (number n)) = not (is_zero n)
truth_of (some (flag b)) = b
truth_of (some (unread b)) = b

-- `bool(metadata.get(key))`
unfoldable pub is_true : Metadata → String → Bool
is_true metadata key = truth_of (get metadata key)

-- `_row_metadata_int(metadata, key) > 0`
unfoldable pub has : Metadata → String → Bool
has metadata key = ltb 0 (pos_part (row_metadata_int metadata key))

-- _is_docs_only
unfoldable pub is_docs_only : Metadata → Bool
is_docs_only metadata =
    not (has metadata "n_prod_files" || has metadata "n_test_files")
    && (has metadata "n_docs_files"
        || has metadata "n_config_build_files"
        || has metadata "n_test_support_files"
        || has metadata "n_unknown_files")

-- _is_dependency_only
unfoldable pub is_dependency_only : Metadata → Bool
is_dependency_only metadata =
    has metadata "n_config_build_files"
    && not (has metadata "n_prod_files" || has metadata "n_test_files")

-- _is_generated_vendor_only
unfoldable pub is_generated_vendor_only : Metadata → Bool
is_generated_vendor_only metadata =
    has metadata "n_generated_vendor_files"
    && not (
        has metadata "n_prod_files"
        || has metadata "n_test_files"
        || has metadata "n_unknown_files")

-- _is_formatting_only
abbrev code_tokens : List Text
code_tokens =
    codes "def "
    ∷ codes "class "
    ∷ codes "return "
    ∷ codes "assert "
    ∷ codes "if "
    ∷ codes "for "
    ∷ codes "while "
    ∷ codes "with "
    ∷ codes "except "
    ∷ codes "raise "
    ∷ codes "import "
    ∷ codes "from "
    ∷ []

is_change : Text → Bool
is_change [] = false
is_change (c ∷ []) = false
is_change (c ∷ d ∷ cs) =
    (nat_eq c 43 || nat_eq c 45)
    && not (starts_with (codes "+++") (c ∷ d ∷ cs) || starts_with (codes "---") (c ∷ d ∷ cs))

abbrev tail : Text → Text
tail [] = []
tail (c ∷ cs) = cs

-- [A-Za-z0-9_]{3}
abbrev word_of_three : Pattern
word_of_three = followed (char is_word_char) (followed (char is_word_char) (char is_word_char))

abbrev is_code : Text → Bool
is_code stripped =
    not (is_empty stripped)
    && (any (λ token. contains token stripped) code_tokens || search word_of_three stripped)

unfoldable pub is_formatting_only : Text → Bool
unfolding is_change
is_formatting_only diff =
    let added_removed = map tail (keep is_change (splitlines diff)) in
    not (is_empty added_removed)
    && leb (length added_removed) 80
    && not (any (λ line. is_code (strip line)) added_removed)

-- _is_hard_reject
unfoldable pub is_hard_reject : Metadata → Text → Bool
is_hard_reject metadata diff =
    is_true metadata "is_merge"
    || is_true metadata "is_revert"
    || is_true metadata "has_rename_only"
    || is_docs_only metadata
    || is_dependency_only metadata
    || is_generated_vendor_only metadata
    || is_formatting_only diff

-- _hard_reject_reason
unfoldable pub hard_reject_reason : Metadata → Text → String
hard_reject_reason metadata diff =
    if is_true metadata "is_merge"
    then "merge commit"
    else if is_true metadata "is_revert"
    then "revert commit"
    else if is_true metadata "has_rename_only"
    then "rename-only commit"
    else if is_docs_only metadata
    then "docs-only changes"
    else if is_dependency_only metadata
    then "dependency-only changes"
    else if is_generated_vendor_only metadata
    then "generated/vendor-only changes"
    else if is_formatting_only diff
    then "formatting-only changes"
    else "unknown hard reject condition"

dependency_only→docs_only :
    (metadata : Metadata) → is_dependency_only metadata ≡ true → is_docs_only metadata ≡ true
unfolding is_docs_only is_dependency_only
dependency_only→docs_only metadata h = ground (arith, h)

-- The reason by the seven tests, in their order.
abbrev reason_by : Bool → Bool → Bool → Bool → Bool → Bool → Bool → String
reason_by merge revert rename docs dependency vendor formatting =
    if merge
    then "merge commit"
    else if revert
    then "revert commit"
    else if rename
    then "rename-only commit"
    else if docs
    then "docs-only changes"
    else if dependency
    then "dependency-only changes"
    else if vendor
    then "generated/vendor-only changes"
    else if formatting
    then "formatting-only changes"
    else "unknown hard reject condition"

reason_by-cases :
    (m v n d p g f : Bool)
    → (p ≡ true → d ≡ true)
    → (reason_by m v n d p g f ≢ "dependency-only changes")
      × ((m || v || n || d || p || g || f) ≡ true
          → reason_by m v n d p g f ≢ "unknown hard reject condition")
reason_by-cases true v n d p g f h = (differ→≢ _ _ refl, λ _. differ→≢ _ _ refl)
reason_by-cases false true n d p g f h = (differ→≢ _ _ refl, λ _. differ→≢ _ _ refl)
reason_by-cases false false true d p g f h = (differ→≢ _ _ refl, λ _. differ→≢ _ _ refl)
reason_by-cases false false false true p g f h = (differ→≢ _ _ refl, λ _. differ→≢ _ _ refl)
reason_by-cases false false false false true g f h = cc (h refl)
reason_by-cases false false false false false true f h = (differ→≢ _ _ refl, λ _. differ→≢ _ _ refl)
reason_by-cases false false false false false false true h =
    (differ→≢ _ _ refl, λ _. differ→≢ _ _ refl)
reason_by-cases false false false false false false false h = (differ→≢ _ _ refl, λ r. cc r)

-- For all commits, the reason of a hard reject is never the one for dependencies: _is_docs_only holds
-- of every commit that _is_dependency_only holds of, and is asked first. And the last resort is never
-- the reason of a commit that is rejected.
pub hard_reject_reason-unreachable :
    (metadata : Metadata) (diff : Text)
    → (hard_reject_reason metadata diff ≢ "dependency-only changes")
      × (is_hard_reject metadata diff ≡ true
          → hard_reject_reason metadata diff ≢ "unknown hard reject condition")
unfolding hard_reject_reason is_hard_reject
hard_reject_reason-unreachable metadata diff =
    reason_by-cases _ _ _ _ _ _ (is_formatting_only diff) (dependency_only→docs_only metadata)
