-- ===== src/Export/SplitPatch/Buckets.antt =====
-- repogauge/export/split_patch.py: split_prod_and_test, which puts each chunk of a diff in a bucket.
use repogauge.Prelude.{
  Bool, true, false, ◌&&◌, Option, none, some, List, [], ◌∷◌, ◌++◌, if◌then◌else◌, any,
}
use repogauge.Prelude.Text.{Text}
use repogauge.Export.SplitPatch.{
  Role, test, test_support, docs, generated_vendor, FilePatchChunk, Splitting, split_diff_files,
  is_helper,
}

pub data Bucket : Type 0 where
  exclude_bucket test_bucket prod_bucket : Bucket

-- _bucket_for_file
unfoldable pub bucket_for_file : Text → Role → Bool → Bucket
bucket_for_file path generated_vendor include_test_support = exclude_bucket
bucket_for_file path docs include_test_support = exclude_bucket
bucket_for_file path test include_test_support = test_bucket
bucket_for_file path test_support include_test_support =
    if include_test_support then test_bucket else prod_bucket
bucket_for_file path _ include_test_support =
    if is_helper path && include_test_support then test_bucket else prod_bucket

-- The lists that the loop over the chunks fills.
pub record Parts : Type 0 where
  pub prod_lines : List Text
  pub test_lines : List Text
  pub touched_prod : List Text
  pub touched_test : List Text
  pub touched_test_support : List Text
  pub touched_excluded : List Text

abbrev pub no_parts : Parts
no_parts = record {
  prod_lines = [];
  test_lines = [];
  touched_prod = [];
  touched_test = [];
  touched_test_support = [];
  touched_excluded = [];
}

abbrev pub is_test : Role → Bool
is_test test = true
is_test _ = false

abbrev pub put_in : Bucket → FilePatchChunk → Parts → Parts
put_in exclude_bucket c p = record p { touched_excluded = p.touched_excluded ++ c.path ∷ [] }
put_in test_bucket c p = record p {
  test_lines = p.test_lines ++ c.raw_lines;
  touched_test = if is_test c.role then p.touched_test ++ c.path ∷ [] else p.touched_test;
  touched_test_support =
      if is_test c.role then p.touched_test_support else p.touched_test_support ++ c.path ∷ [];
}
put_in prod_bucket c p = record p {
  prod_lines = p.prod_lines ++ c.raw_lines;
  touched_prod = p.touched_prod ++ c.path ∷ [];
}

-- `for chunk in file_chunks`
unfoldable pub fill : Bool → Parts → List FilePatchChunk → Parts
unfolding bucket_for_file
fill has_test p [] = p
fill has_test p (c ∷ cs) = fill has_test (put_in (bucket_for_file c.path c.role has_test) c p) cs

-- `"".join(lines)`
abbrev pub joined : List Text → Text
joined [] = []
joined (l ∷ ls) = l ++ joined ls

-- What split_prod_and_test returns.
pub record SplitResult : Type 0 where
  pub prod_patch : Text
  pub test_patch : Text
  pub prod_files : List Text
  pub test_files : List Text
  pub test_support_files : List Text
  pub excluded_files : List Text
  pub all_touched_files : List Text

abbrev pub has_test_file : List FilePatchChunk → Bool
has_test_file chunks = any (λ c. is_test c.role) chunks

abbrev pub result_of : List Text → Parts → SplitResult
result_of touched_paths p = record {
  prod_patch = joined p.prod_lines;
  test_patch = joined p.test_lines;
  prod_files = p.touched_prod;
  test_files = p.touched_test ++ p.touched_test_support;
  test_support_files = p.touched_test_support;
  excluded_files = p.touched_excluded;
  all_touched_files = touched_paths;
}

abbrev pub split_of : Option Splitting → Option SplitResult
split_of none = none
split_of (some s) =
    some (result_of s.touched_paths (fill (has_test_file s.chunks) no_parts s.chunks))

-- split_prod_and_test
unfoldable pub split_prod_and_test : (Text → Role) → Text → Option SplitResult
split_prod_and_test role_of diff = split_of (split_diff_files role_of diff)
