-- ===== src/Export/SplitPatch/Examples.antt =====
-- repogauge/export/split_patch.py at a small diff.
use repogauge.Prelude.{◌≡◌, refl, some, [], ◌∷◌}
use repogauge.Prelude.Split.{lstrip, rstrip}
use repogauge.Export.Shlex.{shlex_split}
use repogauge.Prelude.Text.{Text, codes, text_eq, strip_prefix, is_space}
use repogauge.Export.SplitPatch.{
  parse_diff_header, extract_rename_lines, normalize_token, strip_quote, is_test_bucket, path_name,
  Role, prod, Splitting, split_diff_files, splitlines_keep,
}
use repogauge.Export.SplitPatch.Buckets.{SplitResult, split_prod_and_test}
use repogauge.Export.SplitPatch.Lossless.{lines_of, from_header, split_diff_files-lossless}
use repogauge.Export.SplitPatch.Sorted.{IsSorted, split_prod_and_test-IsSorted}

-- One changed file, behind a line that belongs to none.
abbrev diff : Text
diff = codes "note\ndiff --git a/m.py b/m.py\n+x\n"

abbrev all_prod : Text → Role
all_prod path = prod

abbrev splitting : Splitting
splitting = record {
  chunks =
      (record {
        path = codes "m.py";
        raw_lines = codes "diff --git a/m.py b/m.py\n" ∷ codes "+x\n" ∷ [];
        role = prod;
      })
      ∷ [];
  touched_paths = codes "m.py" ∷ [];
  current_lines = codes "diff --git a/m.py b/m.py\n" ∷ codes "+x\n" ∷ [];
  current_paths = some (codes "m.py", codes "m.py");
}

is_split : split_diff_files all_prod diff ≡ some splitting
unfolding split_diff_files splitlines_keep parse_diff_header strip_prefix shlex_split
    extract_rename_lines text_eq normalize_token strip_quote lstrip rstrip is_space is_test_bucket
    path_name
is_split = refl

split_diff_files-lossless_example : lines_of splitting.chunks ≡ from_header (splitlines_keep diff)
split_diff_files-lossless_example = split_diff_files-lossless all_prod diff splitting is_split

split_prod_and_test-IsSorted_example :
    (r : SplitResult) × (split_prod_and_test all_prod diff ≡ some r) × IsSorted splitting.chunks r
split_prod_and_test-IsSorted_example = split_prod_and_test-IsSorted all_prod diff splitting is_split
