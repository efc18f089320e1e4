-- ===== src/Runner/NormalizePatch/Examples.antt =====
-- repogauge/runner/normalize_patch.py at a patch of two files.
use repogauge.Prelude.{◌≡◌, refl, false, [], ◌∷◌, ◌++◌, if◌then◌else◌}
use repogauge.Prelude.Text.{Text, codes, text_eq, strip_prefix, is_blank, is_space}
use repogauge.Prelude.Split.{lstrip, rstrip, ends_with}
use repogauge.Export.Shlex.{shlex_split}
use repogauge.Export.SplitPatch.{splitlines_keep}
use repogauge.Runner.NormalizePatch.{exclude_patch_paths, excluded_set, split_patch_by_file, joined}
use repogauge.Runner.NormalizePatch.Excluded.{
  any_excluded, kept_of, removed_of, exclude_patch_paths-parts,
}

abbrev kept_part : Text
kept_part = codes "diff --git a/m.py b/m.py\n+x\n"

abbrev withheld_part : Text
withheld_part = codes "diff --git a/t.py b/t.py\n+y\n"

abbrev both : Text
both = withheld_part ++ kept_part

not_blank : is_blank both ≡ false
unfolding is_blank is_space
not_blank = refl

withheld :
    exclude_patch_paths both (codes "t.py" ∷ []) ≡ (kept_part, withheld_part, codes "t.py" ∷ [])
unfolding exclude_patch_paths is_blank is_space lstrip rstrip ends_with text_eq strip_prefix
    shlex_split splitlines_keep
withheld = refl

exclude_patch_paths-parts_example :
    ((exclude_patch_paths both (codes "t.py" ∷ [])).0 ≡ (
      if any_excluded (excluded_set (codes "t.py" ∷ [])) (split_patch_by_file both)
      then joined (kept_of (excluded_set (codes "t.py" ∷ [])) (split_patch_by_file both))
      else both))
    × ((exclude_patch_paths both (codes "t.py" ∷ [])).1
        ≡ joined (removed_of (excluded_set (codes "t.py" ∷ [])) (split_patch_by_file both)))
exclude_patch_paths-parts_example = exclude_patch_paths-parts both (codes "t.py" ∷ []) not_blank
