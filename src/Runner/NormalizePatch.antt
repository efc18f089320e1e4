-- ===== src/Runner/NormalizePatch.antt =====
-- repogauge/runner/normalize_patch.py: exclude_patch_paths, which takes the withheld paths out of a
-- patch.
pub mod Excluded
mod Examples
use repogauge.Prelude.{
  ℕ, zero, suc, ◌+◌, ◌-◌, ◌*◌, ◌/◌, ◌%◌, ◌≤◌, ◌<◌, String, ◌≡◌, refl, sym, ap, ◌∙◌, subst, ◌≢◌, ◌↔◌,
  ◌⊎◌, inl, inr, Bool, true, false, not, ◌&&◌, ◌||◌, Option, none, some, List, [], ◌∷◌, ◌++◌, map,
  arith, ◌==◌, eq_iff, eq_refl, ltb, leb, nat_eq, if◌then◌else◌, ltb→lt, lt→ltb, ltb→le, leb→le,
  le→leb, nat_eq→eq, nat_eq_refl, tests, Bool-cases, Option-cases, is_some, length, any, all, keep,
  is_empty, All, length-append, All-append, In, member, member→In, In→member, Dict, get, put,
  get-put, keys, branches_hold, taken_holds, some_of_else, member-keep, differ→≢,
}
use repogauge.Prelude.Text.{
  Text, codes, text_eq, text_eq_sound, text_eq_refl, strip_prefix, strip_prefix-append, starts_with,
  contains, is_blank,
}
use repogauge.Prelude.Split.{strip, ends_with}
use repogauge.Export.Shlex.{shlex_split}
use repogauge.Export.SplitPatch.{splitlines_keep}

-- _normalize_token
abbrev value_or : Option Text → Text → Text
value_or (some s) d = s
value_or none d = d

abbrev without_last : Text → Text
without_last [] = []
without_last (c ∷ []) = []
without_last (c ∷ d ∷ cs) = c ∷ without_last (d ∷ cs)

-- `token[1:-1]`
abbrev inner : Text → Text
inner [] = []
inner (c ∷ cs) = without_last cs

abbrev unquote : Text → Text → Text
unquote mark token = if starts_with mark token && ends_with mark token then inner token else token

abbrev without_side : Text → Text
without_side token =
    if starts_with (codes "a/") token
    then value_or (strip_prefix (codes "a/") token) token
    else value_or (strip_prefix (codes "b/") token) token

unfoldable pub normalize_token : Text → Text
normalize_token token = unquote (codes "'") (unquote (codes "\"") (without_side (strip token)))

-- _parse_diff_header
abbrev paths_of : Option (List Text) → Option (Text × Text)
paths_of (some (diff ∷ git ∷ a ∷ b ∷ rest)) = some (normalize_token a, normalize_token b)
paths_of _ = none

unfoldable pub parse_diff_header : Text → Option (Text × Text)
unfolding normalize_token
parse_diff_header line =
    if starts_with (codes "diff --git ") line then paths_of (shlex_split line) else none

-- `"".join(parts)`
abbrev pub joined : List Text → Text
joined [] = []
joined (t ∷ ts) = t ++ joined ts

abbrev pub Chunks : Type 0
Chunks = List (Text × Text)

-- What the loop of _split_patch_by_file carries on.
pub record FileSplit : Type 0 where
  pub chunks : Chunks
  pub current_lines : List Text
  pub current_path : Option Text

abbrev close_chunk : FileSplit → Option Text → Chunks
close_chunk s none = s.chunks
close_chunk s (some path) = s.chunks ++ (path, joined s.current_lines) ∷ []

abbrev path_of : Text × Text → Text
path_of (a_path, b_path) = if text_eq b_path (codes "/dev/null") then a_path else b_path

abbrev on_line : FileSplit → Text → Option (Text × Text) → FileSplit
on_line s line (some paths) = record {
  chunks = close_chunk s s.current_path;
  current_lines = line ∷ [];
  current_path = some (path_of paths);
}
on_line s line none = record s {
  current_lines =
      if is_empty s.current_lines then s.current_lines else s.current_lines ++ line ∷ [];
}

unfoldable pub split_lines : FileSplit → List Text → Chunks
unfolding parse_diff_header
split_lines s [] = close_chunk s s.current_path
split_lines s (line ∷ lines) = split_lines (on_line s line (parse_diff_header line)) lines

-- _split_patch_by_file
unfoldable pub split_patch_by_file : Text → Chunks
unfolding split_lines
split_patch_by_file patch =
    split_lines (record { chunks = []; current_lines = []; current_path = none })
      (splitlines_keep patch)

-- `{path.strip() for path in excluded_paths if str(path).strip()}`
abbrev pub excluded_set : List Text → List Text
excluded_set paths = keep (λ p. not (is_empty p)) (map strip paths)

abbrev pub is_excluded : List Text → Text → Bool
is_excluded excluded path = any (text_eq path) excluded

-- The lists that the loop over the chunks fills.
pub record Excluding : Type 0 where
  pub kept_chunks : List Text
  pub removed_chunks : List Text
  pub removed_paths : List Text

abbrev sort_chunk : List Text → Excluding → Text × Text → Excluding
sort_chunk excluded e (path, chunk) =
    if is_excluded excluded path
    then record e {
      removed_chunks = e.removed_chunks ++ chunk ∷ [];
      removed_paths =
          if any (text_eq path) e.removed_paths
          then e.removed_paths
          else e.removed_paths ++ path ∷ [];
    }
    else record e { kept_chunks = e.kept_chunks ++ chunk ∷ [] }

unfoldable pub exclude_chunks : List Text → Excluding → Chunks → Excluding
exclude_chunks excluded e [] = e
exclude_chunks excluded e (c ∷ cs) = exclude_chunks excluded (sort_chunk excluded e c) cs

abbrev pub excluding_start : Excluding
excluding_start = record { kept_chunks = []; removed_chunks = []; removed_paths = [] }

abbrev pub excluded_result : Text → Excluding → Text × Text × List Text
excluded_result patch e =
    if is_empty e.removed_paths
    then (patch, [], [])
    else (joined e.kept_chunks, joined e.removed_chunks, e.removed_paths)

-- exclude_patch_paths: the patch that is kept, the one that is removed, and the paths removed
unfoldable pub exclude_patch_paths : Text → List Text → Text × Text × List Text
unfolding exclude_chunks split_patch_by_file
exclude_patch_paths patch excluded_paths =
    let excluded = excluded_set excluded_paths in
    let chunks = split_patch_by_file patch in
    if is_blank patch || is_empty excluded
    then (patch, [], [])
    else if is_empty chunks
    then (patch, [], [])
    else excluded_result patch (exclude_chunks excluded excluding_start chunks)
