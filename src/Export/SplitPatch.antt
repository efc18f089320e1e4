-- ===== src/Export/SplitPatch.antt =====
-- repogauge/export/split_patch.py: a diff split into the patch and the test patch. `role_of` is
-- classify_file(path).role, and none stands for PatchSplitError.
pub mod Lossless
pub mod Buckets
pub mod Sorted
mod Examples
use repogauge.Prelude.{
  ℕ, zero, suc, ◌+◌, ◌-◌, ◌*◌, ◌/◌, ◌%◌, ◌≤◌, ◌<◌, String, ◌≡◌, refl, sym, ap, ◌∙◌, subst, ◌≢◌, ◌↔◌,
  ◌⊎◌, inl, inr, Bool, true, false, not, ◌&&◌, ◌||◌, Option, none, some, List, [], ◌∷◌, ◌++◌, map,
  arith, ◌==◌, eq_iff, eq_refl, ltb, leb, nat_eq, if◌then◌else◌, ltb→lt, lt→ltb, ltb→le, leb→le,
  le→leb, nat_eq→eq, nat_eq_refl, tests, Bool-cases, Option-cases, is_some, length, any, all, keep,
  is_empty, All, length-append, All-append, In, member, member→In, In→member, Dict, get, put,
  get-put, keys, branches_hold, taken_holds, some_of_else, member-keep, differ→≢,
}
use repogauge.Prelude.Text.{
  Text, codes, text_eq, text_eq_sound, text_eq_refl, strip_prefix, strip_prefix-append, starts_with,
  contains,
}
use repogauge.Prelude.Split.{strip, is_break, onto_first}
use repogauge.Export.Shlex.{shlex_split}

-- FileRole of mining/file_roles.py
pub data Role : Type 0 where
  prod test test_support config_build docs generated_vendor unknown : Role

-- class _FilePatchChunk
pub record FilePatchChunk : Type 0 where
  pub path : Text
  pub raw_lines : List Text
  pub role : Role

-- `s.splitlines(keepends=True)`
unfoldable pub splitlines_keep : Text → List Text
splitlines_keep [] = []
splitlines_keep (c ∷ cs) =
    let rest = splitlines_keep cs in
    if nat_eq c 13 && starts_with (10 ∷ []) cs
    then onto_first c rest
    else if is_break c
    then (c ∷ []) ∷ rest
    else onto_first c rest

-- _strip_quote
abbrev last_or : ℕ → Text → ℕ
last_or d [] = d
last_or d (c ∷ cs) = last_or c cs

abbrev without_last : Text → Text
without_last [] = []
without_last (c ∷ []) = []
without_last (c ∷ d ∷ cs) = c ∷ without_last (d ∷ cs)

unfoldable pub strip_quote : Text → Text
strip_quote [] = []
strip_quote (c ∷ []) = c ∷ []
strip_quote (c ∷ d ∷ cs) =
    if (nat_eq c 34 || nat_eq c 39) && nat_eq (last_or d cs) c
    then without_last (d ∷ cs)
    else c ∷ d ∷ cs

-- _normalize_token
abbrev value_or : Option Text → Text → Text
value_or (some s) d = s
value_or none d = d

unfoldable pub normalize_token : Text → Text
unfolding strip_quote
normalize_token s =
    let token = strip_quote (strip s) in
    if starts_with (codes "a/") token
    then value_or (strip_prefix (codes "a/") token) token
    else value_or (strip_prefix (codes "b/") token) token

-- _parse_diff_header
abbrev paths_of : Option (List Text) → Option (Text × Text)
paths_of (some (diff ∷ git ∷ a ∷ b ∷ rest)) = some (normalize_token a, normalize_token b)
paths_of _ = none

unfoldable pub parse_diff_header : Text → Option (Text × Text)
parse_diff_header line =
    if starts_with (codes "diff --git ") line then paths_of (shlex_split line) else none

-- `Path(path).name`
unfoldable pub segments : Text → List Text
segments [] = [] ∷ []
segments (c ∷ cs) = let rest = segments cs in if nat_eq c 47 then [] ∷ rest else onto_first c rest

abbrev is_part : Text → Bool
is_part s = not (is_empty s || text_eq s (codes "."))

abbrev last_text : List Text → Text
last_text [] = []
last_text (s ∷ []) = s
last_text (s ∷ t ∷ ts) = last_text (t ∷ ts)

unfoldable pub path_name : Text → Text
unfolding segments
path_name path = last_text (keep is_part (segments path))

-- `Path(path).name in _TEST_HELPER_FILES`
abbrev is_helper : Text → Bool
is_helper path =
    any (text_eq (path_name path)) (codes "conftest.py" ∷ codes "pytest.ini" ∷ codes "tox.ini" ∷ [])

-- _is_test_bucket
unfoldable pub is_test_bucket : Text → Role → Bool
is_test_bucket path test = true
is_test_bucket path test_support = true
is_test_bucket path _ = is_helper path

-- _extract_rename_lines: the last line of each kind counts.
abbrev renamed : Text → Option Text → Text → Option Text
renamed prefix known line = elim (strip_prefix prefix line) [
  | none ↦ known
  | some s ↦ some (strip s)
]

unfoldable pub extract_rename_lines :
    List Text → Option Text → Option Text → Option Text × Option Text
extract_rename_lines [] from to = (from, to)
extract_rename_lines (line ∷ lines) from to =
    extract_rename_lines lines (renamed (codes "rename from ") from line)
      (renamed (codes "rename to ") to line)

-- `a or b`
abbrev or_else : Text → Text → Text
or_else a b = if is_empty a then b else a

abbrev some_or : Option Text → Text → Text
some_or none b = b
some_or (some a) b = or_else a b

abbrev is_given : Option Text → Bool
is_given none = false
is_given (some a) = not (is_empty a)

-- What the loop of _split_diff_files carries on.
pub record Splitting : Type 0 where
  pub chunks : List FilePatchChunk
  pub touched_paths : List Text
  pub current_lines : List Text
  pub current_paths : Option (Text × Text)

abbrev pub split_start : Splitting
split_start = record { chunks = []; touched_paths = []; current_lines = []; current_paths = none }

abbrev differ : Bool → Bool → Bool
differ true b = not b
differ false b = b

module _ (role_of : Text → Role) where
  -- _is_test_file_boundary_split
  abbrev crosses : Text → Text → Bool
  crosses a b = differ (is_test_bucket a (role_of a)) (is_test_bucket b (role_of b))

  abbrev add_chunk : Splitting → Text → Splitting
  add_chunk s destination = record s {
    chunks =
        s.chunks
        ++ (record { path = destination; raw_lines = s.current_lines; role = role_of destination })
          ∷ [];
    touched_paths =
        if any (text_eq destination) s.touched_paths
        then s.touched_paths
        else s.touched_paths ++ destination ∷ [];
  }

  abbrev destination_of : Text → Text → Text → Text
  destination_of a_path b_path to_path =
      let destination = or_else to_path (or_else b_path a_path) in
      if text_eq destination (codes "/dev/null") && not (text_eq a_path (codes "/dev/null"))
      then a_path
      else destination

  -- The chunk of the file that the lines so far belong to.
  abbrev pub close_file : Splitting → Text × Text → Option Text × Option Text → Option Splitting
  close_file s (a_path, b_path) (rename_from, rename_to) =
      let from_path = normalize_token (strip_quote (some_or rename_from a_path)) in
      let to_path = normalize_token (strip_quote (some_or rename_to b_path)) in
      if is_given rename_from && is_given rename_to && crosses from_path to_path
      then none
      else some (add_chunk s (destination_of a_path b_path to_path))

  abbrev pub close_with : Splitting → Option (Text × Text) → Option Splitting
  close_with s none = some s
  close_with s (some paths) = close_file s paths (extract_rename_lines s.current_lines none none)

  abbrev pub restart : Text → Text × Text → Option Splitting → Option Splitting
  restart line paths none = none
  restart line paths (some s) =
      some (record s { current_lines = line ∷ []; current_paths = some paths })

  abbrev pub on_line : Splitting → Text → Option (Text × Text) → Option Splitting
  on_line s line (some paths) = restart line paths (close_with s s.current_paths)
  on_line s line none = some (record s {
    current_lines =
        if is_empty s.current_lines then s.current_lines else s.current_lines ++ line ∷ [];
  })

  abbrev pub and_then : Option Splitting → (Splitting → Option Splitting) → Option Splitting
  and_then none f = none
  and_then (some s) f = f s

  -- The loop over the lines, and the last file behind it.
  unfoldable pub split_lines : Splitting → List Text → Option Splitting
  split_lines s [] = close_with s s.current_paths
  split_lines s (line ∷ lines) =
      and_then (on_line s line (parse_diff_header line)) (λ s'. split_lines s' lines)

  -- _split_diff_files
  unfoldable pub split_diff_files : Text → Option Splitting
  unfolding split_lines
  split_diff_files diff = split_lines split_start (splitlines_keep diff)
