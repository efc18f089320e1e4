-- ===== src/Export/SplitPatch/Sorted.antt =====
-- repogauge/export/split_patch.py: which lines split_prod_and_test puts in which patch.
use repogauge.Prelude.{
  ◌≡◌, refl, sym, ap, ◌∙◌, inl, inr, Bool, true, false, ◌&&◌, some, List, [], ◌∷◌, ◌++◌, map,
  if◌then◌else◌, Bool-cases, keep,
}
use repogauge.Prelude.Text.{Text}
use mathlib.Core.List.{append_assoc, append-nil}
use repogauge.Export.SplitPatch.{
  is_helper, Role, prod, test, test_support, config_build, docs, generated_vendor, unknown,
  FilePatchChunk, Splitting, split_diff_files,
}
use repogauge.Export.SplitPatch.Buckets.{
  Bucket, exclude_bucket, test_bucket, prod_bucket, bucket_for_file, Parts, no_parts, put_in, fill,
  joined, SplitResult, has_test_file, is_test, result_of, split_of, split_prod_and_test,
}
use repogauge.Export.SplitPatch.Lossless.{lines_of}

-- The chunks of one bucket, where test support is included or not.
abbrev same_bucket : Bucket → Bucket → Bool
same_bucket exclude_bucket exclude_bucket = true
same_bucket test_bucket test_bucket = true
same_bucket prod_bucket prod_bucket = true
same_bucket _ _ = false

abbrev pub chunks_in : Bucket → Bool → List FilePatchChunk → List FilePatchChunk
chunks_in b has_test chunks =
    keep (λ c. same_bucket b (bucket_for_file c.path c.role has_test)) chunks

abbrev pub paths_of_chunks : List FilePatchChunk → List Text
paths_of_chunks cs = map (λ c. c.path) cs

module _ (has_test : Bool) where
  -- The parts hold the chunks of their buckets.
  record Sorts (p : Parts) (cs : List FilePatchChunk) (q : Parts) : Type 0 where
    prod_lines : q.prod_lines ≡ p.prod_lines ++ lines_of (chunks_in prod_bucket has_test cs)
    test_lines : q.test_lines ≡ p.test_lines ++ lines_of (chunks_in test_bucket has_test cs)
    prod_paths :
        q.touched_prod ≡ p.touched_prod ++ paths_of_chunks (chunks_in prod_bucket has_test cs)
    excluded :
        q.touched_excluded
        ≡ p.touched_excluded ++ paths_of_chunks (chunks_in exclude_bucket has_test cs)

  put_in-Sorts :
      (p q : Parts) (c : FilePatchChunk) (cs : List FilePatchChunk) (b : Bucket)
      → bucket_for_file c.path c.role has_test ≡ b
      → Sorts (put_in b c p) cs q
      → Sorts p (c ∷ cs) q
  put_in-Sorts p q c cs exclude_bucket e h = record {
    prod_lines = rw e h.prod_lines;
    test_lines = rw e h.test_lines;
    prod_paths = rw e h.prod_paths;
    excluded = rw e (h.excluded ∙ append_assoc p.touched_excluded (c.path ∷ []) _);
  }
  put_in-Sorts p q c cs test_bucket e h = record {
    prod_lines = rw e h.prod_lines;
    test_lines = rw e (h.test_lines ∙ append_assoc p.test_lines c.raw_lines _);
    prod_paths = rw e h.prod_paths;
    excluded = rw e h.excluded;
  }
  put_in-Sorts p q c cs prod_bucket e h = record {
    prod_lines = rw e (h.prod_lines ∙ append_assoc p.prod_lines c.raw_lines _);
    test_lines = rw e h.test_lines;
    prod_paths = rw e (h.prod_paths ∙ append_assoc p.touched_prod (c.path ∷ []) _);
    excluded = rw e h.excluded;
  }

  fill-Sorts : (p : Parts) (cs : List FilePatchChunk) → Sorts p cs (fill has_test p cs)
  unfolding fill
  fill-Sorts p [] = record {
    prod_lines = sym (append-nil p.prod_lines);
    test_lines = sym (append-nil p.test_lines);
    prod_paths = sym (append-nil p.touched_prod);
    excluded = sym (append-nil p.touched_excluded);
  }
  fill-Sorts p (c ∷ cs) =
      put_in-Sorts p _ c cs (bucket_for_file c.path c.role has_test) refl
        (fill-Sorts (put_in (bucket_for_file c.path c.role has_test) c p) cs)

-- What split_prod_and_test makes of the chunks.
abbrev pub IsSorted : List FilePatchChunk → SplitResult → Type 0
IsSorted chunks r =
    let has_test = has_test_file chunks in
    (r.prod_patch ≡ joined (lines_of (chunks_in prod_bucket has_test chunks)))
    × (r.test_patch ≡ joined (lines_of (chunks_in test_bucket has_test chunks)))
    × (r.prod_files ≡ paths_of_chunks (chunks_in prod_bucket has_test chunks))
    × (r.excluded_files ≡ paths_of_chunks (chunks_in exclude_bucket has_test chunks))

-- Where the diff can be split in files, the patch is the text of the chunks in the bucket `prod`, the
-- test patch that of the chunks in the bucket `test`, both in the order of the diff, and the paths of
-- the production and of the excluded files are those of their chunks.
pub split_prod_and_test-IsSorted :
    (role_of : Text → Role) (diff : Text) (s : Splitting)
    → split_diff_files role_of diff ≡ some s
    → (r : SplitResult) × (split_prod_and_test role_of diff ≡ some r) × IsSorted s.chunks r
unfolding split_prod_and_test
split_prod_and_test-IsSorted role_of diff s e =
    let h = fill-Sorts (has_test_file s.chunks) no_parts s.chunks in
    (
      result_of s.touched_paths (fill (has_test_file s.chunks) no_parts s.chunks),
      ap split_of e,
      (ap joined h.prod_lines, ap joined h.test_lines, h.prod_paths, h.excluded),
    )

helper_in_prod :
    (b : Bool) → same_bucket test_bucket (if b && false then test_bucket else prod_bucket) ≡ false
helper_in_prod true = refl
helper_in_prod false = refl

not_in_test :
    (path : Text) (role : Role)
    → is_test role ≡ false
    → same_bucket test_bucket (bucket_for_file path role false) ≡ false
unfolding bucket_for_file
not_in_test path test h = cc h
not_in_test path test_support h = refl
not_in_test path docs h = refl
not_in_test path generated_vendor h = refl
not_in_test path prod h = helper_in_prod (is_helper path)
not_in_test path config_build h = helper_in_prod (is_helper path)
not_in_test path unknown h = helper_in_prod (is_helper path)

no_tests :
    (cs : List FilePatchChunk) → has_test_file cs ≡ false → chunks_in test_bucket false cs ≡ []
no_tests [] h = refl
no_tests (c ∷ cs) h = elim (Bool-cases (is_test c.role)) [
  | inl tests_it ↦ cc (rw tests_it at h)
  | inr other ↦ rw (not_in_test c.path c.role other) (no_tests cs (rw other at h))
]

-- A diff without a test file has an empty test patch: its test support goes to the patch.
pub split_prod_and_test-untested :
    (role_of : Text → Role) (diff : Text) (s : Splitting)
    → split_diff_files role_of diff ≡ some s
    → has_test_file s.chunks ≡ false
    → (r : SplitResult) × (split_prod_and_test role_of diff ≡ some r) × (r.test_patch ≡ [])
split_prod_and_test-untested role_of diff s e h =
    let (r, made, sorted) = split_prod_and_test-IsSorted role_of diff s e in
    (
      r,
      made,
      sorted.1
          ∙ ap (λ b. joined (lines_of (chunks_in test_bucket b s.chunks))) h
          ∙ ap (λ cs. joined (lines_of cs)) (no_tests s.chunks h),
    )
