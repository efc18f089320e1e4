-- ===== src/Runner/NormalizePatch/Excluded.antt =====
-- repogauge/runner/normalize_patch.py: what exclude_patch_paths keeps and removes.
use repogauge.Prelude.{
  ◌≡◌, refl, sym, ap, ◌∙◌, inl, inr, Bool, true, false, not, ◌&&◌, List, [], ◌∷◌, ◌++◌, map, arith,
  if◌then◌else◌, Bool-cases, any, keep, is_empty, branches_hold, taken_holds,
}
use repogauge.Prelude.Text.{Text, text_eq, is_blank}
use mathlib.Core.List.{append_assoc, append-nil}
use repogauge.Runner.NormalizePatch.{
  Chunks, Excluding, sort_chunk, exclude_chunks, excluding_start, exclude_patch_paths, is_excluded,
  excluded_set, split_patch_by_file, joined, excluded_result,
}

-- The texts of the chunks on excluded paths, and of the others.
abbrev pub removed_of : List Text → Chunks → List Text
removed_of excluded cs = map (λ c. c.1) (keep (λ c. is_excluded excluded c.0) cs)

abbrev pub kept_of : List Text → Chunks → List Text
kept_of excluded cs = map (λ c. c.1) (keep (λ c. not (is_excluded excluded c.0)) cs)

abbrev pub any_excluded : List Text → Chunks → Bool
any_excluded excluded cs = any (λ c. is_excluded excluded c.0) cs

and_false : (b : Bool) → (b && false) ≡ false
and_false true = refl
and_false false = refl

-- A path that was noted is there.
noted :
    (path : Text) (paths : List Text)
    → is_empty (if any (text_eq path) paths then paths else paths ++ path ∷ []) ≡ false
noted path [] = refl
noted path (p ∷ ps) =
    branches_hold (λ xs. is_empty xs ≡ false) (any (text_eq path) (p ∷ ps)) _ _ refl refl

module _ (excluded : List Text) where
  record Sorts (e : Excluding) (cs : Chunks) (f : Excluding) : Type 0 where
    kept : f.kept_chunks ≡ e.kept_chunks ++ kept_of excluded cs
    removed : f.removed_chunks ≡ e.removed_chunks ++ removed_of excluded cs
    paths : is_empty f.removed_paths ≡ (is_empty e.removed_paths && not (any_excluded excluded cs))

  sort_chunk-Sorts :
      (e f : Excluding) (path chunk : Text) (cs : Chunks)
      → Sorts (sort_chunk excluded e (path, chunk)) cs f
      → Sorts e ((path, chunk) ∷ cs) f
  sort_chunk-Sorts e f path chunk cs h = elim (Bool-cases (is_excluded excluded path)) [
    | inl out ↦
        let g = (rw out at h) in
        record {
          kept = rw out g.kept;
          removed = rw out (g.removed ∙ append_assoc e.removed_chunks (chunk ∷ []) _);
          paths = rw out (
              g.paths
              ∙ ap (λ b. b && not (any_excluded excluded cs)) (noted path e.removed_paths)
              ∙ sym (and_false (is_empty e.removed_paths)));
        }
    | inr stays ↦
        let g = (rw stays at h) in
        record {
          kept = rw stays (g.kept ∙ append_assoc e.kept_chunks (chunk ∷ []) _);
          removed = rw stays g.removed;
          paths = rw stays g.paths;
        }
  ]

  exclude_chunks-Sorts : (e : Excluding) (cs : Chunks) → Sorts e cs (exclude_chunks excluded e cs)
  unfolding exclude_chunks
  exclude_chunks-Sorts e [] = record {
    kept = sym (append-nil e.kept_chunks);
    removed = sym (append-nil e.removed_chunks);
    paths = ground arith;
  }
  exclude_chunks-Sorts e ((path, chunk) ∷ cs) =
      sort_chunk-Sorts e _ path chunk cs
        (exclude_chunks-Sorts (sort_chunk excluded e (path, chunk)) cs)

abbrev IsParts : Text → List Text → Chunks → Text × Text × List Text → Type 0
IsParts patch excluded cs (kept, removed, paths) =
    (kept ≡ (if any_excluded excluded cs then joined (kept_of excluded cs) else patch))
    × (removed ≡ joined (removed_of excluded cs))

none_excluded :
    (excluded : List Text) (cs : Chunks)
    → any_excluded excluded cs ≡ false
    → removed_of excluded cs ≡ []
none_excluded excluded [] h = refl
none_excluded excluded (c ∷ cs) h = elim (Bool-cases (is_excluded excluded c.0)) [
  | inl out ↦ cc (rw out at h)
  | inr stays ↦ rw stays (none_excluded excluded cs (rw stays at h))
]

unchanged-IsParts :
    (patch : Text) (excluded : List Text) (cs : Chunks)
    → any_excluded excluded cs ≡ false
    → IsParts patch excluded cs (patch, [], [])
unchanged-IsParts patch excluded cs h = (rw h refl, rw (none_excluded excluded cs h) refl)

no_paths :
    (excluded : List Text) (cs : Chunks)
    → is_empty excluded ≡ true
    → any_excluded excluded cs ≡ false
no_paths [] [] h = refl
no_paths [] (c ∷ cs) h = no_paths [] cs h
no_paths (e ∷ es) cs h = cc h

no_chunks :
    (excluded : List Text) (cs : Chunks) → is_empty cs ≡ true → any_excluded excluded cs ≡ false
no_chunks excluded [] h = refl
no_chunks excluded (c ∷ cs) h = cc h

excluded_result-IsParts :
    (patch : Text) (excluded : List Text) (cs : Chunks)
    → IsParts patch excluded cs (excluded_result patch (exclude_chunks excluded excluding_start cs))
excluded_result-IsParts patch excluded cs =
    let h = exclude_chunks-Sorts excluded excluding_start cs in
    elim (Bool-cases (any_excluded excluded cs)) [
      | inl some_out ↦
          let found = h.paths ∙ ap not some_out in
          rw (found, some_out) (ap joined h.kept, ap joined h.removed)
      | inr none_out ↦
          let found = h.paths ∙ ap not none_out in
          rw found (unchanged-IsParts patch excluded cs none_out)
    ]

-- For every patch that is not blank, with the paths that _split_patch_by_file gives its files: the
-- second part holds the texts of exactly the files on excluded paths, in order. The first holds those of
-- the other files or, if no file is on an excluded path, is the whole patch as it was.
pub exclude_patch_paths-parts :
    (patch : Text) (excluded_paths : List Text)
    → is_blank patch ≡ false
    → ((exclude_patch_paths patch excluded_paths).0 ≡ (
        if any_excluded (excluded_set excluded_paths) (split_patch_by_file patch)
        then joined (kept_of (excluded_set excluded_paths) (split_patch_by_file patch))
        else patch))
      × ((exclude_patch_paths patch excluded_paths).1
          ≡ joined (removed_of (excluded_set excluded_paths) (split_patch_by_file patch)))
unfolding exclude_patch_paths
exclude_patch_paths-parts patch excluded_paths full =
    let excluded = excluded_set excluded_paths in
    let cs = split_patch_by_file patch in
    rw full (
      taken_holds (IsParts patch excluded cs) (is_empty excluded) _ _
        (λ h. unchanged-IsParts patch excluded cs (no_paths excluded cs h))
        (λ _.
          taken_holds (IsParts patch excluded cs) (is_empty cs) _ _
            (λ h. unchanged-IsParts patch excluded cs (no_chunks excluded cs h))
            (λ _. excluded_result-IsParts patch excluded cs)))
