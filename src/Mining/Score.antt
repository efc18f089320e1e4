-- ===== src/Mining/Score.antt =====
-- repogauge/mining/score.py: the score of a mined commit, and its band. The scores, floats in the
-- source, are whole.
pub mod Bounds
use repogauge.Prelude.{
  ℕ, zero, suc, ◌+◌, ◌-◌, ◌*◌, ◌/◌, ◌%◌, ◌≤◌, ◌<◌, String, ◌≡◌, refl, sym, ap, ◌∙◌, subst, ◌≢◌, ◌↔◌,
  ◌⊎◌, inl, inr, Bool, true, false, not, ◌&&◌, ◌||◌, Option, none, some, List, [], ◌∷◌, ◌++◌, map,
  arith, ◌==◌, eq_iff, eq_refl, ltb, leb, nat_eq, if◌then◌else◌, ltb→lt, lt→ltb, ltb→le, leb→le,
  le→leb, nat_eq→eq, nat_eq_refl, tests, Bool-cases, Option-cases, is_some, length, any, all, keep,
  is_empty, All, length-append, All-append, In, member, member→In, In→member, Dict, get, put,
  get-put, keys, branches_hold, taken_holds, differ→≢,
}
use repogauge.Prelude.Text.{
  Text, codes, text_eq, text_eq_sound, text_eq_refl, strip_prefix, strip_prefix-append, starts_with,
  contains,
}
use repogauge.Prelude.Int.{ℤ, pos, negsuc, ◌+ℤ◌, leb_ℤ, pos_part, +ℤ_zero}
use repogauge.Prelude.Split.{strip, lower}
use repogauge.Prelude.Decimal.{decimal}
use repogauge.Mining.Signals.{bugfix_keywords, has_issue_reference, has_new_tests}
use repogauge.Mining.Reject.{
  is_zero, Metadata, row_metadata_int, has, is_true, is_hard_reject, hard_reject_reason,
}

-- An entry of score_breakdown.
pub record Component : Type 0 where
  pub component : String
  pub weight : ℤ
  pub reason : Text

-- class ScoredCommit
pub record ScoredCommit : Type 0 where
  pub score : ℤ
  pub decision_band : String
  pub score_breakdown : List Component

-- The score and the breakdown on the way.
pub record Tally : Type 0 where
  pub score : ℤ
  pub breakdown : List Component

unfoldable pub add : String → ℤ → Text → Tally → Tally
add component weight reason t = record {
  score = t.score +ℤ weight;
  breakdown =
      t.breakdown ++ (record { component = component; weight = weight; reason = reason }) ∷ [];
}

unfoldable pub add_if : Bool → String → ℤ → Text → Tally → Tally
unfolding add
add_if test component weight reason t = if test then add component weight reason t else t

abbrev more_than : ℤ → ℕ → Bool
more_than n limit = not (leb_ℤ n (pos limit))

-- The steps of _apply_positional_scores.
module _ (metadata : Metadata) where
  abbrev changed_lines : ℤ
  changed_lines = row_metadata_int metadata "total_changed_lines"

  abbrev pub prod_and_tests : Tally → Tally
  prod_and_tests =
      add_if (has metadata "n_prod_files" && has metadata "n_test_files") "prod_and_tests" (pos 4)
        (codes "Commit touches both production and test files.")

  abbrev pub patch_size : Tally → Tally
  patch_size t =
      if leb_ℤ changed_lines (pos 350) && has metadata "total_changed_lines"
      then add "patch_size" (pos 3) (codes "Patch is small/medium.") t
      else add_if (more_than changed_lines 1800) "patch_size" (negsuc 2)
          (codes "Patch is very large and likely high-effort.") t

  abbrev pub bugfix_message : Text → Tally → Tally
  bugfix_message message =
      add_if (any (λ token. contains token message) bugfix_keywords) "message" (pos 3)
        (codes "Commit message contains bugfix-like signal.")

  abbrev pub bead_context : Tally → Tally
  bead_context = add_if (is_true metadata "has_bead_changes") "bead_context" (pos 2) (
      codes
        "Commit touches .beads/ — rich context (design, acceptance criteria) available in .beads/issues.jsonl.")

  abbrev pub issue_link : Text → Tally → Tally
  issue_link message =
      add_if (has_issue_reference message) "issue_link" (pos 2)
        (codes "Commit references an issue or PR.")

  abbrev pub new_tests : Text → Tally → Tally
  new_tests diff =
      add_if (has_new_tests diff) "new_tests" (pos 2)
        (codes "Diff appears to add test-like content.")

  unfoldable pub apply_positional_scores : Text → Text → Text → Tally → Tally
  apply_positional_scores commit_subject commit_body diff t =
      let message = lower (strip (commit_subject ++ (codes "\n" ++ commit_body))) in
      new_tests diff
        (issue_link message (bead_context (bugfix_message message (patch_size (prod_and_tests t)))))

  -- The steps of _apply_penalties.
  abbrev pub missing_tests : Tally → Tally
  missing_tests =
      add_if (is_zero (row_metadata_int metadata "n_test_files")) "missing_test_files" (negsuc 3)
        (codes "No test file changes were detected.")

  abbrev decimal_ℤ : ℤ → Text
  decimal_ℤ (pos n) = decimal n
  decimal_ℤ (negsuc n) = codes "-" ++ decimal (n + 1)

  abbrev refactor_reason : Text
  refactor_reason =
      codes "Large refactor-like patch shape (n_hunks="
      ++ (decimal_ℤ (row_metadata_int metadata "n_hunks")
          ++ (codes ", changed_lines="
              ++ (decimal_ℤ changed_lines ++ codes "; thresholds: >14 hunks or >900 lines).")))

  abbrev pub large_refactor : Tally → Tally
  large_refactor =
      add_if (more_than (row_metadata_int metadata "n_hunks") 14 || more_than changed_lines 1800)
        "large_refactor" (negsuc 2) refactor_reason

  unfoldable pub apply_penalties : Tally → Tally
  apply_penalties t = large_refactor (missing_tests t)

-- _decision_band, with AUTO_SHORTLIST_THRESHOLD 8 and REVIEW_THRESHOLD 5
unfoldable pub decision_band : ℤ → String
decision_band score =
    if leb_ℤ (pos 8) score then "shortlist" else if leb_ℤ (pos 5) score then "review" else "reject"

abbrev pub scored : Tally → ScoredCommit
scored t = record {
  score = t.score;
  decision_band = decision_band t.score;
  score_breakdown = t.breakdown;
}

abbrev pub rejected : String → ScoredCommit
rejected reason = record {
  score = pos 0;
  decision_band = "reject";
  score_breakdown =
      (record { component = "hard_reject"; weight = pos 0; reason = codes reason }) ∷ [];
}

abbrev pub no_score : Tally
no_score = record { score = pos 0; breakdown = [] }

unfoldable pub score_scan_commit : Text → Text → Text → Metadata → ScoredCommit
score_scan_commit commit_subject commit_body diff metadata =
    if is_hard_reject metadata diff
    then rejected (hard_reject_reason metadata diff)
    else scored (
        apply_penalties metadata
          (apply_positional_scores metadata commit_subject commit_body diff no_score))
