-- ===== src/Mining/Examples.antt =====
-- repogauge/mining/score.py at small inputs.
use repogauge.Prelude.{◌≡◌, refl, ◌≢◌, true, [], ◌∷◌}
use repogauge.Prelude.Text.{Text, codes, strip_prefix, contains, is_space}
use repogauge.Prelude.Int.{pos, negsuc, ◌≤ℤ◌, ◌+ℤ◌}
use repogauge.Mining.Reject.{
  Metadata, number, row_metadata_int, is_hard_reject, hard_reject_reason,
  hard_reject_reason-unreachable,
}
use repogauge.Mining.Score.{
  score_scan_commit, apply_penalties, add_if, add, apply_positional_scores,
}
use repogauge.Mining.Signals.{has_issue_reference, has_new_tests}
use repogauge.Mining.Pattern.{ends, repeats, search_from, search_start}
use repogauge.Prelude.Split.{splitlines, lstrip, rstrip, lower}
use repogauge.Mining.Reject.{
  is_true, is_docs_only, has, is_dependency_only, is_generated_vendor_only, is_formatting_only,
}
use repogauge.Mining.Score.Bounds.{total, score_scan_commit-total, score_scan_commit-untested}

-- A small fix without tests.
abbrev small_fix : Metadata
small_fix = ("n_prod_files", number (pos 1)) ∷ ("total_changed_lines", number (pos 12)) ∷ []

abbrev subject : Text
subject = codes "Fix crash, closes #12"

abbrev diff : Text
diff = codes "+    return value\n"

scored_small_fix : (score_scan_commit subject [] diff small_fix).score ≡ pos 4
unfolding score_scan_commit is_hard_reject is_true is_docs_only has row_metadata_int
    is_dependency_only is_generated_vendor_only is_formatting_only splitlines strip_prefix lstrip
    rstrip is_space contains apply_penalties add_if ◌+ℤ◌ ends repeats search_from search_start add
    apply_positional_scores has_issue_reference has_new_tests lower
scored_small_fix = refl

score_scan_commit-total_example :
    ((score_scan_commit subject [] diff small_fix).score
      ≡ total (score_scan_commit subject [] diff small_fix).score_breakdown)
    × (negsuc 9 ≤ℤ (score_scan_commit subject [] diff small_fix).score)
    × ((score_scan_commit subject [] diff small_fix).score ≤ℤ pos 16)
score_scan_commit-total_example = score_scan_commit-total subject [] diff small_fix

no_test_files : row_metadata_int small_fix "n_test_files" ≡ pos 0
unfolding row_metadata_int
no_test_files = refl

score_scan_commit-untested_example :
    (score_scan_commit subject [] diff small_fix).decision_band ≢ "shortlist"
score_scan_commit-untested_example =
    score_scan_commit-untested subject [] diff small_fix no_test_files (λ e. cc e)

-- Only a build file changed.
abbrev build_only : Metadata
build_only = ("n_config_build_files", number (pos 1)) ∷ []

hard_reject_reason-unreachable_example :
    (hard_reject_reason build_only diff ≢ "dependency-only changes")
    × (is_hard_reject build_only diff ≡ true
        → hard_reject_reason build_only diff ≢ "unknown hard reject condition")
hard_reject_reason-unreachable_example = hard_reject_reason-unreachable build_only diff
