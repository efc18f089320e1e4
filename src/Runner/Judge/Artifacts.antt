-- ===== src/Runner/Judge/Artifacts.antt =====
-- repogauge/runner/judge.py: _build_gold_predictions, _coerce_judge_config, _extract_failure_summary and
-- _write_resolved_eval_artifacts, up to what is written.
pub mod Aligned
use repogauge.Prelude.{
  ℕ, zero, suc, ◌+◌, ◌-◌, ◌*◌, ◌/◌, ◌%◌, ◌≤◌, ◌<◌, String, ◌≡◌, refl, sym, ap, ◌∙◌, subst, ◌≢◌, ◌↔◌,
  ◌⊎◌, inl, inr, Bool, true, false, not, ◌&&◌, ◌||◌, Option, none, some, List, [], ◌∷◌, ◌++◌, map,
  arith, ◌==◌, eq_iff, eq_refl, ltb, leb, nat_eq, if◌then◌else◌, ltb→lt, lt→ltb, ltb→le, leb→le,
  le→leb, nat_eq→eq, nat_eq_refl, tests, Bool-cases, Option-cases, is_some, length, any, all, keep,
  is_empty, All, length-append, All-append, In, member, member→In, In→member, Dict, get, put,
  get-put, keys, branches_hold, taken_holds, some_of_else, member-keep, differ→≢, str_lt, count,
  take, drop, then_lt, then_lt_trans, total, IsDistinct,
}
use repogauge.Prelude.Text.{
  is_space, text_lt_irrefl, text_lt, text_lt_trans, Text, codes, text_eq, text_eq_sound,
  text_eq_refl, strip_prefix, strip_prefix-append, starts_with, contains,
}
use repogauge.Prelude.Split.{strip, lstrip, rstrip, splitlines}
use repogauge.Runner.Judge.Rows.{
  DatasetRow, Prediction, prediction_solver_id, Status, resolved, ResultRow, Key, prediction_key,
}
use repogauge.Runner.Judge.Evaluation.{same_pair}

-- _build_gold_predictions: a prediction for each row with an id, whose patch is left out
unfoldable pub build_gold_predictions : List DatasetRow → List Prediction
build_gold_predictions [] = []
build_gold_predictions (row ∷ rows) =
    let rest = build_gold_predictions rows in
    if row.instance_id == ""
    then rest
    else (record { instance_id = row.instance_id; solver_id = ""; model_name_or_path = "gold" })
      ∷ rest

pub record JudgeSchedulerConfig : Type 0 where
  pub batch_size : ℕ
  pub max_parallel_batches : ℕ
  pub workers_per_batch : ℕ

pub data ConfigError : Type 0 where
  bad_batch_size bad_max_parallel_batches bad_workers_per_batch : ConfigError

-- _coerce_judge_config: the error, if one is raised
unfoldable pub coerce_judge_config : JudgeSchedulerConfig → Option ConfigError
coerce_judge_config c =
    if leb c.batch_size 0
    then some bad_batch_size
    else if leb c.max_parallel_batches 0
    then some bad_max_parallel_batches
    else if leb c.workers_per_batch 0
    then some bad_workers_per_batch
    else none

abbrev pub markers : List Text
markers =
    codes ">>>>> Patch Apply Failed:"
    ∷ codes "Test timed out after "
    ∷ codes "failed to start podman system service"
    ∷ codes "Failed to apply patch to container:"
    ∷ []

abbrev pub info : Text
info = codes " - INFO - "

-- `s.split(" - INFO - ", 1)[1]`, where it occurs
abbrev pub or_else : Option Text → Text → Text
or_else none t = t
or_else (some s) t = s

unfoldable pub after_info : Text → Text
unfolding strip_prefix
after_info [] = []
after_info (c ∷ cs) = let rest = after_info cs in or_else (strip_prefix info (c ∷ cs)) rest

-- a stripped line without its time stamp
unfoldable pub unstamped : Text → Text
unfolding after_info lstrip rstrip is_space contains strip_prefix
unstamped s = if starts_with (codes "202") s && contains info s then strip (after_info s) else s

-- the lines after a marker, to the first that is blank
unfoldable pub window : List Text → List Text
unfolding unstamped lstrip rstrip is_space
window [] = []
window (l ∷ ls) =
    let rest = window ls in if is_empty (strip l) then [] else unstamped (strip l) ∷ rest

-- `"\n".join(window)`
unfoldable pub join_lines : List Text → Text
join_lines [] = []
join_lines (l ∷ []) = l
join_lines (l ∷ k ∷ ls) = l ++ (10 ∷ join_lines (k ∷ ls))

unfoldable pub summary_at : Text → List Text → Option Text
unfolding window join_lines contains lstrip rstrip is_space
summary_at marker [] = none
summary_at marker (l ∷ ls) =
    let rest = summary_at marker ls in
    if contains marker l then some (strip (join_lines (strip l ∷ window (take 6 ls)))) else rest

abbrev pub first_of : Option Text → Option Text → Option Text
first_of (some t) o = some t
first_of none o = o

unfoldable pub summary_of_markers : List Text → List Text → Option Text
unfolding summary_at
summary_of_markers [] lines = none
summary_of_markers (m ∷ ms) lines =
    let rest = summary_of_markers ms lines in first_of (summary_at m lines) rest

-- the last line that is not blank
unfoldable pub last_line : List Text → Option Text
unfolding unstamped lstrip rstrip is_space
last_line [] = none
last_line (l ∷ ls) =
    let rest = last_line ls in
    first_of rest (if is_empty (strip l) then none else some (unstamped (strip l)))

-- _extract_failure_summary, of the text of the log, if there is one
unfoldable pub extract_failure_summary : Option Text → Option Text
unfolding splitlines summary_of_markers last_line
extract_failure_summary none = none
extract_failure_summary (some text) =
    first_of (summary_of_markers markers (splitlines text)) (last_line (splitlines text))

abbrev pub is_resolved : Status → Bool
is_resolved resolved = true
is_resolved _ = false

abbrev pub onto_keys : Option Key → List Key → List Key
onto_keys none ks = ks
onto_keys (some k) ks = k ∷ ks

-- `resolved_keys`
unfoldable pub resolved_keys : List ResultRow → List Key
unfolding prediction_key
resolved_keys [] = []
resolved_keys (row ∷ rows) =
    let rest = resolved_keys rows in
    if is_resolved row.status
    then onto_keys (prediction_key row.instance_id row.solver_id) rest
    else rest

abbrev pub has_key : List Key → Option Key → Bool
has_key keys none = false
has_key keys (some k) = any (λ j. same_pair j k) keys

-- `resolved_prediction_rows`
unfoldable pub resolved_prediction_rows : List Key → List Prediction → List Prediction
unfolding prediction_key prediction_solver_id
resolved_prediction_rows keys ps =
    keep (λ p. has_key keys (prediction_key p.instance_id (prediction_solver_id p))) ps

abbrev pub onto_found : Option DatasetRow → List DatasetRow → List DatasetRow
onto_found none rows = rows
onto_found (some row) rows = row ∷ rows

-- `resolved_dataset_rows`
unfoldable pub resolved_dataset_rows : Dict DatasetRow → List Prediction → List DatasetRow
resolved_dataset_rows d [] = []
resolved_dataset_rows d (p ∷ ps) =
    let rest = resolved_dataset_rows d ps in onto_found (get d p.instance_id) rest
