-- ===== src/Runner/Judge/Evaluation.antt =====
-- repogauge/runner/judge.py: _run_batch and run_harness_evaluation, from the batches to the rows and the
-- counts. The harness and the failure summaries of its logs are arguments; metadata is left out.
pub mod Duplicates
pub mod Scored
pub mod Last
use repogauge.Prelude.{
  ℕ, zero, suc, ◌+◌, ◌-◌, ◌*◌, ◌/◌, ◌%◌, ◌≤◌, ◌<◌, String, ◌≡◌, refl, sym, ap, ◌∙◌, subst, ◌≢◌, ◌↔◌,
  ◌⊎◌, inl, inr, Bool, true, false, not, ◌&&◌, ◌||◌, Option, none, some, List, [], ◌∷◌, ◌++◌, map,
  arith, ◌==◌, eq_iff, eq_refl, ltb, leb, nat_eq, if◌then◌else◌, ltb→lt, lt→ltb, ltb→le, leb→le,
  le→leb, nat_eq→eq, nat_eq_refl, tests, Bool-cases, Option-cases, is_some, length, any, all, keep,
  is_empty, All, length-append, All-append, In, member, member→In, In→member, Dict, get, put,
  get-put, keys, branches_hold, taken_holds, some_of_else, member-keep, differ→≢, str_lt, count,
  take, drop, then_lt, then_lt_trans, IsDistinct,
}
use repogauge.Prelude.Text.{
  is_space, text_lt_irrefl, text_lt, text_lt_trans, Text, codes, text_eq, text_eq_sound,
  text_eq_refl, strip_prefix, strip_prefix-append, starts_with, contains,
}
use repogauge.Runner.Judge.Rows.{
  DatasetRow, Prediction, prediction_solver_id, Status, resolved, not_resolved, skipped, error,
  ResultRow, result_row_from_instance, Key, prediction_key, HarnessResult, parse_harness_results,
}
use repogauge.Runner.Judge.Batches.{dataset_by_id, Batch, prepare_batches}

abbrev pub same_pair : Key → Key → Bool
same_pair (s, i) (t, j) = s == t && i == j

-- `prediction_by_instance.get(instance_id, [])`
abbrev pub matches : String → List Prediction → List Prediction
matches id ps = keep (λ p. p.instance_id == id) ps

-- the solver of a row without one: that of the only prediction of its instance
abbrev pub solver_from : ResultRow → List Prediction → ResultRow
solver_from row [] = row
solver_from row (p ∷ []) =
    if prediction_solver_id p == "" then row else record row { solver_id = prediction_solver_id p }
solver_from row (p ∷ q ∷ ps) = row

-- _augment_instance_rows_with_prediction_solver_ids, for a row
unfoldable pub with_solver_id : List Prediction → ResultRow → ResultRow
unfolding prediction_solver_id
with_solver_id ps row =
    if not (row.solver_id == "") || row.instance_id == ""
    then row
    else solver_from row (matches row.instance_id ps)

abbrev pub is_error : Status → Bool
is_error error = true
is_error _ = false

-- whether the dataset and the predictions of the batch know the row
abbrev pub is_known : Batch → ResultRow → Bool
is_known b row = elim (prediction_key row.instance_id row.solver_id) [
  | none ↦ false
  | some key ↦
      any
        (λ p.
          not (p.prediction.instance_id == "")
          && same_pair (prediction_solver_id p.prediction, p.prediction.instance_id) key)
        b.pairs
]

-- `error in {None, "", "harness error"}`
abbrev pub is_vague : Option String → Bool
is_vague none = true
is_vague (some t) = t == "" || t == "harness error"

abbrev pub explained : ResultRow → Option (String × String) → ResultRow
explained row none = row
explained row (some (summary, with_path)) = record row {
  reason = some summary;
  error = if is_vague row.error then some with_path else row.error;
}

-- What the log of an instance says of its failure: the summary, and the summary with the log's path.
module _ (logs : ResultRow → Option (String × String)) where
  -- the loop of _augment_instance_rows_with_harness_logs
  unfoldable pub with_log : Batch → ResultRow → ResultRow
  unfolding prediction_key prediction_solver_id
  with_log b row = if is_known b row && is_error row.status then explained row (logs row) else row

  module _ (harness : Batch → HarnessResult) where
    abbrev pub rows_of : Batch → List DatasetRow
    rows_of b = map (λ p. p.row) b.pairs

    abbrev pub predictions_of : Batch → List Prediction
    predictions_of b = map (λ p. p.prediction) b.pairs

    abbrev pub unreported : DatasetRow → ResultRow
    unreported row =
        result_row_from_instance row none (some "missing harness per-instance results") none
          (codes "error")

    -- _run_batch: the rows of a batch
    unfoldable pub run_batch : Batch → List ResultRow
    unfolding parse_harness_results with_solver_id with_log result_row_from_instance
    run_batch b =
        let parsed = parse_harness_results (harness b) (rows_of b) in
        let rows = map (λ row. with_log b (with_solver_id (predictions_of b) row)) parsed in
        if is_empty rows then map unreported (rows_of b) else rows

abbrev pub Keyed : Type 0
Keyed = List (Key × ResultRow)

-- `row_by_key[key] = row`, and the look-up
unfoldable pub put_row : Key → ResultRow → Keyed → Keyed
put_row key row [] = (key, row) ∷ []
put_row key row ((k, r) ∷ d) =
    if same_pair k key then (key, row) ∷ d else (k, r) ∷ put_row key row d

unfoldable pub find_row : Key → Keyed → Option ResultRow
find_row key [] = none
find_row key ((k, r) ∷ d) = if same_pair k key then some r else find_row key d

abbrev pub put_keyed : Option Key → ResultRow → Keyed → Keyed
put_keyed none row d = d
put_keyed (some key) row d = put_row key row d

-- the loop over the rows of the batches, in the order in which the batches end
unfoldable pub row_by_key : Keyed → List ResultRow → Keyed
unfolding prediction_key put_row
row_by_key d [] = d
row_by_key d (row ∷ rows) =
    row_by_key (put_keyed (prediction_key row.instance_id row.solver_id) row d) rows

-- the row of a prediction whose dataset row is known
unfoldable pub judged_row : Keyed → Key → DatasetRow → ResultRow
unfolding find_row result_row_from_instance
judged_row d (solver_id, instance_id) row = elim (find_row (solver_id, instance_id) d) [
  | some r ↦ record r {
    environment_strategy =
        if not (r.environment_strategy == "")
        then r.environment_strategy
        else if row.version == ""
        then "default"
        else row.version;
  }
  | none ↦
      let missing =
        result_row_from_instance row none (some "no harness result for prediction") none
          (codes "error") in
      record missing { solver_id = solver_id }
]

abbrev pub onto_judged : Keyed → Option Key → Option DatasetRow → List ResultRow → List ResultRow
onto_judged d (some key) (some row) rows = judged_row d key row ∷ rows
onto_judged d _ _ rows = rows

-- the loop over the predictions
unfoldable pub judged_rows : Dict DatasetRow → Keyed → List Prediction → List ResultRow
unfolding judged_row prediction_key prediction_solver_id
judged_rows dataset d [] = []
judged_rows dataset d (p ∷ ps) =
    let rest = judged_rows dataset d ps in
    onto_judged d (prediction_key p.instance_id (prediction_solver_id p))
      (get dataset p.instance_id) rest

abbrev pub uncollected : DatasetRow → ResultRow
uncollected row =
    result_row_from_instance row none (some "no harness instance results collected") none
      (codes "error")

-- run_harness_evaluation: the rows, from those of the batches as they end
unfoldable pub evaluation_rows :
    List DatasetRow → List Prediction → ℕ → List ResultRow → List ResultRow
unfolding dataset_by_id prepare_batches row_by_key judged_rows with_solver_id
    result_row_from_instance
evaluation_rows dataset_rows predictions batch_size ended =
    let missing = (prepare_batches dataset_rows predictions batch_size).1 in
    let judged = judged_rows (dataset_by_id [] dataset_rows) (row_by_key [] ended) predictions in
    let rows = judged ++ missing in
    map (with_solver_id predictions) (if is_empty rows then map uncollected dataset_rows else rows)

-- The counts of the summary.
pub record Summary : Type 0 where
  pub total : ℕ
  pub resolved : ℕ
  pub not_resolved : ℕ
  pub error : ℕ
  pub skipped : ℕ

abbrev pub has_status : Status → ResultRow → Bool
has_status s row = elim s [
  | resolved ↦ elim row.status [ resolved ↦ true | _ ↦ false ]
  | not_resolved ↦ elim row.status [ not_resolved ↦ true | _ ↦ false ]
  | skipped ↦ elim row.status [ skipped ↦ true | _ ↦ false ]
  | error ↦ elim row.status [ error ↦ true | _ ↦ false ]
]

unfoldable pub summary_of : List ResultRow → Summary
summary_of rows =
    let r = count (has_status resolved) rows in
    let e = count (has_status error) rows in
    let s = count (has_status skipped) rows in
    record {
      total = length rows;
      resolved = r;
      not_resolved = length rows - r - e - s;
      error = e;
      skipped = s;
    }
