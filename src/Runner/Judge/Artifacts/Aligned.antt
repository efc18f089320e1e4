-- ===== src/Runner/Judge/Artifacts/Aligned.antt =====
-- repogauge/runner/judge.py: the rows and the predictions that _write_resolved_eval_artifacts writes.
use repogauge.Prelude.{
  String, ◌≡◌, refl, ap, ◌∙◌, subst, inr, true, ◌&&◌, ◌||◌, some, List, [], ◌∷◌, map, arith, ◌==◌,
  eq_iff, if◌then◌else◌, Bool-cases, Option-cases, is_some, any, All, Dict, get, put, keys,
  branches_hold, inl,
}
use repogauge.Runner.Judge.Rows.{
  DatasetRow, Prediction, prediction_solver_id, ResultRow, Key, prediction_key,
}
use repogauge.Runner.Judge.Batches.{dataset_by_id}
use repogauge.Runner.Judge.Evaluation.{same_pair}
use repogauge.Runner.Judge.Artifacts.{
  is_resolved, onto_keys, resolved_keys, has_key, resolved_prediction_rows, onto_found,
  resolved_dataset_rows,
}

-- Every entry of the dictionary stands under its own id.
abbrev AreOwn : Dict DatasetRow → Type 0
AreOwn d = All (λ e. e.1.instance_id ≡ e.0) d

put-AreOwn :
    (d : Dict DatasetRow) (row : DatasetRow) → AreOwn d → AreOwn (put d row.instance_id row)
put-AreOwn [] row h = (refl, tt)
put-AreOwn ((k, r) ∷ d) row h =
    branches_hold AreOwn (k == row.instance_id) ((row.instance_id, row) ∷ d)
      ((k, r) ∷ put d row.instance_id row) (refl, h.1) (h.0, put-AreOwn d row h.1)

dataset_by_id-AreOwn :
    (d : Dict DatasetRow) (rows : List DatasetRow) → AreOwn d → AreOwn (dataset_by_id d rows)
unfolding dataset_by_id
dataset_by_id-AreOwn d [] h = h
dataset_by_id-AreOwn d (row ∷ rows) h =
    dataset_by_id-AreOwn (if row.instance_id == "" then d else put d row.instance_id row) rows (
      branches_hold AreOwn (row.instance_id == "") d (put d row.instance_id row) h
        (put-AreOwn d row h))

get_own :
    (d : Dict DatasetRow) (id : String) (row : DatasetRow)
    → AreOwn d
    → get d id ≡ some row
    → row.instance_id ≡ id
get_own [] id row h e = absurd (cc e)
get_own ((k, r) ∷ d) id row h e = elim (Bool-cases (k == id)) [
  | inl same ↦
      let found : some r ≡ some row = (rw same at e) in cc (found, h.0, (eq_iff k id).0 same)
  | inr other ↦ get_own d id row h.1 (rw other at e)
]

module _ (d : Dict DatasetRow) where
  -- The dataset knows the id.
  abbrev pub IsKnown : String → Type 0
  IsKnown id = is_some (get d id) ≡ true

  resolved_keys-IsKnown :
      (rows : List ResultRow)
      → All (λ r. IsKnown r.instance_id) rows
      → All (λ k. IsKnown k.1) (resolved_keys rows)
  unfolding resolved_keys prediction_key
  resolved_keys-IsKnown [] h = tt
  resolved_keys-IsKnown (row ∷ rows) h =
      let rest = resolved_keys-IsKnown rows h.1 in
      branches_hold (All (λ k. IsKnown k.1)) (is_resolved row.status)
        (onto_keys (prediction_key row.instance_id row.solver_id) (resolved_keys rows))
        (resolved_keys rows)
        (elim (Bool-cases (row.instance_id == "" || row.solver_id == "")) [
          | inl e ↦ rw e rest
          | inr e ↦ rw e (h.0, rest)
        ])
        rest

  any-IsKnown :
      (keys : List Key) (k : Key)
      → All (λ j. IsKnown j.1) keys
      → any (λ j. same_pair j k) keys ≡ true
      → IsKnown k.1
  any-IsKnown [] k h e = absurd (cc e)
  any-IsKnown ((s, i) ∷ keys) (t, j) h e = elim (Bool-cases (s == t && i == j)) [
    | inl same ↦ let eq : i ≡ j = (eq_iff i j).0 (ground arith) in subst IsKnown eq h.0
    | inr other ↦ any-IsKnown keys (t, j) h.1 (rw other at e)
  ]

  has_key-IsKnown :
      (keys : List Key) (id solver_id : String)
      → All (λ j. IsKnown j.1) keys
      → has_key keys (prediction_key id solver_id) ≡ true
      → IsKnown id
  unfolding prediction_key
  has_key-IsKnown keys id solver_id h e = elim (Bool-cases (id == "" || solver_id == "")) [
    | inl b ↦ absurd (cc (rw b at e))
    | inr b ↦ any-IsKnown keys (solver_id, id) h (rw b at e)
  ]

  onto_found-aligned :
      (id : String) (rows : List DatasetRow)
      → AreOwn d
      → IsKnown id
      → map (λ r. r.instance_id) (onto_found (get d id) rows) ≡ id ∷ map (λ r. r.instance_id) rows
  onto_found-aligned id rows o k = elim (Option-cases (get d id)) [
    | inl (row, e) ↦ rw e (ap (λ i. i ∷ map (λ r. r.instance_id) rows) (get_own d id row o e))
    | inr e ↦ absurd (cc (rw e at k))
  ]

  aligned :
      (keys : List Key) (ps : List Prediction)
      → AreOwn d
      → All (λ j. IsKnown j.1) keys
      → map (λ r. r.instance_id) (resolved_dataset_rows d (resolved_prediction_rows keys ps))
        ≡ map (λ p. p.instance_id) (resolved_prediction_rows keys ps)
  unfolding resolved_dataset_rows resolved_prediction_rows
  aligned keys [] o h = refl
  aligned keys (p ∷ ps) o h =
      elim (Bool-cases (has_key keys (prediction_key p.instance_id (prediction_solver_id p)))) [
        | inl e ↦ rw e (
            onto_found-aligned p.instance_id
              (resolved_dataset_rows d (resolved_prediction_rows keys ps)) o
              (has_key-IsKnown keys p.instance_id (prediction_solver_id p) h e)
            ∙ ap (λ is. p.instance_id ∷ is) (aligned keys ps o h))
        | inr e ↦ rw e (aligned keys ps o h)
      ]

-- Where the dataset has the id of every row of the evaluation, the resolved dataset and the resolved
-- predictions fit together line by line: their instance ids are the same, in the same order.
pub resolved_dataset_rows-aligned :
    (dataset_rows : List DatasetRow) (predictions : List Prediction) (rows : List ResultRow)
    → All (λ r. IsKnown (dataset_by_id [] dataset_rows) r.instance_id) rows
    → map
        (λ r. r.instance_id)
        (resolved_dataset_rows
          (dataset_by_id [] dataset_rows)
          (resolved_prediction_rows (resolved_keys rows) predictions))
      ≡ map (λ p. p.instance_id) (resolved_prediction_rows (resolved_keys rows) predictions)
resolved_dataset_rows-aligned dataset_rows predictions rows h =
    aligned (dataset_by_id [] dataset_rows) (resolved_keys rows) predictions
      (dataset_by_id-AreOwn [] dataset_rows tt)
      (resolved_keys-IsKnown (dataset_by_id [] dataset_rows) rows h)
