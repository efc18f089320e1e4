-- ===== src/Runner/Judge/Evaluation/Last.antt =====
-- repogauge/runner/judge.py: the row of a prediction, from what the harness answers to the batches.
use repogauge.Prelude.{
  String, ◌≡◌, refl, ap, ◌∙◌, inl, inr, Bool, true, false, Option, none, some, List, [], ◌∷◌, ◌++◌,
  map, arith, eq_iff, if◌then◌else◌, Option-cases, is_empty, All,
}
use repogauge.Runner.Judge.Rows.{
  DatasetRow, Status, error, ResultRow, result_row_from_instance, Key, prediction_key,
  HarnessResult, by_instance,
}
use repogauge.Runner.Judge.Batches.{Batch}
use repogauge.Runner.Judge.Evaluation.{
  same_pair, run_batch, Keyed, put_row, find_row, put_keyed, row_by_key, judged_row,
}
use repogauge.Runner.Judge.Evaluation.Scored.{
  ended, IsSole, Score, score_of, answered, run_batch-scores,
}

-- What the harness answers to the batches, in the order in which they end.
abbrev pub answers_to : (Batch → HarnessResult) → List Batch → List Score
answers_to harness [] = []
answers_to harness (b ∷ bs) = map (answered (harness b)) b.pairs ++ answers_to harness bs

abbrev is_key : Option Key → Key → Bool
is_key none k = false
is_key (some j) k = same_pair j k

-- The status of the last answer for a prediction, if there is one.
abbrev pub last_status : Key → List Score → Option Status → Option Status
last_status k [] o = o
last_status k ((id, solver_id, status) ∷ scores) o =
    last_status k scores (if is_key (prediction_key id solver_id) k then some status else o)

abbrev status_in : Option ResultRow → Option Status
status_in none = none
status_in (some r) = some r.status

find_row-put_row :
    (j k : Key) (row : ResultRow) (d : Keyed)
    → find_row k (put_row j row d) ≡ (if same_pair j k then some row else find_row k d)
unfolding find_row put_row
find_row-put_row j k row [] = refl
find_row-put_row (j, j') (k, k') row (((i, i'), r) ∷ d) = ground (
  arith,
  eq_iff j k,
  eq_iff j' k',
  eq_iff i j,
  eq_iff i' j',
  eq_iff i k,
  eq_iff i' k',
  find_row-put_row (j, j') (k, k') row d,
)

status_in-if :
    (b : Bool) (row : ResultRow) (o : Option ResultRow)
    → status_in (if b then some row else o) ≡ (if b then some row.status else status_in o)
status_in-if true row o = refl
status_in-if false row o = refl

status_in-put_keyed :
    (o : Option Key) (k : Key) (row : ResultRow) (d : Keyed)
    → status_in (find_row k (put_keyed o row d))
      ≡ (if is_key o k then some row.status else status_in (find_row k d))
status_in-put_keyed none k row d = refl
status_in-put_keyed (some j) k row d =
    ap status_in (find_row-put_row j k row d) ∙ status_in-if (same_pair j k) row (find_row k d)

status_in-row_by_key :
    (k : Key) (d : Keyed) (rows : List ResultRow)
    → status_in (find_row k (row_by_key d rows))
      ≡ last_status k (map score_of rows) (status_in (find_row k d))
unfolding row_by_key
status_in-row_by_key k d [] = refl
status_in-row_by_key k d (row ∷ rows) =
    status_in-row_by_key k (put_keyed (prediction_key row.instance_id row.solver_id) row d) rows
    ∙ ap (last_status k (map score_of rows))
        (status_in-put_keyed (prediction_key row.instance_id row.solver_id) k row d)

map-append : (xs ys : List ResultRow) → map score_of (xs ++ ys) ≡ map score_of xs ++ map score_of ys
map-append [] ys = refl
map-append (x ∷ xs) ys = ap (λ zs. score_of x ∷ zs) (map-append xs ys)

-- A batch that is not empty, whose predictions are each the only one of their instance and whose dataset
-- rows name no solver, and to which the harness answers with some instance.
pub record IsClear (harness : Batch → HarnessResult) (b : Batch) : Type 0 where
  pub some_pair : is_empty b.pairs ≡ false
  pub some_answer : is_empty (by_instance (harness b)) ≡ false
  pub all_sole : All (IsSole (map (λ p. p.prediction) b.pairs)) b.pairs

ended-scores :
    (logs : ResultRow → Option (String × String)) (harness : Batch → HarnessResult)
    (bs : List Batch)
    → All (IsClear harness) bs
    → map score_of (ended logs harness bs) ≡ answers_to harness bs
ended-scores logs harness [] h = refl
ended-scores logs harness (b ∷ bs) h =
    map-append (run_batch logs harness b) (ended logs harness bs)
    ∙ ap (λ xs. xs ++ map score_of (ended logs harness bs))
        (run_batch-scores logs harness b h.0.some_pair h.0.some_answer h.0.all_sole)
    ∙ ap (λ ys. map (answered (harness b)) b.pairs ++ ys) (ended-scores logs harness bs h.1)

abbrev pub or_error : Option Status → Status
or_error none = error
or_error (some s) = s

judged_row-status :
    (d : Keyed) (k : Key) (row : DatasetRow)
    → (judged_row d k row).status ≡ or_error (status_in (find_row k d))
unfolding judged_row result_row_from_instance
judged_row-status d (solver_id, id) row = elim (Option-cases (find_row (solver_id, id) d)) [
  | inl (r, e) ↦ rw (e, judged_row) refl
  | inr e ↦ rw (e, judged_row) refl
]

-- Where no batch is empty, each prediction of a batch stands with the dataset row of its instance, which
-- has an id, names a solver and is the batch's only one of the instance, no dataset row names a solver, and the harness answers to each batch with some instance: the
-- status of a prediction's row is what the harness said of the instance in the last batch to end that
-- holds a prediction of the solver and the instance, where leaving the instance out says not_resolved;
-- it is error if no batch holds one. The logs never change it.
pub judged_row-last :
    (logs : ResultRow → Option (String × String)) (harness : Batch → HarnessResult)
    (bs : List Batch) (k : Key) (row : DatasetRow)
    → All (IsClear harness) bs
    → (judged_row (row_by_key [] (ended logs harness bs)) k row).status
      ≡ or_error (last_status k (answers_to harness bs) none)
unfolding find_row
judged_row-last logs harness bs k row h =
    judged_row-status (row_by_key [] (ended logs harness bs)) k row
    ∙ ap or_error (status_in-row_by_key k [] (ended logs harness bs))
    ∙ ap (λ scores. or_error (last_status k scores none)) (ended-scores logs harness bs h)
