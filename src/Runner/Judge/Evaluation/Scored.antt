-- ===== src/Runner/Judge/Evaluation/Scored.antt =====
-- repogauge/runner/judge.py: the rows of a batch, where each prediction is the only one of its instance.
use repogauge.Prelude.{
  String, ◌≡◌, refl, sym, ap, ◌∙◌, subst, inl, inr, true, false, ◌&&◌, Option, none, some, List, [],
  ◌∷◌, ◌++◌, map, ◌==◌, eq_iff, Option-cases, is_empty, All, Dict, get, branches_hold,
}
use repogauge.Runner.Judge.Rows.{
  DatasetRow, Prediction, prediction_solver_id, Status, ResultRow, result_row_from_instance, RawRow,
  HarnessResult, by_instance, row_of, parse_harness_results,
}
use repogauge.Runner.Judge.Rows.Given.{given, row_of-status, row_status-given}
use repogauge.Runner.Judge.Batches.{Pair, Batch}
use repogauge.Runner.Judge.Evaluation.{
  matches, with_solver_id, is_known, is_error, explained, with_log, run_batch,
}

-- A pair of some predictions: its instance has an id and no other prediction among them, its dataset row
-- names no solver, and its prediction names one.
pub record IsSole (ps : List Prediction) (p : Pair) : Type 0 where
  pub own : p.row.instance_id ≡ p.prediction.instance_id
  pub has_id : (p.row.instance_id == "") ≡ false
  pub solverless : p.row.solver ≡ ""
  pub named : (prediction_solver_id p.prediction == "") ≡ false
  pub sole : matches p.row.instance_id ps ≡ p.prediction ∷ []

-- What a row says: the instance, the solver and the status.
abbrev pub Score : Type 0
Score = String × String × Status

abbrev pub score_of : ResultRow → Score
score_of r = (r.instance_id, r.solver_id, r.status)

-- What the harness answers for the prediction of a pair.
abbrev pub answered : HarnessResult → Pair → Score
answered h p =
    (p.prediction.instance_id, prediction_solver_id p.prediction, given h p.prediction.instance_id)

abbrev read_score : Dict RawRow → Pair → Score
read_score d p =
    (p.prediction.instance_id, prediction_solver_id p.prediction, (row_of d p.row).status)

row_of-names :
    (d : Dict RawRow) (row : DatasetRow)
    → ((row_of d row).instance_id ≡ row.instance_id) × ((row_of d row).solver_id ≡ row.solver)
unfolding row_of result_row_from_instance
row_of-names d row = elim (Option-cases (get d row.instance_id)) [
  | inl (r, e) ↦ rw (e, row_of) (refl, refl)
  | inr e ↦ rw (e, row_of) (refl, refl)
]

with_solver_id-sole :
    (ps : List Prediction) (row : ResultRow) (q : Prediction)
    → row.solver_id ≡ ""
    → (row.instance_id == "") ≡ false
    → (prediction_solver_id q == "") ≡ false
    → matches row.instance_id ps ≡ q ∷ []
    → score_of (with_solver_id ps row) ≡ (row.instance_id, prediction_solver_id q, row.status)
unfolding with_solver_id
with_solver_id-sole ps row q s i n m =
    let unnamed : (row.solver_id == "") ≡ true = (eq_iff row.solver_id "").1 s in
    rw (unnamed, i, m, n) refl

explained-score_of :
    (row : ResultRow) (log : Option (String × String)) → score_of (explained row log) ≡ score_of row
explained-score_of row none = refl
explained-score_of row (some (s, t)) = refl

with_log-score_of :
    (logs : ResultRow → Option (String × String)) (b : Batch) (row : ResultRow)
    → score_of (with_log logs b row) ≡ score_of row
unfolding with_log
with_log-score_of logs b row =
    branches_hold (λ r. score_of r ≡ score_of row) (is_known b row && is_error row.status)
      (explained row (logs row)) row (explained-score_of row (logs row)) refl

module _ (logs : ResultRow → Option (String × String)) (b : Batch) (d : Dict RawRow) where
  abbrev finished : List Prediction → DatasetRow → ResultRow
  finished ps row = with_log logs b (with_solver_id ps (row_of d row))

  finished-score_of :
      (ps : List Prediction) (p : Pair)
      → IsSole ps p
      → score_of (finished ps p.row) ≡ read_score d p
  finished-score_of ps p h =
      let (i, s) = row_of-names d p.row in
      let named : score_of (with_solver_id ps (row_of d p.row)) ≡ (
        (row_of d p.row).instance_id,
        prediction_solver_id p.prediction,
        (row_of d p.row).status,
      ) =
        with_solver_id-sole ps (row_of d p.row) p.prediction (s ∙ h.solverless)
          (subst (λ j. (j == "") ≡ false) (sym i) h.has_id) h.named
          (subst (λ j. matches j ps ≡ p.prediction ∷ []) (sym i) h.sole) in
      with_log-score_of logs b (with_solver_id ps (row_of d p.row))
      ∙ named
      ∙ ap (λ j. (j, prediction_solver_id p.prediction, (row_of d p.row).status)) (i ∙ h.own)

  finished-map :
      (ps : List Prediction) (pairs : List Pair)
      → All (IsSole ps) pairs
      → map score_of (
          map
            (λ row. with_log logs b (with_solver_id ps row))
            (map (row_of d) (map (λ p. p.row) pairs)))
        ≡ map (read_score d) pairs
  finished-map ps [] h = refl
  finished-map ps (p ∷ pairs) h =
      ap
        (λ x.
          x
          ∷ map score_of (
              map (λ row. with_log logs b (with_solver_id ps row))
                (map (row_of d) (map (λ p. p.row) pairs))))
        (finished-score_of ps p h.0)
      ∙ ap (λ xs. read_score d p ∷ xs) (finished-map ps pairs h.1)

read_score-answered :
    (h : HarnessResult) (ps : List Prediction) (p : Pair)
    → IsSole ps p
    → read_score (by_instance h) p ≡ answered h p
read_score-answered h ps p sole =
    ap (λ s. (p.prediction.instance_id, prediction_solver_id p.prediction, s))
      (row_of-status (by_instance h) p.row
        ∙ row_status-given p.row.instance_id sole.has_id h
        ∙ ap (given h) sole.own)

answered-map :
    (h : HarnessResult) (ps : List Prediction) (pairs : List Pair)
    → All (IsSole ps) pairs
    → map (read_score (by_instance h)) pairs ≡ map (answered h) pairs
answered-map h ps [] k = refl
answered-map h ps (p ∷ pairs) k =
    ap (λ s. s ∷ map (read_score (by_instance h)) pairs) (read_score-answered h ps p k.0)
    ∙ ap (λ ss. answered h p ∷ ss) (answered-map h ps pairs k.1)

is_empty-map {ℓ κ} :
    {A : Type ℓ} {B : Type κ} (f : A → B) (xs : List A) → is_empty (map f xs) ≡ is_empty xs
is_empty-map f [] = refl
is_empty-map f (x ∷ xs) = refl

-- The rows of some batches, in the order in which they end.
abbrev pub ended :
    (ResultRow → Option (String × String)) → (Batch → HarnessResult) → List Batch → List ResultRow
ended logs harness [] = []
ended logs harness (b ∷ bs) = run_batch logs harness b ++ ended logs harness bs

-- The rows of a batch whose predictions are each the only one of their instance, where the harness
-- answers with some instance: one for each prediction, in order, with its instance, its solver and the
-- status that the harness gave the instance, whatever the logs say.
pub run_batch-scores :
    (logs : ResultRow → Option (String × String)) (harness : Batch → HarnessResult) (b : Batch)
    → is_empty b.pairs ≡ false
    → is_empty (by_instance (harness b)) ≡ false
    → All (IsSole (map (λ p. p.prediction) b.pairs)) b.pairs
    → map score_of (run_batch logs harness b) ≡ map (answered (harness b)) b.pairs
unfolding run_batch parse_harness_results
run_batch-scores logs harness b e a h =
    let d = by_instance (harness b) in
    let ps = map (λ p. p.prediction) b.pairs in
    let rows =
      map (λ row. with_log logs b (with_solver_id ps row))
        (map (row_of d) (map (λ p. p.row) b.pairs)) in
    let some_row : is_empty rows ≡ false =
      is_empty-map (λ row. with_log logs b (with_solver_id ps row))
        (map (row_of d) (map (λ p. p.row) b.pairs))
      ∙ is_empty-map (row_of d) (map (λ p. p.row) b.pairs)
      ∙ is_empty-map (λ p. p.row) b.pairs
      ∙ e in
    rw (a, some_row) (finished-map logs b d ps b.pairs h ∙ answered-map (harness b) ps b.pairs h)
