-- ===== src/Runner/Judge/Evaluation/Duplicates.antt =====
-- repogauge/runner/judge.py: what becomes of an instance that a batch holds twice.
use repogauge.Prelude.{
  String, ◌≡◌, refl, sym, subst, inl, inr, Bool, true, false, not, ◌&&◌, ◌||◌, Option, none, some,
  List, [], ◌∷◌, map, arith, ◌==◌, eq_iff, eq_refl, nat_eq, if◌then◌else◌, Bool-cases, Option-cases,
  length, keep, is_empty, All, All-append, Dict, get, branches_hold,
}
use repogauge.Prelude.Text.{Text, codes}
use repogauge.Runner.Judge.Rows.{
  DatasetRow, Prediction, prediction_solver_id, error, ResultRow, result_row_from_instance, Key,
  prediction_key, RawRow, HarnessResult, by_instance, row_of, parse_harness_results,
}
use repogauge.Runner.Judge.Batches.{Pair, Batch}
use repogauge.Runner.Judge.Evaluation.Scored.{ended}
use repogauge.Runner.Judge.Evaluation.{
  same_pair, matches, solver_from, with_solver_id, is_error, is_known, explained, with_log,
  predictions_of, unreported, run_batch, Keyed, put_row, find_row, put_keyed, row_by_key,
  judged_row,
}

-- A row that names no solver, if it is of the instance.
abbrev pub IsUnnamed : String → ResultRow → Type 0
IsUnnamed id row = (row.instance_id == id && not (row.solver_id == "")) ≡ false

-- A row that names no solver.
abbrev NoSolver : ResultRow → Type 0
NoSolver row = (row.solver_id == "") ≡ true

result_row_from_instance-NoSolver :
    (row : DatasetRow) (b : Option Bool) (r e : Option String) (s : Text)
    → row.solver ≡ ""
    → NoSolver (result_row_from_instance row b r e s)
unfolding result_row_from_instance
result_row_from_instance-NoSolver row b r e s h = rw h (eq_refl "")

row_of-NoSolver : (d : Dict RawRow) (row : DatasetRow) → row.solver ≡ "" → NoSolver (row_of d row)
unfolding row_of
row_of-NoSolver d row h = elim (Option-cases (get d row.instance_id)) [
  | inl (r, e) ↦
      rw (e, row_of)
        (result_row_from_instance-NoSolver row r.resolved r.reason r.error
          (if is_empty r.status then codes "not_resolved" else r.status) h)
  | inr e ↦
      rw (e, row_of)
        (result_row_from_instance-NoSolver row none (some "no harness result for instance") none
          (codes "missing") h)
]

map-NoSolver :
    (f : DatasetRow → ResultRow) (pairs : List Pair)
    → ((row : DatasetRow) → row.solver ≡ "" → NoSolver (f row))
    → All (λ p. p.row.solver ≡ "") pairs
    → All NoSolver (map f (map (λ p. p.row) pairs))
map-NoSolver f [] g h = tt
map-NoSolver f (p ∷ pairs) g h = (g p.row h.0, map-NoSolver f pairs g h.1)

parse_harness_results-NoSolver :
    (r : HarnessResult) (pairs : List Pair)
    → All (λ p. p.row.solver ≡ "") pairs
    → All NoSolver (parse_harness_results r (map (λ p. p.row) pairs))
unfolding parse_harness_results
parse_harness_results-NoSolver r pairs h =
    branches_hold (All NoSolver) (is_empty (by_instance r)) []
      (map (row_of (by_instance r)) (map (λ p. p.row) pairs)) tt
      (map-NoSolver (row_of (by_instance r)) pairs (row_of-NoSolver (by_instance r)) h)

module _ (id : String) where
  NoSolver→IsUnnamed : (row : ResultRow) → NoSolver row → IsUnnamed id row
  NoSolver→IsUnnamed row h = rw h (ground arith)

  -- Only a single match names a solver.
  solver_from-IsUnnamed :
      (row : ResultRow) (ps : List Prediction)
      → IsUnnamed id row
      → nat_eq (length ps) 1 ≡ false
      → IsUnnamed id (solver_from row ps)
  solver_from-IsUnnamed row [] h e = h
  solver_from-IsUnnamed row (p ∷ []) h e = absurd (cc e)
  solver_from-IsUnnamed row (p ∷ q ∷ ps) h e = h

  solver_from-other :
      (row : ResultRow) (ps : List Prediction)
      → (row.instance_id == id) ≡ false
      → IsUnnamed id (solver_from row ps)
  solver_from-other row [] h = rw h refl
  solver_from-other row (p ∷ []) h =
      branches_hold (IsUnnamed id) (prediction_solver_id p == "") row
        (record row { solver_id = prediction_solver_id p }) (rw h refl) (rw h refl)
  solver_from-other row (p ∷ q ∷ ps) h = rw h refl

  with_solver_id-IsUnnamed :
      (ps : List Prediction) (row : ResultRow)
      → nat_eq (length (matches id ps)) 1 ≡ false
      → IsUnnamed id row
      → IsUnnamed id (with_solver_id ps row)
  unfolding with_solver_id
  with_solver_id-IsUnnamed ps row e h =
      branches_hold (IsUnnamed id) (not (row.solver_id == "") || row.instance_id == "") row
        (solver_from row (matches row.instance_id ps)) h
        (elim (Bool-cases (row.instance_id == id)) [
          | inl same ↦
              let eq : row.instance_id ≡ id = (eq_iff row.instance_id id).0 same in
              solver_from-IsUnnamed row (matches row.instance_id ps) h
                (subst (λ i. nat_eq (length (matches i ps)) 1 ≡ false) (sym eq) e)
          | inr other ↦ solver_from-other row (matches row.instance_id ps) other
        ])

  explained-IsUnnamed :
      (row : ResultRow) (log : Option (String × String))
      → IsUnnamed id row
      → IsUnnamed id (explained row log)
  explained-IsUnnamed row none h = h
  explained-IsUnnamed row (some (s, t)) h = h

  with_log-IsUnnamed :
      (logs : ResultRow → Option (String × String)) (b : Batch) (row : ResultRow)
      → IsUnnamed id row
      → IsUnnamed id (with_log logs b row)
  unfolding with_log
  with_log-IsUnnamed logs b row h =
      branches_hold (IsUnnamed id) (is_known b row && is_error row.status)
        (explained row (logs row)) row (explained-IsUnnamed row (logs row) h) h

  map-IsUnnamed :
      (f : ResultRow → ResultRow) (rows : List ResultRow)
      → ((row : ResultRow) → IsUnnamed id row → IsUnnamed id (f row))
      → All NoSolver rows
      → All (IsUnnamed id) (map f rows)
  map-IsUnnamed f [] g h = tt
  map-IsUnnamed f (row ∷ rows) g h =
      (g row (NoSolver→IsUnnamed row h.0), map-IsUnnamed f rows g h.1)

  All-IsUnnamed : (rows : List ResultRow) → All NoSolver rows → All (IsUnnamed id) rows
  All-IsUnnamed [] h = tt
  All-IsUnnamed (row ∷ rows) h = (NoSolver→IsUnnamed row h.0, All-IsUnnamed rows h.1)

  run_batch-IsUnnamed :
      (logs : ResultRow → Option (String × String)) (harness : Batch → HarnessResult) (b : Batch)
      → All (λ p. p.row.solver ≡ "") b.pairs
      → nat_eq (length (matches id (predictions_of logs harness b))) 1 ≡ false
      → All (IsUnnamed id) (run_batch logs harness b)
  unfolding run_batch
  run_batch-IsUnnamed logs harness b h e =
      let ps = predictions_of logs harness b in
      let parsed = parse_harness_results (harness b) (map (λ p. p.row) b.pairs) in
      let rows = map (λ row. with_log logs b (with_solver_id ps row)) parsed in
      let lost = map (unreported logs harness) (map (λ p. p.row) b.pairs) in
      branches_hold (All (IsUnnamed id)) (is_empty rows) lost rows
        (All-IsUnnamed lost (
          map-NoSolver (unreported logs harness) b.pairs
            (λ row k.
              result_row_from_instance-NoSolver row none
                (some "missing harness per-instance results") none (codes "error") k)
            h))
        (map-IsUnnamed (λ row. with_log logs b (with_solver_id ps row)) parsed
          (λ row k.
            with_log-IsUnnamed logs b (with_solver_id ps row) (with_solver_id-IsUnnamed ps row e k))
          (parse_harness_results-NoSolver (harness b) b.pairs h))

  module _ (solver_id : String) where
    -- No entry has the key of the solver and the instance.
    abbrev Lacks : Keyed → Type 0
    Lacks d = All (λ e. same_pair e.0 (solver_id, id) ≡ false) d

    put_row-Lacks :
        (key : Key) (row : ResultRow) (d : Keyed)
        → same_pair key (solver_id, id) ≡ false
        → Lacks d
        → Lacks (put_row key row d)
    unfolding put_row
    put_row-Lacks key row [] e h = (e, tt)
    put_row-Lacks key row ((k, r) ∷ d) e h =
        branches_hold Lacks (same_pair k key) ((key, row) ∷ d) ((k, r) ∷ put_row key row d) (e, h.1)
          (h.0, put_row-Lacks key row d e h.1)

    put_keyed-Lacks :
        (row : ResultRow) (d : Keyed)
        → IsUnnamed id row
        → Lacks d
        → Lacks (put_keyed (prediction_key row.instance_id row.solver_id) row d)
    unfolding prediction_key
    put_keyed-Lacks row d u h = elim (Bool-cases (row.instance_id == "" || row.solver_id == "")) [
      | inl e ↦ rw e h
      | inr e ↦ rw e (put_row-Lacks (row.solver_id, row.instance_id) row d (ground arith) h)
    ]

    row_by_key-Lacks :
        (d : Keyed) (rows : List ResultRow)
        → All (IsUnnamed id) rows
        → Lacks d
        → Lacks (row_by_key d rows)
    unfolding row_by_key
    row_by_key-Lacks d [] u h = h
    row_by_key-Lacks d (row ∷ rows) u h =
        row_by_key-Lacks (put_keyed (prediction_key row.instance_id row.solver_id) row d) rows u.1
          (put_keyed-Lacks row d u.0 h)

    find_row-Lacks : (d : Keyed) → Lacks d → find_row (solver_id, id) d ≡ none
    unfolding find_row
    find_row-Lacks [] h = refl
    find_row-Lacks ((k, r) ∷ d) h = rw h.0 (find_row-Lacks d h.1)

-- A batch whose dataset rows name no solver, and whose number of predictions of the instance is not 1.
pub record Repeats (id : String) (b : Batch) : Type 0 where
  pub solverless : All (λ p. p.row.solver ≡ "") b.pairs
  pub not_one :
      nat_eq (length (keep (λ p. p.instance_id == id) (map (λ p. p.prediction) b.pairs))) 1 ≡ false

ended-IsUnnamed :
    (logs : ResultRow → Option (String × String)) (harness : Batch → HarnessResult) (id : String)
    (bs : List Batch)
    → All (Repeats id) bs
    → All (IsUnnamed id) (ended logs harness bs)
ended-IsUnnamed logs harness id [] h = tt
ended-IsUnnamed logs harness id (b ∷ bs) h =
    All-append (IsUnnamed id) (run_batch logs harness b) (ended logs harness bs)
      (run_batch-IsUnnamed id logs harness b h.0.solverless h.0.not_one)
      (ended-IsUnnamed logs harness id bs h.1)

-- The judged row of a prediction, where each batch holds no prediction of its instance or several, and
-- no dataset row names a solver: whatever the harness answers and the logs say, and in whichever order
-- the batches end, its status is error, its reason that there is no result, and its solver the
-- prediction's.
pub judged_row-repeated :
    (logs : ResultRow → Option (String × String)) (harness : Batch → HarnessResult)
    (bs : List Batch) (solver_id id : String) (row : DatasetRow)
    → All (Repeats id) bs
    → (judged_row (row_by_key [] (ended logs harness bs)) (solver_id, id) row).status ≡ error
      × (judged_row (row_by_key [] (ended logs harness bs)) (solver_id, id) row).reason
        ≡ some "no harness result for prediction"
      × (judged_row (row_by_key [] (ended logs harness bs)) (solver_id, id) row).solver_id
        ≡ solver_id
unfolding judged_row result_row_from_instance
judged_row-repeated logs harness bs solver_id id row h =
    let missing : find_row (solver_id, id) (row_by_key [] (ended logs harness bs)) ≡ none =
      find_row-Lacks id solver_id (row_by_key [] (ended logs harness bs)) (
        row_by_key-Lacks id solver_id [] (ended logs harness bs)
          (ended-IsUnnamed logs harness id bs h) tt) in
    rw (missing, judged_row) (refl, refl, refl)
