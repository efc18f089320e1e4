-- ===== src/Runner/Judge/Rows.antt =====
-- repogauge/runner/judge.py: dataset rows, predictions, statuses and result rows. Texts are as
-- _coerce_text reads them, and metadata is left out.
pub mod Given
use repogauge.Prelude.{
  ℕ, zero, suc, ◌+◌, ◌-◌, ◌*◌, ◌/◌, ◌%◌, ◌≤◌, ◌<◌, String, ◌≡◌, refl, sym, ap, ◌∙◌, subst, ◌≢◌, ◌↔◌,
  ◌⊎◌, inl, inr, Bool, true, false, not, ◌&&◌, ◌||◌, Option, none, some, List, [], ◌∷◌, ◌++◌, map,
  arith, ◌==◌, eq_iff, eq_refl, ltb, leb, nat_eq, if◌then◌else◌, ltb→lt, lt→ltb, ltb→le, leb→le,
  le→leb, nat_eq→eq, nat_eq_refl, tests, Bool-cases, Option-cases, is_some, length, any, all, keep,
  is_empty, All, length-append, All-append, In, member, member→In, In→member, Dict, get, put,
  get-put, keys, branches_hold, taken_holds, some_of_else, member-keep, differ→≢, str_lt, count,
  take, drop, then_lt, then_lt_trans, total, IsDistinct,
}
use repogauge.Prelude.Text.{
  is_space, text_lt_irrefl, text_lt, text_lt_trans, Text, codes, text_eq, text_eq_sound,
  text_eq_refl, strip_prefix, strip_prefix-append, starts_with, contains,
}
use repogauge.Prelude.Split.{strip, lower, lstrip, rstrip}

-- A dataset row; `solver` is its solver_id or model_name_or_path, which a dataset mostly lacks.
pub record DatasetRow : Type 0 where
  pub instance_id : String
  pub repo : String
  pub version : String
  pub solver : String

pub record Prediction : Type 0 where
  pub instance_id : String
  pub solver_id : String
  pub model_name_or_path : String

-- _prediction_solver_id
unfoldable pub prediction_solver_id : Prediction → String
prediction_solver_id p = if p.solver_id == "" then p.model_name_or_path else p.solver_id

pub data Status : Type 0 where
  resolved not_resolved skipped error : Status

abbrev pub one_of : Text → List String → Bool
one_of value names = any (λ n. text_eq (codes n) value) names

-- _normalize_status: the status, whether it is resolved, and whether it is an error
unfoldable pub normalize_status : Text → Status × Bool × Bool
unfolding lower lstrip rstrip is_space text_eq
normalize_status status =
    let value = strip (lower status) in
    if one_of value ("resolved" ∷ "passed" ∷ "pass" ∷ [])
    then (resolved, true, false)
    else if one_of value ("not_resolved" ∷ "unresolved" ∷ "failed" ∷ [])
    then (not_resolved, false, false)
    else if one_of value ("skipped" ∷ "missing_prediction" ∷ [])
    then (skipped, false, false)
    else if one_of value ("error" ∷ "errored" ∷ "crash" ∷ "failed_with_exception" ∷ [])
    then (error, false, true)
    else (not_resolved, false, false)

pub record ResultRow : Type 0 where
  pub instance_id : String
  pub solver_id : String
  pub status : Status
  pub reason : Option String
  pub error : Option String
  pub resolved : Bool
  pub environment_strategy : String

-- `error and not final_error`: a missing or an empty text
abbrev pub no_text : Option String → Bool
no_text none = true
no_text (some t) = t == ""

-- _result_row_from_instance
unfoldable pub result_row_from_instance :
    DatasetRow → Option Bool → Option String → Option String → Text → ResultRow
unfolding normalize_status
result_row_from_instance row given reason error_text status =
    let (normalized, derived, is_error) = normalize_status status in
    record {
      instance_id = row.instance_id;
      solver_id = row.solver;
      status = normalized;
      reason = reason;
      error = if is_error && no_text error_text then reason else error_text;
      resolved = elim given [ some b ↦ b | none ↦ derived && not is_error ];
      environment_strategy = if row.version == "" then "default" else row.version;
    }

abbrev pub Key : Type 0
Key = String × String

-- _instance_prediction_key, of an instance and a solver
unfoldable pub prediction_key : String → String → Option Key
prediction_key instance_id solver_id =
    if instance_id == "" || solver_id == "" then none else some (solver_id, instance_id)

-- What the harness gives back: the id lists of swebench 4, rows, or nothing of use.
pub record RawRow : Type 0 where
  pub instance_id : String
  pub status : Text
  pub resolved : Option Bool
  pub reason : Option String
  pub error : Option String

pub data HarnessResult : Type 0 where
  by_ids : List String → List String → List String → List String → HarnessResult
  by_rows : List RawRow → HarnessResult
  no_result : HarnessResult

abbrev pub raw : String → String → Bool → Option String → RawRow
raw id status is_resolved reason = record {
  instance_id = id;
  status = codes status;
  resolved = some is_resolved;
  reason = reason;
  error = reason;
}

-- `by_instance[iid] = ...` for each id that is not empty
unfoldable pub put_ids : (String → RawRow) → List String → Dict RawRow → Dict RawRow
put_ids row [] d = d
put_ids row (id ∷ ids) d = put_ids row ids (if id == "" then d else put d id (row id))

-- and only where the id is new
unfoldable pub put_new_ids : (String → RawRow) → List String → Dict RawRow → Dict RawRow
put_new_ids row [] d = d
put_new_ids row (id ∷ ids) d =
    put_new_ids row ids (if id == "" || is_some (get d id) then d else put d id (row id))

unfoldable pub put_rows : List RawRow → Dict RawRow → Dict RawRow
put_rows [] d = d
put_rows (r ∷ rows) d = put_rows rows (if r.instance_id == "" then d else put d r.instance_id r)

-- the first part of _parse_harness_results
unfoldable pub by_instance : HarnessResult → Dict RawRow
unfolding put_ids put_new_ids put_rows
by_instance (by_ids resolved_ids unresolved_ids error_ids incomplete_ids) =
    put_new_ids (λ id. raw id "error" false (some "incomplete")) incomplete_ids
      (put_new_ids (λ id. raw id "error" false (some "harness error")) error_ids
        (put_ids (λ id. raw id "not_resolved" false none) unresolved_ids
          (put_ids (λ id. raw id "resolved" true none) resolved_ids [])))
by_instance (by_rows rows) = put_rows rows []
by_instance no_result = []

-- a row of the second part
unfoldable pub row_of : Dict RawRow → DatasetRow → ResultRow
unfolding result_row_from_instance
row_of d row = elim (get d row.instance_id) [
  | none ↦
      result_row_from_instance row none (some "no harness result for instance") none
        (codes "missing")
  | some r ↦
      result_row_from_instance row r.resolved r.reason r.error
        (if is_empty r.status then codes "not_resolved" else r.status)
]

-- _parse_harness_results
unfoldable pub parse_harness_results : HarnessResult → List DatasetRow → List ResultRow
unfolding by_instance row_of
parse_harness_results harness_result dataset_rows =
    let d = by_instance harness_result in if is_empty d then [] else map (row_of d) dataset_rows
