-- ===== src/Runner/Analysis/Failure.antt =====
-- repogauge/runner/analyze.py: why an attempt did not resolve its instance, and how often each reason is
-- given.
pub mod Breakdown
use repogauge.Prelude.{
  ℕ, zero, suc, ◌+◌, ◌-◌, ◌*◌, ◌/◌, ◌%◌, ◌≤◌, ◌<◌, String, ◌≡◌, refl, sym, ap, ◌∙◌, subst, ◌≢◌, ◌↔◌,
  ◌⊎◌, inl, inr, Bool, true, false, not, ◌&&◌, ◌||◌, Option, none, some, List, [], ◌∷◌, ◌++◌, map,
  arith, ◌==◌, eq_iff, eq_refl, ltb, leb, nat_eq, if◌then◌else◌, ltb→lt, lt→ltb, ltb→le, leb→le,
  le→leb, nat_eq→eq, nat_eq_refl, tests, Bool-cases, Option-cases, is_some, length, any, all, keep,
  is_empty, All, length-append, All-append, In, member, member→In, In→member, Dict, get, put,
  get-put, keys, branches_hold, taken_holds, some_of_else, member-keep, differ→≢, str_lt, take,
  drop, then_lt, then_lt_trans, IsDistinct, total,
}
use repogauge.Prelude.Text.{
  is_space, text_lt_irrefl, text_lt, text_lt_trans, Text, codes, text_eq, text_eq_sound,
  text_eq_refl, strip_prefix, strip_prefix-append, starts_with, contains,
}
use repogauge.Prelude.Split.{lstrip, rstrip, strip, lower, splitlines}
use repogauge.Prelude.Sort.{sort_by}

-- An event of the telemetry with an `error` mapping: `data.message` and `name`, empty where missing.
pub record TelemetryError : Type 0 where
  pub message : Text
  pub name : Text

-- A joined row, its texts as _coerce_str reads them. `events` are the telemetry events, none for one
-- without an error; `total_tokens` is what _read_usage_tokens reads.
pub record FailureRow : Type 0 where
  pub harness_outcome : Text
  pub status : Text
  pub failure_reason : Text
  pub reason : Text
  pub exit_reason : Text
  pub attempt_state : Text
  pub raw_output : Text
  pub total_tokens : ℕ
  pub tool_calls : ℕ
  pub events : List (Option TelemetryError)

-- `a or b`
abbrev pub or_else : Text → Text → Text
or_else a b = if is_empty a then b else a

-- _row_outcome_label
unfoldable pub row_outcome_label : FailureRow → Text
row_outcome_label row = or_else row.harness_outcome (or_else row.status (codes "unknown"))

-- `.replace("-", "_").replace(" ", "_")`
unfoldable pub underscored : Text → Text
underscored s = map (λ c. if nat_eq c b'-' || nat_eq c b' ' then b'_' else c) s

-- the tests of _normalize_failure_reason_label, on the stripped text and its lower case
unfoldable pub known_reason : Text → Text → Text
unfolding underscored contains strip_prefix text_eq
known_reason raw lowered =
    let normalized = underscored lowered in
    if starts_with (codes "invalid patch:") lowered || text_eq normalized (codes "invalid_patch")
    then codes "invalid_patch"
    else if contains (codes "timeout") lowered || text_eq normalized (codes "timed_out")
    then codes "timeout"
    else if contains (codes "hit your limit") lowered || contains (codes "rate limit") lowered
    then codes "rate_limit"
    else if contains (codes "model not found") lowered
    then codes "model_not_found"
    else raw

-- _normalize_failure_reason_label
unfoldable pub normalize_failure_reason_label : Text → Text
unfolding known_reason lower lstrip rstrip is_space
normalize_failure_reason_label value =
    let raw = strip value in if is_empty raw then [] else known_reason raw (lower raw)

-- _telemetry_failure_reason: the first event that gives a reason
unfoldable pub telemetry_failure_reason : List (Option TelemetryError) → Text
unfolding normalize_failure_reason_label
telemetry_failure_reason [] = []
telemetry_failure_reason (none ∷ events) = telemetry_failure_reason events
telemetry_failure_reason (some e ∷ events) =
    or_else (normalize_failure_reason_label (or_else e.message e.name))
      (telemetry_failure_reason events)

-- A row of the breakdown; its share is `count / total`.
pub record ReasonRow : Type 0 where
  pub reason : Text
  pub count : ℕ
  pub total : ℕ

-- `counts[reason] += 1`
unfoldable pub add_reason : Text → List (Text × ℕ) → List (Text × ℕ)
unfolding text_eq
add_reason reason [] = (reason, 1) ∷ []
add_reason reason ((r, n) ∷ counts) =
    if text_eq r reason then (r, n + 1) ∷ counts else (r, n) ∷ add_reason reason counts

-- `key=lambda item: (-item[1], item[0])`
unfoldable pub reason_before : Text × ℕ → Text × ℕ → Bool
unfolding text_lt
reason_before (r, m) (s, n) = then_lt (ltb n m) (ltb m n) (text_lt r s)

abbrev pub reason_row : ℕ → Text × ℕ → ReasonRow
reason_row all (reason, n) = record { reason = reason; count = n; total = all }

-- the rows of the breakdown, from the sorted counts
unfoldable pub reason_rows : List (Text × ℕ) → List ReasonRow
reason_rows counts = map (reason_row (total (λ e. e.1) counts)) counts

-- What json.loads says of a line: the `type` of an object, or none for anything else.
module _ (event_type : Text → Option Text) where
  -- the loop over the lines: every line is an object, and its type
  unfoldable pub line_types : List Text → Option (List Text)
  unfolding lstrip rstrip is_space
  line_types [] = some []
  line_types (line ∷ lines) =
      let rest = line_types lines in
      elim (event_type (strip line)) [
        | none ↦ none
        | some t ↦ elim rest [ none ↦ none | some ts ↦ some (t ∷ ts) ]
      ]

  -- `bool(payloads) and all(type == "error")`
  abbrev pub all_errors : Option (List Text) → Bool
  all_errors none = false
  all_errors (some ts) =
      not (is_empty ts) && all (λ t. text_eq (lower (strip t)) (codes "error")) ts

  -- _has_error_only_raw_output
  unfoldable pub has_error_only_raw_output : FailureRow → Bool
  unfolding line_types lower splitlines text_eq
  has_error_only_raw_output row =
      let raw = strip row.raw_output in
      if is_empty raw then false else all_errors (line_types (splitlines raw))

  -- _should_prefer_telemetry_failure_reason
  unfoldable pub should_prefer_telemetry : FailureRow → Text → Bool
  unfolding has_error_only_raw_output normalize_failure_reason_label text_eq
  should_prefer_telemetry row reason =
      if text_eq reason (codes "model_not_found")
        && nat_eq row.total_tokens 0
        && nat_eq row.tool_calls 0
        && has_error_only_raw_output row
      then true
      else not (is_empty reason)
        && text_eq (normalize_failure_reason_label row.exit_reason) (codes "invalid_patch")

  -- the last fallback of _row_failure_reason
  unfoldable pub state_reason : Text → Text
  unfolding normalize_failure_reason_label lower text_eq
  state_reason attempt_state =
      let state = lower (strip attempt_state) in
      if any (λ s. text_eq s state)
        (codes "failed" ∷ codes "invalid_patch" ∷ codes "timed_out" ∷ [])
      then normalize_failure_reason_label state
      else []

  -- _row_failure_reason
  unfoldable pub row_failure_reason : FailureRow → Text
  unfolding telemetry_failure_reason should_prefer_telemetry state_reason
      normalize_failure_reason_label
  row_failure_reason row =
      let telemetry = telemetry_failure_reason row.events in
      if should_prefer_telemetry row telemetry
      then telemetry
      else or_else row.failure_reason (
          or_else row.reason (
            or_else (normalize_failure_reason_label row.exit_reason)
              (or_else telemetry (state_reason row.attempt_state))))

  -- the reason that _build_failure_breakdown counts for a row
  unfoldable pub counted_reason : FailureRow → Text
  unfolding row_failure_reason row_outcome_label
  counted_reason row =
      or_else (row_failure_reason row) (or_else (row_outcome_label row) (codes "unknown"))

  unfoldable pub count_reasons : List (Text × ℕ) → List FailureRow → List (Text × ℕ)
  unfolding add_reason counted_reason
  count_reasons counts [] = counts
  count_reasons counts (row ∷ rows) = count_reasons (add_reason (counted_reason row) counts) rows

  -- _build_failure_breakdown
  unfoldable pub build_failure_breakdown : List FailureRow → List ReasonRow
  unfolding count_reasons reason_before sort_by reason_rows
  build_failure_breakdown rows = reason_rows (sort_by reason_before (count_reasons [] rows))
