-- ===== src/Runner/Judge/Rows/Given.antt =====
-- repogauge/runner/judge.py: what status the harness gives an instance.
use repogauge.Prelude.{
  String, ◌≡◌, refl, sym, ap, ◌∙◌, subst, ◌⊎◌, inl, inr, Bool, true, false, ◌||◌, Option, none,
  some, List, [], ◌∷◌, arith, ◌==◌, eq_iff, if◌then◌else◌, Bool-cases, Option-cases, is_some,
  is_empty, member, Dict, get, put, get-put,
}
use repogauge.Prelude.Text.{is_space, codes, text_eq}
use repogauge.Prelude.Split.{lower, lstrip, rstrip}
use repogauge.Runner.Judge.Rows.{
  DatasetRow, Status, resolved, not_resolved, error, normalize_status, result_row_from_instance,
  RawRow, raw, HarnessResult, by_ids, by_rows, no_result, put_ids, put_new_ids, put_rows,
  by_instance, row_of,
}

-- The last row of an instance.
abbrev pub last_row : String → List RawRow → Option RawRow → Option RawRow
last_row id [] o = o
last_row id (r ∷ rows) o = last_row id rows (if r.instance_id == id then some r else o)

-- The status of a row, which is not_resolved where it says nothing.
abbrev pub row_status : Option RawRow → Status
row_status none = not_resolved
row_status (some r) = if is_empty r.status then not_resolved else (normalize_status r.status).0

-- What the harness says of an instance. Of the lists of ids, that of the unresolved counts first, then
-- that of the resolved, then those of errors and of incomplete runs; an instance that the harness leaves
-- out is not resolved.
abbrev pub given : HarnessResult → String → Status
given (by_ids resolved_ids unresolved_ids error_ids incomplete_ids) id =
    if member id unresolved_ids
    then not_resolved
    else if member id resolved_ids
    then resolved
    else if member id error_ids || member id incomplete_ids
    then error
    else not_resolved
given (by_rows rows) id = row_status (last_row id rows none)
given no_result id = not_resolved

module _ (id : String) (named : (id == "") ≡ false) where
  -- `d[j] = v`, where j is not empty
  get-put_named :
      (d : Dict RawRow) (j : String) (v : RawRow)
      → get (if j == "" then d else put d j v) id ≡ (if j == id then some v else get d id)
  get-put_named d j v =
      ground (arith, eq_iff j "", eq_iff id "", eq_iff j id, get-put d j id v, named)

  get-put_ids :
      (row : String → RawRow) (ids : List String) (d : Dict RawRow)
      → get (put_ids row ids d) id ≡ (if member id ids then some (row id) else get d id)
  unfolding put_ids
  get-put_ids row [] d = refl
  get-put_ids row (j ∷ ids) d =
      get-put_ids row ids (if j == "" then d else put d j (row j))
      ∙ (rw (get-put_named d j (row j)) (same (Bool-cases (j == id))))
    where
      same :
          ((j == id) ≡ true) ⊎ ((j == id) ≡ false)
          → (if member id ids then some (row id) else if j == id then some (row j) else get d id)
            ≡ (if j == id || member id ids then some (row id) else get d id)
      same (inl e) = ground (arith, e, ap row ((eq_iff j id).0 e))
      same (inr e) = rw e refl

  -- the same, where j is new
  get-put_new :
      (d : Dict RawRow) (j : String) (v : RawRow)
      → get (if j == "" || is_some (get d j) then d else put d j v) id
        ≡ (if is_some (get d id) then get d id else if j == id then some v else none)
  get-put_new d j v = elim (Bool-cases (j == id)) [
    | inl e ↦
        subst
          (λ k.
            get (if k == "" || is_some (get d k) then d else put d k v) id
            ≡ (if is_some (get d id) then get d id else if k == id then some v else none))
          (sym ((eq_iff j id).0 e))
          (ground (arith, eq_iff id id, get-put d id id v, Option-cases (get d id), named))
    | inr e ↦ ground (arith, get-put d j id v, Option-cases (get d id), e)
  ]

  first_of :
      (row : String → RawRow) (j : String) (m : Bool) (o : Option RawRow)
      → (if is_some (if is_some o then o else if j == id then some (row j) else none)
          then (if is_some o then o else if j == id then some (row j) else none)
          else if m
          then some (row id)
          else none)
        ≡ (if is_some o then o else if j == id || m then some (row id) else none)
  first_of row j m (some r) = refl
  first_of row j m none = elim (Bool-cases (j == id)) [
    | inl e ↦ rw e (ap some (ap row ((eq_iff j id).0 e)))
    | inr e ↦ rw e refl
  ]

  get-put_new_ids :
      (row : String → RawRow) (ids : List String) (d : Dict RawRow)
      → get (put_new_ids row ids d) id
        ≡ (if is_some (get d id) then get d id else if member id ids then some (row id) else none)
  unfolding put_new_ids
  get-put_new_ids row [] d = elim (Option-cases (get d id)) [
    | inl (r, e) ↦ rw e refl
    | inr e ↦ rw e refl
  ]
  get-put_new_ids row (j ∷ ids) d =
      get-put_new_ids row ids (if j == "" || is_some (get d j) then d else put d j (row j))
      ∙ rw (get-put_new d j (row j)) (first_of row j (member id ids) (get d id))

  get-put_rows :
      (rows : List RawRow) (d : Dict RawRow)
      → get (put_rows rows d) id ≡ last_row id rows (get d id)
  unfolding put_rows
  get-put_rows [] d = refl
  get-put_rows (r ∷ rows) d =
      get-put_rows rows (if r.instance_id == "" then d else put d r.instance_id r)
      ∙ ap (last_row id rows) (get-put_named d r.instance_id r)

  given-by_ids :
      (resolved_ids unresolved_ids error_ids incomplete_ids : List String)
      → row_status
          (get (by_instance (by_ids resolved_ids unresolved_ids error_ids incomplete_ids)) id)
        ≡ given (by_ids resolved_ids unresolved_ids error_ids incomplete_ids) id
  unfolding by_instance normalize_status lower lstrip rstrip is_space text_eq
  given-by_ids resolved_ids unresolved_ids error_ids incomplete_ids =
      let resolved_row = λ (i : String). raw i "resolved" true none in
      let unresolved_row = λ (i : String). raw i "not_resolved" false none in
      let error_row = λ (i : String). raw i "error" false (some "harness error") in
      let incomplete_row = λ (i : String). raw i "error" false (some "incomplete") in
      let d = put_ids resolved_row resolved_ids [] in
      let d' = put_ids unresolved_row unresolved_ids d in
      rw
        (
          get-put_new_ids incomplete_row incomplete_ids (put_new_ids error_row error_ids d'),
          get-put_new_ids error_row error_ids d',
          get-put_ids unresolved_row unresolved_ids d,
          get-put_ids resolved_row resolved_ids [],
        )
        (levels (member id unresolved_ids) (member id resolved_ids) (member id error_ids)
          (member id incomplete_ids))
    where
      first : Option RawRow → Option RawRow → Option RawRow
      first o p = if is_some o then o else p

      levels :
          (u r e i : Bool)
          → row_status (
              first
                (first
                  (if u
                    then some (raw id "not_resolved" false none)
                    else if r
                    then some (raw id "resolved" true none)
                    else none)
                  (if e then some (raw id "error" false (some "harness error")) else none))
                (if i then some (raw id "error" false (some "incomplete")) else none))
            ≡ (if u
                then not_resolved
                else if r
                then resolved
                else if e || i
                then error
                else not_resolved)
      levels true r e i = refl
      levels false true e i = refl
      levels false false true i = refl
      levels false false false true = refl
      levels false false false false = refl

  -- The status that is read for an instance is the one that the harness gave it.
  pub row_status-given : (h : HarnessResult) → row_status (get (by_instance h) id) ≡ given h id
  unfolding by_instance
  row_status-given (by_ids r u e i) = given-by_ids r u e i
  row_status-given (by_rows rows) = ap row_status (get-put_rows rows [])
  row_status-given no_result = refl

pub row_of-status :
    (d : Dict RawRow) (row : DatasetRow)
    → (row_of d row).status ≡ row_status (get d row.instance_id)
unfolding row_of result_row_from_instance normalize_status lower lstrip rstrip is_space text_eq
row_of-status d row = elim (Option-cases (get d row.instance_id)) [
  | inl (r, e) ↦ rw (e, row_of) (some_status r (Bool-cases (is_empty r.status)))
  | inr e ↦ rw (e, row_of) refl
]
  where
    some_status :
        (r : RawRow)
        → ((is_empty r.status) ≡ true) ⊎ ((is_empty r.status) ≡ false)
        → (result_row_from_instance row r.resolved r.reason r.error
            (if is_empty r.status then codes "not_resolved" else r.status)).status
          ≡ (if is_empty r.status then not_resolved else (normalize_status r.status).0)
    some_status r (inl e) = rw e refl
    some_status r (inr e) = rw e refl
