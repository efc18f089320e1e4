-- ===== src/Validation/Evidence.antt =====
-- repogauge/validation/evidence.py: the taxonomy of failures.
use repogauge.Prelude.{
  String, ◌≡◌, refl, sym, ap, subst, ◌⊎◌, inl, inr, Bool, true, false, Option, none, some, List, [],
  ◌∷◌, ◌==◌, eq_iff, if◌then◌else◌, Bool-cases, In, member, member→In,
}

-- FAILURE_TAXONOMY
unfoldable pub failure_taxonomy : List String
failure_taxonomy =
    "base_repo_unrunnable" ∷ "env_install_failed" ∷ "test_targeting_failed"
    ∷ "test_patch_apply_failed" ∷ "patch_apply_failed" ∷ "no_fail_to_pass"
    ∷ "pass_to_pass_regression" ∷ "flaky_outcomes" ∷ "missing_junit" ∷ "unknown_validator_failure"
    ∷ []

-- `value in FAILURE_TAXONOMY`, for a value that may be None
abbrev pub in_taxonomy : Option String → Bool
in_taxonomy none = false
in_taxonomy (some s) = member s failure_taxonomy

abbrev is_reason : Option String → List String → Bool
is_reason none ss = false
is_reason (some s) ss = member s ss

abbrev value_or : Option String → String → String
value_or none d = d
value_or (some s) d = s

of_error : Option String → String
of_error reason =
    if is_reason reason ("run_a_failed" ∷ [])
    then "base_repo_unrunnable"
    else if is_reason reason ("run_b_rerun_failed" ∷ [])
    then "flaky_outcomes"
    else if is_reason reason ("run_c_rerun_failed" ∷ [])
    then "flaky_outcomes"
    else "unknown_validator_failure"

abbrev passed_on : List String
passed_on = "no_fail_to_pass" ∷ "pass_to_pass_regression" ∷ "declared_ftp_not_resolved" ∷ []

of_not_resolved : Option String → String
of_not_resolved reason =
    if is_reason reason passed_on then value_or reason "" else "unknown_validator_failure"

-- The part of normalize_failure_reason that looks at the status.
by_status : String → Option String → String
unfolding of_error of_not_resolved
by_status status reason =
    if status == "error"
    then of_error reason
    else if status == "flaky"
    then "flaky_outcomes"
    else if status == "not_resolved"
    then of_not_resolved reason
    else "unknown_validator_failure"

-- normalize_failure_reason
unfoldable pub normalize_failure_reason : String → Option String → Option String → String
unfolding by_status
normalize_failure_reason status reason failure_code =
    if in_taxonomy failure_code
    then value_or failure_code ""
    else if in_taxonomy reason
    then value_or reason ""
    else by_status status reason

-- The member tests that the branches of the function end in.
abbrev IsKnown : String → Type 0
IsKnown s = member s failure_taxonomy ≡ true

of_error-IsKnown : (reason : Option String) → IsKnown (of_error reason)
unfolding of_error failure_taxonomy
of_error-IsKnown none = refl
of_error-IsKnown (some s) = elim (Bool-cases (is_reason (some s) ("run_a_failed" ∷ []))) [
  | inl a ↦ rw a
  | inr a ↦ rw a (elim (Bool-cases (is_reason (some s) ("run_b_rerun_failed" ∷ []))) [
    | inl b ↦ rw b
    | inr b ↦ rw b (elim (Bool-cases (is_reason (some s) ("run_c_rerun_failed" ∷ []))) [
      | inl c ↦ rw c
      | inr c ↦ rw c
    ])
  ])
]

passed_on-IsKnown : (s : String) → In s passed_on → IsKnown s ⊎ (s ≡ "declared_ftp_not_resolved")
unfolding failure_taxonomy
passed_on-IsKnown s (inl e) = inl (subst IsKnown e refl)
passed_on-IsKnown s (inr (inl e)) = inl (subst IsKnown e refl)
passed_on-IsKnown s (inr (inr (inl e))) = inr (sym e)
passed_on-IsKnown s (inr (inr (inr e))) = absurd e

of_not_resolved-IsKnown :
    (reason : Option String)
    → IsKnown (of_not_resolved reason)
      ⊎ ((reason ≡ some "declared_ftp_not_resolved")
          × (of_not_resolved reason ≡ "declared_ftp_not_resolved"))
unfolding of_not_resolved failure_taxonomy
of_not_resolved-IsKnown none = inl refl
of_not_resolved-IsKnown (some s) = elim (Bool-cases (member s passed_on)) [
  | inl listed ↦ rw listed (elim (passed_on-IsKnown s (member→In s passed_on listed)) [
    | inl known ↦ inl known
    | inr e ↦ inr (ap some e, e)
  ])
  | inr other ↦ rw other (inl refl)
]

-- What the last test of normalize_failure_reason can end in.
abbrev Ends : String → Option String → String → Type 0
Ends status reason result =
    IsKnown result
    ⊎ ((status ≡ "not_resolved")
        × (reason ≡ some "declared_ftp_not_resolved")
        × (result ≡ "declared_ftp_not_resolved"))

by_status-Ends :
    (status : String) (reason : Option String) → Ends status reason (by_status status reason)
unfolding by_status failure_taxonomy
by_status-Ends status reason = elim (Bool-cases (status == "error")) [
  | inl a ↦ rw a (inl (of_error-IsKnown reason))
  | inr a ↦ rw a (elim (Bool-cases (status == "flaky")) [
    | inl b ↦ rw b (inl refl)
    | inr b ↦ rw b (elim (Bool-cases (status == "not_resolved")) [
      | inl c ↦ rw c (elim (of_not_resolved-IsKnown reason) [
        | inl known ↦ inl known
        | inr (r, e) ↦ inr ((eq_iff status "not_resolved").0 c, r, e)
      ])
      | inr c ↦ rw c (inl refl)
    ])
  ])
]

value-IsKnown : (o : Option String) → in_taxonomy o ≡ true → IsKnown (value_or o "")
value-IsKnown none h = cc
value-IsKnown (some s) h = h

-- The normalized reason is in FAILURE_TAXONOMY, unless the status is `not_resolved` and the reason is
-- `declared_ftp_not_resolved`, and that reason is passed on.
pub normalize_failure_reason-taxonomy :
    (status : String) (reason failure_code : Option String)
    → (member (normalize_failure_reason status reason failure_code) failure_taxonomy ≡ true)
      ⊎ ((status ≡ "not_resolved")
          × (reason ≡ some "declared_ftp_not_resolved")
          × (normalize_failure_reason status reason failure_code ≡ "declared_ftp_not_resolved"))
unfolding normalize_failure_reason
normalize_failure_reason-taxonomy status reason failure_code =
    elim (Bool-cases (in_taxonomy failure_code)) [
      | inl a ↦ rw a (inl (value-IsKnown failure_code a))
      | inr a ↦ rw a (elim (Bool-cases (in_taxonomy reason)) [
        | inl b ↦ rw b (inl (value-IsKnown reason b))
        | inr b ↦ rw b (by_status-Ends status reason)
      ])
    ]
