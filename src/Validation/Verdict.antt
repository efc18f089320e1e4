-- ===== src/Validation/Verdict.antt =====
-- repogauge/validation/validate.py: the verdict on the outcomes of the passes.
use repogauge.Prelude.{
  suc, ◌≤◌, String, ◌≡◌, refl, ap, ◌∙◌, ◌↔◌, inl, inr, Bool, true, false, not, ◌&&◌, ◌||◌, Option,
  none, some, List, [], ◌∷◌, ◌++◌, arith, if◌then◌else◌, Bool-cases, length, any, all, keep,
  is_empty, member, get, keys, member-keep,
}
use repogauge.Validation.Outcomes.{
  Outcomes, is_pass, is_failing, same_outcomes, sorted_set, member-sorted_set, member-append,
  member-keys, is_pass→eq,
}

-- _derive_test_lists
unfoldable pub fail_to_pass : Outcomes → Outcomes → List String → List String
fail_to_pass run_b run_c declared =
    let all_ids = sorted_set (keys run_b ++ keys run_c) in
    if is_empty declared
    then keep (λ t. is_failing (get run_b t) && is_pass (get run_c t)) all_ids
    else keep (λ t. is_pass (get run_c t)) declared

unfoldable pub pass_to_pass : Outcomes → Outcomes → List String → List String
pass_to_pass run_b run_c declared =
    let all_ids = sorted_set (keys run_b ++ keys run_c) in
    if is_empty declared
    then keep (λ t. is_pass (get run_b t) && is_pass (get run_c t)) all_ids
    else keep (λ t. is_pass (get run_c t)) declared

unfoldable pub derive_test_lists :
    Outcomes → Outcomes → List String → List String → List String × List String
derive_test_lists run_b run_c declared_ftp declared_ptp =
    (fail_to_pass run_b run_c declared_ftp, pass_to_pass run_b run_c declared_ptp)

-- _is_resolved
unfoldable pub is_resolved : List String → Outcomes → List String → Bool
is_resolved ftp run_c declared_ftp =
    if is_empty declared_ftp
    then not (is_empty ftp)
    else all (λ t. is_pass (get run_c t)) declared_ftp

-- _is_flaky
unfoldable pub is_flaky : Outcomes → Outcomes → Outcomes → Outcomes → Bool
is_flaky run_b run_b_rerun run_c run_c_rerun =
    not (same_outcomes run_b run_b_rerun) || not (same_outcomes run_c run_c_rerun)

-- _has_pass_to_pass_regression
unfoldable pub has_pass_to_pass_regression : Outcomes → Outcomes → List String → Bool
has_pass_to_pass_regression run_b run_c declared_ptp =
    if is_empty declared_ptp
    then false
    else any (λ t. is_pass (get run_b t) && not (is_pass (get run_c t))) declared_ptp

-- _declared_ftp_not_resolved
unfoldable pub declared_ftp_not_resolved : Outcomes → List String → Bool
declared_ftp_not_resolved run_c declared_ftp =
    if is_empty declared_ftp then false else any (λ t. not (is_pass (get run_c t))) declared_ftp

-- `resolved` and `rejection_reason` at the end of `_eval_instance`
unfoldable pub judge : Outcomes → Outcomes → List String → List String → Bool × Option String
judge run_b run_c declared_ftp declared_ptp =
    let ftp = fail_to_pass run_b run_c declared_ftp in
    let resolved = is_resolved ftp run_c declared_ftp in
    if has_pass_to_pass_regression run_b run_c declared_ptp
    then (false, some "pass_to_pass_regression")
    else if declared_ftp_not_resolved run_c declared_ftp
    then (false, some "declared_ftp_not_resolved")
    else if is_empty ftp
    then (resolved, some "no_fail_to_pass")
    else (resolved, none)

pass-is_key :
    (run_c : Outcomes) (t : String) → is_pass (get run_c t) ≡ true → member t (keys run_c) ≡ true
pass-is_key run_c t h = member-keys run_c t (rw (is_pass→eq (get run_c t) h))

-- Without a declared list, FAIL_TO_PASS holds exactly the tests that pass in run C and that fail, end
-- in an error or are absent in run B.
pub member-fail_to_pass :
    (run_b run_c : Outcomes) (t : String)
    → member t (fail_to_pass run_b run_c []) ≡ (is_failing (get run_b t) && is_pass (get run_c t))
unfolding fail_to_pass
member-fail_to_pass run_b run_c t =
    member-keep t (λ u. is_failing (get run_b u) && is_pass (get run_c u))
      (sorted_set (keys run_b ++ keys run_c))
    ∙ ap (λ b. b && (is_failing (get run_b t) && is_pass (get run_c t)))
        (member-sorted_set t (keys run_b ++ keys run_c) ∙ member-append t (keys run_b) (keys run_c))
    ∙ both_keys
  where
    both_keys :
        ((member t (keys run_b) || member t (keys run_c))
          && (is_failing (get run_b t) && is_pass (get run_c t)))
        ≡ (is_failing (get run_b t) && is_pass (get run_c t))
    both_keys = ground (arith, pass-is_key run_c t)

keep-all : {A : Type 0} (p : A → Bool) (xs : List A) → all p xs ≡ true → keep p xs ≡ xs
keep-all p [] h = refl
keep-all p (x ∷ xs) h = elim (Bool-cases (p x)) [
  | inl e ↦ rw e (ap (λ l. x ∷ l) (keep-all p xs (rw e at h)))
  | inr e ↦ absurd (cc (rw e at h))
]

length-keep : {A : Type 0} (p : A → Bool) (xs : List A) → length (keep p xs) ≤ length xs
length-keep p [] = omega arith
length-keep p (x ∷ xs) = ground (arith, length-keep p xs)

all-keep :
    {A : Type 0} (p : A → Bool) (xs : List A) → length (keep p xs) ≡ length xs → all p xs ≡ true
all-keep p [] h = refl
all-keep p (x ∷ xs) h = elim (Bool-cases (p x)) [
  | inl e ↦ rw e (
      all-keep p xs
        (let l : suc (length (keep p xs)) ≡ suc (length xs) = (rw e at h) in omega (arith, l)))
  | inr e ↦
      let l : length (keep p xs) ≡ suc (length xs) = (rw e at h) in
      absurd (omega (arith, l, length-keep p xs))
]

pub is_resolved-fail_to_pass :
    (run_b run_c : Outcomes) (d : String) (ds : List String)
    → (is_resolved (fail_to_pass run_b run_c (d ∷ ds)) run_c (d ∷ ds) ≡ true)
      ↔ (fail_to_pass run_b run_c (d ∷ ds) ≡ d ∷ ds)
unfolding fail_to_pass is_resolved
is_resolved-fail_to_pass run_b run_c d ds = (
  keep-all (λ t. is_pass (get run_c t)) (d ∷ ds),
  λ h. all-keep (λ t. is_pass (get run_c t)) (d ∷ ds) (ap length h),
)
