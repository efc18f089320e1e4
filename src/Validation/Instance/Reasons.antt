-- ===== src/Validation/Instance/Reasons.antt =====
-- repogauge/validation/validate.py: the status and the reason that a result row gives.
use repogauge.Prelude.Text.{Text}
use repogauge.Prelude.{
  ℕ, String, ◌≡◌, refl, sym, ◌∙◌, ◌≢◌, ◌⊎◌, inl, inr, Bool, true, false, not, Option, none, some,
  List, [], ◌∷◌, arith, ◌==◌, eq_iff, if◌then◌else◌, all, keep, is_empty, member, get,
}
use mathlib.Core.Bool.{false≢true}
use repogauge.Validation.Outcomes.{Outcomes, is_pass}
use repogauge.Validation.Evidence.{
  failure_taxonomy, normalize_failure_reason, normalize_failure_reason-taxonomy,
}
use repogauge.Validation.Pass.{Checkout}
use repogauge.Validation.Verdict.{
  judge, fail_to_pass, is_resolved, has_pass_to_pass_regression, declared_ftp_not_resolved,
}
use repogauge.Validation.Instance.{
  judged, after_reruns, eval_instance, pass_a, pass_b, pass_c, pass_b_rerun, pass_c_rerun,
  judged_as,
}
use repogauge.Prelude.Text.{Text}
use repogauge.Validation.Row.{Instance, EvalResult, Shows, build_eval_result}
use repogauge.Validation.Instance.Resolved.{passes, unresolved-all}

keep-all : (p : String → Bool) (xs : List String) → all p xs ≡ true → keep p xs ≡ xs
keep-all p [] h = refl
keep-all p (x ∷ xs) h = ground (arith, keep-all p xs)

-- A verdict is positive with no reason, or negative with one.
abbrev IsVerdict : Bool × Option String → Type 0
IsVerdict v = ((v.0 ≡ true) × (v.1 ≡ none)) ⊎ ((v.0 ≡ false) × ((s : String) × (v.1 ≡ some s)))

IsVerdict-cases :
    (regresses unresolved resolved : Bool) (l : List String)
    → (unresolved ≡ false → resolved ≡ not (is_empty l))
    → IsVerdict (
        if regresses
        then (false, some "pass_to_pass_regression")
        else if unresolved
        then (false, some "declared_ftp_not_resolved")
        else if is_empty l
        then (resolved, some "no_fail_to_pass")
        else (resolved, none))
IsVerdict-cases true unresolved resolved l h = inr (refl, ("pass_to_pass_regression", refl))
IsVerdict-cases false true resolved l h = inr (refl, ("declared_ftp_not_resolved", refl))
IsVerdict-cases false false resolved [] h = inr (h refl, ("no_fail_to_pass", refl))
IsVerdict-cases false false resolved (x ∷ l) h = inl (h refl, refl)

is_resolved-fail_to_pass :
    (run_b run_c : Outcomes) (ftp : List String)
    → declared_ftp_not_resolved run_c ftp ≡ false
    → is_resolved (fail_to_pass run_b run_c ftp) run_c ftp
      ≡ not (is_empty (fail_to_pass run_b run_c ftp))
unfolding is_resolved fail_to_pass passes
is_resolved-fail_to_pass run_b run_c [] h = refl
is_resolved-fail_to_pass run_b run_c (d ∷ ds) h =
    let every : all passes_in_c (d ∷ ds) ≡ true = ground (arith, unresolved-all run_b run_c d ds) in
    rw (every, keep-all passes_in_c (d ∷ ds) every)
  where
    passes_in_c : String → Bool
    passes_in_c t = is_pass (get run_c t)

judge-cases :
    (run_b run_c : Outcomes) (ftp ptp : List String) → IsVerdict (judge run_b run_c ftp ptp)
unfolding judge
judge-cases run_b run_c ftp ptp =
    IsVerdict-cases (has_pass_to_pass_regression run_b run_c ptp)
      (declared_ftp_not_resolved run_c ftp) (is_resolved (fail_to_pass run_b run_c ftp) run_c ftp)
      (fail_to_pass run_b run_c ftp) (is_resolved-fail_to_pass run_b run_c ftp)

-- The row says that the instance is resolved, with no reason, or that it is not, with a reason.
abbrev pub IsExplained : EvalResult → Type 0
IsExplained r =
    ((r.resolved ≡ true) × (r.status ≡ "resolved") × (r.reason ≡ none))
    ⊎ ((r.resolved ≡ false)
        × (r.status ≢ "resolved")
        × ((s : String) × (r.reason ≡ some s)
            × ((member s failure_taxonomy ≡ true) ⊎ (s ≡ "declared_ftp_not_resolved"))))

IsExplained-if :
    (b : Bool) (x y : EvalResult) → IsExplained x → IsExplained y → IsExplained (if b then x else y)
IsExplained-if true x y hx hy = hx
IsExplained-if false x y hx hy = hy

module _ (inst : Instance) (checkout : Checkout) where
  build-IsExplained :
      (status reason : String) (error : Option Text) (failure_code : Option String) (shows : Shows)
      (n : ℕ) (ftp ptp : List String)
      → (status == "resolved") ≡ false
      → IsExplained
          (build_eval_result inst status error (some reason) failure_code shows n ftp ptp false)
  unfolding build_eval_result
  build-IsExplained status reason error failure_code shows n ftp ptp other = rw other (
      inr (
        refl,
        (λ e. false≢true (sym other ∙ (eq_iff status "resolved").1 e)),
        (normalize_failure_reason status (some reason) failure_code, refl, listed),
      ))
    where
      listed :
          (member (normalize_failure_reason status (some reason) failure_code) failure_taxonomy
            ≡ true)
          ⊎ (normalize_failure_reason status (some reason) failure_code
              ≡ "declared_ftp_not_resolved")
      listed = elim (normalize_failure_reason-taxonomy status (some reason) failure_code) [
        | inl known ↦ inl known
        | inr (_, _, e) ↦ inr e
      ]

  negative-IsExplained : (s : String) → IsExplained (judged_as inst checkout (false, some s))
  negative-IsExplained s = build-IsExplained "not_resolved" s none none _ _ _ _ refl

  judged_as-IsExplained :
      (v : Bool × Option String) → IsVerdict v → IsExplained (judged_as inst checkout v)
  unfolding build_eval_result
  judged_as-IsExplained (true, none) h = inl (refl, refl, refl)
  judged_as-IsExplained (true, some s) h = ground arith
  judged_as-IsExplained (false, none) h = ground arith
  judged_as-IsExplained (false, some s) h = negative-IsExplained s

  judged-IsExplained : IsExplained (judged inst checkout)
  unfolding judged
  judged-IsExplained = judged_as-IsExplained _ (
      judge-cases (pass_b inst checkout).outcomes (pass_c inst checkout).outcomes inst.declared_ftp
        inst.declared_ptp)

  -- Every row is explained: an instance is resolved with the status `resolved` and no reason, or it is
  -- not, with another status and a reason that is in FAILURE_TAXONOMY or is `declared_ftp_not_resolved`.
  pub eval_instance-IsExplained : IsExplained (eval_instance inst checkout)
  unfolding eval_instance after_reruns
  eval_instance-IsExplained =
      IsExplained-if (pass_a inst checkout).failed _ _
        (build-IsExplained "error" "run_a_failed" _ _ _ _ _ _ refl)
        (IsExplained-if (pass_b inst checkout).failed _ _
          (build-IsExplained "error" "run_b_failed" _ _ _ _ _ _ refl)
          (IsExplained-if (pass_c inst checkout).failed _ _
            (build-IsExplained "error" "run_c_failed" _ _ _ _ _ _ refl)
            (IsExplained-if (pass_b_rerun inst checkout).failed _ _
              (build-IsExplained "error" "run_b_rerun_failed" _ _ _ _ _ _ refl)
              (IsExplained-if (pass_c_rerun inst checkout).failed _ _
                (build-IsExplained "error" "run_c_rerun_failed" _ _ _ _ _ _ refl)
                (IsExplained-if _ _ _ (build-IsExplained "flaky" _ _ _ _ _ _ _ refl)
                  judged-IsExplained)))))
