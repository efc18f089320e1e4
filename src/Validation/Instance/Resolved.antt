-- ===== src/Validation/Instance/Resolved.antt =====
-- repogauge/validation/validate.py: when `_eval_instance` calls an instance resolved.
use repogauge.Prelude.{
  String, ◌≡◌, refl, sym, ◌∙◌, subst, ◌↔◌, inl, inr, Bool, true, false, not, ◌&&◌, Option, some,
  List, [], ◌∷◌, ◌++◌, arith, eq_refl, Bool-cases, any, all, is_empty, In, member, member→In, get,
  keys,
}
use repogauge.Validation.Outcomes.{
  Outcomes, TestOutcome, pass, is_pass, is_failing, is_pass→eq, same_outcome, same_outcome→eq,
  same_outcome_refl, same_outcomes, member-append, get-not-member,
}
use repogauge.Validation.Pass.{Checkout}
use repogauge.Validation.Verdict.{
  judge, fail_to_pass, is_resolved, is_flaky, has_pass_to_pass_regression,
  declared_ftp_not_resolved, member-fail_to_pass,
}
use repogauge.Validation.Instance.{
  judged, after_reruns, eval_instance, pass_a, pass_b, pass_c, pass_b_rerun, pass_c_rerun,
}
use repogauge.Validation.Row.{Instance, build_eval_result}

all_sound :
    (p : String → Bool) (xs : List String) → all p xs ≡ true → (t : String) → In t xs → p t ≡ true
all_sound p [] h t i = absurd i
all_sound p (x ∷ xs) h t (inl e) = subst (λ y. p y ≡ true) e (ground arith)
all_sound p (x ∷ xs) h t (inr i) = all_sound p xs (ground arith) t i

all_complete :
    (p : String → Bool) (xs : List String) → ((t : String) → In t xs → p t ≡ true) → all p xs ≡ true
all_complete p [] h = refl
all_complete p (x ∷ xs) h = rw (h x (inl refl)) (all_complete p xs (λ t i. h t (inr i)))

any-all :
    (p q : String → Bool) (xs : List String)
    → ((t : String) → p t ≡ not (q t))
    → any p xs ≡ not (all q xs)
any-all p q [] h = refl
any-all p q (x ∷ xs) h = ground (arith, h x, any-all p q xs h)

pass-eq : (o : Option TestOutcome) → o ≡ some pass → is_pass o ≡ true
pass-eq o e = rw e

module _ (run_b run_c : Outcomes) where
  -- Some test fails, ends in an error or is absent in run B, and passes in run C.
  abbrev pub SomeFixed : Type 0
  SomeFixed = (t : String) × (is_failing (get run_b t) ≡ true) × (get run_c t ≡ some pass)

  -- All declared tests pass in run C or, where none is declared, some test is fixed.
  abbrev pub FixesDeclared : List String → Type 0
  FixesDeclared [] = SomeFixed
  FixesDeclared (d ∷ ds) = (t : String) → In t (d ∷ ds) → get run_c t ≡ some pass

  -- No declared test that passes in run B does not pass in run C.
  abbrev pub KeepsDeclared : List String → Type 0
  KeepsDeclared ptp = (t : String) → In t ptp → get run_b t ≡ some pass → get run_c t ≡ some pass

  keeps_test : (t : String) → Bool
  keeps_test t = not (is_pass (get run_b t) && not (is_pass (get run_c t)))

  keeps→ :
      (ptp : List String) → has_pass_to_pass_regression run_b run_c ptp ≡ false → KeepsDeclared ptp
  unfolding has_pass_to_pass_regression keeps_test
  keeps→ [] h t i e = absurd i
  keeps→ (d ∷ ds) h t i e =
      let kept : all keeps_test (d ∷ ds) ≡ true = ground (
        arith,
        any-all (λ u. is_pass (get run_b u) && not (is_pass (get run_c u))) keeps_test (d ∷ ds)
            (λ u. ground arith),
      ) in
      is_pass→eq (get run_c t)
        (ground (arith, all_sound keeps_test (d ∷ ds) kept t i, pass-eq (get run_b t) e))

  keeps_one :
      (t : String) → (get run_b t ≡ some pass → get run_c t ≡ some pass) → keeps_test t ≡ true
  unfolding keeps_test
  keeps_one t h = elim (Bool-cases (is_pass (get run_b t))) [
    | inl e ↦ rw (e, pass-eq (get run_c t) (h (is_pass→eq (get run_b t) e)))
    | inr e ↦ rw e
  ]

  →keeps :
      (ptp : List String) → KeepsDeclared ptp → has_pass_to_pass_regression run_b run_c ptp ≡ false
  unfolding has_pass_to_pass_regression keeps_test
  →keeps [] h = refl
  →keeps (d ∷ ds) h = ground (
    arith,
    all_complete keeps_test (d ∷ ds) (λ t i. keeps_one t (λ e. h t i e)),
    any-all (λ u. is_pass (get run_b u) && not (is_pass (get run_c u))) keeps_test (d ∷ ds)
        (λ u. ground arith),
  )

  unfoldable pub passes : String → Bool
  passes t = is_pass (get run_c t)

  pub unresolved-all :
      (d : String) (ds : List String)
      → declared_ftp_not_resolved run_c (d ∷ ds) ≡ not (all passes (d ∷ ds))
  unfolding declared_ftp_not_resolved passes
  unresolved-all d ds = any-all (λ t. not (is_pass (get run_c t))) passes (d ∷ ds) (λ t. refl)

  fixed→ :
      (l : List String)
      → ((t : String) → member t l ≡ (is_failing (get run_b t) && is_pass (get run_c t)))
      → is_empty l ≡ false
      → SomeFixed
  fixed→ [] h e = cc
  fixed→ (t ∷ l) h e =
      let both : (is_failing (get run_b t) && is_pass (get run_c t)) ≡ true =
        sym (h t) ∙ ground (arith, eq_refl t) in
      (t, ground arith, is_pass→eq (get run_c t) (ground arith))

  →fixed :
      (l : List String)
      → ((t : String) → member t l ≡ (is_failing (get run_b t) && is_pass (get run_c t)))
      → SomeFixed
      → is_empty l ≡ false
  →fixed [] h (t, failing, passing) =
      let none_there : false ≡ true = h t ∙ ground (arith, pass-eq (get run_c t) passing) in cc
  →fixed (x ∷ l) h f = refl

  judge→ :
      (ftp ptp : List String)
      → (judge run_b run_c ftp ptp).0 ≡ true
      → KeepsDeclared ptp × FixesDeclared ftp
  unfolding judge is_resolved
  judge→ [] ptp h = (
    keeps→ ptp (ground arith),
    fixed→ (fail_to_pass run_b run_c []) (member-fail_to_pass run_b run_c) (ground arith),
  )
  judge→ (d ∷ ds) ptp h = (
    keeps→ ptp (ground arith),
    λ t i.
        is_pass→eq (get run_c t)
          (all_sound (λ u. is_pass (get run_c u)) (d ∷ ds) (ground arith) t i),
  )

  →judge :
      (ftp ptp : List String)
      → KeepsDeclared ptp
      → FixesDeclared ftp
      → (judge run_b run_c ftp ptp).0 ≡ true
  unfolding judge is_resolved declared_ftp_not_resolved passes
  →judge [] ptp k f = ground (
    arith,
    →keeps ptp k,
    →fixed (fail_to_pass run_b run_c []) (member-fail_to_pass run_b run_c) f,
  )
  →judge (d ∷ ds) ptp k f = ground (
    arith,
    →keeps ptp k,
    unresolved-all d ds,
    all_complete passes (d ∷ ds) (λ t i. pass-eq (get run_c t) (f t i)),
  )

-- Equality of dictionaries is that of all their entries.
same_outcomes→ : (r s : Outcomes) → same_outcomes r s ≡ true → (k : String) → get r k ≡ get s k
unfolding same_outcomes
same_outcomes→ r s h k = elim (Bool-cases (member k (keys r ++ keys s))) [
  | inl key ↦ same_outcome→eq (get r k) (get s k) (
      all_sound (λ j. same_outcome (get r j) (get s j)) (keys r ++ keys s) h k
        (member→In k (keys r ++ keys s) key))
  | inr other ↦
      let split = sym (member-append k (keys r) (keys s)) ∙ other in
      get-not-member r k (ground (arith, split)) ∙ sym (get-not-member s k (ground (arith, split)))
]

→same_outcomes : (r s : Outcomes) → ((k : String) → get r k ≡ get s k) → same_outcomes r s ≡ true
unfolding same_outcomes
→same_outcomes r s h = all_complete _ (keys r ++ keys s) (λ k i. rw h (same_outcome_refl (get s k)))

module _ (inst : Instance) (checkout : Checkout) where
  -- No pass failed.
  pub record AllPassed : Type 0 where
    pub a : (pass_a inst checkout).failed ≡ false
    pub b : (pass_b inst checkout).failed ≡ false
    pub c : (pass_c inst checkout).failed ≡ false
    pub b_rerun : (pass_b_rerun inst checkout).failed ≡ false
    pub c_rerun : (pass_c_rerun inst checkout).failed ≡ false

  -- Each rerun gave every test the outcome that it had before.
  abbrev pub IsStable : Type 0
  IsStable =
      ((k : String)
        → get (pass_b inst checkout).outcomes k ≡ get (pass_b_rerun inst checkout).outcomes k)
      × ((k : String)
          → get (pass_c inst checkout).outcomes k ≡ get (pass_c_rerun inst checkout).outcomes k)

  -- What makes an instance resolved.
  pub record Resolves : Type 0 where
    pub all_passed : AllPassed
    pub stable : IsStable
    pub keeps :
        KeepsDeclared
          (pass_b inst checkout).outcomes
          (pass_c inst checkout).outcomes
          inst.declared_ptp
    pub fixes :
        FixesDeclared
          (pass_b inst checkout).outcomes
          (pass_c inst checkout).outcomes
          inst.declared_ftp

  resolved_tests : (eval_instance inst checkout).resolved ≡ (
      not (pass_a inst checkout).failed
      && (not (pass_b inst checkout).failed
          && (not (pass_c inst checkout).failed
              && (not (pass_b_rerun inst checkout).failed
                  && (not (pass_c_rerun inst checkout).failed
                      && (not (
                            is_flaky
                              (pass_b inst checkout).outcomes
                              (pass_b_rerun inst checkout).outcomes
                              (pass_c inst checkout).outcomes
                              (pass_c_rerun inst checkout).outcomes)
                          && (judge
                              (pass_b inst checkout).outcomes
                              (pass_c inst checkout).outcomes
                              inst.declared_ftp
                              inst.declared_ptp).0))))))
  unfolding eval_instance after_reruns judged build_eval_result
  resolved_tests = ground arith

  resolved→ : (eval_instance inst checkout).resolved ≡ true → Resolves
  unfolding is_flaky
  resolved→ h =
      let tests = sym resolved_tests ∙ h in
      let (kept, fixed) =
        judge→ (pass_b inst checkout).outcomes (pass_c inst checkout).outcomes inst.declared_ftp
          inst.declared_ptp (ground (arith, tests)) in
      record {
        all_passed = record {
          a = ground (arith, tests);
          b = ground (arith, tests);
          c = ground (arith, tests);
          b_rerun = ground (arith, tests);
          c_rerun = ground (arith, tests);
        };
        stable = (
          same_outcomes→ _ _ (ground (arith, tests)),
          same_outcomes→ _ _ (ground (arith, tests)),
        );
        keeps = kept;
        fixes = fixed;
      }

  →resolved : Resolves → (eval_instance inst checkout).resolved ≡ true
  unfolding is_flaky
  →resolved r =
      resolved_tests
      ∙ ground (
        arith,
        r.all_passed.a,
        r.all_passed.b,
        r.all_passed.c,
        r.all_passed.b_rerun,
        r.all_passed.c_rerun,
        →same_outcomes _ _ r.stable.0,
        →same_outcomes _ _ r.stable.1,
        →judge _ _ inst.declared_ftp inst.declared_ptp r.keeps r.fixes,
      )

-- An instance is resolved exactly when no pass failed, each rerun gave every test the same outcome, no
-- declared PASS_TO_PASS test that passes in run B does not pass in run C, and all declared FAIL_TO_PASS
-- tests pass in run C or, where none is declared, some test that fails, errs or is absent in run B
-- passes in run C.
pub eval_instance-resolved :
    (inst : Instance) (checkout : Checkout)
    → ((eval_instance inst checkout).resolved ≡ true) ↔ Resolves inst checkout
eval_instance-resolved inst checkout = (resolved→ inst checkout, →resolved inst checkout)
