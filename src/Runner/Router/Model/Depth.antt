-- ===== src/Runner/Router/Model/Depth.antt =====
-- repogauge/runner/router.py: which of the candidate depths is chosen.
use repogauge.Prelude.{
  ℕ, zero, suc, ◌≤◌, String, ◌≡◌, refl, sym, ◌∙◌, inl, inr, true, false, some, List, [], ◌∷◌, arith,
  ltb, leb, leb→le, Bool-cases, taken_holds, count,
}
use repogauge.Runner.Router.Labels.{PreparedRow, Fraction, below, not_below}
use repogauge.Runner.Router.Tree.{Tree, train_router_tree, router_accuracy}
use repogauge.Runner.Router.Model.{Best, is_better, accuracy_at, try_depth, try_depths}

router_accuracy-den :
    (rows : List PreparedRow) (t u : Tree)
    → (router_accuracy rows t).den ≡ (router_accuracy rows u).den
unfolding router_accuracy
router_accuracy-den [] t u = refl
router_accuracy-den (row ∷ rows) t u = refl

-- Fractions of one denominator.
not_below_refl : (a : Fraction) → not_below a a ≡ true
unfolding not_below
not_below_refl a = ground arith

not_below-of_below : (a b : Fraction) → a.den ≡ b.den → below a b ≡ false → not_below a b ≡ true
unfolding not_below below
not_below-of_below a b e h = ground arith

not_below_trans :
    (a b c : Fraction)
    → a.den ≡ b.den
    → b.den ≡ c.den
    → not_below a c ≡ true
    → below a b ≡ true
    → not_below b c ≡ true
unfolding not_below below
not_below_trans a b c e f h k = ground (arith, e, f)

module _ (names : List String) (train scored : List PreparedRow) where
  -- The best of the first depths: what it stands for, and that none of them does better.
  pub record IsBestOf (count : ℕ) (best : Best) : Type 0 where
    pub positive : 1 ≤ best.depth
    pub within : best.depth ≤ count
    pub measured : best.accuracy ≡ some (accuracy_at names train scored best.depth)
    pub unbeaten :
        (d : ℕ)
        → 1 ≤ d
        → d ≤ count
        → not_below (accuracy_at names train scored best.depth) (accuracy_at names train scored d)
          ≡ true

  same_den :
      (d e : ℕ) → (accuracy_at names train scored d).den ≡ (accuracy_at names train scored e).den
  unfolding accuracy_at
  same_den d e =
      router_accuracy-den scored (train_router_tree names d train) (train_router_tree names e train)

  first_depth : IsBestOf 1 (try_depths names train scored 1)
  unfolding try_depths try_depth is_better
  first_depth = record {
    positive = omega arith;
    within = omega arith;
    measured = refl;
    unbeaten = λ d h k.
        let e : d ≡ 1 = omega arith in rw e (not_below_refl (accuracy_at names train scored 1));
  }

  -- A better accuracy is better by more than the tolerance, since the depths rise.
  is_better-below :
      (count : ℕ) (best : Best)
      → IsBestOf count best
      → is_better (accuracy_at names train scored (suc count)) (suc count) best
        ≡ below
            (accuracy_at names train scored best.depth)
            (accuracy_at names train scored (suc count))
  unfolding is_better
  is_better-below count best h =
      let within : best.depth ≤ count = h.within in
      let e : ltb (suc count) best.depth ≡ false = ground arith in rw (h.measured, e) (ground arith)

  stays_best :
      (count : ℕ) (best : Best)
      → IsBestOf count best
      → is_better (accuracy_at names train scored (suc count)) (suc count) best ≡ false
      → IsBestOf (suc count) best
  stays_best count best h e = record {
    positive = h.positive;
    within = omega (arith, h.within);
    measured = h.measured;
    unbeaten = λ d lo hi. elim (Bool-cases (leb d count)) [
      | inl old ↦ h.unbeaten d lo (leb→le d count old)
      | inr new ↦
          let last : d ≡ suc count = ground arith in
          rw last (
            not_below-of_below (accuracy_at names train scored best.depth)
              (accuracy_at names train scored (suc count)) (same_den best.depth (suc count))
              (sym (is_better-below count best h) ∙ e))
    ];
  }

  becomes_best :
      (count : ℕ) (best : Best)
      → IsBestOf count best
      → is_better (accuracy_at names train scored (suc count)) (suc count) best ≡ true
      → IsBestOf (suc count) (record {
        depth = suc count;
        accuracy = some (accuracy_at names train scored (suc count));
      })
  becomes_best count best h e = record {
    positive = omega arith;
    within = omega arith;
    measured = refl;
    unbeaten = λ d lo hi. elim (Bool-cases (leb d count)) [
      | inl old ↦
          not_below_trans (accuracy_at names train scored best.depth)
            (accuracy_at names train scored (suc count)) (accuracy_at names train scored d)
            (same_den best.depth (suc count)) (same_den (suc count) d)
            (h.unbeaten d lo (leb→le d count old)) (sym (is_better-below count best h) ∙ e)
      | inr new ↦
          let last : d ≡ suc count = ground arith in
          rw last (not_below_refl (accuracy_at names train scored (suc count)))
    ];
  }

  next_depth :
      (count : ℕ) (best : Best)
      → IsBestOf count best
      → IsBestOf (suc count) (try_depth names train scored (suc count) best)
  unfolding try_depth
  next_depth count best h =
      taken_holds (IsBestOf (suc count))
        (is_better (accuracy_at names train scored (suc count)) (suc count) best)
        (record { depth = suc count; accuracy = some (accuracy_at names train scored (suc count)) })
        best (becomes_best count best h) (stays_best count best h)

  -- The loop returns a depth among the candidates, with its accuracy, and no candidate does better by more
  -- than the tolerance.
  pub try_depths-IsBestOf :
      (count : ℕ) → 1 ≤ count → IsBestOf count (try_depths names train scored count)
  unfolding try_depths
  try_depths-IsBestOf zero h = absurd (omega arith)
  try_depths-IsBestOf (suc zero) h = first_depth
  try_depths-IsBestOf (suc (suc count)) h =
      next_depth (suc count) (try_depths names train scored (suc count))
        (try_depths-IsBestOf (suc count) (omega arith))
