-- ===== src/Mining/Score/Bounds.antt =====
-- repogauge/mining/score.py: what the score of a commit can be, and what it is made of.
use repogauge.Prelude.{
  ℕ, String, ◌≡◌, refl, sym, ap, ◌∙◌, ◌≢◌, ◌⊎◌, inl, inr, Bool, true, false, ◌&&◌, some, List, [],
  ◌∷◌, ◌++◌, arith, taken_holds, differ→≢,
}
use repogauge.Prelude.Text.{Text}
use repogauge.Prelude.Int.{ℤ, pos, negsuc, ◌+ℤ◌, ◌≤ℤ◌, int_laws, +ℤ_assoc}
use repogauge.Mining.Pattern.{first}
use repogauge.Mining.Signals.{has_new_tests-never}
use repogauge.Mining.Reject.{Metadata, row_metadata_int, has, is_hard_reject}
use repogauge.Mining.Score.{
  ScoredCommit, Tally, add_if, add, patch_size, apply_positional_scores, no_score, Component,
  apply_penalties, decision_band, score_scan_commit, leb_ℤ, branches_hold,
}

-- The weights of a breakdown, added up.
abbrev pub total : List Component → ℤ
total [] = pos 0
total (c ∷ cs) = c.weight +ℤ total cs

total-snoc : (cs : List Component) (c : Component) → total (cs ++ c ∷ []) ≡ total cs +ℤ c.weight
total-snoc [] c = omega int_laws
total-snoc (d ∷ ds) c =
    ap (λ n. d.weight +ℤ n) (total-snoc ds c) ∙ sym (+ℤ_assoc d.weight (total ds) c.weight)

-- A tally whose score is the sum of its breakdown and lies in the bounds.
record IsTally (lo hi : ℤ) (t : Tally) : Type 0 where
  summed : t.score ≡ total t.breakdown
  above : lo ≤ℤ t.score
  below : t.score ≤ℤ hi

-- One step adds at most one entry, with a weight in the bounds.
IsStep : ℤ → ℤ → Tally → Tally → Type 0
IsStep lo hi t u =
    (u ≡ t)
    ⊎ ((component : String) × (weight : ℤ) × (reason : Text) × (u ≡ add component weight reason t)
        × (lo ≤ℤ weight)
        × (weight ≤ℤ hi))

add-IsTally :
    (component : String) (weight : ℤ) (reason : Text) (t : Tally) (lo hi a b : ℤ)
    → a ≤ℤ weight
    → weight ≤ℤ b
    → IsTally lo hi t
    → IsTally (lo +ℤ a) (hi +ℤ b) (add component weight reason t)
unfolding add
add-IsTally component weight reason t lo hi a b above below h = record {
  summed = ap (λ n. n +ℤ weight) h.summed ∙ sym (total-snoc t.breakdown _);
  above = omega (int_laws, above, h.above);
  below = omega (int_laws, below, h.below);
}

step-IsTally :
    (lo hi a b : ℤ) (t u : Tally)
    → a ≤ℤ pos 0
    → pos 0 ≤ℤ b
    → IsStep a b t u
    → IsTally lo hi t
    → IsTally (lo +ℤ a) (hi +ℤ b) u
unfolding IsStep
step-IsTally lo hi a b t u down up (inl same) h = rw same (record {
  summed = h.summed;
  above = omega (int_laws, down, h.above);
  below = omega (int_laws, up, h.below);
})
step-IsTally lo hi a b t u down up (inr (component, weight, reason, e, above, below)) h =
    rw e (add-IsTally component weight reason t lo hi a b above below h)

add_if-IsStep :
    (test : Bool) (component : String) (weight : ℤ) (reason : Text) (t : Tally) (lo hi : ℤ)
    → lo ≤ℤ weight
    → weight ≤ℤ hi
    → IsStep lo hi t (add_if test component weight reason t)
unfolding add_if IsStep
add_if-IsStep true component weight reason t lo hi above below =
    inr (component, weight, reason, refl, above, below)
add_if-IsStep false component weight reason t lo hi above below = inl refl

rise :
    (n : ℕ) (lo hi : ℤ) (test : Bool) (component : String) (reason : Text) (t : Tally)
    → IsTally lo hi t
    → IsTally (lo +ℤ pos 0) (hi +ℤ pos n) (add_if test component (pos n) reason t)
rise n lo hi test component reason t h =
    step-IsTally lo hi (pos 0) (pos n) t _ (omega arith) (omega arith)
      (add_if-IsStep test component (pos n) reason t (pos 0) (pos n) (omega arith) (omega arith)) h

fall :
    (n : ℕ) (lo hi : ℤ) (test : Bool) (component : String) (reason : Text) (t : Tally)
    → IsTally lo hi t
    → IsTally (lo +ℤ negsuc n) (hi +ℤ pos 0) (add_if test component (negsuc n) reason t)
fall n lo hi test component reason t h =
    step-IsTally lo hi (negsuc n) (pos 0) t _ (omega arith) (omega arith)
      (add_if-IsStep test component (negsuc n) reason t (negsuc n) (pos 0) (omega arith)
        (omega arith))
      h

skip :
    (lo hi weight : ℤ) (test : Bool) (component : String) (reason : Text) (t : Tally)
    → test ≡ false
    → IsTally lo hi t
    → IsTally lo hi (add_if test component weight reason t)
unfolding add_if
skip lo hi weight test component reason t off h = rw off h

take :
    (lo hi weight : ℤ) (test : Bool) (component : String) (reason : Text) (t : Tally)
    → test ≡ true
    → IsTally lo hi t
    → IsTally (lo +ℤ weight) (hi +ℤ weight) (add_if test component weight reason t)
unfolding add_if
take lo hi weight test component reason t on h =
    rw on (add-IsTally component weight reason t lo hi weight weight (omega arith) (omega arith) h)

start-IsTally : IsTally (pos 0) (pos 0) no_score
start-IsTally = record { summed = refl; above = omega arith; below = omega arith }

module _ (metadata : Metadata) where
  patch_size-IsStep : (t : Tally) → IsStep (negsuc 2) (pos 3) t (patch_size metadata t)
  unfolding IsStep
  patch_size-IsStep t =
      branches_hold (IsStep (negsuc 2) (pos 3) t) _ _ _
        (inr ("patch_size", pos 3, _, refl, omega arith, omega arith))
        (add_if-IsStep _ _ _ _ t (negsuc 2) (pos 3) (omega arith) (omega arith))

  -- The steps between the first, which asks for tests, and the penalties.
  positional-IsTally :
      (subject body diff : Text)
      → IsTally (negsuc 2) (pos 16) (apply_positional_scores metadata subject body diff no_score)
  unfolding apply_positional_scores ◌+ℤ◌
  positional-IsTally subject body diff = rise 2 (negsuc 2) (pos 14) _ _ _ _ (
      rise 2 (negsuc 2) (pos 12) _ _ _ _ (
        rise 2 (negsuc 2) (pos 10) _ _ _ _ (
          rise 3 (negsuc 2) (pos 7) _ _ _ _ (
            step-IsTally (pos 0) (pos 4) (negsuc 2) (pos 3) _ _ (omega arith) (omega arith)
              (patch_size-IsStep _) (rise 4 (pos 0) (pos 0) _ _ _ _ start-IsTally)))))

  penalties-IsTally :
      (t : Tally)
      → IsTally (negsuc 2) (pos 16) t
      → IsTally (negsuc 9) (pos 16) (apply_penalties metadata t)
  unfolding apply_penalties ◌+ℤ◌
  penalties-IsTally t h = fall 2 (negsuc 6) (pos 16) _ _ _ _ (fall 3 (negsuc 2) (pos 16) _ _ _ _ h)

  has_none : (key : String) → row_metadata_int metadata key ≡ pos 0 → has metadata key ≡ false
  unfolding has
  has_none key h = rw h refl

  and_false : (a b : Bool) → b ≡ false → (a && b) ≡ false
  and_false a b h = ground arith

  module _ (subject body diff : Text) where
    module _ (untested : row_metadata_int metadata "n_test_files" ≡ pos 0)
        (plain : first diff ≢ some b'\\') where
      -- Without test files the first signal is off, the last is dead, and the penalty is due.
      untested-IsTally :
          IsTally
            (negsuc 9)
            (pos 6)
            (apply_penalties metadata (apply_positional_scores metadata subject body diff no_score))
      unfolding apply_positional_scores apply_penalties ◌+ℤ◌
      untested-IsTally = fall 2 (negsuc 6) (pos 6) _ _ _ _ (
          take (negsuc 2) (pos 10) (negsuc 3) _ _ _ _ (rw untested refl) (
            skip (negsuc 2) (pos 10) _ _ _ _ _ (has_new_tests-never diff plain) (
              rise 2 (negsuc 2) (pos 8) _ _ _ _ (
                rise 2 (negsuc 2) (pos 6) _ _ _ _ (
                  rise 3 (negsuc 2) (pos 3) _ _ _ _ (
                    step-IsTally (pos 0) (pos 0) (negsuc 2) (pos 3) _ _ (omega arith) (omega arith)
                      (patch_size-IsStep _)
                      (skip (pos 0) (pos 0) _ _ _ _ _
                        (and_false _ _ (has_none "n_test_files" untested)) start-IsTally)))))))

not_shortlisted : (score : ℤ) → score ≤ℤ pos 6 → decision_band score ≢ "shortlist"
unfolding decision_band
not_shortlisted score h =
    taken_holds (λ s. s ≢ "shortlist") (leb_ℤ (pos 8) score) _ _ (λ high. absurd (ground arith))
      (λ _.
        branches_hold (λ s. s ≢ "shortlist") (leb_ℤ (pos 5) score) _ _ (differ→≢ _ _ refl)
          (differ→≢ _ _ refl))

module _ (subject body diff : Text) (metadata : Metadata) where
  -- The score of every commit is the sum of the weights in its breakdown, and lies between -10 and 16.
  pub score_scan_commit-total :
      ((score_scan_commit subject body diff metadata).score
        ≡ total (score_scan_commit subject body diff metadata).score_breakdown)
      × (negsuc 9 ≤ℤ (score_scan_commit subject body diff metadata).score)
      × ((score_scan_commit subject body diff metadata).score ≤ℤ pos 16)
  unfolding score_scan_commit ◌+ℤ◌
  score_scan_commit-total =
      let h = penalties-IsTally metadata _ (positional-IsTally metadata subject body diff) in
      branches_hold
        (λ (s : ScoredCommit).
          (s.score ≡ total s.score_breakdown) × (negsuc 9 ≤ℤ s.score) × (s.score ≤ℤ pos 16))
        (is_hard_reject metadata diff) _ _ (refl, omega arith, omega arith)
        (h.summed, h.above, h.below)

  -- A commit without test files, whose diff does not start with a backslash, is never shortlisted,
  -- whatever its message and its size.
  pub score_scan_commit-untested :
      row_metadata_int metadata "n_test_files" ≡ pos 0
      → first diff ≢ some b'\\'
      → (score_scan_commit subject body diff metadata).decision_band ≢ "shortlist"
  unfolding score_scan_commit
  score_scan_commit-untested untested plain =
      let h = untested-IsTally metadata subject body diff untested plain in
      branches_hold (λ (s : ScoredCommit). s.decision_band ≢ "shortlist")
        (is_hard_reject metadata diff) _ _ (differ→≢ _ _ refl) (not_shortlisted _ h.below)
