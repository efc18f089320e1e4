-- ===== src/Runner/Scheduler/RateLimit/Examples.antt =====
-- repogauge/runner/scheduler.py: a limiter of two calls in ten units of time.
use repogauge.Prelude.{ℕ, ◌≤◌, ◌≡◌, refl, some, List, [], ◌∷◌, ◌++◌, arith}
use repogauge.Runner.Scheduler.RateLimit.{pass, expire, waiting, granted, acquire_loop}
use repogauge.Runner.Scheduler.RateLimit.Window.{
  Reached, slept, at_once, fresh, recent, Reached-recent,
}
use repogauge.Runner.Scheduler.RateLimit.Interleaved.{pass-pass, acquire_loop-returns}

-- Calls at the times 0 and 3; the third, at 4, sleeps until 10.
three_calls : Reached 2 10 10 (3 ∷ 10 ∷ []) (10 ∷ 3 ∷ 0 ∷ [])
unfolding pass expire
three_calls =
    slept 4 6 10 (3 ∷ []) (3 ∷ 10 ∷ [])
      (at_once 3 (0 ∷ 3 ∷ []) (at_once 0 (0 ∷ []) fresh (omega arith) refl) (omega arith) refl)
      (omega arith) refl (omega arith) refl

Reached-recent_example : recent 10 11 (10 ∷ 3 ∷ 0 ∷ []) ≤ 2
Reached-recent_example =
    Reached-recent 2 10 10 11 (3 ∷ 10 ∷ []) (10 ∷ 3 ∷ 0 ∷ []) three_calls (omega arith)

pass-pass_example :
    (pass 2 10 4 (0 ∷ 3 ∷ []) ≡ waiting 6 (3 ∷ []))
    × (pass 2 10 5 (3 ∷ []) ≡ granted (expire 10 5 (3 ∷ []) ++ 5 ∷ []))
pass-pass_example = pass-pass 2 10 4 5 0 (3 ∷ []) refl (omega arith)

acquire_loop-returns_example :
    (r : ℕ × List ℕ) × (acquire_loop 2 10 (4 ∷ 10 ∷ []) (0 ∷ 3 ∷ []) ≡ some r)
acquire_loop-returns_example =
    acquire_loop-returns 2 10 4 10 (0 ∷ 3 ∷ []) (omega arith) (omega arith)
