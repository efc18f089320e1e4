-- ===== src/Runner/Scheduler/RateLimit/Interleaved.antt =====
-- repogauge/runner/scheduler.py: _SimpleRateLimiter.acquire with a second thread at the limiter.
use repogauge.Prelude.{
  ℕ, ◌+◌, ◌-◌, ◌≤◌, ◌<◌, ◌≡◌, refl, ◌⊎◌, inl, inr, some, List, [], ◌∷◌, ◌++◌, arith, ltb,
  if◌then◌else◌, lt→ltb, length,
}
use repogauge.Runner.Scheduler.RateLimit.{
  expire, Pass, granted, waiting, wait_on, pass, acquire_loop,
}
use repogauge.Runner.Scheduler.RateLimit.Window.{length-expire}

expire_fresh :
    (window now t : ℕ) (ts : List ℕ) → now ≤ t + window → expire window now (t ∷ ts) ≡ t ∷ ts
unfolding expire
expire_fresh window now t ts h = ground arith

length-expire-wait :
    (window now : ℕ) (calls : ℕ) (ts : List ℕ)
    → length ts < calls
    → length (expire window now ts) < calls
length-expire-wait window now calls ts h = omega (arith, length-expire window now ts)

room :
    (calls window now : ℕ) (ts : List ℕ)
    → length ts < calls
    → pass calls window now ts ≡ granted (expire window now ts ++ now ∷ [])
unfolding pass
room calls window now ts h = rw (lt→ltb _ _ (length-expire-wait window now calls ts h))

-- Where the limiter is full and nothing has expired, a pass waits; yet the next pass, by any thread and
-- at any time, is granted: the timestamp that it should wait for is gone.
pub pass-pass :
    (calls window now soon t : ℕ) (ts : List ℕ)
    → length (t ∷ ts) ≡ calls
    → now ≤ t + window
    → (pass calls window now (t ∷ ts) ≡ waiting (t + window - now) ts)
      × (pass calls window soon ts ≡ granted (expire window soon ts ++ soon ∷ []))
unfolding pass
pass-pass calls window now soon t ts full young = (
  rw (expire_fresh window now t ts young) (ground arith),
  room calls window soon ts (omega arith),
)

Pass-cases :
    (p : Pass) → ((ts : List ℕ) × (p ≡ granted ts)) ⊎ ((s : ℕ) × (ts : List ℕ) × (p ≡ waiting s ts))
Pass-cases (granted ts) = inl (ts, refl)
Pass-cases (waiting s ts) = inr (s, ts, refl)

waiting_shorter :
    (calls window now seconds : ℕ) (kept ts : List ℕ)
    → 0 < calls
    → (if ltb (length kept) calls then granted (kept ++ now ∷ []) else wait_on window now kept)
      ≡ waiting seconds ts
    → length ts < length kept
waiting_shorter calls window now seconds [] ts h e = ground arith
waiting_shorter calls window now seconds (t ∷ kept) ts h e =
    let rest : ts ≡ kept = ground arith in rw rest (omega arith)

pass_shorter :
    (calls window now seconds : ℕ) (ts ts' : List ℕ)
    → 0 < calls
    → pass calls window now ts ≡ waiting seconds ts'
    → length ts' < length ts
unfolding pass
pass_shorter calls window now seconds ts ts' h e = omega (
  arith,
  waiting_shorter calls window now seconds (expire window now ts) ts' h e,
  length-expire window now ts,
)

-- A thread that is alone is granted its call at the first pass or at the second.
pub acquire_loop-returns :
    (calls window now then_now : ℕ) (ts : List ℕ)
    → 0 < calls
    → length ts ≤ calls
    → (r : ℕ × List ℕ) × (acquire_loop calls window (now ∷ then_now ∷ []) ts ≡ some r)
unfolding acquire_loop
acquire_loop-returns calls window now then_now ts some_calls bounded =
    elim (Pass-cases (pass calls window now ts)) [
      | inl (ts', e) ↦ ((now, ts'), rw (e, acquire_loop))
      | inr (seconds, ts', e) ↦
          let kept = expire window then_now ts' in
          let free =
            room calls window then_now ts'
              (omega (arith, pass_shorter calls window now seconds ts ts' some_calls e)) in
          ((then_now, kept ++ then_now ∷ []), rw (e, acquire_loop, free))
    ]
