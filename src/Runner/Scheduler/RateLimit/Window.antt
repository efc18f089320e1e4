-- ===== src/Runner/Scheduler/RateLimit/Window.antt =====
-- repogauge/runner/scheduler.py: the promise of _SimpleRateLimiter to a thread that is alone with it.
use repogauge.Prelude.{
  ℕ, ◌+◌, ◌-◌, ◌≤◌, ◌<◌, ◌≡◌, refl, List, [], ◌∷◌, ◌++◌, arith, ltb, if◌then◌else◌, length,
  length-append,
}
use repogauge.Runner.Scheduler.RateLimit.{expire, granted, waiting, wait_on, pass}

-- How many of the times lie less than a window before `now`.
abbrev pub recent : ℕ → ℕ → List ℕ → ℕ
recent window now [] = 0
recent window now (t ∷ ts) = (if ltb now (t + window) then 1 else 0) + recent window now ts

recent-append :
    (window now : ℕ) (xs ys : List ℕ)
    → recent window now (xs ++ ys) ≡ recent window now xs + recent window now ys
recent-append window now [] ys = omega arith
recent-append window now (x ∷ xs) ys = omega (arith, recent-append window now xs ys)

recent-le-length : (window now : ℕ) (xs : List ℕ) → recent window now xs ≤ length xs
recent-le-length window now [] = omega arith
recent-le-length window now (x ∷ xs) = ground (arith, recent-le-length window now xs)

-- The expired timestamps are recent at no later time.
recent-expire :
    (window now later : ℕ) (ts : List ℕ)
    → now ≤ later
    → recent window later (expire window now ts) ≡ recent window later ts
unfolding expire
recent-expire window now later [] h = refl
recent-expire window now later (t ∷ ts) h = ground (arith, recent-expire window now later ts)

pub length-expire : (window now : ℕ) (ts : List ℕ) → length (expire window now ts) ≤ length ts
unfolding expire
length-expire window now [] = omega arith
length-expire window now (t ∷ ts) = ground (arith, length-expire window now ts)

-- The timestamps cover what may still count of the calls that were granted.
pub record Covers (calls window clock : ℕ) (timestamps history : List ℕ) : Type 0 where
  pub within : length timestamps ≤ calls
  pub covered :
      (later : ℕ) → clock ≤ later → recent window later history ≤ recent window later timestamps

module _ (calls window : ℕ) where
  -- The states that one thread reaches by its calls: the last grant, the timestamps and all grants. A
  -- call is granted at once, or at a second pass, no sooner than the sleep lasts.
  pub data Reached : ℕ → List ℕ → List ℕ → Type 0 where
    fresh : Reached 0 [] []
    at_once :
        {clock : ℕ} {ts history : List ℕ} (now : ℕ) (ts' : List ℕ)
        → Reached clock ts history
        → clock ≤ now
        → pass calls window now ts ≡ granted ts'
        → Reached now ts' (now ∷ history)
    slept :
        {clock : ℕ} {ts history : List ℕ} (now seconds then_now : ℕ) (ts' ts'' : List ℕ)
        → Reached clock ts history
        → clock ≤ now
        → pass calls window now ts ≡ waiting seconds ts'
        → now + seconds ≤ then_now
        → pass calls window then_now ts' ≡ granted ts''
        → Reached then_now ts'' (then_now ∷ history)

  granted_inv :
      (now : ℕ) (kept ts' : List ℕ)
      → (if ltb (length kept) calls then granted (kept ++ now ∷ []) else wait_on window now kept)
        ≡ granted ts'
      → (length kept < calls) × (ts' ≡ kept ++ now ∷ [])
  granted_inv now [] ts' e = ground arith
  granted_inv now (t ∷ kept) ts' e = ground arith

  waiting_inv :
      (now seconds : ℕ) (kept ts' : List ℕ)
      → (if ltb (length kept) calls then granted (kept ++ now ∷ []) else wait_on window now kept)
        ≡ waiting seconds ts'
      → (length ts' ≤ length kept)
        × ((later : ℕ) → now + seconds ≤ later → recent window later kept ≡ recent window later ts')
  waiting_inv now seconds [] ts' e =
      let empty : ts' ≡ [] = ground arith in rw empty (omega arith, λ later h. refl)
  waiting_inv now seconds (t ∷ kept) ts' e =
      let rest : ts' ≡ kept = ground arith in
      let sleep : seconds ≡ t + window - now = ground arith in
      rw rest (omega arith, λ later h. ground (arith, sleep))

  -- A granted pass.
  granted-Covers :
      (clock now : ℕ) (ts ts' history : List ℕ)
      → Covers calls window clock ts history
      → clock ≤ now
      → pass calls window now ts ≡ granted ts'
      → Covers calls window now ts' (now ∷ history)
  unfolding pass
  granted-Covers clock now ts ts' history c h e =
      let kept = expire window now ts in
      let (room, made) = granted_inv now kept ts' e in
      rw made (record {
        within = omega (arith, length-append kept (now ∷ []));
        covered = λ later g. omega (
          arith,
          c.covered later (omega arith),
          recent-append window later kept (now ∷ []),
          recent-expire window now later ts g,
        );
      })

  -- A pass that waits: at its end the dropped timestamp has left the window.
  waiting-Covers :
      (clock now seconds then_now : ℕ) (ts ts' history : List ℕ)
      → Covers calls window clock ts history
      → clock ≤ now
      → pass calls window now ts ≡ waiting seconds ts'
      → now + seconds ≤ then_now
      → Covers calls window then_now ts' history
  unfolding pass
  waiting-Covers clock now seconds then_now ts ts' history c h e s =
      let kept = expire window now ts in
      let (shorter, same) = waiting_inv now seconds kept ts' e in
      record {
        within = omega (arith, length-expire window now ts, c.within);
        covered = λ later g. omega (
          arith,
          c.covered later (omega arith),
          recent-expire window now later ts (omega arith),
          same later (omega arith),
        );
      }

  Reached-Covers :
      {clock : ℕ} {ts history : List ℕ}
      → Reached clock ts history
      → Covers calls window clock ts history
  Reached-Covers fresh = record { within = omega arith; covered = λ later h. omega arith }
  Reached-Covers (at_once {clock} {ts} {history} now ts' r h e) =
      granted-Covers clock now ts ts' history (Reached-Covers r) h e
  Reached-Covers (slept {clock} {ts} {history} now seconds then_now ts' ts'' r h e s e') =
      granted-Covers then_now then_now ts' ts'' history
        (waiting-Covers clock now seconds then_now ts ts' history (Reached-Covers r) h e s)
        (omega arith) e'

  -- While one thread uses the limiter, at every time from the last grant on, at most `calls` of the
  -- granted calls lie less than a window back.
  pub Reached-recent :
      (clock later : ℕ) (ts history : List ℕ)
      → Reached clock ts history
      → clock ≤ later
      → recent window later history ≤ calls
  Reached-recent clock later ts history r h =
      let c : Covers calls window clock ts history = Reached-Covers r in
      omega (arith, c.covered later h, recent-le-length window later ts, c.within)
