-- ===== src/Runner/Scheduler/RateLimit.antt =====
-- repogauge/runner/scheduler.py: _SimpleRateLimiter. Times count in one unit from a common origin; the
-- source's are floats of time.monotonic().
pub mod Window
pub mod Interleaved
mod Examples
use repogauge.Prelude.Text.{
  Text, codes, text_eq, text_eq_sound, text_eq_refl, strip_prefix, strip_prefix-append, starts_with,
  contains,
}
use repogauge.Prelude.{
  ℕ, zero, suc, ◌+◌, ◌-◌, ◌*◌, ◌/◌, ◌%◌, ◌≤◌, ◌<◌, String, ◌≡◌, refl, sym, ap, ◌∙◌, subst, ◌≢◌, ◌↔◌,
  ◌⊎◌, inl, inr, Bool, true, false, not, ◌&&◌, ◌||◌, Option, none, some, List, [], ◌∷◌, ◌++◌, map,
  arith, ◌==◌, eq_iff, eq_refl, ltb, leb, nat_eq, if◌then◌else◌, ltb→lt, lt→ltb, ltb→le, leb→le,
  le→leb, nat_eq→eq, nat_eq_refl, tests, Bool-cases, Option-cases, is_some, length, any, all, keep,
  is_empty, All, length-append, All-append, In, member, member→In, In→member, Dict, get, put,
  get-put, keys,
}

-- The first `while`: timestamps that left the window are dropped from the front. `now - t > window`
-- and the sleep `window - (now - t)` are written with sums, since `-` on ℕ stops at 0.
unfoldable pub expire : ℕ → ℕ → List ℕ → List ℕ
expire window now [] = []
expire window now (t ∷ ts) =
    let rest = expire window now ts in if ltb (t + window) now then rest else t ∷ ts

-- How one pass under the lock ends: the call is granted, or the thread has to sleep.
pub data Pass : Type 0 where
  granted : List ℕ → Pass
  waiting : ℕ → List ℕ → Pass

-- The oldest timestamp is dropped before the sleep.
abbrev pub wait_on : ℕ → ℕ → List ℕ → Pass
wait_on window now [] = waiting 0 []
wait_on window now (t ∷ ts) = waiting (t + window - now) ts

unfoldable pub pass : ℕ → ℕ → ℕ → List ℕ → Pass
pass calls window now timestamps =
    let kept = expire window now timestamps in
    if ltb (length kept) calls then granted (kept ++ now ∷ []) else wait_on window now kept

-- The `while True` of a thread that is alone with the limiter: when the call is granted, and the
-- timestamps then. The clock readings of the passes to come are a list.
unfoldable pub acquire_loop : ℕ → ℕ → List ℕ → List ℕ → Option (ℕ × List ℕ)
acquire_loop calls window [] timestamps = none
acquire_loop calls window (now ∷ later) timestamps = elim (pass calls window now timestamps) [
  | granted ts ↦ some (now, ts)
  | waiting _ ts ↦ acquire_loop calls window later ts
]

abbrev timestamps_of : Option (ℕ × List ℕ) → Option (List ℕ)
timestamps_of none = none
timestamps_of (some (now, ts)) = some ts

-- acquire: the timestamps that it leaves; a limit of 0 or less is none.
unfoldable pub acquire : ℕ → ℕ → List ℕ → List ℕ → Option (List ℕ)
unfolding acquire_loop
acquire calls window readings timestamps =
    if leb calls 0
    then some timestamps
    else timestamps_of (acquire_loop calls window readings timestamps)
