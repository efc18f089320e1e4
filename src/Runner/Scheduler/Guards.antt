-- ===== src/Runner/Scheduler/Guards.antt =====
-- repogauge/runner/scheduler.py: the semaphores of `_resource_guards`, shared by the worker threads.
pub mod Balance
pub mod Progress
mod Examples
use repogauge.Prelude.Text.{
  is_space, text_lt_irrefl, text_lt, text_lt_trans, Text, codes, text_eq, text_eq_sound,
  text_eq_refl, strip_prefix, strip_prefix-append, starts_with, contains,
}
use repogauge.Prelude.{
  ℕ, zero, suc, ◌+◌, ◌-◌, ◌*◌, ◌/◌, ◌%◌, ◌≤◌, ◌<◌, String, ◌≡◌, refl, sym, ap, ◌∙◌, subst, ◌≢◌, ◌↔◌,
  ◌⊎◌, inl, inr, Bool, true, false, not, ◌&&◌, ◌||◌, Option, none, some, List, [], ◌∷◌, ◌++◌, map,
  arith, ◌==◌, eq_iff, eq_refl, ltb, leb, nat_eq, if◌then◌else◌, ltb→lt, lt→ltb, ltb→le, leb→le,
  le→leb, nat_eq→eq, nat_eq_refl, tests, Bool-cases, Option-cases, is_some, length, any, all, keep,
  is_empty, All, length-append, All-append, In, member, member→In, In→member, Dict, get, put,
  get-put, keys, branches_hold, taken_holds, some_of_else, member-keep, differ→≢, str_lt, count,
  take, drop, then_lt, then_lt_trans, total, IsDistinct,
}

-- The semaphore of a provider that has its own limit, or the one that all others share.
pub data SemaId : Type 0 where
  named : String → SemaId
  fallback : SemaId

abbrev pub sema_eq : SemaId → SemaId → Bool
sema_eq (named a) (named b) = a == b
sema_eq fallback fallback = true
sema_eq _ _ = false

-- The limits that SolverScheduler.__init__ makes the semaphores from.
pub record Limits : Type 0 where
  pub max_parallel_jobs : ℕ
  pub provider_parallelism : Dict ℕ

-- _get_provider_semaphore
unfoldable pub get_provider_semaphore : Limits → String → SemaId
get_provider_semaphore limits provider_id =
    if is_some (get limits.provider_parallelism provider_id) then named provider_id else fallback

abbrev pub or_zero : Option ℕ → ℕ
or_zero none = 0
or_zero (some n) = n

-- What a semaphore is created with.
unfoldable pub capacity : Limits → SemaId → ℕ
capacity limits (named provider_id) = or_zero (get limits.provider_parallelism provider_id)
capacity limits fallback = limits.max_parallel_jobs

-- Where a worker is in `_resource_guards`: before it, holding the global semaphore, with both at
-- `limiter.acquire()`, with both in the body, or in `finally` with the provider's semaphore released.
-- A provider without a limiter lets its workers pass from the third to the fourth.
pub data Phase : Type 0 where
  outside holding throttled inside leaving : Phase

pub record Worker : Type 0 where
  pub provider_id : String
  pub phase : Phase

pub record Pool : Type 0 where
  pub global_free : ℕ
  pub free : SemaId → ℕ
  pub workers : List Worker

abbrev pub update : (SemaId → ℕ) → SemaId → ℕ → SemaId → ℕ
update f s n t = if sema_eq s t then n else f t

abbrev pub at_phase : String → Phase → Worker
at_phase p phase = record { provider_id = p; phase = phase }

-- One step of one worker; `before` and `after` are the others.
module _ (limits : Limits) where
  abbrev pub sema : String → SemaId
  sema = get_provider_semaphore limits

  pub data Step (t u : Pool) : Type 0 where
    acquire_global :
        (before after : List Worker) (p : String)
        → t.workers ≡ before ++ at_phase p outside ∷ after
        → 0 < t.global_free
        → u ≡ record t {
          global_free = t.global_free - 1;
          workers = before ++ at_phase p holding ∷ after;
        }
        → Step t u
    acquire_provider :
        (before after : List Worker) (p : String)
        → t.workers ≡ before ++ at_phase p holding ∷ after
        → 0 < t.free (sema p)
        → u ≡ record t {
          free = update t.free (sema p) (t.free (sema p) - 1);
          workers = before ++ at_phase p throttled ∷ after;
        }
        → Step t u
    admit :
        (before after : List Worker) (p : String)
        → t.workers ≡ before ++ at_phase p throttled ∷ after
        → u ≡ record t { workers = before ++ at_phase p inside ∷ after }
        → Step t u
    release_provider :
        (before after : List Worker) (p : String)
        → t.workers ≡ before ++ at_phase p inside ∷ after
        → u ≡ record t {
          free = update t.free (sema p) (t.free (sema p) + 1);
          workers = before ++ at_phase p leaving ∷ after;
        }
        → Step t u
    release_global :
        (before after : List Worker) (p : String)
        → t.workers ≡ before ++ at_phase p leaving ∷ after
        → u ≡ record t {
          global_free = t.global_free + 1;
          workers = before ++ at_phase p outside ∷ after;
        }
        → Step t u

  -- SolverScheduler.__init__ and the pool of threads, before any has started
  abbrev pub start : List String → Pool
  start providers = record {
    global_free = limits.max_parallel_jobs;
    free = capacity limits;
    workers = map (λ p. at_phase p outside) providers;
  }

  pub data Reach (s : Pool) : Pool → Type 0 where
    here : Reach s s
    next : {t u : Pool} → Reach s t → Step t u → Reach s u
