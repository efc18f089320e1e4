-- ===== src/Runner/Scheduler/Job/Retries.antt =====
-- repogauge/runner/scheduler.py: how often `_execute_job` tries, and what ends a job.
use repogauge.Prelude.Text.{Text}
use repogauge.Prelude.{
  ℕ, zero, suc, ◌+◌, ◌-◌, ◌≤◌, ◌<◌, String, ◌≡◌, refl, sym, ap, ◌∙◌, subst, ◌⊎◌, inl, inr, true,
  false, Option, none, some, List, [], ◌∷◌, ◌++◌, arith, ◌==◌,
}
use mathlib.Core.List.{append_assoc}
use native.Mathlib.Decide.{ℕ_discrete}
use repogauge.Runner.Scheduler.State.{
  AttemptState, AdapterResult, queued, failed, timed_out, JobProgress, Log, returned,
}
use repogauge.Runner.Scheduler.AttemptId.{attempt_id}
use mathlib.Core.Path.{ap₂}
use repogauge.Runner.Scheduler.Job.{
  start_job, SchedulerConfig, JobRun, Decision, stop, again, after_attempt, retriable,
  attempts_loop, execute_job, conclude, attempt_budget, state_at, attempt_log, persist_job,
  start_time, job_ended, Outcome, raised,
}

-- An attempt after which the scheduler may try again.
abbrev pub IsRetryable : SchedulerConfig → ℕ → ℕ → AttemptState → Type 0
IsRetryable config attempts budget s =
    ((s ≡ failed) ⊎ (s ≡ timed_out)) × (retriable config s ≡ true) × (attempts < budget)

pub Decision-cases : (d : Decision) → (d ≡ again) ⊎ (d ≡ stop)
Decision-cases again = inl refl
Decision-cases stop = inr refl

pub again→IsRetryable :
    (config : SchedulerConfig) (attempts budget : ℕ) (s : AttemptState)
    → after_attempt config attempts budget s ≡ again
    → IsRetryable config attempts budget s
unfolding after_attempt
again→IsRetryable config attempts budget s h = ground arith

pub stop→not-IsRetryable :
    (config : SchedulerConfig) (attempts budget : ℕ) (s : AttemptState)
    → after_attempt config attempts budget s ≡ stop
    → ¬ IsRetryable config attempts budget s
unfolding after_attempt
stop→not-IsRetryable config attempts budget s h r = ground arith

module _ (run : JobRun) where
  -- The ids of `k` attempts after the first `n`.
  abbrev pub ids_from : ℕ → ℕ → List Text
  ids_from n zero = []
  ids_from n (suc k) = attempt_id run.job_id (n + 1) ∷ ids_from (n + 1) k

  -- The job ends with the first attempt after `n` that is not retryable.
  pub record IsFirstStop (budget n : ℕ) (ids : List Text) (p : JobProgress) : Type 0 where
    pub some_attempt : n < p.attempts
    pub within_budget : p.attempts ≤ budget
    pub last_state : p.final_status ≡ state_at run p.attempts
    pub last_stops : ¬ IsRetryable run.config p.attempts budget (state_at run p.attempts)
    pub retried :
        (i : ℕ) → n < i → i < p.attempts → IsRetryable run.config i budget (state_at run i)
    pub numbered : p.attempt_ids ≡ ids ++ ids_from n (p.attempts - n)

  module _ (rounds budget n : ℕ) (started : Option String) (ids : List Text) (log : Log) where
    pub attempts_loop-stop :
        after_attempt run.config (n + 1) budget (state_at run (n + 1)) ≡ stop
        → attempts_loop run (suc rounds) budget n started ids log
          ≡ conclude run
              (state_at run (n + 1))
              (some (start_time run started))
              (some (run.clock job_ended))
              (ids ++ attempt_id run.job_id (n + 1) ∷ [])
              (n + 1)
              (attempt_log run (n + 1) (some (start_time run started)) log)
    unfolding attempts_loop
    attempts_loop-stop e = rw (e, attempts_loop)

    pub attempts_loop-again :
        after_attempt run.config (n + 1) budget (state_at run (n + 1)) ≡ again
        → attempts_loop run (suc rounds) budget n started ids log
          ≡ attempts_loop run rounds budget
              (n + 1)
              (some (start_time run started))
              (ids ++ attempt_id run.job_id (n + 1) ∷ [])
              (persist_job run.config
                (attempt_log run (n + 1) (some (start_time run started)) log)
                queued
                (n + 1)
                (some (start_time run started))
                none)
    unfolding attempts_loop
    attempts_loop-again e = rw (e, attempts_loop)

  ids_from-suc :
      (n m : ℕ)
      → n + 1 ≤ m
      → ids_from n (m - n) ≡ attempt_id run.job_id (n + 1) ∷ ids_from (n + 1) (m - (n + 1))
  ids_from-suc n m h = let e : m - n ≡ suc (m - (n + 1)) = omega arith in rw e

  -- One attempt that ends the job.
  stop-IsFirstStop :
      (budget n : ℕ) (ids : List Text) (started ended : Option String) (log : Log)
      → n < budget
      → after_attempt run.config (n + 1) budget (state_at run (n + 1)) ≡ stop
      → IsFirstStop budget n ids
          (conclude run
            (state_at run (n + 1))
            started
            ended
            (ids ++ attempt_id run.job_id (n + 1) ∷ [])
            (n + 1)
            log).0
  unfolding conclude
  stop-IsFirstStop budget n ids started ended log h e = record {
    some_attempt = omega arith;
    within_budget = omega arith;
    last_state = refl;
    last_stops = stop→not-IsRetryable run.config (n + 1) budget (state_at run (n + 1)) e;
    retried = λ i low high. absurd (omega arith);
    numbered =
        ap (λ l. ids ++ l)
          (sym (
            ids_from-suc n (n + 1) (omega arith)
            ∙ (let none_left : n + 1 - (n + 1) ≡ 0 = omega arith in rw none_left)));
  }

  -- One more attempt in front.
  again-IsFirstStop :
      (budget n : ℕ) (ids : List Text) (p : JobProgress)
      → IsRetryable run.config (n + 1) budget (state_at run (n + 1))
      → IsFirstStop budget (n + 1) (ids ++ attempt_id run.job_id (n + 1) ∷ []) p
      → IsFirstStop budget n ids p
  again-IsFirstStop budget n ids p r f = record {
    some_attempt = omega (arith, f.some_attempt);
    within_budget = f.within_budget;
    last_state = f.last_state;
    last_stops = f.last_stops;
    retried = λ i low high. elim (ℕ_discrete i (n + 1)) [
      | yes e ↦ subst (λ k. IsRetryable run.config k budget (state_at run k)) (sym e) r
      | no ne ↦ f.retried i (omega arith) high
    ];
    numbered =
        f.numbered
        ∙ append_assoc ids _ _
        ∙ ap (λ l. ids ++ l) (sym (ids_from-suc n p.attempts (omega (arith, f.some_attempt))));
  }

  pub attempts_loop-IsFirstStop :
      (rounds budget n : ℕ) (started : Option String) (ids : List Text) (log : Log)
      → budget ≡ n + suc rounds
      → IsFirstStop budget n ids (attempts_loop run (suc rounds) budget n started ids log).0
  attempts_loop-IsFirstStop zero budget n started ids log h =
      elim (Decision-cases (after_attempt run.config (n + 1) budget (state_at run (n + 1)))) [
        | inl e ↦ absurd (
            omega (arith, (again→IsRetryable run.config (n + 1) budget (state_at run (n + 1)) e).2))
        | inr e ↦
            rw (attempts_loop-stop zero budget n started ids log e)
              (stop-IsFirstStop budget n ids _ _ _ (omega arith) e)
      ]
  attempts_loop-IsFirstStop (suc rounds) budget n started ids log h =
      elim (Decision-cases (after_attempt run.config (n + 1) budget (state_at run (n + 1)))) [
        | inl e ↦ rw (attempts_loop-again (suc rounds) budget n started ids log e) (
            again-IsFirstStop budget n ids _ (again→IsRetryable _ _ _ _ e)
              (attempts_loop-IsFirstStop rounds budget (n + 1) _ _ _ (omega arith)))
        | inr e ↦
            rw (attempts_loop-stop (suc rounds) budget n started ids log e)
              (stop-IsFirstStop budget n ids _ _ _ (omega arith) e)
      ]

pub attempt_budget-pos :
    (config : SchedulerConfig) (solver_id : String) (budget : ℕ)
    → attempt_budget config solver_id ≡ returned budget
    → 0 < budget
unfolding attempt_budget
attempt_budget-pos config solver_id budget h = ground arith

module _ (run : JobRun) (log : Log) (budget : ℕ) where
  -- What the loop of an accepted job starts from, and what it gives back.
  abbrev pub looped : JobProgress × Log
  looped = attempts_loop run budget budget 0 none [] (persist_job run.config log queued 0 none none)

  pub execute_job-loop :
      attempt_budget run.config run.solver_id ≡ returned budget
      → run.preflight ≡ returned none
      → execute_job run log ≡ (returned looped.0, looped.1)
  unfolding execute_job
  execute_job-loop accepted ready = ap₂ (λ b r. start_job run b r log) accepted ready

-- Where the budget is accepted and the preflight gives no reason to skip, the job returns. It has made
-- at least one attempt and at most its budget, numbered from 1. Every attempt but the last failed or
-- timed out in a state that is configured as retriable, with budget left. The last did not, and its
-- state is the final status of the job.
pub execute_job-IsFirstStop :
    (run : JobRun) (log : Log) (budget : ℕ)
    → attempt_budget run.config run.solver_id ≡ returned budget
    → run.preflight ≡ returned none
    → (p : JobProgress) × ((execute_job run log).0 ≡ returned p) × IsFirstStop run budget 0 [] p
execute_job-IsFirstStop run log zero accepted ready =
    absurd (omega (arith, attempt_budget-pos _ _ _ accepted))
execute_job-IsFirstStop run log (suc budget) accepted ready = (
  (looped run log (suc budget)).0,
  ap (λ r. r.0) (execute_job-loop run log (suc budget) accepted ready),
  attempts_loop-IsFirstStop run budget (suc budget) 0 none [] _ (omega arith),
)

start_job-skips :
    (run : JobRun) (log : Log) (reason : String) (other : Text → ℕ → AdapterResult)
    (budget : Outcome ℕ)
    → (reason == "") ≡ false
    → start_job (record run { attempt = other }) budget (returned (some reason)) log
      ≡ start_job run budget (returned (some reason)) log
unfolding conclude
start_job-skips run log reason other (raised e) nonempty = refl
start_job-skips run log reason other (returned budget) nonempty = rw nonempty

-- A job that the preflight tells to skip, with a reason that is not empty, makes no attempt: its
-- progress and its rows are the same whatever the adapter would have answered.
pub execute_job-skips :
    (run : JobRun) (log : Log) (reason : String) (other : Text → ℕ → AdapterResult)
    → run.preflight ≡ returned (some reason)
    → (reason == "") ≡ false
    → execute_job (record run { attempt = other }) log ≡ execute_job run log
unfolding execute_job
execute_job-skips run log reason other skips nonempty =
    ap
      (λ r.
        start_job (record run { attempt = other }) (attempt_budget run.config run.solver_id) r log)
      skips
    ∙ start_job-skips run log reason other (attempt_budget run.config run.solver_id) nonempty
    ∙ sym (ap (λ r. start_job run (attempt_budget run.config run.solver_id) r log) skips)
