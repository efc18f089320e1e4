-- ===== src/Runner/Scheduler/Job/History.antt =====
-- repogauge/runner/scheduler.py: the rows that `_execute_job` persists, in their order.
use repogauge.Prelude.Text.{Text}
use repogauge.Prelude.{
  ℕ, zero, suc, ◌+◌, ◌-◌, ◌<◌, String, ◌≡◌, sym, ap, ◌∙◌, inl, inr, true, Option, none, some, List,
  [], ◌∷◌, ◌++◌, arith,
}
use mathlib.Core.List.{append_assoc}
use repogauge.Runner.Scheduler.State.{
  AttemptState, queued, running, AttemptRow, JobRow, JobProgress, Log, returned, Outcome,
}
use repogauge.Runner.Scheduler.AttemptId.{attempt_id}
use repogauge.Runner.Scheduler.Job.{
  JobRun, after_attempt, attempts_loop, execute_job, conclude, attempt_budget, state_at, result_at,
  attempt_row, attempt_log, persist_job, start_time, job_ended, attempt_started, attempt_ended,
  job_started,
}
use repogauge.Runner.Scheduler.Job.Retries.{
  attempts_loop-stop, attempts_loop-again, attempts_loop-IsFirstStop, Decision-cases,
  again→IsRetryable, attempt_budget-pos, execute_job-loop, looped,
}

abbrev pub job_row : AttemptState → ℕ → Option String → Option String → JobRow
job_row status attempts started_at ended_at = record {
  status = status;
  attempts = attempts;
  started_at = started_at;
  ended_at = ended_at;
}

module _ (run : JobRun) (t : String) where
  -- The job rows of `k` attempts after the first `n`: each starts, all but the last go back to the
  -- queue, and the last gives the job its state.
  abbrev pub history : ℕ → ℕ → List JobRow
  history n zero = []
  history n (suc zero) =
      job_row running (n + 1) (some t) none
      ∷ job_row (state_at run (n + 1)) (n + 1) (some t) (some (run.clock job_ended))
      ∷ []
  history n (suc (suc k)) =
      job_row running (n + 1) (some t) none
      ∷ job_row queued (n + 1) (some t) none
      ∷ history (n + 1) (suc k)

module _ (run : JobRun) where
  -- The attempt rows of `k` attempts after the first `n`.
  abbrev pub attempt_rows : ℕ → ℕ → List AttemptRow
  attempt_rows n zero = []
  attempt_rows n (suc k) =
      attempt_row run (attempt_id run.job_id (n + 1)) (run.clock (attempt_started (n + 1)))
        (run.clock (attempt_ended (n + 1))) (result_at run (n + 1))
      ∷ attempt_rows (n + 1) k

  -- What a job adds to the log.
  pub record IsRecorded (t : String) (n : ℕ) (log : Log) (r : JobProgress × Log) : Type 0 where
    pub jobs : r.1.jobs ≡ log.jobs ++ history run t n (r.0.attempts - n)
    pub attempts : r.1.attempts ≡ log.attempts ++ attempt_rows n (r.0.attempts - n)

  module _ (jobs_kept : run.config.persist_jobs_to ≡ true)
      (attempts_kept : run.config.persist_attempts_to ≡ true) where
    jobs-attempt_log :
        (n : ℕ) (started : Option String) (log : Log)
        → (attempt_log run n started log).jobs ≡ log.jobs ++ job_row running n started none ∷ []
    unfolding attempt_log
    jobs-attempt_log n started log = ground arith

    attempts-attempt_log :
        (n : ℕ) (started : Option String) (log : Log)
        → (attempt_log run n started log).attempts
          ≡ log.attempts
            ++ attempt_row run
                (attempt_id run.job_id n)
                (run.clock (attempt_started n))
                (run.clock (attempt_ended n))
                (result_at run n)
              ∷ []
    unfolding attempt_log
    attempts-attempt_log n started log = ground arith

    jobs-persist_job :
        (log : Log) (s : AttemptState) (n : ℕ) (started ended : Option String)
        → (persist_job run.config log s n started ended).jobs
          ≡ log.jobs ++ job_row s n started ended ∷ []
    unfolding persist_job
    jobs-persist_job log s n started ended = ground arith

    attempts-persist_job :
        (log : Log) (s : AttemptState) (n : ℕ) (started ended : Option String)
        → (persist_job run.config log s n started ended).attempts ≡ log.attempts
    unfolding persist_job
    attempts-persist_job log s n started ended = ground arith

    stop-IsRecorded :
        (n : ℕ) (t : String) (ids : List Text) (log : Log)
        → IsRecorded t n log (
            conclude run
              (state_at run (n + 1))
              (some t)
              (some (run.clock job_ended))
              ids
              (n + 1)
              (attempt_log run (n + 1) (some t) log))
    unfolding conclude
    stop-IsRecorded n t ids log =
        let one : n + 1 - n ≡ suc zero = omega arith in
        record {
          jobs = rw (one, jobs-persist_job, jobs-attempt_log) (append_assoc log.jobs _ _);
          attempts = rw (one, attempts-persist_job, attempts-attempt_log);
        }

    again-IsRecorded :
        (n : ℕ) (t : String) (log : Log) (r : JobProgress × Log)
        → n + 1 < r.0.attempts
        → IsRecorded t
            (n + 1)
            (persist_job run.config
              (attempt_log run (n + 1) (some t) log)
              queued
              (n + 1)
              (some t)
              none)
            r
        → IsRecorded t n log r
    again-IsRecorded n t log r more h =
        let k : r.0.attempts - n ≡ suc (suc (r.0.attempts - (n + 2))) = omega arith in
        let l : r.0.attempts - (n + 1) ≡ suc (r.0.attempts - (n + 2)) = omega arith in
        record {
          jobs = rw k ((rw (l, jobs-persist_job, jobs-attempt_log) at h.jobs) ∙ simp append_assoc);
          attempts = rw k (
              (rw (l, attempts-persist_job, attempts-attempt_log) at h.attempts)
              ∙ simp append_assoc);
        }

    attempts_loop-IsRecorded :
        (rounds budget n : ℕ) (started : Option String) (ids : List Text) (log : Log)
        → budget ≡ n + suc rounds
        → IsRecorded
            (start_time run started)
            n
            log
            (attempts_loop run (suc rounds) budget n started ids log)
    attempts_loop-IsRecorded zero budget n started ids log h =
        elim (Decision-cases (after_attempt run.config (n + 1) budget (state_at run (n + 1)))) [
          | inl e ↦ absurd (
              omega
                (arith, (again→IsRetryable run.config (n + 1) budget (state_at run (n + 1)) e).2))
          | inr e ↦
              rw (attempts_loop-stop run zero budget n started ids log e)
                (stop-IsRecorded n _ _ log)
        ]
    attempts_loop-IsRecorded (suc rounds) budget n started ids log h =
        elim (Decision-cases (after_attempt run.config (n + 1) budget (state_at run (n + 1)))) [
          | inl e ↦ rw (attempts_loop-again run (suc rounds) budget n started ids log e) (
              again-IsRecorded n _ log _
                (attempts_loop-IsFirstStop run rounds budget (n + 1) _ _ _
                  (omega arith)).some_attempt
                (attempts_loop-IsRecorded rounds budget (n + 1) _ _ _ (omega arith)))
          | inr e ↦
              rw (attempts_loop-stop run (suc rounds) budget n started ids log e)
                (stop-IsRecorded n _ _ log)
        ]

returned-injective :
    {p q : JobProgress} → ◌≡◌ {A = Outcome JobProgress} (returned p) (returned q) → p ≡ q
returned-injective e = cc

-- Where both files are configured, the budget is accepted and nothing is skipped, the job adds to the
-- job file one queued row and then, for each attempt, a running row followed by a queued row, or by a
-- row with the state of the attempt if it is the last; to the attempt file it adds one row for each
-- attempt, in order, with the state, patch and reason of the attempt's result.
pub execute_job-IsRecorded :
    (run : JobRun) (log : Log) (budget : ℕ) (p : JobProgress)
    → run.config.persist_jobs_to ≡ true
    → run.config.persist_attempts_to ≡ true
    → attempt_budget run.config run.solver_id ≡ returned budget
    → run.preflight ≡ returned none
    → (execute_job run log).0 ≡ returned p
    → ((execute_job run log).1.jobs
        ≡ log.jobs ++ job_row queued 0 none none ∷ history run (run.clock job_started) 0 p.attempts)
      × ((execute_job run log).1.attempts ≡ log.attempts ++ attempt_rows run 0 p.attempts)
unfolding persist_job
execute_job-IsRecorded run log zero p jk ak accepted ready h =
    absurd (omega (arith, attempt_budget-pos _ _ _ accepted))
execute_job-IsRecorded run log (suc budget) p jk ak accepted ready h =
    let whole = execute_job-loop run log (suc budget) accepted ready in
    let l = looped run log (suc budget) in
    let made : p ≡ l.0 = returned-injective (sym h ∙ ap (λ r. r.0) whole) in
    let rows =
      attempts_loop-IsRecorded run jk ak budget (suc budget) 0 none []
        (persist_job run.config log queued 0 none none) (omega arith) in
    let all_made : l.0.attempts - 0 ≡ l.0.attempts = omega arith in
    rw (whole, made)
      (
        (rw (all_made, jobs-persist_job run jk ak) at rows.jobs) ∙ append_assoc log.jobs _ _,
        (rw (all_made, attempts-persist_job run jk ak) at rows.attempts),
      )
