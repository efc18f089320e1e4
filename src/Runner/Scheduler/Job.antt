-- ===== src/Runner/Scheduler/Job.antt =====
-- repogauge/runner/scheduler.py: SolverScheduler._execute_job with the rows that it persists.
pub mod Retries
pub mod History
use repogauge.Prelude.{
  ℕ, zero, suc, ◌+◌, ◌-◌, ◌*◌, ◌/◌, ◌%◌, ◌≤◌, ◌<◌, String, ◌≡◌, refl, sym, ap, ◌∙◌, subst, ◌≢◌, ◌↔◌,
  ◌⊎◌, inl, inr, Bool, true, false, not, ◌&&◌, ◌||◌, Option, none, some, List, [], ◌∷◌, ◌++◌, map,
  arith, ◌==◌, eq_iff, eq_refl, ltb, leb, nat_eq, if◌then◌else◌, ltb→lt, lt→ltb, ltb→le, leb→le,
  le→leb, nat_eq→eq, nat_eq_refl, tests, Bool-cases, Option-cases, is_some, length, any, all, keep,
  is_empty, All, length-append, All-append, In, member, member→In, In→member, Dict, get, put,
  get-put, keys,
}
use repogauge.Prelude.Text.{
  Text, codes, text_eq, text_eq_sound, text_eq_refl, strip_prefix, strip_prefix-append, starts_with,
  contains,
}
use repogauge.Runner.Scheduler.AttemptId.{attempt_id}
use repogauge.Runner.Scheduler.State.{
  AttemptState, queued, running, succeeded, skipped, failed, timed_out, budget_exceeded,
  invalid_patch, state_name, coerce_attempt_status, flag, AdapterResult, Outcome, returned, raised,
  AttemptRow, Log, JobProgress,
}

-- class SolverSchedulerConfig: the settings that one job reads. The paths to persist to count as set
-- or not.
pub record SchedulerConfig : Type 0 where
  pub solver_budget : Dict ℕ
  pub default_solver_budget : ℕ
  pub retriable_states : List AttemptState
  pub persist_jobs_to : Bool
  pub persist_attempts_to : Bool
  pub persist_attempts_parquet : Bool
  pub persist_attempt_logs_root : Bool

abbrev pub budget_of : Option ℕ → ℕ → ℕ
budget_of none default = default
budget_of (some n) default = n

-- _attempt_budget: SolverSchedulerError for a budget below 1
unfoldable pub attempt_budget : SchedulerConfig → String → Outcome ℕ
attempt_budget config solver_id =
    let budget = budget_of (get config.solver_budget solver_id) config.default_solver_budget in
    if ltb budget 1 then raised "solver budget must be >= 1" else returned budget

-- `state in self.config.retriable_states`
unfoldable pub retriable : SchedulerConfig → AttemptState → Bool
retriable config s = any (λ t. state_name t == state_name s) config.retriable_states

-- _persist_job
unfoldable pub persist_job :
    SchedulerConfig → Log → AttemptState → ℕ → Option String → Option String → Log
persist_job config log status attempts started_at ended_at =
    if config.persist_jobs_to
    then record log {
      jobs =
          log.jobs
          ++ (record {
            status = status;
            attempts = attempts;
            started_at = started_at;
            ended_at = ended_at;
          })
            ∷ [];
    }
    else log

-- _persist_attempt: the output logs, the attempt file and the rows kept for the parquet file
unfoldable pub persist_attempt : SchedulerConfig → Log → AttemptRow → Log
persist_attempt config log row = record log {
  outputs =
      if config.persist_attempt_logs_root then log.outputs ++ row.attempt_id ∷ [] else log.outputs;
  attempts = if config.persist_attempts_to then log.attempts ++ row ∷ [] else log.attempts;
  parquet = if config.persist_attempts_parquet then log.parquet ++ row ∷ [] else log.parquet;
}

-- Where the job reads the clock.
pub data Reading : Type 0 where
  job_started job_ended : Reading
  attempt_started attempt_ended : ℕ → Reading

-- What the scheduler does once an attempt has ended: end the job, or try again.
pub data Decision : Type 0 where
  stop again : Decision

-- The branches behind an attempt, with `attempts` made of `budget`.
unfoldable pub after_attempt : SchedulerConfig → ℕ → ℕ → AttemptState → Decision
unfolding retriable
after_attempt config attempts budget succeeded = stop
after_attempt config attempts budget invalid_patch = stop
after_attempt config attempts budget budget_exceeded = stop
after_attempt config attempts budget timed_out =
    if ltb attempts budget && retriable config timed_out then again else stop
after_attempt config attempts budget failed =
    if retriable config failed then (if ltb attempts budget then again else stop) else stop
after_attempt config attempts budget _ = stop

-- The surroundings of a job: its settings, its id, the clock, and what the attempt of an id and an index
-- gives back.
pub record JobRun : Type 0 where
  pub config : SchedulerConfig
  pub job_id : Text
  pub solver_id : String
  pub clock : Reading → String
  pub preflight : Outcome (Option String)
  pub attempt : Text → ℕ → AdapterResult

module _ (run : JobRun) where
  open run use {config, clock}

  abbrev pub attempt_row : Text → String → String → AdapterResult → AttemptRow
  attempt_row id started_at ended_at result = record {
    attempt_id = id;
    attempt_state = coerce_attempt_status result.status;
    model_patch = result.model_patch;
    exit_reason = result.exit_reason;
    started_at = started_at;
    ended_at = ended_at;
  }

  -- `if started_at is None: started_at = _now_ts()`
  abbrev pub start_time : Option String → String
  start_time none = clock job_started
  start_time (some t) = t

  -- the last lines of `_execute_job`
  unfoldable pub conclude :
      AttemptState → Option String → Option String → List Text → ℕ → Log → JobProgress × Log
  unfolding persist_job
  conclude status started_at ended_at ids attempts log = (
    record { final_status = status; attempts = attempts; attempt_ids = ids },
    persist_job config log status attempts started_at ended_at,
  )

  abbrev pub result_at : ℕ → AdapterResult
  result_at index = run.attempt (attempt_id run.job_id index) index

  -- The state in which an attempt ends.
  abbrev pub state_at : ℕ → AttemptState
  state_at index = coerce_attempt_status (result_at index).status

  -- The rows of one attempt: the job is running, and what the attempt gave.
  unfoldable pub attempt_log : ℕ → Option String → Log → Log
  unfolding persist_job persist_attempt
  attempt_log index started log =
      persist_attempt config (persist_job config log running index started none) (
        attempt_row (attempt_id run.job_id index) (clock (attempt_started index))
          (clock (attempt_ended index)) (result_at index))

  -- `while attempts < budget`, with the rounds that are left
  unfoldable pub attempts_loop : ℕ → ℕ → ℕ → Option String → List Text → Log → JobProgress × Log
  attempts_loop zero budget attempts started_at ids log =
      conclude queued started_at none ids attempts log
  attempts_loop (suc rounds) budget attempts started_at ids log =
      let index = attempts + 1 in
      let started = some (start_time started_at) in
      let ids' = ids ++ attempt_id run.job_id index ∷ [] in
      let log' = attempt_log index started log in
      let retry =
        attempts_loop rounds budget index started ids'
          (persist_job config log' queued index started none) in
      elim (after_attempt config index budget (state_at index)) [
        | again ↦ retry
        | stop ↦ conclude (state_at index) started (some (clock job_ended)) ids' index log'
      ]

  abbrev pub skip_result : Text → String → AdapterResult
  skip_result id reason = record {
    attempt_id = id;
    status = state_name skipped;
    model_patch = none;
    raw_output = "";
    stderr_output = reason;
    exit_reason = reason;
    usage_source = "";
    cost_source = "";
    usage = [];
    cost = [];
    metadata = ("preflight_skipped", flag true) ∷ [];
  }

  abbrev pub skip_job : String → Log → JobProgress × Log
  skip_job reason log =
      let id = attempt_id run.job_id 1 in
      let log₁ =
        persist_attempt config log
          (attempt_row id (clock job_started) (clock job_ended) (skip_result id reason)) in
      conclude skipped (some (clock job_started)) (some (clock job_ended)) (id ∷ []) 1 log₁

  abbrev pub after_preflight : ℕ → Option String → Log → JobProgress × Log
  after_preflight budget none log = attempts_loop budget budget 0 none [] log
  after_preflight budget (some reason) log =
      if reason == "" then attempts_loop budget budget 0 none [] log else skip_job reason log

  abbrev pub start_job : Outcome ℕ → Outcome (Option String) → Log → Outcome JobProgress × Log
  start_job (raised e) preflight log = (raised e, log)
  start_job (returned budget) (raised e) log = (raised e, persist_job config log queued 0 none none)
  start_job (returned budget) (returned reason) log =
      let (progress, log') =
        after_preflight budget reason (persist_job config log queued 0 none none) in
      (returned progress, log')

  -- `_execute_job`; what was written before an exception stays written
  unfoldable pub execute_job : Log → Outcome JobProgress × Log
  execute_job = start_job (attempt_budget config run.solver_id) run.preflight
