-- ===== src/Runner/Scheduler/Examples.antt =====
-- repogauge/runner/scheduler.py at small inputs.
use repogauge.Prelude.Int.{pos, negsuc}
use repogauge.Prelude.Text.{Text, codes, strip_prefix}
use repogauge.Prelude.{ℕ, ◌≡◌, refl, true, false, none, some, [], ◌∷◌, nat_eq, if◌then◌else◌}
use repogauge.Prelude.Decimal.{decimal}
use repogauge.Runner.Scheduler.State.{
  AttemptState, queued, failed, timed_out, succeeded, AdapterResult, JobProgress, Log, returned,
  Adapter, Workspace, Workspaces, Normalization, NormalizedPatch, state_name, coerce_attempt_status,
}
use repogauge.Runner.Scheduler.AttemptId.{
  attempt_id, coerce_attempt_index, coerce_attempt_index-attempt_id,
}
use repogauge.Runner.Scheduler.Attempt.{Env, failure}
use repogauge.Runner.Scheduler.Attempt.Results.{Entered}
use repogauge.Runner.Scheduler.Job.{
  SchedulerConfig, JobRun, attempt_budget, after_attempt, conclude, attempt_log, attempts_loop,
  execute_job,
}
use repogauge.Runner.Scheduler.Job.Retries.{IsFirstStop, execute_job-IsFirstStop, execute_job-skips}
use repogauge.Runner.Scheduler.Job.History.{history, attempt_rows, job_row, execute_job-IsRecorded}

abbrev empty_log : Log
empty_log = record { jobs = []; attempts = []; parquet = []; outputs = [] }

abbrev three_attempts : SchedulerConfig
three_attempts = record {
  solver_budget = ("mock", 3) ∷ [];
  default_solver_budget = 1;
  retriable_states = failed ∷ timed_out ∷ [];
  persist_jobs_to = true;
  persist_attempts_to = true;
  persist_attempts_parquet = false;
  persist_attempt_logs_root = false;
}

abbrev ended : AttemptState → Text → AdapterResult
ended s id = record (failure id "" "") { status = state_name s }

-- The first attempt fails, the second runs out of time, and the third succeeds.
abbrev third_time : Text → ℕ → AdapterResult
third_time id i =
    if nat_eq i 1
    then ended failed id
    else if nat_eq i 2
    then ended timed_out id
    else ended succeeded id

abbrev flaky : JobRun
flaky = record {
  config = three_attempts;
  job_id = codes "run:a:mock:0";
  solver_id = "mock";
  clock = λ _. "2026-01-01T00:00:00Z";
  preflight = returned none;
  attempt = third_time;
}

abbrev done : JobProgress
done = record {
  final_status = succeeded;
  attempts = 3;
  attempt_ids =
      codes "run:a:mock:0:attempt-1"
      ∷ codes "run:a:mock:0:attempt-2"
      ∷ codes "run:a:mock:0:attempt-3"
      ∷ [];
}

runs : Unit {0}
unfolding attempt_budget after_attempt conclude attempt_log attempts_loop execute_job
    coerce_attempt_status decimal
runs = tt

execute_job-flaky : (execute_job flaky empty_log).0 ≡ returned done
unfolding runs
execute_job-flaky = refl

coerce_attempt_index-foreign : coerce_attempt_index (codes "job-7") ≡ pos 1
unfolding coerce_attempt_index strip_prefix
coerce_attempt_index-foreign = refl

coerce_attempt_index-signed : coerce_attempt_index (codes "j:attempt- -1_0\n") ≡ negsuc 9
unfolding coerce_attempt_index strip_prefix
coerce_attempt_index-signed = refl

execute_job-IsFirstStop_example :
    (p : JobProgress) × ((execute_job flaky empty_log).0 ≡ returned p) × IsFirstStop flaky 3 0 [] p
unfolding attempt_budget
execute_job-IsFirstStop_example = execute_job-IsFirstStop flaky empty_log 3 refl refl

execute_job-IsRecorded_example :
    ((execute_job flaky empty_log).1.jobs
      ≡ job_row queued 0 none none ∷ history flaky "2026-01-01T00:00:00Z" 0 3)
    × ((execute_job flaky empty_log).1.attempts ≡ attempt_rows flaky 0 3)
unfolding runs
execute_job-IsRecorded_example =
    execute_job-IsRecorded flaky empty_log 3 done refl refl refl refl refl

abbrev no_docker : JobRun
no_docker = record flaky { preflight = returned (some "docker is missing") }

execute_job-skips_example :
    execute_job (record no_docker { attempt = λ id _. ended succeeded id }) empty_log
    ≡ execute_job no_docker empty_log
execute_job-skips_example =
    execute_job-skips no_docker empty_log "docker is missing" (λ id _. ended succeeded id) refl refl

coerce_attempt_index-attempt_id_example :
    coerce_attempt_index (attempt_id (codes "a:attempt-9") 12) ≡ pos 12
coerce_attempt_index-attempt_id_example = coerce_attempt_index-attempt_id (codes "a:attempt-9") 12

-- A workspace solver that always answers with the same patch.
abbrev patching : Adapter
patching = record {
  requires_workspace = true;
  preflight = returned none;
  prepare_request =
      λ id i path. returned (record { attempt_id = id; attempt_index = i; workspace_path = path });
  execute_attempt = λ request. returned (record (failure request.attempt_id "" "") {
    status = "succeeded";
    model_patch = some "diff --git a/tests/t.py b/tests/t.py";
  });
  collect_telemetry = λ _. returned [];
  finalize_output = λ _ result. returned result;
}

abbrev checkout : Workspace
checkout = record {
  workspace_path = "/w";
  attempt_root = "/a";
  instruction_pack_path = "/a/pack.json";
  raw_output_path = "/a/raw.txt";
}

abbrev clean_patch : NormalizedPatch
clean_patch = record {
  patch = "";
  normalized_patch_path = "/a/p";
  patch_stats_path = "/a/s";
  patch_stats = "{}";
  excluded_paths = "tests/t.py" ∷ [];
  excluded_patch_path = none;
}

abbrev workspaces_with : Normalization → Workspaces
workspaces_with o = record {
  enter = λ _. returned checkout;
  write_raw_output = λ _ _. returned tt;
  normalize_solver_output = λ _ _ _. o;
}

abbrev env_with : Normalization → Env
env_with o = record {
  adapter = patching;
  dataset_row = some ("tests/t.py" ∷ []);
  workspaces = some (workspaces_with o);
}

abbrev entered_with : (o : Normalization) → Entered (env_with o) (codes "j:attempt-1") 1
entered_with o = record {
  excluded = "tests/t.py" ∷ [];
  workspaces = workspaces_with o;
  workspace = checkout;
  has_row = refl;
  configured = refl;
  entered = refl;
}
