-- ===== src/Runner/Scheduler/State.antt =====
-- repogauge/runner/scheduler.py: the states of an attempt, and the data that adapters, workspaces and
-- the log exchange with the scheduler.
use repogauge.Prelude.{ℕ, String, ◌≡◌, refl, Bool, Option, List, Dict, ◌==◌, if◌then◌else◌}
use repogauge.Prelude.Text.{Text}

-- class SolverAttemptState
pub data AttemptState : Type 0 where
  queued running succeeded skipped failed timed_out budget_exceeded invalid_patch : AttemptState

abbrev pub state_name : AttemptState → String
state_name queued = "queued"
state_name running = "running"
state_name succeeded = "succeeded"
state_name skipped = "skipped"
state_name failed = "failed"
state_name timed_out = "timed_out"
state_name budget_exceeded = "budget_exceeded"
state_name invalid_patch = "invalid_patch"

-- _coerce_attempt_status: a status that names no state counts as a failure.
unfoldable pub coerce_attempt_status : String → AttemptState
coerce_attempt_status status =
    if status == "queued"
    then queued
    else if status == "running"
    then running
    else if status == "succeeded"
    then succeeded
    else if status == "skipped"
    then skipped
    else if status == "failed"
    then failed
    else if status == "timed_out"
    then timed_out
    else if status == "budget_exceeded"
    then budget_exceeded
    else if status == "invalid_patch"
    then invalid_patch
    else failed

-- The values of usage, cost and metadata that the scheduler itself reads or writes.
pub data Value : Type 0 where
  text : String → Value
  flag : Bool → Value
  items : List String → Value

-- class SolverAdapterResult
pub record AdapterResult : Type 0 where
  pub attempt_id : Text
  pub status : String
  pub model_patch : Option String
  pub raw_output : String
  pub stderr_output : String
  pub exit_reason : String
  pub usage_source : String
  pub cost_source : String
  pub usage : Dict Value
  pub cost : Dict Value
  pub metadata : Dict Value

-- class SolverAdapterRequest, without the job and the dataset row, which one job holds fixed
pub record AdapterRequest : Type 0 where
  pub attempt_id : Text
  pub attempt_index : ℕ
  pub workspace_path : Option String

-- What a call that may raise gives back; an exception is known by its message.
pub data Outcome {ℓ} (A : Type ℓ) : Type ℓ where
  returned : A → Outcome A
  raised : String → Outcome A

-- class SolverAdapter: any implementation. Its answers may depend on the attempt.
pub record Adapter : Type 0 where
  pub requires_workspace : Bool
  pub preflight : Outcome (Option String)
  pub prepare_request : Text → ℕ → Option String → Outcome AdapterRequest
  pub execute_attempt : AdapterRequest → Outcome AdapterResult
  pub collect_telemetry : Text → Outcome (List String)
  pub finalize_output : AdapterRequest → AdapterResult → Outcome AdapterResult

-- class AttemptWorkspace, as far as the scheduler reads it
pub record Workspace : Type 0 where
  pub workspace_path : String
  pub attempt_root : String
  pub instruction_pack_path : String
  pub raw_output_path : String

-- class PatchNormalizationResult, as far as the scheduler reads it
pub record NormalizedPatch : Type 0 where
  pub patch : String
  pub normalized_patch_path : String
  pub patch_stats_path : String
  pub patch_stats : String
  pub excluded_paths : List String
  pub excluded_patch_path : Option String

-- How normalize_solver_output ends: with a patch, with PatchNormalizationError, or otherwise.
pub data Normalization : Type 0 where
  normalized : NormalizedPatch → Normalization
  rejected : String → Normalization
  crashed : String → Normalization

-- What an attempt needs of the workspaces: entering one, writing the raw output, normalizing.
pub record Workspaces : Type 0 where
  pub enter : Text → Outcome Workspace
  pub write_raw_output : Workspace → String → Outcome (Unit {0})
  pub normalize_solver_output : Workspace → String → List String → Normalization

-- class JobRow
pub record JobRow : Type 0 where
  pub status : AttemptState
  pub attempts : ℕ
  pub started_at : Option String
  pub ended_at : Option String

-- class AttemptRow, with the fields that the scheduler decides
pub record AttemptRow : Type 0 where
  pub attempt_id : Text
  pub attempt_state : AttemptState
  pub model_patch : Option String
  pub exit_reason : String
  pub started_at : String
  pub ended_at : String

-- What the scheduler has written for a job: the job file, the attempt file, the rows kept for the
-- parquet file, and the output logs of the attempts.
pub record Log : Type 0 where
  pub jobs : List JobRow
  pub attempts : List AttemptRow
  pub parquet : List AttemptRow
  pub outputs : List Text

-- class SolverJobProgress
pub record JobProgress : Type 0 where
  pub final_status : AttemptState
  pub attempts : ℕ
  pub attempt_ids : List Text

-- Each state is read back from its name.
pub coerce_attempt_status-state_name : (s : AttemptState) → coerce_attempt_status (state_name s) ≡ s
unfolding coerce_attempt_status
coerce_attempt_status-state_name queued = refl
coerce_attempt_status-state_name running = refl
coerce_attempt_status-state_name succeeded = refl
coerce_attempt_status-state_name skipped = refl
coerce_attempt_status-state_name failed = refl
coerce_attempt_status-state_name timed_out = refl
coerce_attempt_status-state_name budget_exceeded = refl
coerce_attempt_status-state_name invalid_patch = refl
