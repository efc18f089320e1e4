-- ===== src/Runner/Scheduler/Attempt.antt =====
-- repogauge/runner/scheduler.py: one attempt of a job, from the adapter's request to its result.
pub mod Results
use Prim.Native.String.{◌++◌}
use repogauge.Prelude.{
  ℕ, zero, suc, ◌+◌, ◌-◌, ◌*◌, ◌/◌, ◌%◌, ◌≤◌, ◌<◌, String, ◌≡◌, refl, sym, ap, ◌∙◌, subst, ◌≢◌, ◌↔◌,
  ◌⊎◌, inl, inr, Bool, true, false, not, ◌&&◌, ◌||◌, Option, none, some, List, [], ◌∷◌, map, arith,
  ◌==◌, eq_iff, eq_refl, ltb, leb, nat_eq, if◌then◌else◌, ltb→lt, lt→ltb, ltb→le, leb→le, le→leb,
  nat_eq→eq, nat_eq_refl, tests, Bool-cases, Option-cases, is_some, length, any, all, keep,
  is_empty, All, length-append, All-append, In, member, member→In, In→member, Dict, get, put,
  get-put, keys,
}
use repogauge.Prelude.Text.{
  Text, codes, text_eq, text_eq_sound, text_eq_refl, strip_prefix, strip_prefix-append, starts_with,
  contains,
}
use repogauge.Runner.Scheduler.State.{
  failed, invalid_patch, state_name, Value, text, flag, items, AdapterResult, AdapterRequest,
  Outcome, returned, raised, Adapter, Workspace, NormalizedPatch, Normalization, normalized,
  rejected, crashed, Workspaces,
}

-- What is fixed while a job runs. `dataset_row` holds the withheld paths of the row
-- (_immutable_paths), `workspaces` is there if both workspace roots are configured.
pub record Env : Type 0 where
  pub adapter : Adapter
  pub dataset_row : Option (List String)
  pub workspaces : Option Workspaces

abbrev pub failure : Text → String → String → AdapterResult
failure attempt_id stderr_output exit_reason = record {
  attempt_id = attempt_id;
  status = state_name failed;
  model_patch = none;
  raw_output = "";
  stderr_output = stderr_output;
  exit_reason = exit_reason;
  usage_source = "";
  cost_source = "";
  usage = [];
  cost = [];
  metadata = [];
}

-- `patch or fallback`
abbrev pub text_or : Option String → String → String
text_or none fallback = fallback
text_or (some s) fallback = if s == "" then fallback else s

-- The telemetry of the adapter's own metadata, if it is a list.
abbrev pub own_telemetry : Option Value → List String
own_telemetry (some (items xs)) = xs
own_telemetry _ = []

abbrev pub telemetry_of : Outcome (List String) → List String
telemetry_of (returned events) = events
telemetry_of (raised e) = ("telemetry_error: " ++ e) ∷ []

unfoldable pub attach_telemetry : List String → AdapterResult → AdapterResult
attach_telemetry telemetry result =
    let chosen =
      if is_empty telemetry then own_telemetry (get result.metadata "telemetry") else telemetry in
    record result { metadata = put result.metadata "telemetry" (items chosen) }

abbrev pub finalized : AdapterResult → Outcome AdapterResult → AdapterResult
finalized result (returned final) = final
finalized result (raised e) = record result {
  status = state_name failed;
  stderr_output = e;
  exit_reason = "adapter_finalize_error: " ++ e;
}

-- The part of an attempt that holds the resource guards.
module _ (adapter : Adapter) (attempt_id : Text) (index : ℕ) where
  abbrev pub executed : Outcome AdapterRequest → AdapterResult
  executed (raised e) = failure attempt_id e ("adapter_prepare_error: " ++ e)
  executed (returned request) = elim (adapter.execute_attempt request) [
    | returned result ↦ result
    | raised e ↦ failure attempt_id e ("adapter_execution_error: " ++ e)
  ]

  -- After a failed preparation the request of the scheduler stands.
  abbrev pub request_of : Outcome AdapterRequest → AdapterRequest
  request_of (returned request) = request
  request_of (raised e) = record {
    attempt_id = attempt_id;
    attempt_index = index;
    workspace_path = none;
  }

  unfoldable pub guarded : Option String → AdapterResult
  guarded workspace_path =
      let prepared = adapter.prepare_request attempt_id index workspace_path in
      let telemetry = telemetry_of (adapter.collect_telemetry attempt_id) in
      let result = attach_telemetry telemetry (executed prepared) in
      finalized result (adapter.finalize_output (request_of prepared) result)

-- SolverScheduler._normalize_workspace_result
abbrev pub with_workspace_paths : Workspace → AdapterResult → AdapterResult
with_workspace_paths w result = record result {
  metadata =
      put
        (put (put result.metadata "attempt_root" (text w.attempt_root)) "instruction_pack_path"
          (text w.instruction_pack_path))
        "raw_output_path" (text w.raw_output_path);
}

abbrev pub put_excluded : Option String → Dict Value → Dict Value
put_excluded none metadata = metadata
put_excluded (some path) metadata =
    if path == "" then metadata else put metadata "excluded_withheld_test_patch_path" (text path)

abbrev pub with_normalized : List String → NormalizedPatch → AdapterResult → AdapterResult
with_normalized excluded n result =
    let touched = n.excluded_paths in
    let m₁ = put result.metadata "normalized_patch_path" (text n.normalized_patch_path) in
    let m₂ = put m₁ "patch_stats_path" (text n.patch_stats_path) in
    let m₃ = put m₂ "patch_stats" (text n.patch_stats) in
    let m₄ = put m₃ "withheld_test_paths" (items excluded) in
    let m₅ = put m₄ "withheld_test_paths_touched" (items touched) in
    let m₆ = put m₅ "withheld_test_patch_sanitized" (flag (not (is_empty touched))) in
    record result { model_patch = some n.patch; metadata = put_excluded n.excluded_patch_path m₆ }

module _ (workspaces : Workspaces) (w : Workspace) (excluded : List String) where
  abbrev pub normalization_result : AdapterResult → Normalization → Outcome AdapterResult
  normalization_result result (normalized n) = returned (with_normalized excluded n result)
  normalization_result result (rejected e) = returned (record result {
    status = state_name invalid_patch;
    model_patch = none;
    exit_reason = "invalid patch: " ++ e;
  })
  normalization_result result (crashed e) = raised e

  abbrev pub after_write :
      AdapterResult → Outcome (Unit {0}) → Normalization → Outcome AdapterResult
  after_write result (raised e) normalization = raised e
  after_write result (returned _) normalization =
      let named = with_workspace_paths w result in
      if result.status == "succeeded"
      then normalization_result named normalization
      else returned named

  unfoldable pub normalize_workspace_result : AdapterResult → Outcome AdapterResult
  normalize_workspace_result result =
      after_write result (workspaces.write_raw_output w result.raw_output) (
        workspaces.normalize_solver_output w (text_or result.model_patch result.raw_output)
          excluded)

  -- An exception after the adapter's result is there leaves that result as it is.
  abbrev pub settled : AdapterResult → Outcome AdapterResult → AdapterResult
  settled result (returned final) = final
  settled result (raised e) = result

-- The `try` block of an attempt: what `result` is behind it.
module _ (env : Env) where
  abbrev pub in_workspace : Text → ℕ → List String → Workspaces → Outcome Workspace → AdapterResult
  in_workspace attempt_id index excluded workspaces (raised e) =
      failure attempt_id e ("workspace_preparation_error: " ++ e)
  in_workspace attempt_id index excluded workspaces (returned w) =
      let result = guarded env.adapter attempt_id index (some w.workspace_path) in
      settled workspaces w excluded result (normalize_workspace_result workspaces w excluded result)

  abbrev pub prepared : Text → ℕ → Option (List String) → Option Workspaces → AdapterResult
  prepared attempt_id index none workspaces =
      failure attempt_id "dataset row required for workspace-backed solver"
        "workspace_preparation_error: dataset row required for workspace-backed solver"
  prepared attempt_id index (some excluded) none =
      failure attempt_id "scheduler missing workspace configuration"
        "workspace_preparation_error: scheduler missing source_repo_root/attempt_workspaces_root"
  prepared attempt_id index (some excluded) (some workspaces) =
      in_workspace attempt_id index excluded workspaces (workspaces.enter attempt_id)

  unfoldable pub attempt_result : Text → ℕ → AdapterResult
  attempt_result attempt_id index =
      if env.adapter.requires_workspace
      then prepared attempt_id index env.dataset_row env.workspaces
      else guarded env.adapter attempt_id index none
