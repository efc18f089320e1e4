-- ===== src/Runner/Scheduler/Attempt/Results.antt =====
-- repogauge/runner/scheduler.py: what the result of an attempt is when a workspace is involved.
use repogauge.Prelude.Text.{Text}
use repogauge.Prelude.{ℕ, String, ◌≡◌, refl, ◌⊎◌, some, List, eq_iff}
use repogauge.Runner.Scheduler.State.{
  AdapterResult, Outcome, returned, raised, Workspace, NormalizedPatch, normalized, crashed,
  Normalization, Workspaces,
}
use repogauge.Runner.Scheduler.Attempt.{
  after_write, Env, guarded, normalize_workspace_result, settled, text_or,
}

module _ (env : Env) (attempt_id : Text) (index : ℕ) where
  -- A workspace was entered for the attempt.
  pub record Entered : Type 0 where
    pub excluded : List String
    pub workspaces : Workspaces
    pub workspace : Workspace
    pub has_row : env.dataset_row ≡ some excluded
    pub configured : env.workspaces ≡ some workspaces
    pub entered : workspaces.enter attempt_id ≡ returned workspace

  module _ (at : Entered) where
    -- What the adapter gave, before the scheduler normalizes it.
    abbrev pub adapter_result : AdapterResult
    adapter_result = guarded env.adapter attempt_id index (some at.workspace.workspace_path)

    abbrev pub normalization : Normalization
    normalization =
        at.workspaces.normalize_solver_output at.workspace
          (text_or adapter_result.model_patch adapter_result.raw_output) at.excluded

    -- The normalized result, or an exception of the normalization or of writing the raw output.
    abbrev pub normalized_result : Outcome AdapterResult
    normalized_result =
        normalize_workspace_result at.workspaces at.workspace at.excluded adapter_result

-- The `try` block of `_normalize_workspace_result`, by what its calls answer.
module _ (ws : Workspaces) (w : Workspace) (excluded : List String) (r : AdapterResult) where
  -- A successful result carries a normalized patch, or an exception kept it as it was.
  abbrev IsSanitized : Normalization → Outcome AdapterResult → Type 0
  IsSanitized o settles =
      ((n : NormalizedPatch) × (o ≡ normalized n)
        × ((settled ws w excluded r settles).model_patch ≡ some n.patch))
      ⊎ ((e : String) × (settles ≡ raised e))

  after_write-crashed :
      (wrote : Outcome (Unit {0})) (o : Normalization) (e : String)
      → r.status ≡ "succeeded"
      → o ≡ crashed e
      → settled ws w excluded r (after_write ws w excluded r wrote o) ≡ r
  after_write-crashed (raised e') o e good crash = refl
  after_write-crashed (returned u) o e good crash = rw (crash, (eq_iff r.status "succeeded").1 good)
