-- ===== src/Runner/Analysis/Predictions.antt =====
-- repogauge/runner/analyze.py: build_predictions_from_attempts, which gives the judge its predictions.
use repogauge.Prelude.{String, ◌||◌, List, [], ◌∷◌, ◌==◌, if◌then◌else◌, is_empty}
use repogauge.Prelude.Text.{Text}
use repogauge.Runner.Judge.Rows.{Prediction}

-- What is read of a row of the attempt log; a missing patch is empty, as `not patch` takes both.
pub record LoggedAttempt : Type 0 where
  pub instance_id : String
  pub solver_id : String
  pub model_patch : Text

-- the rows that are written, without their patches
unfoldable pub build_predictions_from_attempts : List LoggedAttempt → List Prediction
build_predictions_from_attempts [] = []
build_predictions_from_attempts (row ∷ rows) =
    let rest = build_predictions_from_attempts rows in
    if is_empty row.model_patch || (row.instance_id == "" || row.solver_id == "")
    then rest
    else (record {
      instance_id = row.instance_id;
      solver_id = "";
      model_name_or_path = row.solver_id;
    })
      ∷ rest
