-- ===== src/Runner/Router/Examples.antt =====
-- repogauge/runner/router.py at small training data.
use repogauge.Prelude.Text.{Text, codes}
use repogauge.Prelude.{
  ℕ, ◌+◌, ◌-◌, ◌*◌, ◌/◌, ◌≤◌, String, ◌≡◌, refl, Bool, true, false, List, [], ◌∷◌, ◌==◌, All, count,
  map,
}
use repogauge.Runner.Router.Labels.{
  Label, cheap_is_enough, needs_expensive, labelled, TrainingRow, PreparedRow, prepared, passed,
  prepare_router_training_rows,
}
use repogauge.Runner.Router.Partition.{SplitSettings, router_split_rows}
use repogauge.Runner.Router.Partition.Classes.{held}
use repogauge.Runner.Router.Partition.Dealt.{one_of, router_split_rows-IsPartition}
use repogauge.Runner.Router.Tree.{train_router_tree, predict_router_label, correct}
use repogauge.Runner.Router.Aggregate.{JoinedAttempt}
use repogauge.Runner.Router.Policies.{RouterRow, build_router_training_rows}
use repogauge.Runner.Router.Policies.Ordered.{IsOrdered, build_router_training_rows-IsOrdered}
use repogauge.Prelude.Int.{pos}
use repogauge.Runner.Router.Model.{ModelSettings, check_settings, RouterModel, build_router_model}
use repogauge.Runner.Router.Model.Trained.{IsTrained, build_router_model-IsTrained}

abbrev row : String → String → ℕ → TrainingRow
row id label words = record {
  instance_id = id;
  route_label = label;
  label = "";
  task_feature_version = "v1";
  features = ("words", words) ∷ [];
}

abbrev rows : List TrainingRow
rows =
    row "a" "cheap_is_enough" 3
    ∷ row "b" "cheap_is_enough" 5
    ∷ row "c" "needs_expensive" 40
    ∷ row "d" "needs_expensive" 70
    ∷ row "e" "needs_expensive" 90
    ∷ []

abbrev ready : List PreparedRow
ready =
    prepared (row "a" "cheap_is_enough" 3) cheap_is_enough
    ∷ prepared (row "b" "cheap_is_enough" 5) cheap_is_enough
    ∷ prepared (row "c" "needs_expensive" 40) needs_expensive
    ∷ prepared (row "d" "needs_expensive" 70) needs_expensive
    ∷ prepared (row "e" "needs_expensive" 90) needs_expensive
    ∷ []

prepares : prepare_router_training_rows rows ≡ passed ready
unfolding prepare_router_training_rows
prepares = refl

-- 0.8 and 0.1 of a count, rounded.
abbrev split_settings : SplitSettings
split_settings = record {
  split_key = λ r. r.instance_id;
  rounded_train = λ n. (n * 8 + 5) / 10;
  rounded_validation = λ n. (n + 5) / 10;
  validates = true;
}

abbrev settings : ModelSettings
settings = record {
  split = split_settings;
  train_fraction = record { num = pos 8; den = 10 };
  validation_fraction = record { num = pos 1; den = 10 };
  max_depth = 3;
  feature_names = "words" ∷ [];
}

learns : correct (train_router_tree ("words" ∷ []) 3 ready) ready ≡ 5
unfolding correct train_router_tree predict_router_label
learns = refl

deals :
    map (λ (r : PreparedRow). r.instance_id) (router_split_rows split_settings ready).test
    ≡ "b" ∷ "e" ∷ []
unfolding router_split_rows
deals = refl

router_split_rows-IsPartition_example :
    (held (λ r. r.instance_id == "c") (router_split_rows split_settings ready)
      ≡ count (λ r. r.instance_id == "c") ready)
    × (one_of (labelled needs_expensive ready)
        ≤ labelled needs_expensive (router_split_rows split_settings ready).train)
    × (one_of (labelled needs_expensive ready - 1)
        ≤ labelled needs_expensive (router_split_rows split_settings ready).test)
router_split_rows-IsPartition_example =
    router_split_rows-IsPartition split_settings ready (λ r. r.instance_id == "c") needs_expensive

build_router_model-IsTrained_example :
    (m : RouterModel) × (build_router_model settings rows ≡ passed m) × IsTrained settings ready m
unfolding check_settings
build_router_model-IsTrained_example =
    build_router_model-IsTrained settings rows ready refl prepares

-- A cheap solver that times out, and a dear one that resolves.
abbrev attempt : String → ℕ → Bool → Text → JoinedAttempt
attempt solver cost resolved state = record {
  instance_id = "i";
  solver_id = solver;
  attempt_id = solver;
  attempt_index = 1;
  attempt_started_at = "";
  attempt_ended_at = "";
  duration_ms = 10;
  cost = cost;
  resolved = resolved;
  attempt_state = state;
  failure_reason = [];
  exit_reason = [];
  harness_outcome = [];
}

abbrev joined : List JoinedAttempt
joined =
    attempt "dear" 9 true (codes "succeeded") ∷ attempt "cheap" 2 false (codes "Timed_Out") ∷ []

abbrev shown : RouterRow → Label × Bool × ℕ
shown r = (r.route_label, r.policy_signal_triggered, r.on_signal.cost_usd)

routes : map shown (build_router_training_rows joined) ≡ (needs_expensive, true, 11) ∷ []
unfolding build_router_training_rows
routes = refl

build_router_training_rows-IsOrdered_example : All IsOrdered (build_router_training_rows joined)
build_router_training_rows-IsOrdered_example = build_router_training_rows-IsOrdered joined
