-- ===== src/Runner/Planner/Examples.antt =====
-- repogauge/runner/planner.py at a small matrix.
use repogauge.Prelude.{
  ◌+◌, String, ◌≡◌, refl, inl, true, false, not, ◌&&◌, Option, none, some, List, [], ◌∷◌, map,
  arith, ◌==◌, member, count, IsDistinct,
}
use repogauge.Prelude.Int.{pos}
use repogauge.Runner.Planner.{
  Matrix, Solver, Provider, PlannedRunJob, apply_filters, plan_jobs, providers_by_id,
}
use repogauge.Runner.Planner.Filters.{apply_filters-member}
use repogauge.Runner.Planner.Expansion.{cell, IsExpansion, plan_jobs-IsExpansion, plan_jobs-unknown}

abbrev solver : Solver
solver = record {
  solver_id = "codex";
  provider_id = "openai";
  prompt_policy_hash = "";
  tool_policy_hash = "";
}

abbrev provider : Provider
provider = record { provider_id = "openai"; kind = "openai" }

abbrev matrix : Matrix
matrix = record {
  run_id = "r";
  instance_ids = "a" ∷ "b" ∷ "a" ∷ "c" ∷ [];
  include_instance_ids = [];
  exclude_instance_ids = "c" ∷ [];
  solvers = solver ∷ [];
  providers = provider ∷ [];
  seeds = pos 0 ∷ pos 1 ∷ [];
  shuffle = false;
  shuffled = λ ids. ids;
  config_hash = λ _ _ _ _. "";
}

kept : apply_filters matrix.instance_ids [] ("c" ∷ []) ≡ "a" ∷ "b" ∷ []
unfolding apply_filters
kept = refl

apply_filters-member_example :
    (member "c" (apply_filters ("a" ∷ "c" ∷ []) [] ("c" ∷ []))
      ≡ (member "c" ("a" ∷ "c" ∷ []) && true && not (member "c" ("c" ∷ []))))
    × IsDistinct (apply_filters ("a" ∷ "c" ∷ []) [] ("c" ∷ []))
apply_filters-member_example = apply_filters-member ("a" ∷ "c" ∷ []) [] ("c" ∷ []) "c"

abbrev or_nil : Option (List PlannedRunJob) → List PlannedRunJob
or_nil none = []
or_nil (some jobs) = jobs

-- The same matrix, shuffled by a function that turns a list around.
abbrev onto_end : List String → List String → List String
onto_end ys [] = ys
onto_end ys (x ∷ xs) = onto_end (x ∷ ys) xs

abbrev shuffled_matrix : Matrix
shuffled_matrix = record matrix { shuffle = true; shuffled = onto_end [] }

count-onto_end :
    (id : String) (ys xs : List String)
    → count (λ j. j == id) (onto_end ys xs) ≡ count (λ j. j == id) ys + count (λ j. j == id) xs
count-onto_end id ys [] = omega arith
count-onto_end id ys (x ∷ xs) = omega (arith, count-onto_end id (x ∷ ys) xs)

turned :
    map cell (or_nil (plan_jobs shuffled_matrix))
    ≡ ("b", "codex", pos 0)
      ∷ ("b", "codex", pos 1)
      ∷ ("a", "codex", pos 0)
      ∷ ("a", "codex", pos 1)
      ∷ []
unfolding plan_jobs providers_by_id
turned = refl

plan_jobs-IsPlan_example :
    (jobs : List PlannedRunJob) × (order : List String) × IsExpansion shuffled_matrix jobs order
unfolding providers_by_id
plan_jobs-IsPlan_example =
    plan_jobs-IsExpansion shuffled_matrix (refl, tt)
      (λ id ids. omega (arith, count-onto_end id [] ids))

abbrev no_providers : Matrix
no_providers = record matrix { providers = [] }

plan_jobs-unknown_example : plan_jobs no_providers ≡ none
unfolding providers_by_id apply_filters
plan_jobs-unknown_example =
    plan_jobs-unknown no_providers solver "a" ("b" ∷ []) (inl refl) refl refl
