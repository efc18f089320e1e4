-- ===== src/Runner/Planner.antt =====
-- repogauge/runner/planner.py: the instances of a matrix, and the jobs that it expands to.
pub mod Filters
pub mod Expansion
mod Examples
use repogauge.Prelude.{
  ℕ, zero, suc, ◌+◌, ◌-◌, ◌*◌, ◌/◌, ◌%◌, ◌≤◌, ◌<◌, String, ◌≡◌, refl, sym, ap, ◌∙◌, subst, ◌≢◌, ◌↔◌,
  ◌⊎◌, inl, inr, Bool, true, false, not, ◌&&◌, ◌||◌, Option, none, some, List, [], ◌∷◌, ◌++◌, map,
  arith, ◌==◌, eq_iff, eq_refl, ltb, leb, nat_eq, if◌then◌else◌, ltb→lt, lt→ltb, ltb→le, leb→le,
  le→leb, nat_eq→eq, nat_eq_refl, tests, Bool-cases, Option-cases, is_some, length, any, all, keep,
  is_empty, All, length-append, All-append, In, member, member→In, In→member, Dict, get, put,
  get-put, keys, branches_hold, taken_holds, some_of_else, member-keep, differ→≢, str_lt, count,
  take, drop, then_lt, then_lt_trans, total, IsDistinct,
}
use repogauge.Prelude.Text.{
  is_space, text_lt_irrefl, text_lt, text_lt_trans, Text, codes, text_eq, text_eq_sound,
  text_eq_refl, strip_prefix, strip_prefix-append, starts_with, contains,
}
use repogauge.Prelude.Int.{ℤ, pos, negsuc}
use repogauge.Prelude.Decimal.{decimal}

-- `if instance_id in seen: continue`: the first of equal ids stays. `seen` grows with the loop.
unfoldable pub first_seen : List String → List String → List String
first_seen seen [] = []
first_seen seen (instance_id ∷ rest) =
    let known = member instance_id seen in
    let filtered = first_seen (if known then seen else instance_id ∷ seen) rest in
    if known then filtered else instance_id ∷ filtered

-- `[id_ for id_ in include_instance_ids if id_]`
abbrev pub named_ids : List String → List String
named_ids include = keep (λ id. not (id == "")) include

-- _apply_filters
unfoldable pub apply_filters : List String → List String → List String → List String
unfolding first_seen
apply_filters instance_ids include exclude =
    let included =
      if is_empty (named_ids include)
      then instance_ids
      else keep (λ id. member id (named_ids include)) instance_ids in
    first_seen [] (keep (λ id. not (member id exclude)) included)

-- class MatrixSolver and class MatrixProvider, as far as the plan reads them; their policies and
-- configurations count through the hashes that are made of them.
pub record Solver : Type 0 where
  pub solver_id : String
  pub provider_id : String
  pub prompt_policy_hash : String
  pub tool_policy_hash : String

pub record Provider : Type 0 where
  pub provider_id : String
  pub kind : String

-- class MatrixConfig, with the instance ids that _read_instance_ids finds in the dataset.
-- `shuffled` is random.Random(seed).shuffle; `config_hash` is _solve_seed_hash.
pub record Matrix : Type 0 where
  pub run_id : String
  pub instance_ids : List String
  pub include_instance_ids : List String
  pub exclude_instance_ids : List String
  pub solvers : List Solver
  pub providers : List Provider
  pub seeds : List ℤ
  pub shuffle : Bool
  pub shuffled : List String → List String
  pub config_hash : Solver → Provider → ℤ → String → String

-- class PlannedRunJob, without the paths and the metadata
pub record PlannedRunJob : Type 0 where
  pub run_id : String
  pub job_id : Text
  pub instance_id : String
  pub solver_id : String
  pub provider_id : String
  pub seed : ℤ
  pub prompt_policy_hash : String
  pub tool_policy_hash : String
  pub solver_config_hash : String

-- _providers_by_id: of two providers with one id, the later stays.
unfoldable pub providers_by_id : List Provider → Dict Provider
providers_by_id providers = onto [] providers
  where
    onto : Dict Provider → List Provider → Dict Provider
    onto d [] = d
    onto d (p ∷ ps) = onto (put d p.provider_id p) ps

-- str(seed)
abbrev pub seed_text : ℤ → Text
seed_text (pos n) = decimal n
seed_text (negsuc n) = codes "-" ++ decimal (n + 1)

-- Results after those that are there; none stands for the KeyError of an unknown provider.
abbrev pub join {ℓ} : {A : Type ℓ} → Option (List A) → Option (List A) → Option (List A)
join (some xs) (some ys) = some (xs ++ ys)
join _ _ = none

module _ (matrix : Matrix) where
  -- f"{run_id}:{instance_id}:{solver_id}:{seed}"
  abbrev pub planned_job_id : String → Solver → ℤ → Text
  planned_job_id instance_id solver seed =
      codes matrix.run_id
      ++ (codes ":"
          ++ (codes instance_id
              ++ (codes ":" ++ (codes solver.solver_id ++ (codes ":" ++ seed_text seed)))))

  abbrev pub job : String → Solver → Provider → ℤ → PlannedRunJob
  job instance_id solver provider seed = record {
    run_id = matrix.run_id;
    job_id = planned_job_id instance_id solver seed;
    instance_id = instance_id;
    solver_id = solver.solver_id;
    provider_id = solver.provider_id;
    seed = seed;
    prompt_policy_hash = solver.prompt_policy_hash;
    tool_policy_hash = solver.tool_policy_hash;
    solver_config_hash = matrix.config_hash solver provider seed instance_id;
  }

  abbrev pub seed_jobs : String → Solver → Option Provider → Option (List PlannedRunJob)
  seed_jobs instance_id solver none = none
  seed_jobs instance_id solver (some provider) =
      some (map (job instance_id solver provider) matrix.seeds)

  -- `for solver in matrix.solvers`
  unfoldable pub solver_jobs : String → List Solver → Option (List PlannedRunJob)
  solver_jobs instance_id [] = some []
  solver_jobs instance_id (solver ∷ solvers) =
      join
        (seed_jobs instance_id solver (get (providers_by_id matrix.providers) solver.provider_id))
        (solver_jobs instance_id solvers)

  -- `for instance_id in instances`
  unfoldable pub instance_jobs : List String → Option (List PlannedRunJob)
  unfolding solver_jobs
  instance_jobs [] = some []
  instance_jobs (instance_id ∷ instances) =
      join (solver_jobs instance_id matrix.solvers) (instance_jobs instances)

  -- _plan_instance_order
  abbrev pub instance_order : List String → List String
  instance_order instance_ids =
      if matrix.shuffle then matrix.shuffled instance_ids else instance_ids

  unfoldable pub plan_jobs : Option (List PlannedRunJob)
  unfolding instance_jobs apply_filters
  plan_jobs = instance_jobs (
      instance_order
        (apply_filters matrix.instance_ids matrix.include_instance_ids matrix.exclude_instance_ids))
