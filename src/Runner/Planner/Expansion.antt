-- ===== src/Runner/Planner/Expansion.antt =====
-- repogauge/runner/planner.py: the jobs that plan_jobs expands a matrix to.
use repogauge.Prelude.{
  String, ◌≡◌, refl, ◌∙◌, inl, inr, true, Option, none, some, List, [], ◌∷◌, ◌++◌, map, ◌==◌,
  if◌then◌else◌, is_some, All, In, get, branches_hold, count,
}
use mathlib.Core.Path.{ap₂, ap}
use repogauge.Prelude.Int.{ℤ}
use repogauge.Runner.Planner.{
  Matrix, Solver, Provider, PlannedRunJob, providers_by_id, seed_jobs, solver_jobs, instance_jobs,
  plan_jobs, join, job, instance_order, apply_filters,
}

-- The instance, the solver and the seed of a job.
abbrev pub Cell : Type 0
Cell = String × String × ℤ

abbrev pub cell : PlannedRunJob → Cell
cell j = (j.instance_id, j.solver_id, j.seed)

-- All cells of a matrix: instances outermost, seeds innermost.
abbrev pub seed_cells : String → String → List ℤ → List Cell
seed_cells instance_id solver_id seeds = map (λ seed. (instance_id, solver_id, seed)) seeds

abbrev pub solver_cells : String → List Solver → List ℤ → List Cell
solver_cells instance_id [] seeds = []
solver_cells instance_id (s ∷ ss) seeds =
    seed_cells instance_id s.solver_id seeds ++ solver_cells instance_id ss seeds

abbrev pub cells : List String → List Solver → List ℤ → List Cell
cells [] solvers seeds = []
cells (i ∷ is) solvers seeds = solver_cells i solvers seeds ++ cells is solvers seeds

map-append : {A B : Type 0} (f : A → B) (xs ys : List A) → map f (xs ++ ys) ≡ map f xs ++ map f ys
map-append f [] ys = refl
map-append f (x ∷ xs) ys = ap (λ l. f x ∷ l) (map-append f xs ys)

map-map :
    {A B C : Type 0} (f : A → B) (g : B → C) (xs : List A)
    → map g (map f xs) ≡ map (λ x. g (f x)) xs
map-map f g [] = refl
map-map f g (x ∷ xs) = ap (λ l. g (f x) ∷ l) (map-map f g xs)

-- What the cells of planned jobs are, where there is a plan.
abbrev Covers : Option (List PlannedRunJob) → List Cell → Type 0
Covers o cs = (jobs : List PlannedRunJob) × (o ≡ some jobs) × (map cell jobs ≡ cs)

join-Covers :
    (o p : Option (List PlannedRunJob)) (cs ds : List Cell)
    → Covers o cs
    → Covers p ds
    → Covers (join o p) (cs ++ ds)
join-Covers o p cs ds (js, e, h) (ks, f, g) =
    (js ++ ks, rw (e, f) refl, map-append cell js ks ∙ ap₂ (λ a b. a ++ b) h g)

module _ (matrix : Matrix) where
  -- Every solver names a provider of the matrix.
  abbrev pub IsProvided : Solver → Type 0
  IsProvided s = is_some (get (providers_by_id matrix.providers) s.provider_id) ≡ true

  seed_jobs-Covers :
      (i : String) (s : Solver) (o : Option Provider)
      → is_some o ≡ true
      → Covers (seed_jobs matrix i s o) (seed_cells i s.solver_id matrix.seeds)
  seed_jobs-Covers i s none h = cc h
  seed_jobs-Covers i s (some p) h = (_, refl, map-map (job matrix i s p) cell matrix.seeds)

  solver_jobs-Covers :
      (i : String) (ss : List Solver)
      → All IsProvided ss
      → Covers (solver_jobs matrix i ss) (solver_cells i ss matrix.seeds)
  unfolding solver_jobs
  solver_jobs-Covers i [] h = ([], refl, refl)
  solver_jobs-Covers i (s ∷ ss) (h, hs) =
      join-Covers _ _ _ _ (seed_jobs-Covers i s _ h) (solver_jobs-Covers i ss hs)

  instance_jobs-Covers :
      (is : List String)
      → All IsProvided matrix.solvers
      → Covers (instance_jobs matrix is) (cells is matrix.solvers matrix.seeds)
  unfolding instance_jobs
  instance_jobs-Covers [] h = ([], refl, refl)
  instance_jobs-Covers (i ∷ is) h =
      join-Covers _ _ _ _ (solver_jobs-Covers i matrix.solvers h) (instance_jobs-Covers is h)

  -- The ids that the filters keep.
  abbrev pub kept_ids : List String
  kept_ids =
      apply_filters matrix.instance_ids matrix.include_instance_ids matrix.exclude_instance_ids

  -- What random.shuffle does: it only changes the order, so it keeps how often a list has what.
  abbrev pub IsShuffle : (List String → List String) → Type 0
  IsShuffle f =
      (id : String) (ids : List String) → count (λ j. j == id) (f ids) ≡ count (λ j. j == id) ids

  -- The plan of a matrix: its jobs, and the order of their instances.
  pub record IsExpansion (jobs : List PlannedRunJob) (order : List String) : Type 0 where
    pub planned : plan_jobs matrix ≡ some jobs
    pub every_cell : map cell jobs ≡ cells order matrix.solvers matrix.seeds
    pub each_kept : (id : String) → count (λ j. j == id) order ≡ count (λ j. j == id) kept_ids
    pub ordered : (if matrix.shuffle then matrix.shuffled kept_ids else kept_ids) ≡ order

  instance_order-count :
      (id : String) (ids : List String)
      → IsShuffle matrix.shuffled
      → count (λ j. j == id) (instance_order matrix ids) ≡ count (λ j. j == id) ids
  instance_order-count id ids h =
      branches_hold (λ js. count (λ j. j == id) js ≡ count (λ j. j == id) ids) matrix.shuffle
        (matrix.shuffled ids) ids (h id ids) refl

  -- Where every solver names a provider of the matrix and the shuffle only changes the order, there is a
  -- plan. It has one job for each instance that the filters keep, as often as they keep it, each solver
  -- and each seed, with the instances outermost and the seeds innermost; and the instances stand in the
  -- order in which they are kept, or shuffled if the matrix says so.
  pub plan_jobs-IsExpansion :
      All IsProvided matrix.solvers
      → IsShuffle matrix.shuffled
      → (jobs : List PlannedRunJob) × (order : List String) × IsExpansion jobs order
  unfolding plan_jobs
  plan_jobs-IsExpansion h shuffles =
      let (jobs, planned, every_cell) = instance_jobs-Covers (instance_order matrix kept_ids) h in
      (
        jobs,
        instance_order matrix kept_ids,
        record {
          planned = planned;
          every_cell = every_cell;
          each_kept = λ id. instance_order-count id kept_ids shuffles;
          ordered = refl;
        },
      )

  join-none : (o : Option (List PlannedRunJob)) → join o none ≡ none
  join-none none = refl
  join-none (some jobs) = refl

  solver_jobs-unknown :
      (i : String) (s : Solver) (ss : List Solver)
      → In s ss
      → get (providers_by_id matrix.providers) s.provider_id ≡ none
      → solver_jobs matrix i ss ≡ none
  unfolding solver_jobs
  solver_jobs-unknown i s [] h e = absurd h
  solver_jobs-unknown i s (t ∷ ts) (inl same) e =
      let missing : get (providers_by_id matrix.providers) t.provider_id ≡ none =
        ap (λ (u : Solver). get (providers_by_id matrix.providers) u.provider_id) same ∙ e in
      rw missing refl
  solver_jobs-unknown i s (t ∷ ts) (inr later) e =
      rw (solver_jobs-unknown i s ts later e) (join-none _)

  -- Where some instance is left to plan and some solver names no provider of the matrix, there is no
  -- plan: the look-up of the provider raises KeyError.
  pub plan_jobs-unknown :
      (s : Solver) (i : String) (is : List String)
      → In s matrix.solvers
      → get (providers_by_id matrix.providers) s.provider_id ≡ none
      → instance_order matrix (
          apply_filters matrix.instance_ids matrix.include_instance_ids matrix.exclude_instance_ids)
        ≡ i ∷ is
      → plan_jobs matrix ≡ none
  unfolding plan_jobs instance_jobs
  plan_jobs-unknown s i is listed missing planned =
      rw (planned, solver_jobs-unknown i s matrix.solvers listed missing) refl
