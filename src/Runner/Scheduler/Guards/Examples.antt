-- ===== src/Runner/Scheduler/Guards/Examples.antt =====
-- repogauge/runner/scheduler.py: two workers at the resource guards.
use repogauge.Prelude.{◌≤◌, ◌<◌, String, refl, List, [], ◌∷◌, arith}
use repogauge.Runner.Scheduler.Guards.{
  Limits, Pool, Reach, here, next, acquire_global, at_phase, holding, outside, start, capacity,
  sema, named, get_provider_semaphore,
}
use repogauge.Runner.Scheduler.Guards.Balance.{holders, users, Reach-bounded}
use repogauge.Runner.Scheduler.Guards.Progress.{IsServed, Reach-IsServed}

abbrev limits : Limits
limits = record { max_parallel_jobs = 2; provider_parallelism = ("openai", 1) ∷ [] }

abbrev providers : List String
providers = "openai" ∷ "openai" ∷ []

abbrev one_waits : Pool
one_waits = record {
  global_free = 1;
  free = capacity limits;
  workers = at_phase "openai" holding ∷ at_phase "openai" outside ∷ [];
}

one_waits-Reach : Reach limits (start limits providers) one_waits
one_waits-Reach =
    next here (acquire_global [] (at_phase "openai" outside ∷ []) "openai" refl (omega arith) refl)

Reach-bounded_example :
    (holders one_waits.workers ≤ 2)
    × (users limits (named "openai") one_waits.workers ≤ capacity limits (named "openai"))
Reach-bounded_example = Reach-bounded limits providers one_waits (named "openai") one_waits-Reach

some_capacity : 0 < capacity limits (sema limits "openai")
unfolding capacity get_provider_semaphore
some_capacity = omega arith

Reach-IsServed_example : IsServed limits one_waits 0 "openai"
Reach-IsServed_example =
    Reach-IsServed limits providers one_waits [] (at_phase "openai" outside ∷ []) "openai"
      some_capacity one_waits-Reach refl
