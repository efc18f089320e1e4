-- ===== src/Runner/Scheduler/Guards/Balance.antt =====
-- repogauge/runner/scheduler.py: the semaphores of `_resource_guards` bound the workers.
use repogauge.Prelude.{
  ℕ, ◌+◌, ◌≤◌, String, ◌≡◌, refl, sym, ap, subst, inl, inr, true, List, [], ◌∷◌, ◌++◌, map, arith,
  eq_iff, if◌then◌else◌, Bool-cases,
}
use repogauge.Runner.Scheduler.Guards.{
  SemaId, sema_eq, named, fallback, Limits, Phase, outside, holding, throttled, inside, leaving,
  Worker, Pool, at_phase, sema, Step, acquire_global, acquire_provider, admit, release_provider,
  release_global, start, Reach, here, next, capacity,
}

abbrev pub holds_global : Phase → ℕ
holds_global outside = 0
holds_global _ = 1

abbrev pub holds_provider : Phase → ℕ
holds_provider throttled = 1
holds_provider inside = 1
holds_provider _ = 0

-- How many workers hold the global semaphore.
abbrev pub holders : List Worker → ℕ
holders [] = 0
holders (w ∷ ws) = holds_global w.phase + holders ws

pub sema_eq_sound : (a b : SemaId) → sema_eq a b ≡ true → a ≡ b
sema_eq_sound (named a) (named b) h = ap named ((eq_iff a b).0 h)
sema_eq_sound fallback fallback h = refl
sema_eq_sound (named a) fallback h = cc
sema_eq_sound fallback (named b) h = cc

module _ (limits : Limits) where
  -- How many workers hold a provider semaphore.
  abbrev pub users : SemaId → List Worker → ℕ
  users s [] = 0
  users s (w ∷ ws) =
      (if sema_eq (sema limits w.provider_id) s then holds_provider w.phase else 0) + users s ws

  pub users-append :
      (s : SemaId) (xs ys : List Worker) → users s (xs ++ ys) ≡ users s xs + users s ys
  users-append s [] ys = omega arith
  users-append s (x ∷ xs) ys = omega (arith, users-append s xs ys)

  holders-append : (xs ys : List Worker) → holders (xs ++ ys) ≡ holders xs + holders ys
  holders-append [] ys = omega arith
  holders-append (x ∷ xs) ys = omega (arith, holders-append xs ys)

  none_hold : (providers : List String) → holders (map (λ p. at_phase p outside) providers) ≡ 0
  none_hold [] = refl
  none_hold (p ∷ ps) = omega (arith, none_hold ps)

  none_use :
      (providers : List String) (s : SemaId) → users s (map (λ p. at_phase p outside) providers) ≡ 0
  none_use [] s = refl
  none_use (p ∷ ps) s = ground (arith, none_use ps s)

  -- Every permit is free or held.
  pub record IsBalanced (t : Pool) : Type 0 where
    pub global : t.global_free + holders t.workers ≡ limits.max_parallel_jobs
    pub each : (s : SemaId) → t.free s + users s t.workers ≡ capacity limits s

  module _ (before after : List Worker) (p : String) (old new : Phase) (s : SemaId) where
    -- One worker goes from one phase to another.
    users_move :
        users s (before ++ at_phase p new ∷ after)
          + (if sema_eq (sema limits p) s then holds_provider old else 0)
        ≡ users s (before ++ at_phase p old ∷ after)
          + (if sema_eq (sema limits p) s then holds_provider new else 0)
    users_move = omega (
      arith,
      users-append s before (at_phase p new ∷ after),
      users-append s before (at_phase p old ∷ after),
    )

  holders_move :
      (before after : List Worker) (p : String) (old new : Phase)
      → holders (before ++ at_phase p new ∷ after) + holds_global old
        ≡ holders (before ++ at_phase p old ∷ after) + holds_global new
  holders_move b a p old new =
      omega (arith, holders-append b (at_phase p new ∷ a), holders-append b (at_phase p old ∷ a))

  Step-IsBalanced : {t u : Pool} → Step limits t u → IsBalanced t → IsBalanced u
  Step-IsBalanced {t} {u} (acquire_global b a p placed free made) h =
      subst IsBalanced (sym made) (record {
        global = omega (arith, holders_move b a p outside holding, ap holders placed, h.global);
        each =
            λ s. ground (arith, users_move b a p outside holding s, ap (users s) placed, h.each s);
      })
  Step-IsBalanced {t} {u} (acquire_provider b a p placed free made) h =
      subst IsBalanced (sym made) (record {
        global = omega (arith, holders_move b a p holding throttled, ap holders placed, h.global);
        each = λ s. elim (Bool-cases (sema_eq (sema limits p) s)) [
          | inl same ↦ rw same (
              omega (
                arith,
                (rw same at (users_move b a p holding throttled s)),
                ap (users s) placed,
                h.each s,
                ap t.free (sema_eq_sound (sema limits p) s same),
              ))
          | inr other ↦ rw other (
              omega (
                arith,
                (rw other at (users_move b a p holding throttled s)),
                ap (users s) placed,
                h.each s,
              ))
        ];
      })
  Step-IsBalanced {t} {u} (admit b a p placed made) h = subst IsBalanced (sym made) (record {
    global = omega (arith, holders_move b a p throttled inside, ap holders placed, h.global);
    each = λ s. ground (arith, users_move b a p throttled inside s, ap (users s) placed, h.each s);
  })
  Step-IsBalanced {t} {u} (release_provider b a p placed made) h =
      subst IsBalanced (sym made) (record {
        global = omega (arith, holders_move b a p inside leaving, ap holders placed, h.global);
        each = λ s. elim (Bool-cases (sema_eq (sema limits p) s)) [
          | inl same ↦ rw same (
              omega (
                arith,
                (rw same at (users_move b a p inside leaving s)),
                ap (users s) placed,
                h.each s,
                ap t.free (sema_eq_sound (sema limits p) s same),
              ))
          | inr other ↦ rw other (
              omega (
                arith,
                (rw other at (users_move b a p inside leaving s)),
                ap (users s) placed,
                h.each s,
              ))
        ];
      })
  Step-IsBalanced {t} {u} (release_global b a p placed made) h =
      subst IsBalanced (sym made) (record {
        global = omega (arith, holders_move b a p leaving outside, ap holders placed, h.global);
        each =
            λ s. ground (arith, users_move b a p leaving outside s, ap (users s) placed, h.each s);
      })

  pub start-IsBalanced : (providers : List String) → IsBalanced (start limits providers)
  start-IsBalanced providers = record {
    global = omega (arith, none_hold providers);
    each = λ s. omega (arith, none_use providers s);
  }

  pub Reach-IsBalanced : {s t : Pool} → IsBalanced s → Reach limits s t → IsBalanced t
  Reach-IsBalanced h here = h
  Reach-IsBalanced h (next r step) = Step-IsBalanced step (Reach-IsBalanced h r)

  -- Whatever the threads do, never more workers than `max_parallel_jobs` are past the global semaphore,
  -- and never more workers are at the limiter or in the body with one provider semaphore than that
  -- semaphore allows.
  pub Reach-bounded :
      (providers : List String) (t : Pool) (s : SemaId)
      → Reach limits (start limits providers) t
      → (holders t.workers ≤ limits.max_parallel_jobs) × (users s t.workers ≤ capacity limits s)
  Reach-bounded providers t s r =
      let balanced : IsBalanced t = Reach-IsBalanced (start-IsBalanced providers) r in
      (omega (arith, balanced.global), omega (arith, balanced.each s))
