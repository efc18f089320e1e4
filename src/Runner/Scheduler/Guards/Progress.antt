-- ===== src/Runner/Scheduler/Guards/Progress.antt =====
-- repogauge/runner/scheduler.py: how a worker that waits in `_resource_guards` is served.
use repogauge.Prelude.{
  ℕ, ◌+◌, ◌<◌, String, ◌≡◌, refl, sym, ap, ◌∙◌, subst, inl, inr, true, List, [], ◌∷◌, ◌++◌, arith,
  eq_refl, Bool-cases, length, length-append,
}
use native.Mathlib.Decide.{dec_lt}
use repogauge.Runner.Scheduler.Guards.{
  SemaId, named, fallback, sema_eq, Limits, Phase, outside, holding, throttled, inside, leaving,
  Worker, Pool, at_phase, sema, acquire_provider, admit, release_provider, start, Reach, here, next,
  capacity, update,
}
use repogauge.Runner.Scheduler.Guards.Balance.{
  holds_provider, users, users-append, IsBalanced, start-IsBalanced, Reach-IsBalanced,
  sema_eq_sound,
}

append_assoc : (xs ys zs : List Worker) → (xs ++ ys) ++ zs ≡ xs ++ (ys ++ zs)
append_assoc [] ys zs = refl
append_assoc (x ∷ xs) ys zs = ap (λ l. x ∷ l) (append_assoc xs ys zs)

update_same : (f : SemaId → ℕ) (s : SemaId) (n : ℕ) → sema_eq s s ≡ true → update f s n s ≡ n
update_same f s n h = rw h refl

sema_eq_refl : (s : SemaId) → sema_eq s s ≡ true
sema_eq_refl (named p) = eq_refl p
sema_eq_refl fallback = refl

module _ (limits : Limits) where
  -- A worker that holds the semaphore.
  record UserOf (s : SemaId) (ws : List Worker) : Type 0 where
    before : List Worker
    after : List Worker
    provider_id : String
    phase : Phase
    placed : ws ≡ before ++ at_phase provider_id phase ∷ after
    holds : holds_provider phase ≡ 1
    same : sema limits provider_id ≡ s

  UserOf-cons : (s : SemaId) (w : Worker) (ws : List Worker) → UserOf s ws → UserOf s (w ∷ ws)
  UserOf-cons s w ws u = record {
    before = w ∷ u.before;
    after = u.after;
    provider_id = u.provider_id;
    phase = u.phase;
    placed = ap (λ l. w ∷ l) u.placed;
    holds = u.holds;
    same = u.same;
  }

  UserOf-head :
      (s : SemaId) (p : String) (phase : Phase) (ws : List Worker)
      → sema_eq (sema limits p) s ≡ true
      → holds_provider phase ≡ 1
      → UserOf s (at_phase p phase ∷ ws)
  UserOf-head s p phase ws same holds = record {
    before = [];
    after = ws;
    provider_id = p;
    phase = phase;
    placed = refl;
    holds = holds;
    same = sema_eq_sound _ _ same;
  }

  head_user :
      (s : SemaId) (p : String) (phase : Phase) (ws : List Worker)
      → sema_eq (sema limits p) s ≡ true
      → (0 < users limits s ws → UserOf s ws)
      → 0 < holds_provider phase + users limits s ws
      → UserOf s (at_phase p phase ∷ ws)
  head_user s p inside ws same later h = UserOf-head s p inside ws same refl
  head_user s p throttled ws same later h = UserOf-head s p throttled ws same refl
  head_user s p outside ws same later h = UserOf-cons s _ ws (later (omega arith))
  head_user s p holding ws same later h = UserOf-cons s _ ws (later (omega arith))
  head_user s p leaving ws same later h = UserOf-cons s _ ws (later (omega arith))

  find_user : (s : SemaId) (ws : List Worker) → 0 < users limits s ws → UserOf s ws
  find_user s [] h = absurd (omega arith)
  find_user s (w ∷ ws) h = elim (Bool-cases (sema_eq (sema limits w.provider_id) s)) [
    | inl same ↦ head_user s w.provider_id w.phase ws same (find_user s ws) (rw same at h)
    | inr other ↦
        UserOf-cons s w ws
          (let l : 0 < 0 + users limits s ws = (rw other at h) in find_user s ws (omega arith))
  ]

  -- A pool that is reached with some workers, in which the semaphore is free.
  record Freed (t : Pool) (s : SemaId) (ws : List Worker) : Type 0 where
    pool : Pool
    reached : Reach limits t pool
    workers : pool.workers ≡ ws
    free : 0 < pool.free s

  -- A worker that holds a semaphore can go on and release it, whoever else waits.
  release_user :
      (t : Pool) (before after : List Worker) (q : String) (phase : Phase)
      → holds_provider phase ≡ 1
      → t.workers ≡ before ++ at_phase q phase ∷ after
      → Freed t (sema limits q) (before ++ at_phase q leaving ∷ after)
  release_user t before after q inside h placed = record {
    pool = _;
    reached = next here (release_provider before after q placed refl);
    workers = refl;
    free =
        rw
          (update_same t.free (sema limits q) (t.free (sema limits q) + 1)
            (sema_eq_refl (sema limits q)))
          (omega arith);
  }
  release_user t before after q throttled h placed = record {
    pool = _;
    reached =
        next (next here (admit before after q placed refl))
          (release_provider before after q refl refl);
    workers = refl;
    free =
        rw
          (update_same t.free (sema limits q) (t.free (sema limits q) + 1)
            (sema_eq_refl (sema limits q)))
          (omega arith);
  }
  release_user t before after q outside h placed = absurd (omega arith)
  release_user t before after q holding h placed = absurd (omega arith)
  release_user t before after q leaving h placed = absurd (omega arith)

  -- The worker at a place has the semaphore, in a pool that can be reached.
  pub record IsServed (t : Pool) (place : ℕ) (p : String) : Type 0 where
    pub pool : Pool
    pub reached : Reach limits t pool
    pub before : List Worker
    pub after : List Worker
    pub same_place : length before ≡ place
    pub workers : pool.workers ≡ before ++ at_phase p throttled ∷ after

  serve_free :
      (t u : Pool) (before after : List Worker) (p : String)
      → Reach limits t u
      → u.workers ≡ before ++ at_phase p holding ∷ after
      → 0 < u.free (sema limits p)
      → IsServed t (length before) p
  serve_free t u before after p reached placed free = record {
    pool = _;
    reached = next reached (acquire_provider before after p placed free refl);
    before = before;
    after = after;
    same_place = refl;
    workers = refl;
  }

  -- The worker that has the semaphore stands before the one that waits.
  serve_after :
      (t : Pool) (before after : List Worker) (p : String)
      → t.workers ≡ before ++ at_phase p holding ∷ after
      → UserOf (sema limits p) before
      → IsServed t (length before) p
  serve_after t before after p placed u =
      let waiting = at_phase p holding ∷ after in
      let f : Freed t (sema limits u.provider_id)
          (u.before ++ at_phase u.provider_id leaving ∷ (u.after ++ waiting)) =
        release_user t u.before (u.after ++ waiting) u.provider_id u.phase u.holds (
          placed
          ∙ ap (λ l. l ++ waiting) u.placed
          ∙ append_assoc u.before (at_phase u.provider_id u.phase ∷ u.after) waiting) in
      let served : IsServed t (length (u.before ++ at_phase u.provider_id leaving ∷ u.after)) p =
        serve_free t f.pool (u.before ++ at_phase u.provider_id leaving ∷ u.after) after p f.reached
          (f.workers
            ∙ sym (append_assoc u.before (at_phase u.provider_id leaving ∷ u.after) waiting))
          (subst (λ s. 0 < f.pool.free s) u.same f.free) in
      subst (λ n. IsServed t n p)
        (omega (
          arith,
          ap length u.placed,
          length-append u.before (at_phase u.provider_id leaving ∷ u.after),
          length-append u.before (at_phase u.provider_id u.phase ∷ u.after),
        ))
        served

  -- It stands behind the one that waits.
  serve_before :
      (t : Pool) (before after : List Worker) (p : String)
      → t.workers ≡ before ++ at_phase p holding ∷ after
      → UserOf (sema limits p) after
      → IsServed t (length before) p
  serve_before t before after p placed u =
      let ahead = before ++ at_phase p holding ∷ u.before in
      let f : Freed t (sema limits u.provider_id)
          (ahead ++ at_phase u.provider_id leaving ∷ u.after) =
        release_user t ahead u.after u.provider_id u.phase u.holds (
          placed
          ∙ ap (λ l. before ++ at_phase p holding ∷ l) u.placed
          ∙ sym (
              append_assoc before (at_phase p holding ∷ u.before)
                (at_phase u.provider_id u.phase ∷ u.after))) in
      serve_free t f.pool before (u.before ++ at_phase u.provider_id leaving ∷ u.after) p f.reached
        (f.workers
          ∙ append_assoc before (at_phase p holding ∷ u.before)
              (at_phase u.provider_id leaving ∷ u.after))
        (subst (λ s. 0 < f.pool.free s) u.same f.free)

  serve_taken :
      (t : Pool) (before after : List Worker) (p : String)
      → t.workers ≡ before ++ at_phase p holding ∷ after
      → 0 < users limits (sema limits p) t.workers
      → IsServed t (length before) p
  serve_taken t before after p placed h =
      let s = sema limits p in
      elim (dec_lt 0 (users limits s before)) [
        | yes some_before ↦ serve_after t before after p placed (find_user s before some_before)
        | no none_before ↦ serve_before t before after p placed (
            find_user s after (
              ground (
                arith,
                ap (users limits s) placed,
                users-append limits s before (at_phase p holding ∷ after),
              )))
      ]

  -- In every reachable state, whichever workers wait, there are further steps after which a worker that
  -- waits for a provider semaphore of capacity at least 1 has it, at the same place among the workers. A
  -- worker at the rate limiter may pass it.
  pub Reach-IsServed :
      (providers : List String) (t : Pool) (before after : List Worker) (p : String)
      → 0 < capacity limits (sema limits p)
      → Reach limits (start limits providers) t
      → t.workers ≡ before ++ at_phase p holding ∷ after
      → IsServed t (length before) p
  Reach-IsServed providers t before after p some_capacity r placed =
      let balanced : IsBalanced limits t =
        Reach-IsBalanced limits (start-IsBalanced limits providers) r in
      elim (dec_lt 0 (t.free (sema limits p))) [
        | yes free ↦ serve_free t t before after p here placed free
        | no taken ↦
            serve_taken t before after p placed (omega (arith, balanced.each (sema limits p)))
      ]
