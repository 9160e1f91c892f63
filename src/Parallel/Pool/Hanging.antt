-- ===== src/Parallel/Pool/Hanging.antt =====
-- A call of `parallel` that does not return: on a shared pool without threads, of which it gets as many
-- as std::thread::hardware_concurrency() says, 0 where that number is not known; or as a task throws.
use c9y.Base.{
  Bool, occurrences, [], ◌≤◌, Bool-cases, ◌⊎◌, inl, inr, true, zero, suc, ℕ, ◌<◌, ◌≡◌, refl, false,
  Option, List, ◌∷◌, ◌++◌, length, arith, length-append, ap,
}
use c9y.Base.Int.{pos}
use c9y.Exceptions.{Outcome, Handler}
use c9y.Latch.{wait}
use c9y.TaskPool.{TaskPool}
use c9y.Parallel.Pool.Counting.{
  own_length, IsPlaced, begin-IsPlaced, ran_when_returned, thrown_when_returned,
}
use c9y.Parallel.Pool.Placing.{Reach-IsPlaced}
use c9y.Parallel.Pool.Progress.{Reach-trans, Step-thrown, parallel-ends}
use c9y.Parallel.Pool.{
  get_parallel_pool, System, begin, Step, issue, other, take, act, act_threw, act_other,
  EndsProcess, count, end, return, Reach, here, next,
}

module _ {ℓ} {S : Type ℓ} (handler : Handler S) (run : ℕ → S → Outcome S) (can_end : ℕ → Bool)
    (tasks : List ℕ) where
  record IsStuck (s : System S) : Type 0 where
    none_running : length s.running ≡ 0
    none_acted : s.acted ≡ 0
    latched : s.latch.count ≡ pos (length tasks)
    not_returned : s.returned ≡ false

  unmoved :
      {s : System S} (pool : TaskPool) (left : List ℕ) (completing : ℕ)
      → IsStuck s
      → IsStuck (record s { pool = pool; left = left; completing = completing })
  unmoved pool left completing k = record {
    none_running = k.none_running;
    none_acted = k.none_acted;
    latched = k.latched;
    not_returned = k.not_returned;
  }

  not_nil : (n : ℕ) (before behind ns : List ℕ) → length ns ≡ 0 → ns ≡ before ++ n ∷ behind → 0 < 0
  not_nil n before behind ns e h = omega (arith, ap length h, length-append before (n ∷ behind))

  Step-IsStuck :
      {s t : System S} → 0 < length tasks → Step 0 handler run can_end s t → IsStuck s → IsStuck t
  unfolding wait
  Step-IsStuck some_task (issue f rest h e) k = rw e (unmoved _ _ _ k)
  Step-IsStuck some_task (other f e) k = rw e (unmoved _ _ _ k)
  Step-IsStuck some_task (take n q free h e) k = absurd (omega (arith, free))
  Step-IsStuck {s} some_task (act f before behind w h ends runs e) k =
      absurd (omega (arith, not_nil _ before behind s.running k.none_running h))
  Step-IsStuck {s} some_task (act_threw f before behind w v h ends runs handled e) k =
      absurd (omega (arith, not_nil _ before behind s.running k.none_running h))
  Step-IsStuck {s} some_task (act_other f before behind h ends e) k =
      absurd (omega (arith, not_nil _ before behind s.running k.none_running h))
  Step-IsStuck some_task (count j h e) k = absurd (omega (arith, k.none_acted, h))
  Step-IsStuck some_task (end j h e) k = rw e (unmoved _ _ _ k)
  Step-IsStuck some_task (return h w e) k = absurd (ground (arith, k.latched, w))

  Reach-IsStuck :
      {s t : System S} → 0 < length tasks → IsStuck s → Reach 0 handler run can_end s t → IsStuck t
  Reach-IsStuck some_task k here = k
  Reach-IsStuck some_task k (next r st) = Step-IsStuck some_task st (Reach-IsStuck some_task k r)

  -- On a shared pool without threads, parallel of one task or more does not return, whatever happens.
  pub parallel-no_threads :
      (pool : Option TaskPool) (world : S) {s : System S}
      → 0 < length tasks
      → Reach 0 handler run can_end (begin pool tasks world) s
      → s.returned ≡ false
  unfolding begin
  parallel-no_threads pool world some_task r = (Reach-IsStuck some_task start r).not_returned
    where
      start : IsStuck (begin pool tasks world)
      start = record { none_running = refl; none_acted = refl; latched = refl; not_returned = refl }

module _ {ℓ} {S : Type ℓ} (handler : Handler S) (run : ℕ → S → Outcome S) (can_end : ℕ → Bool)
    (threads : ℕ) (pool : Option TaskPool) (tasks : List ℕ) (world : S)
    (clean : own_length (get_parallel_pool pool).tasks.container ≡ 0) where
  thrown-grows : {s t : System S} → Reach threads handler run can_end s t → s.thrown ≤ t.thrown
  thrown-grows here = omega arith
  thrown-grows (next r st) = elim (Step-thrown threads handler run can_end st) [
    | inl same ↦ omega (arith, thrown-grows r, same)
    | inr (more, _, _, _) ↦ omega (arith, thrown-grows r, more)
  ]

  placed :
      {s : System S}
      → Reach threads handler run can_end (begin pool tasks world) s
      → (ran : List ℕ) × IsPlaced threads handler run tasks world s ran
  placed r =
      Reach-IsPlaced threads handler run can_end tasks world []
        (begin-IsPlaced threads handler run tasks world pool clean) r

  thrown-hangs :
      {s : System S}
      → Reach threads handler run can_end (begin pool tasks world) s
      → 0 < s.thrown
      → s.returned ≡ false
  thrown-hangs {s} r thrown = elim (Bool-cases s.returned) [
    | inl returned ↦
        let (ran, p) = placed r in
        absurd
          (omega (arith, thrown, thrown_when_returned threads handler run tasks world p returned))
    | inr not_yet ↦ not_yet
  ]

  -- A call of `parallel` on a shared pool that holds no function of the call before it. If one of the
  -- tasks throws on every state, then the call does not return, whatever the threads and the other
  -- callers do: the exception passes the count by.
  pub parallel-throws :
      (f : ℕ) {s : System S}
      → 0 < occurrences f tasks
      → ((w : S) → (v : S) × (run f w ≡ Outcome.threw v))
      → Reach threads handler run can_end (begin pool tasks world) s
      → s.returned ≡ false
  parallel-throws f {s} given throws r = elim (Bool-cases s.returned) [
    | inl returned ↦
        let (ran, p) = placed r in
        absurd (
          omega (
            arith,
            given,
            p.uncounted f throws,
            thrown_when_returned threads handler run tasks world p returned,
            ran_when_returned threads handler run tasks world p returned f,
          ))
    | inr not_yet ↦ not_yet
  ]

-- A call of `parallel` with a task at least, on a shared pool of any number of threads that holds no
-- function of the call before it, where each function that a thread calls ends, the tasks and those of
-- the other callers (so none of them calls `parallel` and waits). From every state that the threads and
-- the other callers can reach, a state can be reached in which: either the call has returned; or the process ends, as a task
-- throws and the handler does not return; or the call will not return whatever happens, and then the
-- pool has no thread, or a task has thrown.
pub parallel-returns_or_hangs {ℓ} :
    {S : Type ℓ} (handler : Handler S) (run : ℕ → S → Outcome S) (can_end : ℕ → Bool) (threads : ℕ)
    (pool : Option TaskPool) (tasks : List ℕ) (world : S) {s : System S}
    → 0 < length tasks
    → ((n : ℕ) → can_end n ≡ true)
    → own_length (get_parallel_pool pool).tasks.container ≡ 0
    → Reach threads handler run can_end (begin pool tasks world) s
    → (t : System S) × Reach threads handler run can_end s t
      × ((t.returned ≡ true)
          ⊎ (EndsProcess threads handler run can_end t
              ⊎ (((threads ≡ 0) ⊎ (0 < t.thrown))
                  × ((u : System S) → Reach threads handler run can_end t u → u.returned ≡ false))))
parallel-returns_or_hangs handler run can_end zero pool tasks world {s} some_task all_end clean r =
    (
      s,
      here,
      inr (
          inr (
            inl refl,
            λ u more.
                parallel-no_threads handler run can_end tasks pool world some_task
                  (Reach-trans 0 handler run can_end r more),
          )),
    )
parallel-returns_or_hangs handler run can_end (suc n) pool tasks world some_task all_end clean r =
    let (t, more, ended) =
      parallel-ends (suc n) handler run can_end pool tasks world (omega arith) all_end clean r in
    elim ended [
      | inl returned ↦ (t, more, inl returned)
      | inr (inr ends) ↦ (t, more, inr (inl ends))
      | inr (inl thrown) ↦ (
        t,
        more,
        inr (
            inr (
              inr thrown,
              λ u on.
                  thrown-hangs handler run can_end (suc n) pool tasks world clean
                    (Reach-trans (suc n) handler run can_end
                      (Reach-trans (suc n) handler run can_end r more) on)
                    (omega (
                      arith,
                      thrown,
                      thrown-grows handler run can_end (suc n) pool tasks world clean on,
                    )),
            )),
      )
    ]
