-- ===== src/TaskPool/Workers/Shutdown.antt =====
-- c9y/task_pool.cpp: the threads of a pool whose queue is stopped run what is queued, and end.
use c9y.Base.{
  ℕ, ◌+◌, ◌*◌, ◌<◌, ◌≤◌, ◌≡◌, ◌⊎◌, inl, inr, refl, ap, subst, ◌∙◌, true, some, List, [], ◌∷◌,
  length, length-append, All, All-middle, All-around, occurrences, occurrences-append, List-cases,
  arith,
}
use c9y.Exceptions.{Outcome, Handler, guarded}
use c9y.Queue.{pop_wait, ready}
use c9y.TaskPool.{TaskPool, complete, destroy}
use c9y.TaskPool.Workers.Counting.{
  weight, at_work, pop_wait-some, pop_wait-none, weight-replaced, at_work-replaced, IsAlive,
  find_alive,
}
use c9y.TaskPool.Workers.{
  Worker, waiting, running, ended, System, Step, take, finish, leave, Steps, here, next,
}

module _ {ℓ} {W : Type ℓ} (call : ℕ → W → Outcome W) (handler : Handler W) where
  abbrev pub rank : System W → ℕ
  rank s = 3 * length s.pool.tasks.container + weight s.workers

  -- How often a function was run, is run and is queued.
  abbrev pub total : ℕ → System W → ℕ
  total x s = occurrences x s.ran + at_work x s.workers + occurrences x s.pool.tasks.container

  abbrev Advances : System W → System W → Type 0
  Advances s t =
      (t.pool.tasks.stopped ≡ true) × (rank t < rank s) × ((x : ℕ) → total x t ≡ total x s)

  Step-Advances :
      {s t : System W} → Step call handler s t → s.pool.tasks.stopped ≡ true → Advances s t
  unfolding complete
  Step-Advances {s} (take f q before behind h pops e) stopped =
      let (front, same) = pop_wait-some s.pool.tasks pops in
      let less = weight-replaced before behind waiting (running f) s.workers h in
      rw e (
        same ∙ stopped,
        omega (arith, ap length front, less),
        λ x. omega (
          arith,
          ap (occurrences x) front,
          at_work-replaced x before behind waiting (running f) s.workers h,
        ),
      )
  Step-Advances {s} (finish f w before behind h runs e) stopped =
      let less = weight-replaced before behind (running f) waiting s.workers h in
      rw e (
        stopped,
        omega (arith, less),
        λ x. omega (
          arith,
          occurrences-append x s.ran (f ∷ []),
          at_work-replaced x before behind (running f) waiting s.workers h,
        ),
      )
  Step-Advances {s} (leave q before behind h pops e) stopped =
      let (empty, still, same) = pop_wait-none s.pool.tasks pops in
      let less = weight-replaced before behind waiting ended s.workers h in
      rw e (
        same ∙ stopped,
        omega (arith, ap length empty, ap length still, less),
        λ x. omega (
          arith,
          ap (occurrences x) empty,
          ap (occurrences x) still,
          at_work-replaced x before behind waiting ended s.workers h,
        ),
      )

  -- No thread ends while something is queued.
  abbrev IsOrderly : System W → Type 0
  IsOrderly s = (All IsAlive s.workers × (0 < length s.workers)) ⊎ (s.pool.tasks.container ≡ [])

  Step-IsOrderly : {s t : System W} → Step call handler s t → IsOrderly s → IsOrderly t
  unfolding complete
  Step-IsOrderly {s} (take f q before behind h pops e) (inr empty) =
      let (front, _) = pop_wait-some s.pool.tasks pops in cc
  Step-IsOrderly {s} (take f q before behind h pops e) (inl (alive, _)) =
      let (first, _, last) = All-middle IsAlive before waiting behind (rw h at alive) in
      rw e (
        inl (
          All-around IsAlive before (running f) behind first tt last,
          omega (arith, length-append before (running f ∷ behind)),
        ))
  Step-IsOrderly {s} (finish f w before behind h runs e) (inr empty) = rw e (inr empty)
  Step-IsOrderly {s} (finish f w before behind h runs e) (inl (alive, _)) =
      let (first, _, last) = All-middle IsAlive before (running f) behind (rw h at alive) in
      rw e (
        inl (
          All-around IsAlive before waiting behind first tt last,
          omega (arith, length-append before (waiting ∷ behind)),
        ))
  Step-IsOrderly {s} (leave q before behind h pops e) orderly =
      let (_, empty, _) = pop_wait-none s.pool.tasks pops in rw e (inr empty)

  advance :
      ((f : ℕ) (w : W) → (v : W) × (guarded handler (call f w) ≡ some v))
      → (s : System W) → s.pool.tasks.stopped ≡ true
      → All (λ w. w ≡ ended) s.workers ⊎ ((t : System W) × Step call handler s t)
  unfolding pop_wait ready
  advance safe s stopped = elim (find_alive s.workers) [
    | inl all ↦ inl all
    | inr (inr (f, (before, behind, e))) ↦
        let (v, runs) = safe f s.world in inr (_, finish f v before behind e runs refl)
    | inr (inl (before, behind, e)) ↦ elim (List-cases s.pool.tasks.container) [
      | inl empty ↦
          inr (_, leave s.pool.tasks before behind e (ground (arith, stopped, empty)) refl)
      | inr (f, fs, front) ↦ inr (
        _,
        take f (record s.pool.tasks { container = fs }) before behind e (ground (arith, front))
            refl,
      )
    ]
  ]

  Steps-Advances :
      {s : System W} {n : ℕ} {t : System W}
      → Steps call handler s n t
      → s.pool.tasks.stopped ≡ true
      → IsOrderly s
      → (t.pool.tasks.stopped ≡ true)
        × (n + rank t ≤ rank s)
        × ((x : ℕ) → total x t ≡ total x s)
        × IsOrderly t
  Steps-Advances here stopped orderly = (stopped, omega arith, λ x. refl, orderly)
  Steps-Advances (next r step) stopped orderly =
      let (now, left, same, still) = Steps-Advances r stopped orderly in
      let (still_stopped, less, same') = Step-Advances step now in
      (still_stopped, omega (arith, left, less), λ x. same' x ∙ same x, Step-IsOrderly step still)

  ended-empty :
      (s : System W) → All (λ w. w ≡ ended) s.workers → IsOrderly s → s.pool.tasks.container ≡ []
  ended-empty s all (inr empty) = empty
  ended-empty s all (inl (alive, some_worker)) = absurd (not_both s.workers some_worker all alive)
    where
      not_both : (ws : List Worker) → 0 < length ws → All (λ w. w ≡ ended) ws → All IsAlive ws → ⊥
      not_both [] h ends alives = absurd (omega arith)
      not_both (w ∷ ws) h (e, _) (alives, _) = subst IsAlive e alives

  ended-at_work : (x : ℕ) (ws : List Worker) → All (λ w. w ≡ ended) ws → at_work x ws ≡ 0
  ended-at_work x [] all = refl
  ended-at_work x (w ∷ ws) (e, all) = rw e (ended-at_work x ws all)

  -- The destructor of a pool with a thread at least, each of which is waiting for a function or has
  -- one, where functions return, or throw what the handler settles; nothing is enqueued any more. In
  -- any order of their steps the threads do three for each function that is queued, two for each that
  -- they have and one for each other thread at most; they can always go on until all have ended, so
  -- that the joins return; and then the queue is empty, and each function that a thread had or that
  -- was queued was run, as often as it was given.
  pub workers-end :
      (p : TaskPool) (workers : List Worker) (world : W) {n : ℕ} {t : System W}
      → ((f : ℕ) (w : W) → (v : W) × (guarded handler (call f w) ≡ some v))
      → 0 < length workers
      → All IsAlive workers
      → Steps call handler
          (record { pool = destroy p; workers = workers; ran = []; world = world })
          n
          t
      → (n + rank t ≤ 3 * length p.tasks.container + weight workers)
        × (((u : System W) × Step call handler t u)
            ⊎ (All (λ w. w ≡ ended) t.workers
                × (t.pool.tasks.container ≡ [])
                × ((x : ℕ)
                    → occurrences x t.ran ≡ at_work x workers + occurrences x p.tasks.container)))
  unfolding destroy
  workers-end p workers world {n} {t} safe some_worker alive r =
      let (stopped, left, same, orderly) = Steps-Advances r refl (inl (alive, some_worker)) in
      (
        left,
        elim (advance safe t stopped) [
          | inr more ↦ inl more
          | inl all ↦ inr (
            all,
            ended-empty t all orderly,
            λ x. omega (
              arith,
              same x,
              ended-at_work x t.workers all,
              ap (occurrences x) (ended-empty t all orderly),
            ),
          )
        ],
      )
