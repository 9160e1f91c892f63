-- ===== src/Parallel/Pool/Progress.antt =====
-- A call of `parallel` on the shared pool can always go on until it returns, unless a task throws.
use c9y.Base.{
  Bool, List-cases, ℕ-cases, ap, ◌∙◌, Option-cases, Bool-cases, inl, inr, ◌⊎◌, ℕ, zero, suc, ◌+◌,
  ◌*◌, ◌/◌, ◌%◌, ◌==◌, ◌<◌, ◌≡◌, refl, true, false, Option, List, [], ◌∷◌, length, arith,
  length-append,
}
use c9y.Exceptions.{Outcome, Handler, unhandled_exception}
use c9y.Latch.{wait}
use c9y.Queue.{pop_wait}
use c9y.TaskPool.{TaskPool, enqueue, complete}
use c9y.Parallel.Pool.{
  get_parallel_pool, own, System, begin, Step, issue, take, act, act_threw, act_other, other,
  EndsProcess, count, end, return, Reach, here, next,
}
use c9y.Parallel.Pool.Counting.{own_length, IsPlaced, begin-IsPlaced}
use c9y.Parallel.Pool.Placing.{Step-IsPlaced, Reach-IsPlaced}

module _ {ℓ} {S : Type ℓ} (threads : ℕ) (handler : Handler S) (run : ℕ → S → Outcome S)
    (can_end : ℕ → Bool) where
  -- How many steps are left at most before the call can return.
  abbrev rank : System S → ℕ
  rank s =
      5 * length s.left
      + 4 * length s.pool.tasks.container
      + 3 * length s.running
      + 2 * s.acted
      + s.completing

  abbrev Advanced : System S → System S → Type 0
  Advanced s t = (t.returned ≡ true) ⊎ ((t.returned ≡ false) × (rank t < rank s))

  -- The call has returned; a task threw, and the handler returned; or the process ends.
  abbrev pub Ended : System S → Type ℓ
  Ended s = (s.returned ≡ true) ⊎ ((0 < s.thrown) ⊎ EndsProcess threads handler run can_end s)

  pub Reach-trans :
      {s t u : System S}
      → Reach threads handler run can_end s t
      → Reach threads handler run can_end t u
      → Reach threads handler run can_end s u
  Reach-trans r here = r
  Reach-trans r (next q st) = next (Reach-trans r q) st

  module _ (tasks : List ℕ) (world : S) (some_thread : 0 < threads)
      (all_end : (n : ℕ) → can_end n ≡ true) where
    advance :
        (s : System S) (ran : List ℕ)
        → IsPlaced threads handler run tasks world s ran
        → s.returned ≡ false
        → Ended s ⊎ ((t : System S) × Step threads handler run can_end s t × Advanced s t)
    unfolding enqueue pop_wait wait complete
    advance s ran p r = elim (ℕ-cases s.thrown) [
      | inr (k, h) ↦ inl (inr (inl (omega arith)))
      | inl none_thrown ↦ elim (ℕ-cases s.acted) [
        | inr (k, h) ↦ inr (_, count k h refl, inr (r, ground (arith, h)))
        | inl none_acted ↦ elim (ℕ-cases s.completing) [
          | inr (k, h) ↦ inr (_, end k h refl, inr (r, ground (arith, h)))
          | inl none_completing ↦ elim (List-cases s.running) [
            | inr (n, ns, h) ↦ called n ns h
            | inl none_running ↦ elim (List-cases s.pool.tasks.container) [
              | inr (n, ns, h) ↦ inr (
                _,
                take n (record s.pool.tasks { container = ns })
                    (ground (arith, none_acted, none_completing, none_running)) (ground (arith, h))
                    refl,
                inr (r, ground (arith, h)),
              )
              | inl none_queued ↦ elim (List-cases s.left) [
                | inr (f, rest, h) ↦ inr (
                  _,
                  issue f rest h refl,
                  inr (r, ground (arith, h, length-append s.pool.tasks.container (own f ∷ []))),
                )
                | inl none_left ↦ inr (
                  _,
                  return none_left
                      (ground (
                        arith, p.latched, none_thrown, none_left, none_queued, none_running,
                        none_acted,
                      ))
                      refl,
                  inl refl,
                )
              ]
            ]
          ]
        ]
      ]
    ]
      where
        acted :
            (f : ℕ) (ns : List ℕ) (o : Outcome S)
            → s.running ≡ own f ∷ ns
            → run f s.world ≡ o
            → Ended s ⊎ ((t : System S) × Step threads handler run can_end s t × Advanced s t)
        acted f ns (Outcome.returned w) h e =
            inr (_, act f [] ns w h (all_end _) e refl, inr (r, ground (arith, h)))
        acted f ns (Outcome.threw w) h e = elim (Option-cases (unhandled_exception handler w)) [
          | inl ends ↦ inl (inr (inr (f, [], ns, w, h, all_end _, e, ends)))
          | inr (v, handled) ↦
              inr
                (_, act_threw f [] ns w v h (all_end _) e handled refl, inr (r, ground (arith, h)))
        ]

        called :
            (n : ℕ) (ns : List ℕ)
            → s.running ≡ n ∷ ns
            → Ended s ⊎ ((t : System S) × Step threads handler run can_end s t × Advanced s t)
        called n ns h = elim (Bool-cases (n % 2 == 1)) [
          | inl odd ↦ acted (n / 2) ns (run (n / 2) s.world) (ground (arith, h, odd)) refl
          | inr even ↦ inr (
            _,
            act_other (n / 2) [] ns (ground (arith, h, even)) (all_end _) refl,
            inr (r, ground (arith, h)),
          )
        ]

    finish :
        (fuel : ℕ) (s : System S) (ran : List ℕ)
        → rank s < fuel
        → IsPlaced threads handler run tasks world s ran
        → s.returned ≡ false
        → (t : System S) × Reach threads handler run can_end s t × Ended t
    finish zero s ran h p r = absurd (omega arith)
    finish (suc fuel) s ran h p r = elim (advance s ran p r) [
      | inl ended ↦ (s, here, ended)
      | inr (t, st, ahead) ↦
          let (ran', q) = Step-IsPlaced threads handler run can_end tasks world ran st p in
          elim ahead [
            | inl returned ↦ (t, next here st, inl returned)
            | inr (more, less) ↦
                let (u, path, ended) = finish fuel t ran' (omega arith) q more in
                (u, Reach-trans (next here st) path, ended)
          ]
    ]

  -- On a shared pool with a thread at least, where no function blocks its thread for good, and that
  -- holds no function of the call before it: from every
  -- state that the threads and the other callers can reach, a state can be reached in which `parallel`
  -- has returned, or a task has thrown, or the process ends, so that no order of steps leads to another
  -- deadlock.
  pub parallel-ends :
      (pool : Option TaskPool) (tasks : List ℕ) (world : S) {s : System S}
      → 0 < threads
      → ((n : ℕ) → can_end n ≡ true)
      → own_length (get_parallel_pool pool).tasks.container ≡ 0
      → Reach threads handler run can_end (begin pool tasks world) s
      → (t : System S) × Reach threads handler run can_end s t × Ended t
  parallel-ends pool tasks world {s} some_thread all_end clean r =
      let (ran, p) =
        Reach-IsPlaced threads handler run can_end tasks world []
          (begin-IsPlaced threads handler run tasks world pool clean) r in
      elim (Bool-cases s.returned) [
        | inl returned ↦ (s, here, inl returned)
        | inr not_yet ↦
            finish tasks world some_thread all_end (suc (rank s)) s ran (omega arith) p not_yet
      ]

  -- A step counts one exception more only where a task throws.
  pub Step-thrown :
      {s t : System S}
      → Step threads handler run can_end s t
      → (t.thrown ≡ s.thrown)
        ⊎ ((t.thrown ≡ suc s.thrown) × (f : ℕ) × (w : S) × (run f s.world ≡ Outcome.threw w))
  Step-thrown (issue f rest h e) = inl (ap (λ x. x.thrown) e)
  Step-thrown (other f e) = inl (ap (λ x. x.thrown) e)
  Step-thrown (take n q free h e) = inl (ap (λ x. x.thrown) e)
  Step-thrown (act f before behind w h ends runs e) = inl (ap (λ x. x.thrown) e)
  Step-thrown (act_threw f before behind w v h ends runs handled e) =
      inr (ap (λ x. x.thrown) e, f, w, runs)
  Step-thrown (act_other f before behind h ends e) = inl (ap (λ x. x.thrown) e)
  Step-thrown (count k h e) = inl (ap (λ x. x.thrown) e)
  Step-thrown (end k h e) = inl (ap (λ x. x.thrown) e)
  Step-thrown (return h w e) = inl (ap (λ x. x.thrown) e)

  -- Where no task throws, none has.
  quiet-thrown :
      ((f : ℕ) (w : S) → (v : S) × (run f w ≡ Outcome.returned v))
      → {s t : System S} → Reach threads handler run can_end s t
      → s.thrown ≡ 0
      → t.thrown ≡ 0
  quiet-thrown quiet here e = e
  quiet-thrown quiet (next {t} r st) e = elim (Step-thrown st) [
    | inl same ↦ same ∙ quiet-thrown quiet r e
    | inr (_, f, w, threw) ↦ let (v, returns) = quiet f t.world in cc
  ]

  -- On a shared pool with a thread at least, that holds no function of the call before it, where no task
  -- throws, and where each function that a thread calls ends, the tasks and those of the other callers
  -- (so none of them calls `parallel` and waits): from every state that the threads and the other callers can reach, a state can be
  -- reached in which `parallel` has returned.
  pub parallel-returns :
      (pool : Option TaskPool) (tasks : List ℕ) (world : S) {s : System S}
      → ((f : ℕ) (w : S) → (v : S) × (run f w ≡ Outcome.returned v))
      → 0 < threads
      → ((n : ℕ) → can_end n ≡ true)
      → own_length (get_parallel_pool pool).tasks.container ≡ 0
      → Reach threads handler run can_end (begin pool tasks world) s
      → (t : System S) × Reach threads handler run can_end s t × (t.returned ≡ true)
  unfolding begin
  parallel-returns pool tasks world quiet some_thread all_end clean r =
      let (t, more, ended) = parallel-ends pool tasks world some_thread all_end clean r in
      elim ended [
        | inl returned ↦ (t, more, returned)
        | inr (inl thrown) ↦
            absurd (omega (arith, thrown, quiet-thrown quiet (Reach-trans r more) refl))
        | inr (inr (f, _, _, w, _, _, threw, _)) ↦ let (v, returns) = quiet f t.world in cc
      ]
