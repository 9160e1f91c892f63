-- ===== src/Parallel/Pool/Refinement.antt =====
-- What a call of `parallel` on the shared pool does is what the model of Parallel/Schedule does under
-- some schedule.
use c9y.Base.{
  Bool, occurrences, Bool-cases, inl, inr, ℕ, suc, ◌+◌, ◌==◌, ◌<◌, ◌≡◌, refl, ap, sym, ◌∙◌, true,
  Option, some, List, [], ◌∷◌, if◌then◌else◌, arith,
}
use c9y.Parallel.Schedule.{pick, order, parallel}
use c9y.Parallel.Schedule.Independence.{run_all, parallel-run_all}
use c9y.Parallel.Pool.{get_parallel_pool, System, begin, Reach}
use c9y.Parallel.Pool.Counting.{
  own_length, begin-IsPlaced, ran_when_returned, thrown_when_returned, effect,
}
use c9y.Parallel.Pool.Placing.{Reach-IsPlaced}
use c9y.TaskPool.{TaskPool}
use c9y.Exceptions.{Outcome, Handler}

-- Where a number stands in a list.
unfoldable index : ℕ → List ℕ → ℕ
index x [] = 0
index x (n ∷ ns) = if n == x then 0 else suc (index x ns)

pick-index :
    (x n : ℕ) (ns : List ℕ)
    → 0 < occurrences x (n ∷ ns)
    → ((pick (index x (n ∷ ns)) n ns).0 ≡ x)
      × ((y : ℕ)
          → occurrences y (n ∷ ns)
            ≡ (if x == y then 1 else 0) + occurrences y (pick (index x (n ∷ ns)) n ns).1)
unfolding pick index
pick-index x n [] h = (ground arith, λ y. ground arith)
pick-index x n (m ∷ ms) h = elim (Bool-cases (n == x)) [
  | inl this ↦ (ground (arith, this), λ y. ground (arith, this))
  | inr differ ↦
      let (found, rest) = pick-index x m ms (ground (arith, differ)) in
      (ground (arith, differ, found), λ y. ground (arith, differ, rest y))
]

-- The schedule under which a list of tasks runs in a given order.
unfoldable schedule_of : List ℕ → List ℕ → List ℕ
unfolding pick index
schedule_of [] tasks = []
schedule_of (x ∷ xs) [] = []
schedule_of (x ∷ xs) (n ∷ ns) = let k = index x (n ∷ ns) in k ∷ schedule_of xs (pick k n ns).1

order-schedule_of :
    (ran tasks : List ℕ)
    → ((x : ℕ) → occurrences x ran ≡ occurrences x tasks)
    → order (schedule_of ran tasks) tasks ≡ ran
unfolding order schedule_of
order-schedule_of [] [] same = refl
order-schedule_of [] (n ∷ ns) same = absurd (ground (arith, same n))
order-schedule_of (x ∷ xs) [] same = absurd (ground (arith, same x))
order-schedule_of (x ∷ xs) (n ∷ ns) same =
    let (found, rest) = pick-index x n ns (ground (arith, same x)) in
    let later =
      order-schedule_of xs (pick (index x (n ∷ ns)) n ns).1 (λ y. ground (arith, same y, rest y)) in
    ap
      (λ z.
        z
        ∷ order (schedule_of xs (pick (index x (n ∷ ns)) n ns).1) (pick (index x (n ∷ ns)) n ns).1)
      found
    ∙ ap (◌∷◌ x) later

module _ {ℓ} {S : Type ℓ} (threads : ℕ) (handler : Handler S) (run : ℕ → S → Outcome S)
    (can_end : ℕ → Bool) where
  -- A call of `parallel` on the shared pool of any number of threads, whatever its threads and other
  -- callers do, and in whatever order, where tasks may throw: if it has returned, then no task threw,
  -- and the world is as the model of Parallel/Schedule returns it under some schedule. Before the call
  -- the pool holds no function of the call.
  pub parallel-refined :
      (pool : Option TaskPool) (tasks : List ℕ) (world : S) {s : System S}
      → own_length (get_parallel_pool pool).tasks.container ≡ 0
      → Reach threads handler run can_end (begin pool tasks world) s
      → s.returned ≡ true
      → (s.thrown ≡ 0)
        × (schedule : List ℕ) × (parallel (effect handler run) schedule tasks world ≡ some s.world)
  parallel-refined pool tasks world {s} clean r returned =
      let (ran, p) =
        Reach-IsPlaced threads handler run can_end tasks world []
          (begin-IsPlaced threads handler run tasks world pool clean) r in
      let same = ran_when_returned threads handler run tasks world p returned in
      (
        thrown_when_returned threads handler run tasks world p returned,
        schedule_of ran tasks,
        parallel-run_all (effect handler run) (schedule_of ran tasks) tasks world
            ∙ ap (λ fs. some (run_all (effect handler run) fs world))
                (order-schedule_of ran tasks same)
            ∙ ap some (sym p.acted_on),
      )
