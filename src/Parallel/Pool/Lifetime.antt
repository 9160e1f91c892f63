-- ===== src/Parallel/Pool/Lifetime.antt =====
-- The latch of a call of `parallel` stands on the caller's stack, and the λs refer to it.
use c9y.Base.{Bool, ◌≡◌, refl, true, Option, List, [], ◌∷◌, length, ℕ, ap, arith}
use c9y.Base.Int.{pos_part}
use c9y.Exceptions.{Outcome, Handler}
use c9y.TaskPool.{TaskPool}
use c9y.Parallel.Pool.{get_parallel_pool, System, begin, Reach}
use c9y.Parallel.Pool.Counting.{own_length, begin-IsPlaced}
use c9y.Parallel.Pool.Placing.{Reach-IsPlaced}

module _ {ℓ} {S : Type ℓ} (threads : ℕ) (handler : Handler S) (run : ℕ → S → Outcome S)
    (can_end : ℕ → Bool) where
  -- A call of `parallel` on the shared pool of any number of threads, whatever its threads and other
  -- callers do, where tasks may throw: once it has returned, and its latch is gone, no λ of the call is
  -- left to enqueue, queued, taken by a thread, or between its task and its count. So the latch is not
  -- used after its end. Before the call the pool holds no function of the call.
  pub parallel-latch_unused :
      (pool : Option TaskPool) (tasks : List ℕ) (world : S) {s : System S}
      → own_length (get_parallel_pool pool).tasks.container ≡ 0
      → Reach threads handler run can_end (begin pool tasks world) s
      → s.returned ≡ true
      → (s.left ≡ [])
        × (own_length s.pool.tasks.container ≡ 0)
        × (own_length s.running ≡ 0)
        × (s.acted ≡ 0)
  parallel-latch_unused pool tasks world {s} clean r returned =
      let (_, p) =
        Reach-IsPlaced threads handler run can_end tasks world []
          (begin-IsPlaced threads handler run tasks world pool clean) r in
      let left = ap pos_part p.latched in
      let none_left = ap pos_part (p.waited returned) in
      (
        empty s.left (omega (arith, left, none_left)),
        omega (arith, left, none_left),
        omega (arith, left, none_left),
        omega (arith, left, none_left),
      )
    where
      empty : (ns : List ℕ) → length ns ≡ 0 → ns ≡ []
      empty [] e = refl
      empty (n ∷ ns) e = absurd (omega arith)
