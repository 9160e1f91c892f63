-- ===== src/Parallel/Pool/Examples.antt =====
-- A call of `parallel` on a new pool, with small inputs; task 7 throws.
use c9y.Base.{
  Bool, ◌<◌, ◌==◌, if◌then◌else◌, ◌⊎◌, false, ℕ, ◌+◌, ◌≡◌, refl, true, false, none, some, List, [],
  ◌∷◌, arith,
}
use c9y.Base.Int.{pos, ◌-ℤ◌}
use c9y.Latch.{latch, count_down, wait}
use c9y.Parallel.Pool.Counting.{own_length, effect}
use c9y.Queue.{pop_wait}
use c9y.TaskPool.{task_pool, enqueue}
use c9y.Parallel.Schedule.{parallel}
use c9y.Parallel.Pool.{
  System, begin, issue, take, act, act_threw, EndsProcess, count, return, Reach, here, next,
  get_parallel_pool,
}
use c9y.Parallel.Pool.Refinement.{parallel-refined}
use c9y.Parallel.Pool.Hanging.{parallel-returns_or_hangs, parallel-throws}
use c9y.Parallel.Pool.Lifetime.{parallel-latch_unused}
use c9y.Parallel.Pool.Progress.{parallel-returns}
use c9y.Exceptions.{Outcome, Handler, unhandled_exception}

abbrev add : ℕ → ℕ → Outcome ℕ
add f w = if f == 7 then Outcome.threw w else Outcome.returned (w + f)

abbrev always : ℕ → Bool
always n = true

-- A handler that goes on.
abbrev ignore : Handler ℕ
ignore w = some (Outcome.returned w)

-- One thread and one task, which is enqueued, taken and run; then the call returns.
abbrev s₀ : System ℕ
s₀ = begin none (5 ∷ []) 1

abbrev s₁ : System ℕ
s₁ = record s₀ { left = []; pool = enqueue 11 s₀.pool }

abbrev s₂ : System ℕ
s₂ = record s₁ {
  pool = record (s₁.pool) { tasks = record { container = []; stopped = false } };
  running = 11 ∷ [];
}

abbrev s₃ : System ℕ
s₃ = record s₂ { world = 6; running = []; acted = 1 }

abbrev s₄ : System ℕ
s₄ = record s₃ { acted = 0; latch = (count_down (pos 1) s₃.latch).0; completing = 1 }

abbrev s₅ : System ℕ
s₅ = record s₄ { returned = true }

s₁-Reach : Reach 1 ignore add always s₀ s₁
unfolding begin
s₁-Reach = next here (issue 5 [] refl refl)

s₅-Reach : Reach 1 ignore add always s₀ s₅
unfolding begin enqueue pop_wait wait task_pool get_parallel_pool latch count_down ◌-ℤ◌
s₅-Reach =
    next
      (next
        (next
          (next s₁-Reach
            (take 11 (record { container = []; stopped = false }) (omega arith) refl refl))
          (act 5 [] [] 6 refl refl refl refl))
        (count 0 refl refl))
      (return refl refl refl)

made_pool-empty : own_length (get_parallel_pool none).tasks.container ≡ 0
unfolding get_parallel_pool task_pool
made_pool-empty = refl

parallel-refined_example :
    (s₅.thrown ≡ 0)
    × (schedule : List ℕ) × (parallel (effect ignore add) schedule (5 ∷ []) 1 ≡ some s₅.world)
parallel-refined_example =
    parallel-refined 1 ignore add always none (5 ∷ []) 1 made_pool-empty s₅-Reach refl

parallel-returns_or_hangs_example :
    (t : System ℕ) × Reach 1 ignore add always s₁ t
    × ((t.returned ≡ true)
        ⊎ (EndsProcess 1 ignore add always t
            ⊎ ((◌≡◌ {A = ℕ} 1 0 ⊎ (0 < t.thrown))
                × ((u : System ℕ) → Reach 1 ignore add always t u → u.returned ≡ false))))
parallel-returns_or_hangs_example =
    parallel-returns_or_hangs ignore add always 1 none (5 ∷ []) 1 (omega arith) (λ n. refl)
      made_pool-empty s₁-Reach

-- The same without task 7.
abbrev sum : ℕ → ℕ → Outcome ℕ
sum f w = Outcome.returned (w + f)

sum-Reach : Reach 1 ignore sum always s₀ s₁
unfolding begin
sum-Reach = next here (issue 5 [] refl refl)

parallel-returns_example : (t : System ℕ) × Reach 1 ignore sum always s₁ t × (t.returned ≡ true)
parallel-returns_example =
    parallel-returns 1 ignore sum always none (5 ∷ []) 1 (λ f w. (w + f, refl)) (omega arith)
      (λ n. refl) made_pool-empty sum-Reach

-- Task 7 is enqueued, taken, and throws.
abbrev r₀ : System ℕ
r₀ = begin none (7 ∷ []) 1

abbrev r₁ : System ℕ
r₁ = record r₀ { left = []; pool = enqueue 15 r₀.pool }

abbrev r₂ : System ℕ
r₂ = record r₁ {
  pool = record (r₁.pool) { tasks = record { container = []; stopped = false } };
  running = 15 ∷ [];
}

abbrev r₃ : System ℕ
r₃ = record r₂ { running = []; completing = 1; thrown = 1 }

r₃-Reach : Reach 1 ignore add always r₀ r₃
unfolding begin enqueue pop_wait task_pool get_parallel_pool latch unhandled_exception
r₃-Reach =
    next
      (next (next here (issue 7 [] refl refl))
        (take 15 (record { container = []; stopped = false }) (omega arith) refl refl))
      (act_threw 7 [] [] 1 1 refl refl refl refl refl)

throwing_task-hangs : r₃.returned ≡ false
throwing_task-hangs =
    parallel-throws ignore add always 1 none (7 ∷ []) 1 made_pool-empty 7 (omega arith)
      (λ w. (w, refl)) r₃-Reach

parallel-latch_unused_example :
    (s₅.left ≡ [])
    × (own_length s₅.pool.tasks.container ≡ 0)
    × (own_length s₅.running ≡ 0)
    × (s₅.acted ≡ 0)
parallel-latch_unused_example =
    parallel-latch_unused 1 ignore add always none (5 ∷ []) 1 made_pool-empty s₅-Reach refl
