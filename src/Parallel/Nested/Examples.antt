-- ===== src/Parallel/Nested/Examples.antt =====
-- Tasks that call parallel, on a pool of one thread: function 1 calls parallel with the λ 2.
use c9y.Base.{ℕ, ◌≡◌, ◌==◌, refl, none, some, [], ◌∷◌, All, update, if◌then◌else◌, arith}
use c9y.Base.Int.{pos}
use c9y.Latch.{Latch, latch}
use c9y.Queue.{queue, pop_wait}
use c9y.TaskPool.{TaskPool, enqueue}
use c9y.Parallel.Nested.{Job, calling, System, take, call, issue, Reach, here, next}
use c9y.Parallel.Nested.Starving.{IsCaught, parallel-starved}

abbrev job : ℕ → Job
job n =
    if n == 1
    then record { of_call = none; calls = some (0, 2 ∷ []) }
    else record { of_call = some 0; calls = none }

abbrev one_queued : TaskPool
one_queued = record { tasks = queue (1 ∷ []); tasks_in_flight = 1 }

abbrev no_latches : ℕ → Latch
no_latches c = record { count = pos 0 }

abbrev in_call : System
in_call = record {
  pool = enqueue 2 (record { tasks = queue []; tasks_in_flight = 1 });
  latches = update no_latches 0 (latch (pos 1));
  busy = calling 1 0 [] ∷ [];
  ended = [];
}

in_call-Reach :
    Reach 1 job (record { pool = one_queued; latches = no_latches; busy = []; ended = [] }) in_call
unfolding queue pop_wait
in_call-Reach =
    next
      (next (next here (take 1 (queue []) (omega arith) refl refl))
        (call 1 0 (2 ∷ []) [] [] refl refl refl))
      (issue 1 0 2 [] [] [] refl refl)

parallel-starved_example : (in_call.ended ≡ []) × All (IsCaught 1 job in_call.latches) in_call.busy
unfolding queue
parallel-starved_example =
    parallel-starved 1 job one_queued no_latches (1 ∷ []) [] refl refl ((0, 2, [], refl), tt)
      in_call-Reach
