-- ===== src/Coroutine/Examples.antt =====
-- A coroutine that awaits two futures, of which the first has ended, and returns their sum; and one that
-- awaits what stands behind it in the queue of a pool of one thread.
use c9y.Base.{
  ℕ, ◌+◌, ◌==◌, ◌<◌, ◌≡◌, ◌⊎◌, true, zero, suc, inl, inr, refl, Option, none, some, [], ◌∷◌, All,
  if◌then◌else◌, arith,
}
use c9y.Queue.{queue, push, pop_wait}
use c9y.TaskPool.{TaskPool, async, enqueue, enqueue_count, enqueue_push, task_pool}
use c9y.Coroutine.Blocking.{System, Reach, here, next, take, Waits, post, co_async-starved}
use c9y.Futures.{Result, ok, raised, FutureState, pending, value, lambda}
use c9y.Coroutine.{Body, co_return, throw, co_await, State, start, await_ready, post_async}
use c9y.Coroutine.Awaiting.{AwaitsBelow, Ends, start-outcome}

abbrev return_sum : ℕ → Result ℕ → Body ℕ
return_sum m (ok n) = co_return (m + n)
return_sum m raised = throw

abbrev await_second : Result ℕ → Body ℕ
await_second (ok m) = co_await 1 (return_sum m)
await_second raised = throw

abbrev sum_of_two : Body ℕ
sum_of_two = co_await 0 await_second

-- Future 0 ends with 5, and all others with 7.
abbrev five_seven : ℕ → FutureState ℕ
five_seven k = if k == 0 then value 5 else value 7

five_seven-ready : (k : ℕ) → await_ready (five_seven k) ≡ true
unfolding await_ready
five_seven-ready k = ground arith

abbrev first_ended : State ℕ (Option TaskPool)
first_ended = record {
  shared = λ k. if k == 0 then value 5 else pending;
  next = 2;
  frames = λ h. none;
  next_frame = 0;
  queue = none;
}

sum_of_two-AwaitsBelow : AwaitsBelow 2 sum_of_two
sum_of_two-AwaitsBelow = (omega arith, second)
  where
    last : (m : ℕ) (r : Result ℕ) → AwaitsBelow 2 (return_sum m r)
    last m (ok n) = tt
    last m raised = tt

    second : (r : Result ℕ) → AwaitsBelow 2 (await_second r)
    second (ok m) = (omega arith, last m)
    second raised = tt

first_ended-unsettled :
    (k : ℕ) → k < 2 → (first_ended.shared k ≡ pending) ⊎ (first_ended.shared k ≡ five_seven k)
first_ended-unsettled zero h = inr refl
first_ended-unsettled (suc k) h = inl (ground arith)

start-outcome_example :
    Ends post_async five_seven five_seven-ready sum_of_two 2 first_ended
      (start post_async sum_of_two first_ended).1
start-outcome_example =
    start-outcome post_async five_seven five_seven-ready sum_of_two first_ended
      sum_of_two-AwaitsBelow first_ended-unsettled

abbrev await_first : Body ℕ
await_first = co_await 0 (return_sum 1)

-- Function 0 of the pool settles future 0.
abbrev settle_first : ℕ → State ℕ (Option TaskPool) → State ℕ (Option TaskPool)
settle_first f s = record s { shared = λ k. if k == f then value 5 else s.shared k }

-- Future 0 is pending, the coroutine is called, and then function 0 is enqueued.
abbrev called : State ℕ (Option TaskPool)
called =
    (start post await_first (record {
      shared = λ k. pending;
      next = 1;
      frames = λ h. none;
      next_frame = 0;
      queue = none;
    })).1

abbrev behind_it : State ℕ (Option TaskPool)
behind_it = record called { queue = post_async 0 called.queue }

abbrev two_queued : TaskPool
two_queued = record { tasks = queue (1 ∷ 0 ∷ []); tasks_in_flight = 2 }

abbrev taken : System ℕ
taken = record {
  state = record behind_it { queue = some (record two_queued { tasks = queue (0 ∷ []) }) };
  running = 1 ∷ [];
}

taken-Reach : Reach 1 settle_first (record { state = behind_it; running = [] }) taken
unfolding start post_async async enqueue enqueue_count enqueue_push task_pool queue push pop_wait
taken-Reach = next here (take two_queued 1 (queue (0 ∷ [])) (omega arith) refl refl refl)

co_async-starved_example :
    (taken.state.shared ≡ behind_it.shared)
    × All (λ n. (k : ℕ) × (n ≡ lambda k) × Waits behind_it k) taken.running
unfolding start post_async async enqueue enqueue_count enqueue_push task_pool queue push pop_wait
co_async-starved_example =
    co_async-starved 1 settle_first behind_it two_queued (0 ∷ []) (0 ∷ []) refl refl refl
      ((record { future = 0; rest = return_sum 1; promise = 1 }, refl, refl), tt) taken-Reach
