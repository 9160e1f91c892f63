-- ===== src/TaskPool/Examples.antt =====
-- The task pool on small inputs. The world is the list of what was called.
use c9y.Base.{
  ◌≤◌, ◌*◌, ◌⊎◌, All, occurrences, ◌+◌, ◌-◌, ◌%◌, ℕ, zero, suc, ◌≡◌, refl, true, false, ◌↔◌, some,
  List, [], ◌∷◌, ◌++◌, arith,
}
use c9y.Exceptions.{Outcome, returned, threw, Handler, guarded}
use c9y.TaskPool.{
  TaskPool, uint_mod, complete, destroy, task_pool, enqueue_count, enqueue_push, is_flushed,
  thread_func, ended,
}
use c9y.Queue.{pop_wait}
use c9y.TaskPool.Threads.{
  System, new_system, away, sleeping, Reach, here, next, count, push, take, done,
}
use c9y.TaskPool.Flushing.{outstanding, is_flushed-outstanding, flush-lost_wakeup}
use c9y.TaskPool.Workers
use c9y.TaskPool.Workers.{Worker, waiting, finish}
use c9y.TaskPool.Workers.Counting.{weight, at_work}
use c9y.TaskPool.Workers.Shutdown.{rank, workers-end}
use c9y.TaskPool.Destruction.{destroyed, destroyed-count}

-- One function was enqueued, and a thread runs it.
abbrev one_running : System
one_running = record {
  pool = record { tasks = record { container = []; stopped = false }; tasks_in_flight = 1 };
  enqueuing = [];
  running = 1;
  notices = 0;
  flusher = away;
}

one_running-Reach : Reach new_system one_running
unfolding task_pool enqueue_count enqueue_push pop_wait
one_running-Reach =
    next (next (next here (count 5 refl)) (push 5 [] [] refl refl))
      (take 5 (record { container = []; stopped = false }) refl refl)

is_flushed-outstanding_example : (is_flushed one_running.pool ≡ true) ↔ (
    (one_running.enqueuing ≡ [])
    × (one_running.pool.tasks.container ≡ [])
    × (one_running.running ≡ 0))
is_flushed-outstanding_example = is_flushed-outstanding one_running-Reach (omega arith)

flush-lost_wakeup_example :
    (t : System) × Reach one_running t
    × (t.flusher ≡ sleeping)
    × (is_flushed t.pool ≡ true)
    × (outstanding t ≡ 0)
    × (t.notices ≡ 0)
flush-lost_wakeup_example = flush-lost_wakeup one_running-Reach refl refl refl refl refl

-- Function 0 throws, and the handler goes on.
abbrev note_or_throw : ℕ → List ℕ → Outcome (List ℕ)
note_or_throw zero log = threw log
note_or_throw (suc n) log = returned (log ++ suc n ∷ [])

abbrev going_on : Handler (List ℕ)
going_on log = some (returned (log ++ 100 ∷ []))

abbrev effect : ℕ → List ℕ → List ℕ
effect zero log = log ++ 100 ∷ []
effect (suc n) log = log ++ suc n ∷ []

guarded-effect :
    (f : ℕ) (log : List ℕ) → guarded going_on (note_or_throw f log) ≡ some (effect f log)
unfolding guarded
guarded-effect zero log = refl
guarded-effect (suc n) log = refl

drained_by_one :
    thread_func note_or_throw going_on 4
      (record { tasks = record { container = 3 ∷ 0 ∷ []; stopped = true }; tasks_in_flight = 2 })
      []
    ≡ ended
        (record { tasks = record { container = []; stopped = true }; tasks_in_flight = 0 })
        (3 ∷ 100 ∷ [])
unfolding thread_func
drained_by_one = refl

-- Of two threads one has function 0, which throws, and the other waits; function 3 is queued.
abbrev three_queued : TaskPool
three_queued = record {
  tasks = record { container = 3 ∷ []; stopped = false };
  tasks_in_flight = 2;
}

abbrev two_workers : List Worker
two_workers = Worker.running 0 ∷ waiting ∷ []

abbrev one_done : Workers.System (List ℕ)
one_done = record {
  pool = (complete (destroy three_queued)).0;
  workers = waiting ∷ waiting ∷ [];
  ran = 0 ∷ [];
  world = 100 ∷ [];
}

one_done-Steps :
    Workers.Steps note_or_throw going_on
      (record { pool = destroy three_queued; workers = two_workers; ran = []; world = [] })
      1
      one_done
unfolding guarded
one_done-Steps = Workers.next Workers.here (finish 0 (100 ∷ []) [] (waiting ∷ []) refl refl refl)

note_or_throw-safe :
    (f : ℕ) (w : List ℕ) → (v : List ℕ) × (guarded going_on (note_or_throw f w) ≡ some v)
note_or_throw-safe f w = (effect f w, guarded-effect f w)

workers-end_example :
    (1 + rank note_or_throw going_on one_done ≤ 3 * 1 + weight two_workers)
    × (((u : Workers.System (List ℕ)) × Workers.Step note_or_throw going_on one_done u)
        ⊎ (All (λ w. w ≡ Worker.ended) one_done.workers
            × (one_done.pool.tasks.container ≡ [])
            × ((x : ℕ)
                → occurrences x one_done.ran ≡ at_work x two_workers + occurrences x (3 ∷ []))))
workers-end_example =
    workers-end note_or_throw going_on three_queued two_workers [] note_or_throw-safe (omega arith)
      (tt, (tt, tt)) one_done-Steps

destroyed-count_example :
    let t : System = record (destroyed one_running) {
      pool = (complete (destroyed one_running).pool).0;
      running = 0;
      notices = 1;
    } in
    (t.pool.tasks_in_flight ≡ (outstanding t + (uint_mod - 1)) % uint_mod)
    × ((is_flushed t.pool ≡ true) ↔ (outstanding t % uint_mod ≡ 1))
unfolding complete destroy
destroyed-count_example =
    destroyed-count one_running (omega arith) (omega arith) (next here (done 0 refl refl))
