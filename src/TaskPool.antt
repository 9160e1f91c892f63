-- ===== src/TaskPool.antt =====
-- c9y/task_pool.h and c9y/task_pool.cpp: a queue of functions, the threads that run them, and the
-- count of the functions that are not done. c9y/async.h and c9y/async.cpp enqueue on a pool of their
-- own. A function is known by a number; `call` says what it does to the world and whether it throws.
-- What another thread may do between two accesses to shared state is kept apart: a handler is cut
-- into steps there.
pub mod Worker
pub mod Threads
pub mod Workers
pub mod Flushing
pub mod Destruction
mod Examples
use c9y.Base.{
  ℕ, zero, suc, ◌+◌, ◌-◌, ◌%◌, ◌^◌, ◌==◌, Bool, Option, none, some, List, [], if◌then◌else◌,
}
use c9y.Exceptions.{Outcome, Handler, guarded}
use c9y.Queue
use c9y.Queue.{Queue}

-- `std::atomic<unsigned int>`
abbrev pub uint_mod : ℕ
uint_mod = 2 ^ 32

pub record TaskPool : Type 0 where
  pub tasks : Queue ℕ
  pub tasks_in_flight : ℕ

-- The constructor; the pool's threads all run `thread_func`.
unfoldable pub task_pool : TaskPool
unfolding Queue.queue
task_pool = record { tasks = Queue.queue []; tasks_in_flight = 0 }

-- `enqueue`, in its two steps: `tasks_in_flight++`, and the push with its notification.
unfoldable pub enqueue_count : TaskPool → TaskPool
enqueue_count p = record p { tasks_in_flight = (p.tasks_in_flight + 1) % uint_mod }

unfoldable pub enqueue_push : ℕ → TaskPool → TaskPool
unfolding Queue.push
enqueue_push func p = record p { tasks = (Queue.push func p.tasks).0 }

unfoldable pub enqueue : ℕ → TaskPool → TaskPool
unfolding enqueue_count enqueue_push
enqueue func p = enqueue_push func (enqueue_count p)

-- `async`, on the pool that its first call makes.
unfoldable pub async : ℕ → Option TaskPool → TaskPool
unfolding enqueue task_pool
async func none = enqueue func task_pool
async func (some pool) = enqueue func pool

-- Both tests of `flush`, with the mutex held: whether it returns.
unfoldable pub is_flushed : TaskPool → Bool
is_flushed p = p.tasks_in_flight == 0

-- `--tasks_in_flight == 0`: the pool, and whether the flushing threads are notified.
unfoldable pub complete : TaskPool → TaskPool × Bool
complete p =
    let n : ℕ = (p.tasks_in_flight + (uint_mod - 1)) % uint_mod in
    (record p { tasks_in_flight = n }, n == 0)

-- The destructor, before it destroys the members; it notifies the flushing threads.
unfoldable pub destroy : TaskPool → TaskPool
unfolding Queue.stop
destroy p = record { tasks = (Queue.stop p.tasks).0; tasks_in_flight = 0 }

-- How a run of `thread_func` stands: it has ended, it sleeps in `pop_wait`, the process has ended, or
-- its rounds are used up.
pub data Run {ℓ} (W : Type ℓ) : Type ℓ where
  ended asleep more : TaskPool → W → Run W
  terminated : Run W

module _ {ℓ} {W : Type ℓ} (call : ℕ → W → Outcome W) (handler : Handler W) where
  -- One thread's loop, on its own; fuel bounds its rounds.
  unfoldable pub thread_func : ℕ → TaskPool → W → Run W
  unfolding Queue.pop_wait complete guarded
  thread_func zero p w = more p w
  thread_func (suc fuel) p w = elim (Queue.pop_wait p.tasks) [
    | none ↦ asleep p w
    | some (q, none) ↦ ended (record p { tasks = q }) w
    | some (q, some task) ↦ elim (guarded handler (call task w)) [
      | none ↦ terminated
      | some w' ↦ thread_func fuel (complete (record p { tasks = q })).0 w'
    ]
  ]
