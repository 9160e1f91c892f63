-- ===== src/TaskPool/Worker.antt =====
-- c9y/task_pool.cpp: one thread's loop runs what is queued, in order, and ends once the pool is stopped.
use c9y.Base.{
  ℕ, zero, suc, ◌+◌, ◌-◌, ◌%◌, ◌<◌, ◌≡◌, Bool, true, false, some, List, [], ◌∷◌, length,
  if◌then◌else◌, arith,
}
use c9y.Exceptions.{Outcome, Handler, guarded}
use c9y.TaskPool.{TaskPool, uint_mod, Run, ended, asleep, thread_func}

module _ {ℓ} {W : Type ℓ} (call : ℕ → W → Outcome W) (handler : Handler W)
    (effect : ℕ → W → W) where
  abbrev pub run_tasks : List ℕ → W → W
  run_tasks [] w = w
  run_tasks (f ∷ fs) w = run_tasks fs (effect f w)

  -- How the loop stands when the queue is empty.
  abbrev pub at_rest : (stopped : Bool) (in_flight : ℕ) → W → Run W
  at_rest stopped n w =
      let p : TaskPool = record {
        tasks = record { container = []; stopped = stopped };
        tasks_in_flight = n;
      } in
      if stopped then ended p w else asleep p w

  thread_func_lem :
      ((func : ℕ) (w : W) → guarded handler (call func w) ≡ some (effect func w))
      → (fuel : ℕ) (fs : List ℕ) (stopped : Bool) (others : ℕ) (w : W) → length fs < fuel
      → length fs + others < uint_mod
      → thread_func call handler fuel
          (record {
            tasks = record { container = fs; stopped = stopped };
            tasks_in_flight = length fs + others;
          })
          w
        ≡ at_rest stopped others (run_tasks fs w)
  unfolding thread_func
  thread_func_lem safe zero fs stopped others w h small = absurd (omega arith)
  thread_func_lem safe (suc fuel) [] false others w h small = ground arith
  thread_func_lem safe (suc fuel) [] true others w h small = ground arith
  thread_func_lem safe (suc fuel) (f ∷ fs) stopped others w h small =
      let fewer : (suc (length fs) + others + (uint_mod - 1)) % uint_mod ≡ length fs + others =
        omega arith in
      ground (
        arith,
        safe f w,
        thread_func_lem safe fuel fs stopped others (effect f w) (omega arith) (omega arith),
      )

  -- Functions that return, or throw what the handler settles: with more rounds than there are
  -- functions queued, and fewer than 2^32 in flight, a thread's loop runs all that is queued, each
  -- once and in order, and counts each of them down. Then it ends if the pool was stopped, and
  -- otherwise sleeps.
  pub thread_func-run_tasks :
      ((func : ℕ) (w : W) → guarded handler (call func w) ≡ some (effect func w))
      → (fuel : ℕ) (p : TaskPool) (others : ℕ) (w : W) → length p.tasks.container < fuel
      → p.tasks_in_flight ≡ length p.tasks.container + others
      → p.tasks_in_flight < uint_mod
      → thread_func call handler fuel p w
        ≡ at_rest p.tasks.stopped others (run_tasks p.tasks.container w)
  thread_func-run_tasks safe fuel p others w h e small =
      rw e (thread_func_lem safe fuel p.tasks.container p.tasks.stopped others w h (omega arith))
