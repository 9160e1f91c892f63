-- ===== src/TaskPool/Destruction.antt =====
-- c9y/task_pool.h and c9y/task_pool.cpp: the destructor. Its body stops the queue and sets the count to
-- 0; then the members go, the threads among them, each of which is joined and so runs to its end. The
-- count can still be read then, as the functions below do, though it is destroyed before the threads.
use c9y.Base.{
  ◌↔◌, ℕ, zero, suc, ◌+◌, ◌-◌, ◌*◌, ◌%◌, ◌<◌, ◌≡◌, true, false, some, List, [], ◌∷◌, length, arith,
}
use c9y.Exceptions.{Outcome, Handler, guarded}
use c9y.TaskPool.{TaskPool, uint_mod, Run, ended, thread_func, destroy, is_flushed}
use c9y.TaskPool.Threads.{System, Reach}
use c9y.TaskPool.Flushing.{outstanding, Reach-IsCounted}
use c9y.TaskPool.Worker.{run_tasks}

-- The destruction of a pool with one thread that is asleep or between two tasks.
unfoldable pub destroy_and_join {ℓ} :
    {W : Type ℓ} → (ℕ → W → Outcome W) → Handler W → ℕ → TaskPool → W → Run W
unfolding thread_func destroy
destroy_and_join call handler fuel p w = thread_func call handler fuel (destroy p) w

module _ {ℓ} {W : Type ℓ} (call : ℕ → W → Outcome W) (handler : Handler W)
    (effect : ℕ → W → W) where
  drained :
      ((func : ℕ) (w : W) → guarded handler (call func w) ≡ some (effect func w))
      → (fuel : ℕ) (fs : List ℕ) (n : ℕ) (w : W) → length fs < fuel
      → n < uint_mod
      → thread_func call handler fuel
          (record { tasks = record { container = fs; stopped = true }; tasks_in_flight = n })
          w
        ≡ ended
            (record {
              tasks = record { container = []; stopped = true };
              tasks_in_flight = (n + length fs * (uint_mod - 1)) % uint_mod;
            })
            (run_tasks call handler effect fs w)
  unfolding thread_func
  drained safe zero fs n w h small = absurd (omega arith)
  drained safe (suc fuel) [] n w h small =
      let e : (n + 0 * (uint_mod - 1)) % uint_mod ≡ n = omega arith in ground (arith, e)
  drained safe (suc fuel) (f ∷ fs) n w h small =
      let m : ℕ = (n + (uint_mod - 1)) % uint_mod in
      let e : (m + length fs * (uint_mod - 1)) % uint_mod
          ≡ (n + suc (length fs) * (uint_mod - 1)) % uint_mod =
        omega arith in
      ground (arith, safe f w, e, drained safe fuel fs m (effect f w) (omega arith) (omega arith))

  -- Functions that return, or throw what the handler settles, and a pool of one thread with k of them
  -- queued, 0 < k < 2^32, when it is destroyed: the thread still runs them all, in order, before it
  -- ends, and counts each down from 0. The count ends at 2^32 - k, where the test of flush fails.
  pub destroy_and_join-count :
      ((func : ℕ) (w : W) → guarded handler (call func w) ≡ some (effect func w))
      → (fuel : ℕ) (p : TaskPool) (w : W) → length p.tasks.container < fuel
      → 0 < length p.tasks.container
      → length p.tasks.container < uint_mod
      → (q : TaskPool) × (destroy_and_join call handler fuel p w
          ≡ ended q (run_tasks call handler effect p.tasks.container w))
        × (q.tasks_in_flight ≡ uint_mod - length p.tasks.container)
        × (is_flushed q ≡ false)
  unfolding destroy_and_join is_flushed
  destroy_and_join-count safe fuel p w h some_left few =
      (_, drained safe fuel p.tasks.container 0 w h (omega arith), omega arith, ground arith)

-- The body of the destructor, among the steps of a pool of any number of threads.
abbrev pub destroyed : System → System
destroyed s = record s { pool = destroy s.pool; notices = suc s.notices }

-- A pool of any number of threads is destroyed in any state in which k functions are counted and not
-- done, 0 < k < 2^32; the threads run on, and other functions may still come, in any order. From then on
-- the count is 2^32 - k above the number of the functions that are not done, modulo 2^32, and the test
-- of flush passes exactly while as many are not done as at first: at once, and no more when all are
-- done.
pub destroyed-count :
    (s : System) {t : System}
    → 0 < outstanding s
    → outstanding s < uint_mod
    → Reach (destroyed s) t
    → (t.pool.tasks_in_flight ≡ (outstanding t + (uint_mod - outstanding s)) % uint_mod)
      × ((is_flushed t.pool ≡ true) ↔ (outstanding t % uint_mod ≡ outstanding s))
unfolding destroy is_flushed
destroyed-count s {t} some_left few r =
    (counted, (λ h. ground (arith, counted), λ h. ground (arith, counted)))
  where
    counted : t.pool.tasks_in_flight ≡ (outstanding t + (uint_mod - outstanding s)) % uint_mod
    counted = Reach-IsCounted (uint_mod - outstanding s) (omega arith) r
