-- ===== src/Parallel/Pool.antt =====
-- c9y/parallel.h and c9y/parallel.cpp: a call of `parallel` on the shared task pool, whose threads also
-- run what other callers enqueue, in steps. A task is a function with a number f; `run` says what
-- it does, and whether it throws, and `handler` what becomes of what it throws. The λ that runs it and
-- counts the latch down is the function 2 f + 1 of the pool; a function that another caller enqueues is
-- 2 f, and acts on state of its own. A function may also block its thread for good, as one does that
-- waits for what stands behind it in the queue: `can_end` says of which functions of the pool this is
-- not so.
pub mod Counting
pub mod Placing
pub mod Refinement
pub mod Lifetime
pub mod Progress
pub mod Hanging
mod Examples
use c9y.Base.{
  ℕ, suc, ◌+◌, ◌*◌, ◌<◌, ◌≡◌, Bool, true, false, Option, none, some, List, [], ◌∷◌, ◌++◌, length,
}
use c9y.Base.Int.{pos}
use c9y.Exceptions.{Outcome, Handler, unhandled_exception}
use c9y.Latch.{Latch, latch, count_down, wait}
use c9y.Queue.{Queue, pop_wait}
use c9y.TaskPool.{TaskPool, task_pool, enqueue, complete}

-- `_get_parallel_pool`: the pool is made by the first call.
unfoldable pub get_parallel_pool : Option TaskPool → TaskPool
unfolding task_pool
get_parallel_pool none = task_pool
get_parallel_pool (some pool) = pool

abbrev pub own : ℕ → ℕ
own f = 2 * f + 1

abbrev pub foreign : ℕ → ℕ
foreign f = 2 * f

-- `left`: the tasks that the caller's loop has not enqueued. `running`: the functions that the pool's
-- threads have taken and not called yet. `acted`: the λs that have run their task and not counted the
-- latch down. `completing`: the functions that are done and not counted down in the pool. `thrown`: the
-- λs whose task threw, which never count the latch down.
pub record System {ℓ} (S : Type ℓ) : Type ℓ where
  pub pool : TaskPool
  pub left : List ℕ
  pub running : List ℕ
  pub acted : ℕ
  pub completing : ℕ
  pub thrown : ℕ
  pub latch : Latch
  pub returned : Bool
  pub world : S

module _ {ℓ} {S : Type ℓ} where
  -- The call begins: the pool, and the latch.
  unfoldable pub begin : Option TaskPool → List ℕ → S → System S
  unfolding get_parallel_pool latch
  begin pool tasks world = record {
    pool = get_parallel_pool pool;
    left = tasks;
    running = [];
    acted = 0;
    completing = 0;
    thrown = 0;
    latch = latch (pos (length tasks));
    returned = false;
    world = world;
  }

  -- The pool has `threads` threads, each busy with one function at most.
  module _ (threads : ℕ) (handler : Handler S) (run : ℕ → S → Outcome S) (can_end : ℕ → Bool) where
    pub data Step (s t : System S) : Type ℓ where
      issue :
          (f : ℕ) (rest : List ℕ)
          → s.left ≡ f ∷ rest
          → t ≡ record s { left = rest; pool = enqueue (own f) s.pool }
          → Step s t
      other : (f : ℕ) → t ≡ record s { pool = enqueue (foreign f) s.pool } → Step s t
      take :
          (n : ℕ) (q : Queue ℕ)
          → length s.running + s.acted + s.completing < threads
          → pop_wait s.pool.tasks ≡ some (q, some n)
          → t ≡ record s { pool = record (s.pool) { tasks = q }; running = n ∷ s.running }
          → Step s t
      act :
          (f : ℕ) (before behind : List ℕ) (w : S)
          → s.running ≡ before ++ own f ∷ behind
          → can_end (own f) ≡ true
          → run f s.world ≡ Outcome.returned w
          → t ≡ record s { world = w; running = before ++ behind; acted = suc s.acted }
          → Step s t
      -- The exception passes `l.count_down()` by, and the pool's thread hands it to the handler.
      act_threw :
          (f : ℕ) (before behind : List ℕ) (w v : S)
          → s.running ≡ before ++ own f ∷ behind
          → can_end (own f) ≡ true
          → run f s.world ≡ Outcome.threw w
          → unhandled_exception handler w ≡ some v
          → t ≡ record s {
            world = v;
            running = before ++ behind;
            completing = suc s.completing;
            thrown = suc s.thrown;
          }
          → Step s t
      act_other :
          (f : ℕ) (before behind : List ℕ)
          → s.running ≡ before ++ foreign f ∷ behind
          → can_end (foreign f) ≡ true
          → t ≡ record s { running = before ++ behind; completing = suc s.completing }
          → Step s t
      count :
          (k : ℕ)
          → s.acted ≡ suc k
          → t ≡ record s {
            acted = k;
            latch = (count_down (pos 1) s.latch).0;
            completing = suc s.completing;
          }
          → Step s t
      end :
          (k : ℕ)
          → s.completing ≡ suc k
          → t ≡ record s { completing = k; pool = (complete s.pool).0 }
          → Step s t
      -- `l.wait()` returns.
      return : s.left ≡ [] → wait s.latch ≡ some tt → t ≡ record s { returned = true } → Step s t

    pub data Reach (s : System S) : System S → Type ℓ where
      here : Reach s s
      next : {t u : System S} → Reach s t → Step t u → Reach s u

    -- A thread is about to end the process: its task throws, and so does the handler, or it ends it.
    abbrev pub EndsProcess : System S → Type ℓ
    EndsProcess s =
        (f : ℕ) × (before : List ℕ) × (behind : List ℕ) × (w : S) × (s.running
          ≡ before ++ own f ∷ behind)
        × (can_end (own f) ≡ true)
        × (run f s.world ≡ Outcome.threw w)
        × (unhandled_exception handler w ≡ none)
