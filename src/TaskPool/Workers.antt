-- ===== src/TaskPool/Workers.antt =====
-- c9y/task_pool.cpp: the threads of a pool, each in its `thread_func`, in steps.
pub mod Counting
pub mod Shutdown
use c9y.Base.{ℕ, suc, ◌≡◌, none, some, List, [], ◌∷◌, ◌++◌}
use c9y.Exceptions.{Outcome, Handler, guarded}
use c9y.Queue.{Queue, pop_wait}
use c9y.TaskPool.{TaskPool, complete}

-- A thread is in `pop_wait`; it has a function; its `thread_func` has returned.
pub data Worker : Type 0 where
  waiting : Worker
  running : (func : ℕ) → Worker
  ended : Worker

-- `ran`: the functions that were run, in the order of their ends.
pub record System {ℓ} (W : Type ℓ) : Type ℓ where
  pub pool : TaskPool
  pub workers : List Worker
  pub ran : List ℕ
  pub world : W

module _ {ℓ} {W : Type ℓ} (call : ℕ → W → Outcome W) (handler : Handler W) where
  pub data Step (s t : System W) : Type ℓ where
    take :
        (f : ℕ) (q : Queue ℕ) (before behind : List Worker)
        → s.workers ≡ before ++ waiting ∷ behind
        → pop_wait s.pool.tasks ≡ some (q, some f)
        → t ≡ record s {
          pool = record (s.pool) { tasks = q };
          workers = before ++ running f ∷ behind;
        }
        → Step s t
    -- The function returns, or throws and the handler returns; and it is counted down.
    finish :
        (f : ℕ) (w : W) (before behind : List Worker)
        → s.workers ≡ before ++ running f ∷ behind
        → guarded handler (call f s.world) ≡ some w
        → t ≡ record {
          pool = (complete s.pool).0;
          workers = before ++ waiting ∷ behind;
          ran = s.ran ++ f ∷ [];
          world = w;
        }
        → Step s t
    -- The queue is stopped and empty, and the loop ends.
    leave :
        (q : Queue ℕ) (before behind : List Worker)
        → s.workers ≡ before ++ waiting ∷ behind
        → pop_wait s.pool.tasks ≡ some (q, none)
        → t ≡ record s { pool = record (s.pool) { tasks = q }; workers = before ++ ended ∷ behind }
        → Step s t

  -- `n` steps.
  pub data Steps (s : System W) : ℕ → System W → Type ℓ where
    here : Steps s 0 s
    next : {n : ℕ} {t u : System W} → Steps s n t → Step t u → Steps s (suc n) u
