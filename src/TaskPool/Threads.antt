-- ===== src/TaskPool/Threads.antt =====
-- c9y/task_pool.cpp: any number of threads that enqueue, the pool's threads, and one that flushes, in
-- steps of one access to shared state each.
use c9y.Base.{ℕ, suc, ◌+◌, ◌≡◌, some, List, [], ◌∷◌, ◌++◌, if◌then◌else◌}
use c9y.Queue.{pop_wait, Queue}
use c9y.TaskPool.{TaskPool, task_pool, enqueue_count, enqueue_push, is_flushed, complete}

-- Where the flushing thread stands: it has not called `flush`; it is about to test its predicate; it
-- has found that tasks are left, and is about to sleep; it sleeps; `flush` has returned.
pub data Flusher : Type 0 where
  away testing about_to_sleep sleeping returned : Flusher

-- `enqueuing`: counted and not pushed yet. `running`: the pool's threads that have a task.
-- `notices`: notifications of the flushing thread that are still to come.
pub record System : Type 0 where
  pub pool : TaskPool
  pub enqueuing : List ℕ
  pub running : ℕ
  pub notices : ℕ
  pub flusher : Flusher

abbrev pub new_system : System
new_system = record { pool = task_pool; enqueuing = []; running = 0; notices = 0; flusher = away }

abbrev pub notified : Flusher → Flusher
notified sleeping = testing
notified f = f

pub data Step (s t : System) : Type 0 where
  count :
      (func : ℕ)
      → t ≡ record s { pool = enqueue_count s.pool; enqueuing = func ∷ s.enqueuing }
      → Step s t
  push :
      (func : ℕ) (before behind : List ℕ)
      → s.enqueuing ≡ before ++ func ∷ behind
      → t ≡ record s { pool = enqueue_push func s.pool; enqueuing = before ++ behind }
      → Step s t
  take :
      (func : ℕ) (q : Queue ℕ)
      → pop_wait s.pool.tasks ≡ some (q, some func)
      → t ≡ record s { pool = record (s.pool) { tasks = q }; running = suc s.running }
      → Step s t
  -- A task returns or throws, and is counted down.
  done :
      (k : ℕ)
      → s.running ≡ suc k
      → t ≡ record s {
        pool = (complete s.pool).0;
        running = k;
        notices = (if (complete s.pool).1 then 1 else 0) + s.notices;
      }
      → Step s t
  notify :
      (k : ℕ)
      → s.notices ≡ suc k
      → t ≡ record s { notices = k; flusher = notified s.flusher }
      → Step s t
  flush :
      s.flusher ≡ away
      → t ≡ record s { flusher = if is_flushed s.pool then returned else testing }
      → Step s t
  test :
      s.flusher ≡ testing
      → t ≡ record s { flusher = if is_flushed s.pool then returned else about_to_sleep }
      → Step s t
  sleep : s.flusher ≡ about_to_sleep → t ≡ record s { flusher = sleeping } → Step s t
  wake : s.flusher ≡ sleeping → t ≡ record s { flusher = testing } → Step s t
  flush_again : s.flusher ≡ returned → t ≡ record s { flusher = away } → Step s t

pub data Reach (s : System) : System → Type 0 where
  here : Reach s s
  next : {t u : System} → Reach s t → Step t u → Reach s u
