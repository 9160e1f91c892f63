-- ===== src/Parallel/Nested.antt =====
-- c9y/parallel.h, `parallel` called by tasks of the shared pool, in steps. A call has a number, at which
-- its latch stands, and `job` says what the function with a number is.
pub mod Starving
mod Examples
use c9y.Base.{ℕ, ◌<◌, ◌≡◌, Option, none, some, List, [], ◌∷◌, ◌++◌, length, update}
use c9y.Base.Int.{pos}
use c9y.Latch.{Latch, latch, count_down, wait}
use c9y.Queue.{Queue, pop_wait}
use c9y.TaskPool.{TaskPool, enqueue, complete}

-- `of_call`: the call of `parallel` whose λ the function is, if it is one. `calls`: the call that the
-- task makes itself, with the functions of its λs, if it makes one.
pub record Job : Type 0 where
  pub of_call : Option ℕ
  pub calls : Option (ℕ × List ℕ)

-- What a thread of the pool is doing: it has taken a function; it is in the call of `parallel` that the
-- function makes, with the λs that it has not enqueued yet; or the task is done.
pub data Busy : Type 0 where
  taken : (func : ℕ) → Busy
  calling : (func call : ℕ) (left : List ℕ) → Busy
  done : (func : ℕ) → Busy

-- `ended`: the functions that ended.
pub record System : Type 0 where
  pub pool : TaskPool
  pub latches : ℕ → Latch
  pub busy : List Busy
  pub ended : List ℕ

abbrev pub count_call : Option ℕ → (ℕ → Latch) → ℕ → Latch
count_call none latches = latches
count_call (some c) latches = update latches c (count_down (pos 1) (latches c)).0

module _ (threads : ℕ) (job : ℕ → Job) where
  pub data Step (s t : System) : Type 0 where
    -- Some other thread enqueues a function.
    other : (f : ℕ) → t ≡ record s { pool = enqueue f s.pool } → Step s t
    take :
        (n : ℕ) (q : Queue ℕ)
        → length s.busy < threads
        → pop_wait s.pool.tasks ≡ some (q, some n)
        → t ≡ record s { pool = record (s.pool) { tasks = q }; busy = taken n ∷ s.busy }
        → Step s t
    -- A task that calls no `parallel`.
    run :
        (n : ℕ) (before behind : List Busy)
        → s.busy ≡ before ++ taken n ∷ behind
        → (job n).calls ≡ none
        → t ≡ record s { busy = before ++ done n ∷ behind }
        → Step s t
    call :
        (n c : ℕ) (fs : List ℕ) (before behind : List Busy)
        → s.busy ≡ before ++ taken n ∷ behind
        → (job n).calls ≡ some (c, fs)
        → t ≡ record s {
          latches = update s.latches c (latch (pos (length fs)));
          busy = before ++ calling n c fs ∷ behind;
        }
        → Step s t
    issue :
        (n c f : ℕ) (fs : List ℕ) (before behind : List Busy)
        → s.busy ≡ before ++ calling n c (f ∷ fs) ∷ behind
        → t ≡ record s { pool = enqueue f s.pool; busy = before ++ calling n c fs ∷ behind }
        → Step s t
    -- `l.wait()` returns.
    return :
        (n c : ℕ) (before behind : List Busy)
        → s.busy ≡ before ++ calling n c [] ∷ behind
        → wait (s.latches c) ≡ some tt
        → t ≡ record s { busy = before ++ done n ∷ behind }
        → Step s t
    end :
        (n : ℕ) (before behind : List Busy)
        → s.busy ≡ before ++ done n ∷ behind
        → t ≡ record s {
          pool = (complete s.pool).0;
          latches = count_call (job n).of_call s.latches;
          busy = before ++ behind;
          ended = n ∷ s.ended;
        }
        → Step s t

  pub data Reach (s : System) : System → Type 0 where
    here : Reach s s
    next : {t u : System} → Reach s t → Step t u → Reach s u
