-- ===== src/Queue/Monitor.antt =====
-- c9y/queue.h between the steps: the threads that sleep on `cond`, those that are awake again and
-- have not got the mutex yet, and those that have released the mutex and not yet notified. A step is
-- what one thread does with the mutex held, or one call on the condition variable.
use c9y.Base.{ℕ, zero, suc, ◌+◌, ◌≡◌, Bool, Option, none, some, List}
use c9y.Queue.{Queue, queue, push, pop, pop_wait, pop_wait_for, stop}

pub record Monitor {ℓ} (T : Type ℓ) : Type ℓ where
  pub shared : Queue T
  pub sleeping : ℕ
  pub woken : ℕ
  pub notices_one : ℕ
  pub notices_all : ℕ

abbrev pub fresh {ℓ} : {T : Type ℓ} → List T → Monitor T
fresh items = record {
  shared = queue items;
  sleeping = 0;
  woken = 0;
  notices_one = 0;
  notices_all = 0;
}

-- `cond.notify_one()` wakes one sleeping thread, if there is one.
abbrev pub notify_one {ℓ} : {T : Type ℓ} → ℕ → Monitor T → Monitor T
notify_one zero m = m
notify_one (suc n) m = record m { sleeping = n; woken = suc m.woken }

-- A call of `pop_wait` returns, or its thread goes to sleep.
abbrev pub attempt {ℓ} : {T : Type ℓ} → Option (Queue T × Option T) → Monitor T → Monitor T
attempt none m = record m { sleeping = suc m.sleeping }
attempt (some (q, v)) m = record m { shared = q }

-- The constructors give the state after a step by an equation.
pub data Step {ℓ} {T : Type ℓ} (m n : Monitor T) : Type ℓ where
  do_push :
      (v : T)
      → n ≡ record m { shared = (push v m.shared).0; notices_one = suc m.notices_one }
      → Step m n
  do_notify_one :
      (k : ℕ)
      → m.notices_one ≡ suc k
      → n ≡ notify_one m.sleeping (record m { notices_one = k })
      → Step m n
  do_stop : n ≡ record m { shared = (stop m.shared).0; notices_all = suc m.notices_all } → Step m n
  do_notify_all :
      (k : ℕ)
      → m.notices_all ≡ suc k
      → n ≡ record m { notices_all = k; sleeping = 0; woken = m.woken + m.sleeping }
      → Step m n
  do_pop : n ≡ record m { shared = (pop m.shared).0 } → Step m n
  -- A thread calls `pop_wait`, or `pop_wait_for`.
  enter : n ≡ attempt (pop_wait m.shared) m → Step m n
  enter_for : (timed_out : Bool) → n ≡ attempt (pop_wait_for timed_out m.shared) m → Step m n
  -- A thread that is awake again gets the mutex and tests its predicate once more.
  retry :
      (k : ℕ)
      → m.woken ≡ suc k
      → n ≡ attempt (pop_wait m.shared) (record m { woken = k })
      → Step m n
  retry_for :
      (timed_out : Bool) (k : ℕ)
      → m.woken ≡ suc k
      → n ≡ attempt (pop_wait_for timed_out m.shared) (record m { woken = k })
      → Step m n
  -- A sleeping thread wakes of itself, or as its time is up.
  wake :
      (k : ℕ) → m.sleeping ≡ suc k → n ≡ record m { sleeping = k; woken = suc m.woken } → Step m n

pub data Reach {ℓ} {T : Type ℓ} (m : Monitor T) : Monitor T → Type ℓ where
  here : Reach m m
  next : {n o : Monitor T} → Reach m n → Step n o → Reach m o
