-- ===== src/Coroutine.antt =====
-- c9y/coroutine.h: coroutines that return a std::future, and the two co_await operators on futures. A
-- body is what it does next: it returns, throws, or awaits a future and goes on with its value or its
-- exception. A λ that continues a coroutine is known by a number; `post` queues it, with async for
-- co_async and with delay for co_sync.
pub mod Awaiting
pub mod Blocking
pub mod SyncPoint
mod Examples
use c9y.Base.{update, ℕ, suc, ◌==◌, Bool, true, false, Option, none, some, if◌then◌else◌}
use c9y.Sync.{Program, delay}
use c9y.TaskPool.{TaskPool, async}
use c9y.Futures.{Result, ok, raised, FutureState, pending, broken, exception, value}

pub data Body {ℓ} (T : Type ℓ) : Type ℓ where
  co_return : T → Body T
  throw : Body T
  co_await : (future : ℕ) → (Result T → Body T) → Body T

-- What the λ of a suspended coroutine has: the future that it waits for, and the coroutine.
pub record Frame {ℓ} (T : Type ℓ) : Type ℓ where
  pub future : ℕ
  pub rest : Result T → Body T
  pub promise : ℕ

-- The futures, the λs, the next numbers of both, and the queue that the λs stand in.
pub record State {ℓ κ} (T : Type ℓ) (Q : Type κ) : Type (ℓ ⊔ κ) where
  pub shared : ℕ → FutureState T
  pub next : ℕ
  pub frames : ℕ → Option (Frame T)
  pub next_frame : ℕ
  pub queue : Q

module _ {ℓ} {T : Type ℓ} where
  unfoldable pub await_ready : FutureState T → Bool
  await_ready pending = false
  await_ready broken = true
  await_ready exception = true
  await_ready (value v) = true

  -- `get` of a future that is ready; one that is pending is not asked.
  unfoldable pub await_resume : FutureState T → Result T
  await_resume pending = raised
  await_resume broken = raised
  await_resume exception = raised
  await_resume (value v) = ok v

module _ {ℓ κ} {T : Type ℓ} {Q : Type κ} where
  -- `return_value` and `unhandled_exception`: the promise is settled.
  abbrev pub settle : ℕ → FutureState T → State T Q → State T Q
  settle promise result s = record s { shared = update s.shared promise result }

  module _ (post : ℕ → Q → Q) where
    -- `await_suspend`
    unfoldable pub await_suspend : (future : ℕ) → (Result T → Body T) → ℕ → State T Q → State T Q
    await_suspend future rest promise s = record s {
      frames =
          update s.frames s.next_frame
            (some (record { future = future; rest = rest; promise = promise }));
      next_frame = suc s.next_frame;
      queue = post s.next_frame s.queue;
    }

    -- The coroutine runs until it ends or is suspended.
    unfoldable pub resume : Body T → (promise : ℕ) → State T Q → State T Q
    unfolding await_ready await_resume await_suspend
    resume (co_return v) promise s = settle promise (value v) s
    resume throw promise s = settle promise exception s
    resume (co_await future rest) promise s = elim (await_ready (s.shared future)) [
      | true ↦ resume (rest (await_resume (s.shared future))) promise s
      | false ↦ await_suspend future rest promise s
    ]

    -- A call of the coroutine, which is not suspended at first: the future, and the state.
    unfoldable pub start : Body T → State T Q → ℕ × State T Q
    unfolding resume
    start body s =
        let made = record s { shared = update s.shared s.next pending; next = suc s.next } in
        (s.next, resume body s.next made)

    -- The λ: `wait` and `cont()`. none: it sleeps in `wait`.
    unfoldable pub continue : ℕ → State T Q → Option (State T Q)
    unfolding resume
    continue number s = elim (s.frames number) [
      | none ↦ some s
      | some f ↦
          if await_ready (s.shared f.future)
          then some (resume (f.rest (await_resume (s.shared f.future))) f.promise s)
          else none
    ]

-- co_async
unfoldable pub post_async : ℕ → Option TaskPool → Option TaskPool
unfolding async
post_async number pool = some (async number pool)

-- co_sync, on the thread `this`
unfoldable pub post_delay {ℓ} : {W : Type ℓ} (this : ℕ) → ℕ → Program W → Program W
unfolding delay
post_delay this number p = delay this number p
