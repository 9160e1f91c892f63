-- ===== src/Futures.antt =====
-- c9y/sync.h and c9y/async.h: the overloads of sync and async that return a std::future. They wrap a
-- function in a std::packaged_task, which keeps what the function returns or throws, and hand on a λ
-- that runs the task. The k-th task's λ is the function with number 2 k + 1, and a function of the
-- program with number f has the number 2 f there. `eval` says what a call of a function with a result
-- does to the world and what comes of it.
pub mod Results
mod Examples
use c9y.Base.{
  update, ℕ, suc, ◌+◌, ◌*◌, ◌/◌, ◌%◌, ◌==◌, Bool, true, false, Option, none, some, List, [], ◌∷◌,
  ◌>>=◌, if◌then◌else◌,
}
use c9y.Exceptions.{Outcome, returned, threw, Handler}
use c9y.Sync.{Program, sync_to, sync_to_tagged}
use c9y.TaskPool.{TaskPool, async}

-- What a function with a result ends with.
pub data Result {ℓ} (T : Type ℓ) : Type ℓ where
  ok : T → Result T
  raised : Result T

-- What a future has: nothing yet, a value, an exception, or the exception for a broken promise, after
-- its task was dropped and never run.
pub data FutureState {ℓ} (T : Type ℓ) : Type ℓ where
  pending broken exception : FutureState T
  value : T → FutureState T

abbrev pub kept {ℓ} : {T : Type ℓ} → Result T → FutureState T
kept (ok v) = value v
kept raised = exception

-- The tasks that were made, by number: the function and the state of the future; and all else.
pub record Store {ℓ κ} (T : Type ℓ) (W : Type κ) : Type (ℓ ⊔ κ) where
  pub body : ℕ → ℕ
  pub shared : ℕ → FutureState T
  pub next : ℕ
  pub world : W

abbrev pub lambda : ℕ → ℕ
lambda k = 2 * k + 1

module _ {ℓ κ} {T : Type ℓ} {W : Type κ} where
  -- `std::make_shared<std::packaged_task<T()>>(func)`, and its future, known by the same number.
  unfoldable pub make_task : ℕ → Store T W → ℕ × Store T W
  make_task func s = (
    s.next,
    record s {
      body = update s.body s.next func;
      shared = update s.shared s.next pending;
      next = suc s.next;
    },
  )

  -- The task is destroyed with the λ that nobody keeps.
  unfoldable pub drop_task : ℕ → Store T W → Store T W
  drop_task k s = record s { shared = update s.shared k broken }

  -- `async<T>`: the pool, the store, and the future.
  unfoldable pub async_future : ℕ → Option TaskPool → Store T W → TaskPool × Store T W × ℕ
  unfolding make_task async
  async_future func pool s = let (k, s') = make_task func s in (async (lambda k) pool, s', k)

  module _ (eval : ℕ → W → W × Result T) (plain : ℕ → W → Outcome W) where
    -- `(*task)()`, which throws nothing.
    unfoldable pub run_task : ℕ → Store T W → Store T W
    run_task k s =
        let (w, r) = eval (s.body k) s.world in
        record s { world = w; shared = update s.shared k (kept r) }

    abbrev pub with_world : Store T W → Outcome W → Outcome (Store T W)
    with_world s (returned w) = returned (record s { world = w })
    with_world s (threw w) = threw (record s { world = w })

    unfoldable pub call_store : ℕ → Store T W → Outcome (Store T W)
    unfolding run_task
    call_store n s =
        if n % 2 == 1 then returned (run_task (n / 2) s) else with_world s (plain (n / 2) s.world)

    abbrev pub in_program :
        Program (Store T W) → Outcome (Store T W) → Outcome (Program (Store T W))
    in_program p (returned s) = returned (record p { world = s })
    in_program p (threw s) = threw (record p { world = s })

    unfoldable pub call_program : ℕ → Program (Store T W) → Outcome (Program (Store T W))
    unfolding call_store
    call_program n p = in_program p (call_store n p.world)

    module _ (handler : Handler (Program (Store T W))) where
      -- `sync<T>` for a thread: the program, and the future.
      unfoldable pub sync_future :
          (this thread func : ℕ) → Program (Store T W) → Option (Program (Store T W) × ℕ)
      unfolding make_task sync_to
      sync_future this thread func p =
          let (k, s) = make_task func p.world in
          sync_to call_program handler this thread (lambda k) (record p { world = s }) >>= λ q.
          some (q, k)

      -- The λ is dropped where the tag is active and the thread is another.
      abbrev pub drop_if : (dropped : Bool) (k : ℕ) → Program (Store T W) → Program (Store T W)
      drop_if true k q = record q { world = drop_task k q.world }
      drop_if false k q = q

      -- `sync<T>` for a thread, with a tag.
      unfoldable pub sync_future_tagged :
          (this tag thread func : ℕ) → Program (Store T W) → Option (Program (Store T W) × ℕ)
      unfolding make_task sync_to_tagged drop_task
      sync_future_tagged this tag thread func p =
          let (k, s) = make_task func p.world in
          let dropped : Bool = if thread == this then false else p.active tag in
          sync_to_tagged call_program handler this tag thread (lambda k) (record p { world = s })
          >>= λ q. some (drop_if dropped k q, k)

      -- The overloads for the main thread.
      unfoldable pub sync_future_main :
          (this func : ℕ) → Program (Store T W) → Option (Program (Store T W) × ℕ)
      unfolding sync_future
      sync_future_main this func p = sync_future this p.main_thread_id func p

      unfoldable pub sync_future_tagged_main :
          (this tag func : ℕ) → Program (Store T W) → Option (Program (Store T W) × ℕ)
      unfolding sync_future_tagged
      sync_future_tagged_main this tag func p = sync_future_tagged this tag p.main_thread_id func p
