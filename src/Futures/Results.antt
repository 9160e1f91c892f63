-- ===== src/Futures/Results.antt =====
-- c9y/sync.h and c9y/async.h: what the futures of sync and async end with.
use c9y.Base.{ℕ, ◌==◌, ◌≡◌, refl, true, false, none, some, [], ◌∷◌, ◌++◌, suc, if◌then◌else◌, arith}
use c9y.Exceptions.{Outcome, returned, Handler}
use c9y.Sync.{
  Program, sync_point, plain, push_task, push_tagged, release, tagged, get_this_threads_tasks,
}
use c9y.TaskPool.{thread_func, asleep, task_pool}
use c9y.Futures.{
  Result, pending, broken, kept, Store, lambda, make_task, drop_task, run_task, call_store,
  call_program, async_future, sync_future, sync_future_tagged,
}

module _ {ℓ κ} {T : Type ℓ} {W : Type κ} (eval : ℕ → W → W × Result T)
    (plain_call : ℕ → W → Outcome W) where
  call_store-lambda :
      (k : ℕ) (s : Store T W)
      → call_store eval plain_call (lambda k) s ≡ returned (run_task eval plain_call k s)
  unfolding call_store
  call_store-lambda k s = ground arith

  module _ (handler : Handler (Program (Store T W))) where
    call_program-lambda :
        (k : ℕ) (p : Program (Store T W))
        → call_program eval plain_call (lambda k) p
          ≡ returned (record p { world = run_task eval plain_call k p.world })
    unfolding call_program
    call_program-lambda k p = rw (call_store-lambda k p.world) refl

    -- An overload of sync for another thread, whose queue is empty: the call returns a future that is
    -- pending, and the function has not run. That thread's next sync_point runs it once: then the
    -- future has what the function returned or threw, the handler was not asked, and the queue is
    -- empty.
    pub sync_future-kept :
        (this thread func : ℕ) (p : Program (Store T W))
        → (thread == this) ≡ false
        → p.tasks thread ≡ []
        → let k = p.world.next in
          (q : Program (Store T W)) × (r : Program (Store T W)) × (sync_future eval plain_call
              handler this thread func p
            ≡ some (q, k))
          × (q.world.shared k ≡ pending)
          × (q.world.world ≡ p.world.world)
          × (sync_point (call_program eval plain_call) handler thread q ≡ some r)
          × (r.world.shared k ≡ kept (eval func p.world.world).1)
          × (r.world.world ≡ (eval func p.world.world).0)
          × (r.tasks thread ≡ [])
    unfolding sync_future sync_point make_task run_task
    sync_future-kept this thread func p other idle = (
      q,
      r,
      ground (arith, other),
      ground arith,
      refl,
      ground (arith, idle, call_program-lambda k (get_this_threads_tasks thread q).1),
      ground arith,
      ground arith,
      ground arith,
    )
      where
        k : ℕ
        k = p.world.next

        q : Program (Store T W)
        q = push_task thread (plain (lambda k)) (record p { world = (make_task func p.world).1 })

        r : Program (Store T W)
        r = record (get_this_threads_tasks thread q).1 {
          world = run_task eval plain_call k q.world;
        }

    -- A call of the overload with a tag, from any thread, for any thread: it returns a future. On the
    -- thread itself the future has at once what the function returned or threw, whether or not the
    -- tag was active, and the tag is then not active. For another thread it is pending where the tag
    -- was not active; where it was, the future is broken and the thread's queue is as before.
    pub sync_future_tagged-shared :
        (this tag thread func : ℕ) (p : Program (Store T W))
        → let k = p.world.next in
          (q : Program (Store T W)) × (sync_future_tagged eval plain_call handler this tag thread
              func p
            ≡ some (q, k))
          × (q.world.shared k ≡ (
              if thread == this
              then kept (eval func p.world.world).1
              else if p.active tag
              then broken
              else pending))
          × (q.active tag ≡ (if thread == this then false else true))
          × (q.tasks thread ≡ (
              if thread == this
              then p.tasks thread
              else if p.active tag
              then p.tasks thread
              else p.tasks thread ++ tagged tag (lambda k) ∷ []))
    unfolding sync_future_tagged make_task run_task drop_task push_tagged
    sync_future_tagged-shared this tag thread func p =
        (q, ground (arith, call_program-lambda k p'), ground arith, ground arith, ground arith)
      where
        k : ℕ
        k = p.world.next

        p' : Program (Store T W)
        p' = record p { world = (make_task func p.world).1 }

        q : Program (Store T W)
        q =
            if thread == this
            then release tag (record p' { world = run_task eval plain_call k p'.world })
            else if p.active tag
            then record p' { world = drop_task k p'.world }
            else push_tagged tag thread (lambda k) p'

  -- async, on the pool that it makes: the call returns a future that is pending, and the function has
  -- not run. A thread's loop, with fuel for two rounds or more, runs it and then sleeps: nothing is in
  -- flight, and the future has what the function returned or threw.
  pub async_future-kept :
      (handler : Handler (Store T W)) (func fuel : ℕ) (s : Store T W)
      → let (pool, s', k) = async_future func none s in
        (s'.shared k ≡ pending)
        × (s'.world ≡ s.world)
        × (r : Store T W) × (thread_func
              (call_store eval plain_call)
              handler
              (suc (suc fuel))
              pool
              s'
            ≡ asleep task_pool r)
        × (r.shared k ≡ kept (eval func s.world).1)
        × (r.world ≡ (eval func s.world).0)
  unfolding async_future thread_func task_pool make_task run_task
  async_future-kept handler func fuel s = (
    ground arith,
    refl,
    run_task eval plain_call s.next (make_task func s).1,
    ground (arith, call_store-lambda s.next (make_task func s).1),
    ground arith,
    ground arith,
  )
