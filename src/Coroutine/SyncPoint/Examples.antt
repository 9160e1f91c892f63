-- ===== src/Coroutine/SyncPoint/Examples.antt =====
-- Coroutines that a thread calls and that wait with co_sync: two of which the second awaits the first,
-- resumed by one sync_point; and two of which the first awaits once more, where the thread sleeps.
use c9y.Base.{
  ℕ, zero, suc, ◌+◌, ◌==◌, ◌≡◌, inl, refl, true, false, Option, none, some, [], ◌∷◌, if◌then◌else◌,
  arith,
}
use c9y.Exceptions.{default_handler}
use c9y.Sync.{plain, Program, sync_point}
use c9y.Futures.{Result, ok, raised, FutureState, pending, value}
use c9y.Coroutine.{Body, co_return, throw, co_await, Frame, State, await_ready, await_resume}
use c9y.Coroutine.Awaiting.{AwaitsBelow}
use c9y.Coroutine.SyncPoint.{World, call_lambda}
use c9y.Coroutine.SyncPoint.Calls.{call_coroutines, others_ended}
use c9y.Coroutine.SyncPoint.Resuming.{co_sync-resumed}
use c9y.Coroutine.SyncPoint.Sleeping.{System, Reach, IsAsleep, co_sync-deadlock}

abbrev return_sum : ℕ → Result ℕ → Body ℕ
return_sum m (ok n) = co_return (m + n)
return_sum m raised = throw

abbrev await_then_add : (future m : ℕ) → Body ℕ
await_then_add future m = co_await future (return_sum m)

abbrev ends : ℕ → FutureState ℕ
ends zero = value 5
ends (suc zero) = value 6
ends (suc (suc zero)) = value 16
ends (suc (suc (suc k))) = value 7

ends-ready : (k : ℕ) → await_ready (ends k) ≡ true
unfolding await_ready
ends-ready zero = refl
ends-ready (suc zero) = refl
ends-ready (suc (suc zero)) = refl
ends-ready (suc (suc (suc k))) = refl

-- Future 0 is pending, and nothing is queued.
abbrev one_pending : Program (World ℕ)
one_pending = record {
  tasks = λ i. [];
  main_thread_id = 1;
  active = λ tag. false;
  world = record {
    shared = λ k. pending;
    next = 1;
    frames = λ k. none;
    next_frame = 0;
    asleep = false;
  };
}

any_result : (n m : ℕ) (r : Result ℕ) → AwaitsBelow n (return_sum m r)
any_result n m (ok k) = tt
any_result n m raised = tt

co_sync-resumed_example :
    (q : Program (World ℕ)) × (sync_point (call_lambda 1) default_handler 1 (
        others_ended ends 1 3
          (call_coroutines 1 (await_then_add 0 1 ∷ await_then_add 1 10 ∷ []) one_pending))
      ≡ some q)
    × ((j : ℕ) → q.world.shared j ≡ ends j)
    × (q.tasks 1 ≡ [])
    × (q.world.asleep ≡ false)
unfolding await_resume
co_sync-resumed_example =
    co_sync-resumed ends ends-ready default_handler 1
      (await_then_add 0 1 ∷ await_then_add 1 10 ∷ []) one_pending refl refl (λ j h. inl refl)
      ((omega arith, any_result 1 1), refl, ((omega arith, any_result 2 10), refl, tt))

-- Future 0 has ended. The first coroutine has been waiting for it, and will await future 1; the second
-- waits for the first, whose future is number 2.
abbrev await_once_more : Result ℕ → Body ℕ
await_once_more r = await_then_add 1 1

abbrev first_frame : Frame ℕ
first_frame = record { future = 0; rest = await_once_more; promise = 2 }

abbrev second_frame : Frame ℕ
second_frame = record { future = 2; rest = return_sum 10; promise = 3 }

abbrev two_frames : ℕ → Option (Frame ℕ)
two_frames zero = some first_frame
two_frames (suc zero) = some second_frame
two_frames (suc (suc k)) = none

abbrev both_wait : State ℕ (Program (World ℕ))
both_wait = record {
  shared = λ k. if k == 0 then value 5 else pending;
  next = 4;
  frames = two_frames;
  next_frame = 2;
  queue = record one_pending { tasks = λ i. if i == 1 then plain 0 ∷ plain 1 ∷ [] else [] };
}

co_sync-deadlock_example :
    (t : System ℕ (World ℕ)) × Reach 1 (record { state = both_wait; running = [] }) t
    × ((u : System ℕ (World ℕ))
        → Reach 1 t u
        → IsAsleep 1 1 2 [] second_frame
            (record { future = 1; rest = return_sum 1; promise = 2 })
            u)
unfolding await_ready
co_sync-deadlock_example =
    co_sync-deadlock 1 0 1 1 [] first_frame second_frame (return_sum 1) both_wait refl (omega arith)
      refl refl refl refl refl refl refl
