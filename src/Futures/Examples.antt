-- ===== src/Futures/Examples.antt =====
-- Futures on small inputs: function f doubles the number that is the world and returns f, and
-- function 0 throws.
use c9y.Base.{ℕ, zero, suc, ◌+◌, ◌==◌, ◌≡◌, refl, true, none, some, []}
use c9y.Exceptions.{Outcome, returned, Handler}
use c9y.Sync.{Program, sync_point}
use c9y.Futures.{
  Result, ok, raised, pending, broken, value, Store, call_program, sync_future, sync_future_tagged,
}
use c9y.Futures.Results.{sync_future-kept, sync_future_tagged-shared}

abbrev doubling : ℕ → ℕ → ℕ × Result ℕ
doubling zero w = (w + w, raised)
doubling (suc f) w = (w + w, ok (suc f))

abbrev leaving : ℕ → ℕ → Outcome ℕ
leaving f w = returned w

abbrev no_tasks : Store ℕ ℕ
no_tasks = record { body = λ k. 0; shared = λ k. pending; next = 0; world = 3 }

-- Tag 4 is active.
abbrev small_program : Program (Store ℕ ℕ)
small_program = record {
  tasks = λ thread. [];
  main_thread_id = 1;
  active = λ tag. tag == 4;
  world = no_tasks;
}

abbrev terminating : Handler (Program (Store ℕ ℕ))
terminating p = none

sync_future-kept_example :
    (q : Program (Store ℕ ℕ)) × (r : Program (Store ℕ ℕ)) × (sync_future doubling leaving
        terminating 2 1 7 small_program
      ≡ some (q, 0))
    × (q.world.shared 0 ≡ pending)
    × (q.world.world ≡ 3)
    × (sync_point (call_program doubling leaving) terminating 1 q ≡ some r)
    × (r.world.shared 0 ≡ value 7)
    × (r.world.world ≡ 6)
    × (r.tasks 1 ≡ [])
sync_future-kept_example =
    sync_future-kept doubling leaving terminating 2 1 7 small_program refl refl

sync_future_tagged-shared_example :
    (q : Program (Store ℕ ℕ)) × (sync_future_tagged doubling leaving terminating 2 4 1 7
        small_program
      ≡ some (q, 0))
    × (q.world.shared 0 ≡ broken)
    × (q.active 4 ≡ true)
    × (q.tasks 1 ≡ [])
sync_future_tagged-shared_example =
    sync_future_tagged-shared doubling leaving terminating 2 4 1 7 small_program
