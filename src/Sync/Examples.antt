-- ===== src/Sync/Examples.antt =====
-- sync and delay on small inputs. The world is the list of what was called.
use c9y.Base.{
  ℕ, ◌==◌, ◌<◌, ◌≤◌, ◌≡◌, ◌≢◌, refl, false, none, some, List, [], ◌∷◌, ◌++◌, ◌>>=◌, if◌then◌else◌,
}
use c9y.Exceptions.{Outcome, returned, Handler}
use c9y.Sync.{
  plain, tagged, Program, sync_to_tagged, sync_point, push_tagged, get_this_threads_tasks,
}
use c9y.Sync.Points.{delaying, some_releases, sync_point-HasRun}
use c9y.Sync.Threads.{System, Reach, here, next, do_sync_tagged, begin}
use c9y.Sync.Tags.{held, once_tag-single}
use c9y.Sync.Order.{nested, finished, finished-sent}
use c9y.Sync.Order
use c9y.Sync.Merging.{IsSent}
use c9y.Sync.Shortcut.{sync_to_tagged-twice}

abbrev Log : Type 0
Log = List ℕ

abbrev note : ℕ → Log → Log
note f log = log ++ f ∷ []

-- Function 5 delays functions 6 and 7.
abbrev delays : ℕ → List ℕ
delays f = if f == 5 then 6 ∷ 7 ∷ [] else []

abbrev new_program : Program Log
new_program = record { tasks = λ thread. []; main_thread_id = 1; active = λ tag. false; world = [] }

-- Thread 1 has two functions queued, one of them with tag 0.
abbrev two_queued : Program Log
two_queued = record new_program {
  tasks = λ thread. if thread == 1 then plain 5 ∷ tagged 0 3 ∷ [] else [];
  active = λ tag. tag == 0;
}

abbrev terminating : Handler (Program Log)
terminating p = none

sync_point-HasRun_example :
    (q : Program Log) × (sync_point (delaying note delays 1 terminating) terminating 1 two_queued
      ≡ some q)
    × (q.world ≡ 5 ∷ 3 ∷ [])
    × (q.tasks 1 ≡ plain 6 ∷ plain 7 ∷ [])
    × ((j : ℕ) → j ≢ 1 → q.tasks j ≡ two_queued.tasks j)
    × ((tag : ℕ)
        → q.active tag
          ≡ (if some_releases tag (two_queued.tasks 1) then false else two_queued.active tag))
sync_point-HasRun_example = sync_point-HasRun note delays 1 terminating two_queued

abbrev acting : ℕ → Program Log → Outcome (Program Log)
acting f p = returned (record p { world = note f p.world })

abbrev start : System Log
start = record { program = new_program; running = λ thread. [] }

-- Thread 2 syncs function 4 to thread 1 with tag 0, and thread 1 takes it.
abbrev sent : Program Log
sent = push_tagged 0 1 4 new_program

abbrev taken : System Log
taken = record {
  program = (get_this_threads_tasks 1 sent).1;
  running = λ thread. if 1 == thread then (get_this_threads_tasks 1 sent).0 else [];
}

taken-Reach : Reach acting terminating start taken
unfolding sync_to_tagged get_this_threads_tasks
taken-Reach = next (next here (do_sync_tagged 2 0 1 4 sent refl refl refl)) (begin 1 refl)

once_tag-single_example :
    ((i : ℕ) → held 0 taken i ≤ 1)
    × ((i j : ℕ) → 0 < held 0 taken i → 0 < held 0 taken j → i ≡ j)
    × ((i : ℕ) → taken.program.active 0 ≡ false → held 0 taken i ≡ 0)
once_tag-single_example = once_tag-single acting terminating 0 (λ i. (refl, refl)) taken-Reach

sync_to_tagged-twice_example :
    (q : Program Log) × ((sync_to_tagged acting terminating 2 0 1 3 new_program
        >>= sync_to_tagged acting terminating 1 0 1 4
        >>= sync_to_tagged acting terminating 2 0 1 5)
      ≡ some q)
    × (q.tasks 1 ≡ new_program.tasks 1 ++ tagged 0 3 ∷ tagged 0 5 ∷ [])
sync_to_tagged-twice_example =
    sync_to_tagged-twice acting terminating 2 1 0 3 4 5 (note 4) new_program refl refl (λ q. refl)

-- What thread 1 was sent: it has finished nothing, and has not called sync_point in a function.
finished-sent_example :
    IsSent
      (nested acting terminating taken-Reach 1)
      (finished acting terminating taken-Reach 1 ++ (taken.running 1 ++ taken.program.tasks 1))
      ((start.running 1 ++ start.program.tasks 1) ++ Order.sent acting terminating taken-Reach 1)
finished-sent_example = finished-sent acting terminating taken-Reach 1
