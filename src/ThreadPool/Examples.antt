-- ===== src/ThreadPool/Examples.antt =====
-- Pools of three threads and of two.
use c9y.Base.{
  ℕ, ◌+◌, ◌==◌, ◌≡◌, refl, Bool, true, false, not, Option, some, List, All, [], ◌-◌, none,
  if◌then◌else◌, arith,
}
use c9y.Exceptions.{Outcome, returned}
use c9y.Stop.{Heap, new_state}
use c9y.Jthread.{Jthread, joined}
use c9y.ThreadPool.{
  ThreadPool, thread_pool, get_concurency, request_stop, empty_pool, destroy, assign, join_from,
}
use c9y.ThreadPool.Stopping.{AllStopped, request_stop-thread_pool}
use c9y.ThreadPool.Shutdown.{request_stop-join}
use c9y.ThreadPool.Destruction.{KeepsStops, IsCooperative, destroy-AllStopped}

abbrev quiet : ℕ → ℕ → Outcome ℕ
quiet cb w = returned w

abbrev ends : ℕ → Heap ℕ → Option (Heap ℕ)
ends id h = some h

abbrev empty_heap : Heap ℕ
empty_heap = record { states = λ a. new_state; next = 0; world = 0 }

three_threads-asked_twice :
    let made = thread_pool quiet ends true (λ i. i + 100) 3 empty_heap in
    (get_concurency made.0 ≡ 3)
    × ((h' : Heap ℕ) × (request_stop quiet ends made.0 made.1 ≡ some (h', not (3 == 0)))
        × AllStopped made.0.threads h'
        × (request_stop quiet ends made.0 h' ≡ some (h', false)))
three_threads-asked_twice = request_stop-thread_pool quiet ends (λ i. i + 100) true 3 empty_heap

-- A thread that ends only once its state, at its number less 100, sees a request.
abbrev ends_when_asked : ℕ → Heap ℕ → Option (Heap ℕ)
ends_when_asked id h = if (h.states (id - 100)).stopping then some h else none

abbrev two_threads : ThreadPool × Heap ℕ
two_threads = thread_pool quiet ends_when_asked true (λ i. i + 100) 2 empty_heap

two_threads-IsCooperative : All (IsCooperative ends_when_asked) (two_threads.0).threads
unfolding thread_pool
two_threads-IsCooperative = (
  (0, 100, refl, λ h s. (h, ground (arith, s), λ a b. b)),
  ((1, 101, refl, λ h s. (h, ground (arith, s), λ a b. b)), tt),
)

destroy-AllStopped_example :
    (k : Heap ℕ) × (destroy quiet ends_when_asked (two_threads.0) (two_threads.1) ≡ some (joined k))
    × AllStopped (two_threads.0).threads k
    × KeepsStops (two_threads.1) k
    × (assign quiet ends_when_asked (two_threads.0) empty_pool (two_threads.1)
        ≡ some (joined (empty_pool, record { threads = [] }, k)))
destroy-AllStopped_example =
    destroy-AllStopped quiet ends_when_asked (λ cb w. (w, refl)) (two_threads.0) empty_pool
      (two_threads.1) two_threads-IsCooperative

request_stop-join_example :
    (m : Heap ℕ) × (granted : Bool) × (request_stop quiet ends_when_asked
        (two_threads.0)
        (two_threads.1)
      ≡ some (m, granted))
    × AllStopped (two_threads.0).threads m
    × (ended : List Jthread) × (k : Heap ℕ) × (join_from quiet ends_when_asked
          (two_threads.0).threads
          m
        ≡ joined (ended, k))
    × All (λ j. j.impl ≡ none) ended
    × (destroy quiet ends_when_asked (record { threads = ended }) k ≡ some (joined k))
request_stop-join_example =
    request_stop-join quiet ends_when_asked (λ cb w. (w, refl)) (two_threads.0) (two_threads.1)
      two_threads-IsCooperative
