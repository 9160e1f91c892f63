-- ===== src/Jthread/Examples.antt =====
-- One thread, from its start to its destructor.
use c9y.Base.{ℕ, ◌≡◌, refl, true, Option, some, []}
use c9y.Exceptions.{Outcome, returned}
use c9y.Stop.{Heap, new_state, source_request_stop, store}
use c9y.Jthread.{joined, start, destroy}

abbrev quiet : ℕ → ℕ → Outcome ℕ
quiet cb w = returned w

-- A thread that ends at once.
abbrev ends : ℕ → Heap ℕ → Option (Heap ℕ)
ends id h = some h

abbrev empty_heap : Heap ℕ
empty_heap = record { states = λ a. new_state; next = 0; world = 0 }

abbrev stopped_heap : Heap ℕ
stopped_heap = store 0 (record { stopping = true; callbacks = [] }) empty_heap

stopped_and_joined :
    destroy quiet ends (start quiet ends true 5 empty_heap).0 empty_heap
    ≡ some (
        joined
          (record ((start quiet ends true 5 empty_heap).0) { impl = Option.none }, stopped_heap))
unfolding start destroy source_request_stop
stopped_and_joined = refl
