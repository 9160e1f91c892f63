-- ===== src/ThreadPool.antt =====
-- c9y/thread_pool.h and c9y/thread_pool.cpp: a row of threads. `ids` gives the number that the system
-- chooses for the i-th thread.
pub mod Stopping
pub mod Destruction
pub mod Shutdown
mod Examples
use c9y.Base.{
  ℕ, zero, suc, ◌+◌, Bool, false, Option, none, some, List, [], ◌∷◌, ◌++◌, length, if◌then◌else◌,
  ◌>>=◌,
}
use c9y.Exceptions.{Outcome}
use c9y.Stop.{Heap}
use c9y.Jthread
use c9y.Jthread.{Jthread, Joined, joined, not_joinable, never}

pub record ThreadPool : Type 0 where
  pub threads : List Jthread

-- The default constructor.
unfoldable pub empty_pool : ThreadPool
empty_pool = record { threads = [] }

-- `get_concurency`
unfoldable pub get_concurency : ThreadPool → ℕ
get_concurency pool = length pool.threads

-- The move constructor: the vector moves.
unfoldable pub move : ThreadPool → ThreadPool × ThreadPool
move other = (other, record { threads = [] })

module _ {ℓ} {W : Type ℓ} (act : ℕ → W → Outcome W) (run_out : ℕ → Heap W → Option (Heap W)) where
  -- The loop of the constructor, with the rounds left.
  unfoldable pub emplace_threads :
      (takes_token : Bool) (ids : ℕ → ℕ) (rounds i : ℕ)
      → List Jthread
      → Heap W
      → List Jthread × Heap W
  unfolding Jthread.start
  emplace_threads takes_token ids zero i threads h = (threads, h)
  emplace_threads takes_token ids (suc rounds) i threads h =
      let (j, token, h') = Jthread.start act run_out takes_token (ids i) h in
      emplace_threads takes_token ids rounds (i + 1) (threads ++ j ∷ []) h'

  unfoldable pub thread_pool :
      (takes_token : Bool) (ids : ℕ → ℕ) (concurency : ℕ) → Heap W → ThreadPool × Heap W
  unfolding emplace_threads
  thread_pool takes_token ids concurency h =
      let (threads, h') = emplace_threads takes_token ids concurency 0 [] h in
      (record { threads = threads }, h')

  -- The loop of `request_stop`, with `result`; none: a callback throws, and the process ends.
  unfoldable pub request_stop_from : Bool → List Jthread → Heap W → Option (Heap W × Bool)
  unfolding Jthread.request_stop
  request_stop_from result [] h = some (h, result)
  request_stop_from result (j ∷ js) h =
      Jthread.request_stop act run_out j h >>= λ r. request_stop_from r.1 js r.0

  unfoldable pub request_stop : ThreadPool → Heap W → Option (Heap W × Bool)
  unfolding request_stop_from
  request_stop pool h = request_stop_from false pool.threads h

  abbrev pub add_thread : Jthread → Joined (List Jthread × Heap W) → Joined (List Jthread × Heap W)
  add_thread j (joined (js, h)) = joined (j ∷ js, h)
  add_thread j not_joinable = not_joinable
  add_thread j never = never

  -- The loop of `join`: the threads that can be joined are.
  unfoldable pub join_from : List Jthread → Heap W → Joined (List Jthread × Heap W)
  unfolding Jthread.joinable Jthread.join
  join_from [] h = joined ([], h)
  join_from (j ∷ js) h =
      if Jthread.joinable j
      then elim (Jthread.join act run_out j h) [
        | joined (j', h') ↦ add_thread j' (join_from js h')
        | not_joinable ↦ not_joinable
        | never ↦ never
      ]
      else add_thread j (join_from js h)

  -- The destructor: that of each thread, from the first to the last; none: the process ends.
  unfoldable pub destroy_from : List Jthread → Heap W → Option (Joined (Heap W))
  unfolding Jthread.destroy
  destroy_from [] h = some (joined h)
  destroy_from (j ∷ js) h = elim (Jthread.destroy act run_out j h) [
    | none ↦ none
    | some (joined (j', h')) ↦ destroy_from js h'
    | some not_joinable ↦ some not_joinable
    | some never ↦ some never
  ]

  unfoldable pub destroy : ThreadPool → Heap W → Option (Joined (Heap W))
  unfolding destroy_from
  destroy pool h = destroy_from pool.threads h

  -- Move assignment: the threads that the target had are destroyed.
  abbrev pub assigned :
      ThreadPool → Option (Joined (Heap W)) → Option (Joined (ThreadPool × ThreadPool × Heap W))
  assigned other none = none
  assigned other (some (joined h)) = some (joined (other, record { threads = [] }, h))
  assigned other (some not_joinable) = some not_joinable
  assigned other (some never) = some never

  unfoldable pub assign :
      (this other : ThreadPool) → Heap W → Option (Joined (ThreadPool × ThreadPool × Heap W))
  unfolding destroy
  assign this other h = assigned other (destroy this h)
