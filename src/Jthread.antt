-- ===== src/Jthread.antt =====
-- c9y/jthread.h and c9y/jthread.cpp: a thread with a stop_source of its own. `std::thread` is not part
-- of the sources: one that can be joined is the number of its thread, and `run_out` is what happens
-- until the thread with that number has ended (none: it never ends). A call that `std::thread`
-- refuses with `std::system_error` is an error of `Thrown`.
pub mod Lifetime
mod Examples
use c9y.Base.{ℕ, Bool, true, false, Option, none, some, if◌then◌else◌, ◌>>=◌}
use c9y.Exceptions.{Outcome}
use c9y.Stop.{
  Heap, StopSource, StopToken, no_source, new_source, get_token, source_request_stop, is_set,
  swap_sources,
}

pub record Jthread : Type 0 where
  pub stop : StopSource
  pub impl : Option ℕ

-- The default constructor.
unfoldable pub no_thread : Jthread
no_thread = record { stop = no_source; impl = none }

unfoldable pub joinable : Jthread → Bool
joinable j = is_set j.impl

-- The move constructor: the new thread, and what is left of the old one.
unfoldable pub move : Jthread → Jthread × Jthread
move other = (other, record { stop = no_source; impl = none })

-- Move assignment; none: `std::thread` ends the process, as the target still runs.
unfoldable pub assign : Jthread → Jthread → Option (Jthread × Jthread)
unfolding joinable
assign this other =
    if joinable this then none else some (other, record { stop = no_source; impl = none })

unfoldable pub get_id : Jthread → Option ℕ
get_id j = j.impl

-- none: the call throws.
unfoldable pub detach : Jthread → Option Jthread
unfolding joinable
detach j = if joinable j then some (record j { impl = none }) else none

unfoldable pub get_stop_source : Jthread → StopSource
unfolding joinable
get_stop_source j = if joinable j then j.stop else no_source

unfoldable pub get_stop_token : Jthread → StopToken
unfolding get_stop_source get_token
get_stop_token j = get_token (get_stop_source j)

unfoldable pub swap : Jthread → Jthread → Jthread × Jthread
unfolding swap_sources
swap a b =
    let (s, t) = swap_sources a.stop b.stop in
    (record { stop = s; impl = b.impl }, record { stop = t; impl = a.impl })

-- A call that blocks returns, throws, or does not return at all.
pub data Joined {ℓ} (A : Type ℓ) : Type ℓ where
  joined : A → Joined A
  not_joinable : Joined A
  never : Joined A

module _ {ℓ} {W : Type ℓ} (act : ℕ → W → Outcome W) (run_out : ℕ → Heap W → Option (Heap W)) where
  -- The constructor that starts a thread, with the number that it gets; `takes_token` says whether
  -- its function takes a stop_token first. Returns the token that the function gets.
  unfoldable pub start :
      (takes_token : Bool) (id : ℕ) → Heap W → Jthread × Option StopToken × Heap W
  unfolding new_source get_token
  start takes_token id h =
      let (s, h') = new_source h in
      (record { stop = s; impl = some id }, if takes_token then some (get_token s) else none, h')

  abbrev pub after_end : Jthread → Option (Heap W) → Joined (Jthread × Heap W)
  after_end j none = never
  after_end j (some h) = joined (record j { impl = none }, h)

  abbrev pub join_at : Option ℕ → Jthread → Heap W → Joined (Jthread × Heap W)
  join_at none j h = not_joinable
  join_at (some id) j h = after_end j (run_out id h)

  unfoldable pub join : Jthread → Heap W → Joined (Jthread × Heap W)
  join j h = join_at j.impl j h

  unfoldable pub request_stop : Jthread → Heap W → Option (Heap W × Bool)
  unfolding source_request_stop
  request_stop j h = source_request_stop act j.stop h

  abbrev pub join_after : Jthread → Option (Heap W × Bool) → Option (Joined (Jthread × Heap W))
  join_after j none = none
  join_after j (some (h, requested)) = some (join j h)

  -- The destructor; none: the process ends.
  unfoldable pub destroy : Jthread → Heap W → Option (Joined (Jthread × Heap W))
  unfolding joinable request_stop join
  destroy j h = if joinable j then join_after j (request_stop j h) else some (joined (j, h))
