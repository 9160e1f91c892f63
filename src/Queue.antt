-- ===== src/Queue.antt =====
-- c9y/queue.h: the thread-safe queue. Each call is one step under the mutex, with the notification
-- that follows it named in the result. A call that waits returns `none` while its predicate fails.
pub mod History
pub mod Draining
pub mod Monitor
pub mod Wakeups
pub mod Settling
mod Examples
use c9y.Base.{Bool, true, false, ◌||◌, not, Option, none, some, List, [], ◌∷◌, ◌++◌, if◌then◌else◌}

pub record Queue {ℓ} (T : Type ℓ) : Type ℓ where
  pub container : List T
  pub stopped : Bool

-- `cond.notify_one()` or `cond.notify_all()`, after the mutex is released.
pub data Notify : Type 0 where
  one all : Notify

module _ {ℓ} {T : Type ℓ} where
  abbrev pub is_empty : List T → Bool
  is_empty [] = true
  is_empty (x ∷ xs) = false

  -- The constructors: the empty queue, and one whose container is made from the arguments.
  unfoldable pub queue : List T → Queue T
  queue items = record { container = items; stopped = false }

  unfoldable pub push : T → Queue T → Queue T × Notify
  push value q = (record q { container = q.container ++ value ∷ [] }, one)

  -- The overload that moves its argument in.
  unfoldable pub push_move : T → Queue T → Queue T × Notify
  push_move value q = (record q { container = q.container ++ value ∷ [] }, one)

  -- `value` is what the arguments construct.
  unfoldable pub emplace : T → Queue T → Queue T × Notify
  emplace value q = (record q { container = q.container ++ value ∷ [] }, one)

  -- `container.front()` and `pop_front()`, on a container that is not empty.
  abbrev pub take_front : Queue T → List T → Queue T × Option T
  take_front q [] = (q, none)
  take_front q (x ∷ xs) = (record q { container = xs }, some x)

  unfoldable pub pop : Queue T → Queue T × Option T
  pop q = if not (is_empty q.container) then take_front q q.container else (q, none)

  -- The predicate on which the waiting threads sleep.
  unfoldable pub ready : Queue T → Bool
  ready q = not (is_empty q.container) || q.stopped

  unfoldable pub pop_wait : Queue T → Option (Queue T × Option T)
  unfolding ready
  pop_wait q =
      if not (ready q)
      then none
      else if is_empty q.container
      then some (q, none)
      else some (take_front q q.container)

  -- `timed_out`: the duration has passed.
  unfoldable pub pop_wait_for : (timed_out : Bool) → Queue T → Option (Queue T × Option T)
  unfolding ready
  pop_wait_for timed_out q =
      if not (ready q || timed_out)
      then none
      else if is_empty q.container
      then some (q, none)
      else some (take_front q q.container)

  unfoldable pub stop : Queue T → Queue T × Notify
  stop q = (record q { stopped = true }, all)
