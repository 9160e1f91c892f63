-- ===== src/Latch.antt =====
-- c9y/latch.h and c9y/latch.cpp: the downward counter that threads wait on. A `ptrdiff_t` is an
-- integer ℤ: the sources leave its overflow undefined. A call that waits returns `none` while its
-- predicate fails, and is then made again after a notification.
pub mod Waiting
pub mod Sleepers
mod Examples
use c9y.Base.{ℕ, Bool, Option, none, some, if◌then◌else◌, List, [], ◌∷◌}
use c9y.Base.Int.{ℤ, pos, leb_ℤ, eqb_ℤ, ◌-ℤ◌}

pub record Latch : Type 0 where
  pub count : ℤ

-- The constructor.
unfoldable pub latch : ℤ → Latch
latch expected = record { count = expected }

-- Returns the new latch, and whether the sleeping threads are notified.
unfoldable pub count_down : ℤ → Latch → Latch × Bool
count_down n l = (record l { count = l.count -ℤ n }, leb_ℤ (l.count -ℤ n) (pos 0))

-- The predicate of `wait`, under which it returns.
unfoldable pub released : Latch → Bool
released l = leb_ℤ l.count (pos 0)

-- The predicate of `wait_for`, which is also its result after the time-out.
unfoldable pub reached_zero : Latch → Bool
reached_zero l = eqb_ℤ l.count (pos 0)

unfoldable pub wait : Latch → Option (Unit {0})
unfolding released
wait l = if released l then some tt else none

-- `some b`: returns b. `timed_out` says whether the duration has passed.
unfoldable pub wait_for : (timed_out : Bool) → Latch → Option Bool
unfolding reached_zero
wait_for timed_out l =
    if reached_zero l
    then some (reached_zero l)
    else if timed_out
    then some (reached_zero l)
    else none

-- A history of calls of `count_down` by any threads, each under the mutex.
unfoldable pub count_down_all : List ℤ → Latch → Latch
unfolding count_down
count_down_all [] l = l
count_down_all (n ∷ ns) l = count_down_all ns (count_down n l).0
