-- ===== src/Latch/Sleepers.antt =====
-- c9y/latch.h and c9y/latch.cpp: the threads that sleep on `cond`, which count_down notifies with the
-- mutex held.
use c9y.Base.{
  ◌≡◌, ◌≢◌, subst, [], Bool, true, false, Option, none, some, ◌>>=◌, All, All-map, arith,
}
use c9y.Base.Int.{ℤ, pos, ◌<ℤ◌}
use c9y.Latch.{Latch, latch, count_down, wait, wait_for, released, reached_zero}
use c9y.Monitor.{Monitored, System, fresh, Reach}
use c9y.Monitor.Settling.{settles, calls}

-- The calls that wait; `wait` returns nothing, and `wait_for` a Boolean.
pub data Waiter : Type 0 where
  by_wait by_wait_for : Waiter

abbrev pub test : Waiter → Bool → Latch → Option (Option Bool)
test by_wait timed_out l = wait l >>= λ u. some none
test by_wait_for timed_out l = wait_for timed_out l >>= λ b. some (some b)

-- Where the call sleeps until it is notified, or its time is up.
abbrev pub Sleeps : Latch → Waiter → Type 0
Sleeps l by_wait = pos 0 <ℤ l.count
Sleeps l by_wait_for = l.count ≢ pos 0

test-Sleeps : (w : Waiter) (l : Latch) → test w false l ≡ none → Sleeps l w
unfolding wait wait_for released reached_zero
test-Sleeps by_wait l e = ground arith
test-Sleeps by_wait_for l e = λ z. ground (arith, z)

pub test_again : (w : Waiter) (l : Latch) → test w true l ≡ none → test w false l ≡ none
unfolding wait wait_for
test_again by_wait l e = e
test_again by_wait_for l e = ground arith

pub count_down_notifies :
    (n : ℤ) (w : Waiter) (l : Latch)
    → test w false l ≡ none
    → (count_down n l).1 ≡ false
    → test w false (count_down n l).0 ≡ none
unfolding wait wait_for count_down released reached_zero
count_down_notifies n by_wait l e quiet = ground arith
count_down_notifies n by_wait_for l e quiet = ground arith

abbrev pub monitored : Monitored Latch ℤ Waiter (Option Bool)
monitored = record {
  change = count_down;
  test = test;
  test_again = test_again;
  change_notifies = count_down_notifies;
}

-- Threads that call count_down with any amounts, wait and wait_for on a new latch, in any order, with
-- sleepers that wake of themselves and time limits that run out: a thread sleeps in wait only while the
-- count is positive, and in wait_for only while it is not zero. And if no one counts down from then
-- on, the threads come to rest with the same count: no thread is awake in a call, no call is lost, and
-- those asleep are so for that reason alone.
pub latch-settles :
    (expected : ℤ) {s : System Latch Waiter (Option Bool)}
    → Reach monitored (fresh (latch expected)) s
    → All (Sleeps s.shared) s.sleeping
      × (t : System Latch Waiter (Option Bool)) × Reach monitored s t
      × (t.shared ≡ s.shared)
      × (t.woken ≡ [])
      × All (Sleeps s.shared) t.sleeping
      × (calls monitored t ≡ calls monitored s)
latch-settles expected {s} r =
    let (all, t, more, shared, woken, blocked, count) = settles monitored (latch expected) r in
    (
      All-map _ _ (λ w e. test-Sleeps w s.shared e) s.sleeping all,
      t,
      more,
      shared,
      woken,
      All-map _ _ (λ w e. subst (λ l. Sleeps l w) shared (test-Sleeps w t.shared e)) t.sleeping
          blocked,
      count,
    )
