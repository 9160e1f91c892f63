-- ===== src/Queue/Wakeups.antt =====
-- No wake-up is lost in c9y/queue.h, under any interleaving of its threads.
use c9y.Base.{◌+◌, ◌<◌, ◌≤◌, ◌≡◌, false, true, List, [], ◌∷◌, refl, length, length-append, arith}
use c9y.Queue.{push, pop, pop_wait, pop_wait_for, stop}
use c9y.Queue.Monitor.{
  Monitor, fresh, Step, do_push, do_notify_one, do_stop, do_notify_all, do_pop, enter, enter_for,
  retry, retry_for, wake, Reach, here, next,
}

-- While a thread sleeps, each value held is on its way to some other thread, and the queue is not
-- stopped but for threads that are about to be woken.
pub record IsAlert {ℓ} {T : Type ℓ} (m : Monitor T) : Type 0 where
  pub values : 0 < m.sleeping → length m.shared.container ≤ m.woken + m.notices_one
  pub stopping : 0 < m.sleeping → m.shared.stopped ≡ true → 0 < m.notices_all

module _ {ℓ} {T : Type ℓ} where
  Step-IsAlert : {m n : Monitor T} → Step m n → IsAlert m → IsAlert n
  unfolding push pop pop_wait pop_wait_for stop
  Step-IsAlert {m} (do_push v e) a = ground (arith, length-append m.shared.container (v ∷ []))
  Step-IsAlert (do_notify_one k h e) a = ground arith
  Step-IsAlert (do_stop e) a = ground arith
  Step-IsAlert (do_notify_all k h e) a = ground arith
  Step-IsAlert (do_pop e) a = ground arith
  Step-IsAlert (enter e) a = ground arith
  Step-IsAlert (enter_for timed_out e) a = ground arith
  Step-IsAlert (retry k h e) a = ground arith
  Step-IsAlert (retry_for timed_out k h e) a = ground arith
  Step-IsAlert (wake k h e) a = ground arith

  fresh-IsAlert : (items : List T) → IsAlert (fresh items)
  fresh-IsAlert items = record {
    values = λ h. absurd (omega arith);
    stopping = λ h s. absurd (omega arith);
  }

  Reach-IsAlert : {m n : Monitor T} → IsAlert m → Reach m n → IsAlert n
  Reach-IsAlert a here = a
  Reach-IsAlert a (next r s) = Step-IsAlert s (Reach-IsAlert a r)

  -- In every state that any interleaving of calls reaches from a new queue: if a thread sleeps, no
  -- thread is on its way back from sleep, and no notification is outstanding, then the queue is
  -- empty and not stopped.
  pub no_lost_wakeup :
      (items : List T) {m : Monitor T}
      → Reach (fresh items) m
      → 0 < m.sleeping
      → m.woken ≡ 0
      → m.notices_one ≡ 0
      → m.notices_all ≡ 0
      → (m.shared.container ≡ []) × (m.shared.stopped ≡ false)
  no_lost_wakeup items {m} r asleep w o a = (
    empty m.shared.container (omega (arith, alert.values asleep)),
    ground (arith, alert.stopping asleep),
  )
    where
      alert : IsAlert m
      alert = Reach-IsAlert (fresh-IsAlert items) r

      empty : (xs : List T) → length xs ≤ 0 → xs ≡ []
      empty [] h = refl
      empty (x ∷ xs) h = absurd (omega arith)
