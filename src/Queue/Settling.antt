-- ===== src/Queue/Settling.antt =====
-- Threads that wait on a queue of c9y/queue.h come to rest: each returns that has a value to take, or all
-- do, as the queue is stopped.
use c9y.Base.{
  ℕ, zero, suc, ◌+◌, ◌*◌, ◌<◌, ◌≤◌, ◌≡◌, ◌⊎◌, inl, inr, refl, ap, Bool, true, false, Option, none,
  some, List, [], arith, ℕ-cases,
}
use native.Mathlib.Nat.{suc-mul, mul-le-mul_left}
use c9y.Queue.{Queue, pop_wait, pop_wait_for}
use c9y.Queue.Monitor.{
  Monitor, fresh, Step, do_push, do_notify_one, do_stop, do_notify_all, do_pop, enter, enter_for,
  retry, retry_for, wake, notify_one, attempt, Reach, next,
}
use c9y.Queue.Wakeups.{no_lost_wakeup}

-- One notification less, and no thread more.
fewer_notices : (k l a b v w : ℕ) → k ≡ suc l → b ≤ a → w ≤ b → l * (b + 1) + w < k * (a + 1) + v
fewer_notices k l a b v w e le le' =
    omega (arith, ap (λ x. x * (a + 1)) e, suc-mul l (a + 1), mul-le-mul_left l fewer_threads)
  where
    fewer_threads : b + 1 ≤ a + 1
    fewer_threads = omega (arith, le)

-- As many notifications and threads, and one that is awake less.
fewer_awake : (n x y v w : ℕ) → x ≡ y → w < v → n * x + w < n * y + v
fewer_awake n x y v w e h = omega (arith, ap (λ z. n * z) e, h)

module _ {ℓ} {T : Type ℓ} where
  -- No thread is awake, no notification outstanding; and none sleeps, or there is nothing to take.
  abbrev pub IsAtRest : Monitor T → Type ℓ
  IsAtRest m =
      (m.woken ≡ 0)
      × (m.notices_one ≡ 0)
      × (m.notices_all ≡ 0)
      × ((m.sleeping ≡ 0) ⊎ ((m.shared.container ≡ []) × (m.shared.stopped ≡ false)))

  -- A step that is no call, and no sleep that ends of itself: a notification is delivered, or a thread
  -- that was woken tests its predicate.
  abbrev pub is_quiet : {m n : Monitor T} → Step m n → Bool
  is_quiet (do_push v e) = false
  is_quiet (do_notify_one k h e) = true
  is_quiet (do_stop e) = false
  is_quiet (do_notify_all k h e) = true
  is_quiet (do_pop e) = false
  is_quiet (enter e) = false
  is_quiet (enter_for timed_out e) = false
  is_quiet (retry k h e) = true
  is_quiet (retry_for timed_out k h e) = true
  is_quiet (wake k h e) = false

  pub data Quietly (m : Monitor T) : Monitor T → Type ℓ where
    still : Quietly m m
    then : {n o : Monitor T} → Quietly m n → (st : Step n o) → is_quiet st ≡ true → Quietly m o

  abbrev pub steps : {m n : Monitor T} → Quietly m n → ℕ
  steps still = 0
  steps (then q st quiet) = suc (steps q)

  Reach-Quietly : {m n o : Monitor T} → Reach m n → Quietly n o → Reach m o
  Reach-Quietly r still = r
  Reach-Quietly r (then q st quiet) = next (Reach-Quietly r q) st

  -- How many such steps there are at most.
  abbrev pub bound : Monitor T → ℕ
  bound m = (m.notices_one + m.notices_all) * (m.sleeping + m.woken + 1) + m.woken

  bound-notify_one :
      (k s : ℕ) (m : Monitor T)
      → m.notices_one ≡ suc k
      → m.sleeping ≡ s
      → bound (notify_one s (record m { notices_one = k })) < bound m
  bound-notify_one k zero m e h =
      fewer_notices _ _ _ _ _ _ (omega (arith, e)) (omega arith) (omega arith)
  bound-notify_one k (suc s) m e h =
      fewer_notices _ _ _ _ _ _ (omega (arith, e)) (omega (arith, h)) (omega arith)

  bound-attempt :
      (k : ℕ) (o : Option (Queue T × Option T)) (m : Monitor T)
      → m.woken ≡ suc k
      → bound (attempt o (record m { woken = k })) < bound m
  bound-attempt k none m e = fewer_awake _ _ _ _ _ (omega (arith, e)) (omega (arith, e))
  bound-attempt k (some (q, v)) m e =
      omega (arith, e, mul-le-mul_left (m.notices_one + m.notices_all) fewer_threads)
    where
      fewer_threads : m.sleeping + k + 1 ≤ m.sleeping + m.woken + 1
      fewer_threads = omega (arith, e)

  Step-bound : {m n : Monitor T} (st : Step m n) → is_quiet st ≡ true → bound n < bound m
  Step-bound (do_push v e) quiet = absurd (ground (arith, quiet))
  Step-bound {m} (do_notify_one k h e) quiet = rw e (bound-notify_one k m.sleeping m h refl)
  Step-bound (do_stop e) quiet = absurd (ground (arith, quiet))
  Step-bound (do_notify_all k h e) quiet =
      rw e (fewer_notices _ _ _ _ _ _ (omega (arith, h)) (omega arith) (omega arith))
  Step-bound (do_pop e) quiet = absurd (ground (arith, quiet))
  Step-bound (enter e) quiet = absurd (ground (arith, quiet))
  Step-bound (enter_for timed_out e) quiet = absurd (ground (arith, quiet))
  Step-bound {m} (retry k h e) quiet = rw e (bound-attempt k (pop_wait m.shared) m h)
  Step-bound {m} (retry_for timed_out k h e) quiet =
      rw e (bound-attempt k (pop_wait_for timed_out m.shared) m h)
  Step-bound (wake k h e) quiet = absurd (ground (arith, quiet))

  steps-bound : {m n : Monitor T} (q : Quietly m n) → steps q + bound n ≤ bound m
  steps-bound still = omega arith
  steps-bound (then q st quiet) = omega (arith, steps-bound q, Step-bound st quiet)

  -- At rest, or some notification is outstanding or some thread awake.
  goes_on :
      (items : List T) (n : Monitor T)
      → Reach (fresh items) n
      → IsAtRest n ⊎ ((o : Monitor T) × (st : Step n o) × (is_quiet st ≡ true))
  goes_on items n r = elim (ℕ-cases n.notices_one) [
    | inr (k, h) ↦ inr (_, do_notify_one k h refl, refl)
    | inl ones ↦ elim (ℕ-cases n.notices_all) [
      | inr (k, h) ↦ inr (_, do_notify_all k h refl, refl)
      | inl alls ↦ elim (ℕ-cases n.woken) [
        | inr (k, h) ↦ inr (_, retry k h refl, refl)
        | inl awake ↦ inl (
          awake,
          ones,
          alls,
          elim (ℕ-cases n.sleeping) [
            | inl nobody ↦ inl nobody
            | inr (k, e) ↦ inr (no_lost_wakeup items r (omega (arith, e)) awake ones alls)
          ],
        )
      ]
    ]
  ]

  -- From every state that any interleaving of calls reaches from a new queue, the threads come to rest
  -- by themselves, with no further call and no sleep that ends of itself: in whatever order the
  -- notifications that are outstanding are delivered, and the woken threads test their predicates, these
  -- are finitely many steps (`bound`), and another is possible until the threads are at rest. Then
  -- every notification is delivered, every thread that was woken has returned or sleeps again, and a
  -- thread sleeps only if the queue is empty and not stopped.
  pub queue-settles :
      (items : List T) {m : Monitor T}
      → Reach (fresh items) m
      → (n : Monitor T) (q : Quietly m n)
      → (steps q ≤ bound m)
        × (IsAtRest n ⊎ ((o : Monitor T) × (st : Step n o) × (is_quiet st ≡ true)))
  queue-settles items r n q = (omega (arith, steps-bound q), goes_on items n (Reach-Quietly r q))
