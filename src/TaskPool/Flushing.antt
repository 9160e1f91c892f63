-- ===== src/TaskPool/Flushing.antt =====
-- c9y/task_pool.cpp: what a flush that returns has waited for, and how one can sleep on.
use c9y.Base.{ℕ, ◌+◌, ◌%◌, ◌<◌, ◌≡◌, refl, true, ◌↔◌, List, [], ◌∷◌, length, length-append, arith}
use c9y.Queue.{pop_wait}
use c9y.TaskPool.{task_pool, enqueue_count, enqueue_push, is_flushed, complete, uint_mod}
use c9y.TaskPool.Threads.{
  System, new_system, away, testing, about_to_sleep, sleeping, Step, count, push, take, done,
  notify, flush, test, sleep, wake, flush_again, Reach, here, next,
}

-- The functions that were counted and are not done.
abbrev pub outstanding : System → ℕ
outstanding s = length s.enqueuing + length s.pool.tasks.container + s.running

-- The count of the pool is `off` above that, in the arithmetic of `unsigned int`.
abbrev pub IsCounted : (off : ℕ) → System → Type 0
IsCounted off s = s.pool.tasks_in_flight ≡ (outstanding s + off) % uint_mod

module _ (off : ℕ) where
  Step-IsCounted : {s t : System} → Step s t → IsCounted off s → IsCounted off t
  unfolding enqueue_count enqueue_push pop_wait complete
  Step-IsCounted (count func e) c = ground arith
  Step-IsCounted {s} (push func before behind q e) c = ground (
    arith,
    length-append before (func ∷ behind),
    length-append before behind,
    length-append s.pool.tasks.container (func ∷ []),
  )
  Step-IsCounted (take func q h e) c = ground arith
  Step-IsCounted (done k h e) c = ground arith
  Step-IsCounted (notify k h e) c = ground arith
  Step-IsCounted (flush h e) c = ground arith
  Step-IsCounted (test h e) c = ground arith
  Step-IsCounted (sleep h e) c = ground arith
  Step-IsCounted (wake h e) c = ground arith
  Step-IsCounted (flush_again h e) c = ground arith

  pub Reach-IsCounted : {s t : System} → IsCounted off s → Reach s t → IsCounted off t
  Reach-IsCounted c here = c
  Reach-IsCounted c (next r st) = Step-IsCounted st (Reach-IsCounted c r)

new_system-IsCounted : IsCounted 0 new_system
unfolding task_pool
new_system-IsCounted = omega arith

nil_of_length {ℓ} : {A : Type ℓ} (xs : List A) → length xs ≡ 0 → xs ≡ []
nil_of_length [] e = refl
nil_of_length (x ∷ xs) e = absurd (omega arith)

-- Under every interleaving, while fewer than 2^32 functions are counted and not done: the test of
-- flush passes exactly when no thread is about to push a function, none is queued, and none is
-- running.
pub is_flushed-outstanding :
    {s : System}
    → Reach new_system s
    → outstanding s < uint_mod
    → (is_flushed s.pool ≡ true)
      ↔ ((s.enqueuing ≡ []) × (s.pool.tasks.container ≡ []) × (s.running ≡ 0))
unfolding is_flushed
is_flushed-outstanding {s} r small = (
  λ h. (
    nil_of_length s.enqueuing (ground (arith, counted)),
    nil_of_length s.pool.tasks.container (ground (arith, counted)),
    ground (arith, counted),
  ),
  λ h. ground (arith, counted),
)
  where
    counted : s.pool.tasks_in_flight ≡ (outstanding s + 0) % uint_mod
    counted = Reach-IsCounted 0 new_system-IsCounted r

-- From every state that can be reached in which one task is running, no other is left, no
-- notification is outstanding, and flush is called next: a state can be reached in which the flushing
-- thread sleeps, though nothing is running, queued or about to be, its test would pass, and no
-- notification is outstanding.
pub flush-lost_wakeup :
    {s : System}
    → Reach new_system s
    → s.enqueuing ≡ []
    → s.pool.tasks.container ≡ []
    → s.running ≡ 1
    → s.notices ≡ 0
    → s.flusher ≡ away
    → (t : System) × Reach s t
      × (t.flusher ≡ sleeping)
      × (is_flushed t.pool ≡ true)
      × (outstanding t ≡ 0)
      × (t.notices ≡ 0)
unfolding is_flushed complete
flush-lost_wakeup {s} r e q run n f =
    (s₅, path, refl, ground (arith, counted), ground (arith, e, q), refl)
  where
    counted : s.pool.tasks_in_flight ≡ 1
    counted = ground (arith, Reach-IsCounted 0 new_system-IsCounted r)

    s₁ : System
    s₁ = record s { flusher = testing }

    s₂ : System
    s₂ = record s { flusher = about_to_sleep }

    s₃ : System
    s₃ = record s₂ { pool = (complete s.pool).0; running = 0; notices = 1 }

    s₄ : System
    s₄ = record s₃ { notices = 0 }

    s₅ : System
    s₅ = record s₄ { flusher = sleeping }

    first : Step s s₁
    first = flush f (ground (arith, counted))

    second : Step s₁ s₂
    second = test refl (ground (arith, counted))

    third : Step s₂ s₃
    third = done 0 run (ground (arith, counted))

    path : Reach s s₅
    path =
        next (next (next (next (next here first) second) third) (notify 0 refl refl))
          (sleep refl refl)
