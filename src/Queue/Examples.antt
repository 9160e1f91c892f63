-- ===== src/Queue/Examples.antt =====
-- The queue on small inputs.
use c9y.Base.{◌≤◌, ◌⊎◌, true, ℕ, ◌≡◌, refl, false, some, List, [], ◌∷◌, arith}
use c9y.Queue.{queue, push, pop_wait, stop}
use c9y.Queue.Draining.{
  Putting, Taking, by_push, by_emplace, by_pop, by_pop_wait, by_pop_wait_for, put_all, take_all,
  take_all-put_all,
}
use c9y.Queue.History.{push_call, pop_wait_call, run_calls}
use c9y.Queue.Monitor.{
  Monitor, Step, fresh, do_push, do_notify_one, enter, retry, Reach, here, next,
}
use c9y.Queue.Wakeups.{no_lost_wakeup}
use c9y.Queue.Settling.{IsAtRest, queue-settles, Quietly, still, then, steps, bound, is_quiet}

taken_in_turn :
    run_calls {T = ℕ} (push_call 3 ∷ pop_wait_call ∷ []) (queue (2 ∷ []))
    ≡ some (queue (3 ∷ []), 2 ∷ [])
unfolding queue push pop_wait
taken_in_turn = refl

-- Two threads sleep, a value is pushed, and one of them gets it.
abbrev one_left : Monitor ℕ
one_left = record {
  shared = record { container = []; stopped = false };
  sleeping = 1;
  woken = 0;
  notices_one = 0;
  notices_all = 0;
}

one_left-Reach : Reach (fresh []) one_left
unfolding queue push pop_wait
one_left-Reach =
    next
      (next (next (next (next here (enter refl)) (enter refl)) (do_push 7 refl))
        (do_notify_one 0 refl refl))
      (retry 0 refl refl)

no_lost_wakeup_example : (one_left.shared.container ≡ []) × (one_left.shared.stopped ≡ false)
no_lost_wakeup_example = no_lost_wakeup [] one_left-Reach (omega arith) refl refl refl

abbrev two_puts : List (Putting × ℕ)
two_puts = (by_push, 4) ∷ (by_emplace, 5) ∷ []

abbrev four_rounds : List Taking
four_rounds = by_pop ∷ by_pop_wait ∷ by_pop_wait_for false ∷ by_pop_wait ∷ []

take_all-put_all_example :
    take_all four_rounds (stop (put_all two_puts (queue (3 ∷ [])))).0 ≡ some (3 ∷ 4 ∷ 5 ∷ [])
take_all-put_all_example = take_all-put_all (3 ∷ []) two_puts four_rounds (omega arith)

-- The value is pushed and nobody notified yet: the notification is delivered, and a thread gets it.
abbrev pushed : Monitor ℕ
pushed = record {
  shared = record { container = 7 ∷ []; stopped = false };
  sleeping = 2;
  woken = 0;
  notices_one = 1;
  notices_all = 0;
}

pushed-Reach : Reach (fresh []) pushed
unfolding queue push pop_wait
pushed-Reach = next (next (next here (enter refl)) (enter refl)) (do_push 7 refl)

two_quiet : Quietly pushed one_left
unfolding pop_wait
two_quiet = then (then still (do_notify_one 0 refl refl) refl) (retry 0 refl refl) refl

queue-settles_example :
    (steps two_quiet ≤ bound pushed)
    × (IsAtRest one_left ⊎ ((o : Monitor ℕ) × (st : Step one_left o) × (is_quiet st ≡ true)))
queue-settles_example = queue-settles [] pushed-Reach one_left two_quiet
