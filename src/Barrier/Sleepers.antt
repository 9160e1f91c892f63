-- ===== src/Barrier/Sleepers.antt =====
-- c9y/barrier.h: the threads that sleep on `cond`, which do_ardive notifies with the mutex held.
use c9y.Base.{◌≡◌, ap, ◌∙◌, [], Bool, false, Option, none, All, All-map, arith}
use c9y.Base.Int.{ℤ, pos}
use c9y.Barrier.{ArrivalToken, Barrier, barrier, do_ardive, arrive, arrive_and_drop, wait}
use c9y.Monitor.{Monitored, System, fresh, Reach}
use c9y.Monitor.Settling.{settles, calls}

pub data Arriving : Type 0 where
  by_arrive : ℤ → Arriving
  by_arrive_and_drop : Arriving

module _ {ℓ} {S : Type ℓ} (compl_func : S → S) where
  abbrev pub change : Arriving → Barrier × S → (Barrier × S) × Bool
  change (by_arrive n) (b, w) =
      let a = arrive compl_func n b w in ((a.barrier, a.world), a.notified)
  change by_arrive_and_drop (b, w) =
      let a = arrive_and_drop compl_func b w in ((a.barrier, a.world), a.notified)

  abbrev pub test : ArrivalToken → Bool → Barrier × S → Option (Unit {0})
  test at timed_out (b, w) = wait at b

  do_ardive_notifies :
      (n drop : ℤ) (at : ArrivalToken) (b : Barrier) (w : S)
      → wait at b ≡ none
      → (do_ardive compl_func n drop b w).notified ≡ false
      → wait at (do_ardive compl_func n drop b w).barrier ≡ none
  unfolding do_ardive wait
  do_ardive_notifies n drop at b w e quiet = ground arith

  pub change_notifies :
      (c : Arriving) (at : ArrivalToken) (s : Barrier × S)
      → test at false s ≡ none
      → (change c s).1 ≡ false
      → test at false (change c s).0 ≡ none
  unfolding arrive arrive_and_drop
  change_notifies (by_arrive n) at (b, w) e quiet = do_ardive_notifies n (pos 0) at b w e quiet
  change_notifies by_arrive_and_drop at (b, w) e quiet =
      do_ardive_notifies (pos 1) (pos 1) at b w e quiet

  abbrev pub monitored : Monitored (Barrier × S) Arriving ArrivalToken (Unit {0})
  monitored = record {
    change = change;
    test = test;
    test_again = λ at s e. e;
    change_notifies = change_notifies;
  }

  test-current : (at : ArrivalToken) (b : Barrier) → wait at b ≡ none → at.iteration ≡ b.iteration
  unfolding wait
  test-current at b e = ground arith

  -- Threads that call arrive with any amounts, arrive_and_drop, and wait with any tokens on a new
  -- barrier, in any order, with sleepers that wake of themselves: a thread sleeps only in the phase
  -- that its token is of. And if no one arrives from then on, the threads come to rest in the same
  -- phase: no thread is awake in wait, no call is lost, and those asleep have tokens of that phase.
  pub barrier-settles :
      (expected : ℤ) (world : S) {s : System (Barrier × S) ArrivalToken (Unit {0})}
      → Reach monitored (fresh (barrier expected, world)) s
      → All (λ at. at.iteration ≡ s.shared.0.iteration) s.sleeping
        × (t : System (Barrier × S) ArrivalToken (Unit {0})) × Reach monitored s t
        × (t.shared ≡ s.shared)
        × (t.woken ≡ [])
        × All (λ at. at.iteration ≡ s.shared.0.iteration) t.sleeping
        × (calls monitored t ≡ calls monitored s)
  barrier-settles expected world {s} r =
      let (all, t, more, shared, woken, blocked, count) =
        settles monitored (barrier expected, world) r in
      (
        All-map _ _ (λ at e. test-current at s.shared.0 e) s.sleeping all,
        t,
        more,
        shared,
        woken,
        All-map _ _ (λ at e. test-current at t.shared.0 e ∙ ap (λ p. p.0.iteration) shared)
            t.sleeping blocked,
        count,
      )
