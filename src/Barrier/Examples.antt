-- ===== src/Barrier/Examples.antt =====
-- The barrier on small inputs. The completion function counts.
use c9y.Base.{false, [], ◌∷◌, refl, All, ℕ, suc, ◌+◌, ◌-◌, ◌/◌, ◌%◌, ◌≡◌, none, arith}
use c9y.Base.Int.{pos, ◌-ℤ◌, ◌+ℤ◌}
use c9y.Monitor.{System, fresh, Reach, here, next, changes, enters}
use c9y.Monitor.Settling.{calls}
use c9y.Barrier.Sleepers.{by_arrive, monitored, barrier-settles}
use c9y.Barrier.{
  ArrivalToken, Barrier, barrier, do_ardive, arrive, arrive_and_drop, arrive_times, wait,
}
use c9y.Barrier.Phases.{in_phase, completed, arrive_times-barrier}
use c9y.Barrier.Dropping.{arrive_and_drop-first}

abbrev tick : ℕ → ℕ
tick n = suc n

arrive_times-barrier_example : arrive_times tick 7 (barrier (pos 3)) 0 ≡ (
  record { count = pos (3 - 7 % 3); iteration = pos (7 / 3); expected = pos 3 },
  completed tick (7 / 3) 0,
)
arrive_times-barrier_example = arrive_times-barrier tick 3 7 0 (omega arith)

arrive_and_drop-first_example :
    let a = arrive_and_drop tick (barrier (pos 3)) 0 in
    let after = arrive_times tick (2 + 2) a.barrier a.world in
    (after ≡ (in_phase 3 1 1, tick 0)) × (wait (record { iteration = pos 1 }) after.0 ≡ none)
arrive_and_drop-first_example = arrive_and_drop-first tick 1 0

-- Of two threads one arrives and sleeps, until the other arrives.
abbrev first_token : ArrivalToken
first_token = record { iteration = pos 0 }

abbrev woken_up : System (Barrier × ℕ) ArrivalToken (Unit {0})
woken_up = record {
  shared = (record { count = pos 2; iteration = pos 1; expected = pos 2 }, 1);
  sleeping = [];
  woken = first_token ∷ [];
  returned = [];
}

woken_up-Reach : Reach (monitored tick) (fresh (barrier (pos 2), 0)) woken_up
unfolding barrier wait arrive do_ardive ◌-ℤ◌ ◌+ℤ◌
woken_up-Reach =
    next (next (next here (changes (by_arrive (pos 1)) refl)) (enters first_token false refl))
      (changes (by_arrive (pos 1)) refl)

barrier-settles_example :
    All (λ at. at.iteration ≡ pos 1) woken_up.sleeping
    × (t : System (Barrier × ℕ) ArrivalToken (Unit {0})) × Reach (monitored tick) woken_up t
    × (t.shared ≡ woken_up.shared)
    × (t.woken ≡ [])
    × All (λ at. at.iteration ≡ pos 1) t.sleeping
    × (calls (monitored tick) t ≡ calls (monitored tick) woken_up)
barrier-settles_example = barrier-settles tick (pos 2) 0 woken_up-Reach
