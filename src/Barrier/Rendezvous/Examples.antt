-- ===== src/Barrier/Rendezvous/Examples.antt =====
-- Two threads that meet at a barrier, of which one has arrived.
use c9y.Base.{ℕ, suc, ◌≡◌, refl, [], ◌∷◌, arith, All}
use c9y.Base.Int.{pos, ◌-ℤ◌}
use c9y.Barrier.{barrier, arrive}
use c9y.Barrier.Rendezvous.{System, idle, waiting, Step, arriving, Reach, here, next, start}
use c9y.Barrier.Rendezvous.Keeping.{iterate}
use c9y.Barrier.Rendezvous.Meeting.{IsAround, arrive_and_wait-IsAround}

abbrev tick : ℕ → ℕ
tick n = suc n

abbrev one_arrived : System ℕ
one_arrived = record {
  barrier = record { count = pos 1; iteration = pos 0; expected = pos 2 };
  threads = waiting 0 (record { iteration = pos 0 }) ∷ idle 0 ∷ [];
  world = 5;
}

one_arrived-Reach : Reach tick (start 2 5) one_arrived
unfolding barrier arrive ◌-ℤ◌
one_arrived-Reach = next here (arriving 0 [] (idle 0 ∷ []) refl refl)

arrive_and_wait-IsAround_example :
    ((k : ℕ) × (5 ≡ iterate tick k 5) × All (IsAround k) one_arrived.threads)
    × ((t : System ℕ) × Step tick one_arrived t)
arrive_and_wait-IsAround_example = arrive_and_wait-IsAround tick 2 5 (omega arith) one_arrived-Reach
