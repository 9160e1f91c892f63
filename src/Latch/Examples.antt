-- ===== src/Latch/Examples.antt =====
-- The latch on small inputs: three are expected, and four are counted down; two are expected, while two
-- threads wait.
use c9y.Base.{refl, Bool, Option, All, ◌≡◌, false, [], ◌∷◌}
use c9y.Base.Int.{pos, negsuc, ◌-ℤ◌}
use c9y.Monitor.{System, fresh, Reach, here, next, changes, enters}
use c9y.Monitor.Settling.{calls}
use c9y.Latch.Sleepers.{Waiter, by_wait, by_wait_for, Sleeps, monitored, latch-settles}
use c9y.Latch.{Latch, latch, count_down, count_down_all, wait, wait_for, released, reached_zero}

overshot : count_down_all (pos 2 ∷ pos 2 ∷ []) (latch (pos 3)) ≡ record { count = negsuc 0 }
unfolding count_down_all count_down latch ◌-ℤ◌
overshot = refl

-- Two threads sleep, until two are counted down.
abbrev woken_up : System Latch Waiter (Option Bool)
woken_up = record {
  shared = record { count = pos 0 };
  sleeping = [];
  woken = by_wait_for ∷ by_wait ∷ [];
  returned = [];
}

woken_up-Reach : Reach monitored (fresh (latch (pos 2))) woken_up
unfolding latch wait wait_for count_down ◌-ℤ◌ released reached_zero
woken_up-Reach =
    next (next (next here (enters by_wait false refl)) (enters by_wait_for false refl))
      (changes (pos 2) refl)

latch-settles_example :
    All (Sleeps woken_up.shared) woken_up.sleeping
    × (t : System Latch Waiter (Option Bool)) × Reach monitored woken_up t
    × (t.shared ≡ woken_up.shared)
    × (t.woken ≡ [])
    × All (Sleeps woken_up.shared) t.sleeping
    × (calls monitored t ≡ calls monitored woken_up)
latch-settles_example = latch-settles (pos 2) woken_up-Reach
