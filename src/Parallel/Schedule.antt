-- ===== src/Parallel/Schedule.antt =====
-- c9y/parallel.h, `parallel`: the tasks run on the pool, each counts the latch down after it, and the
-- caller waits for the latch. A schedule says which of the tasks that have not run yet is next.
pub mod Independence
pub mod Tasks
use c9y.Base.{ℕ, zero, suc, Option, none, some, List, [], ◌∷◌, length}
use c9y.Base.Int.{pos}
use c9y.Latch.{Latch, latch, count_down, wait}

-- The k-th of a task and those behind it, or the last one; and what remains.
unfoldable pub pick {ℓ} : {T : Type ℓ} → ℕ → T → List T → T × List T
pick zero t ts = (t, ts)
pick (suc k) t [] = (t, [])
pick (suc k) t (u ∷ us) = let (v, rest) = pick k u us in (v, t ∷ rest)

-- The order in which the tasks run. A schedule that is too short goes on first come, first served.
unfoldable pub order {ℓ} : {T : Type ℓ} → List ℕ → List T → List T
unfolding pick
order ks [] = []
order [] (t ∷ ts) = t ∷ ts
order (k ∷ ks) (t ∷ ts) = let (v, rest) = pick k t ts in v ∷ order ks rest

module _ {ℓ κ} {S : Type ℓ} {T : Type κ} (run : T → S → S) where
  -- The tasks one after another: `task(); l.count_down();`
  unfoldable pub run_counting : List T → S × Latch → S × Latch
  unfolding count_down
  run_counting [] s = s
  run_counting (t ∷ ts) (s, l) = run_counting ts (run t s, (count_down (pos 1) l).0)

  -- `none`: the caller sleeps in `l.wait()` for good.
  unfoldable pub parallel : List ℕ → List T → S → Option S
  unfolding run_counting order latch wait
  parallel schedule tasks s =
      let (s', l) = run_counting (order schedule tasks) (s, latch (pos (length tasks))) in
      elim (wait l) [ none ↦ none | some _ ↦ some s' ]
