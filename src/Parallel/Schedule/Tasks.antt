-- ===== src/Parallel/Schedule/Tasks.antt =====
-- What holds of every task holds of every task under any schedule, and what the tasks keep is kept.
use c9y.Base.{All, ℕ, zero, suc, List, [], ◌∷◌}
use c9y.Parallel.Schedule.{pick, order}
use c9y.Parallel.Schedule.Independence.{run_all}

module _ {ℓ κ} {T : Type ℓ} (P : T → Type κ) where
  All-pick :
      (k : ℕ) (t : T) (ts : List T) → P t → All P ts → P (pick k t ts).0 × All P (pick k t ts).1
  unfolding pick
  All-pick zero t ts p ps = (p, ps)
  All-pick (suc k) t [] p ps = (p, ps)
  All-pick (suc k) t (u ∷ us) p ps = let (q, rest) = All-pick k u us ps.0 ps.1 in (q, (p, rest))

  pub All-order : (ks : List ℕ) (ts : List T) → All P ts → All P (order ks ts)
  unfolding order
  All-order [] [] ps = tt
  All-order (k ∷ ks) [] ps = tt
  All-order [] (t ∷ ts) ps = ps
  All-order (k ∷ ks) (t ∷ ts) ps =
      let (q, rest) = All-pick k t ts ps.0 ps.1 in (q, All-order ks (pick k t ts).1 rest)

module _ {ℓ κ μ ν} {S : Type ℓ} {T : Type κ} (run : T → S → S) (P : T → Type μ) (Q : S → Type ν)
    (keep : (t : T) (s : S) → P t → Q s → Q (run t s)) where
  pub run_all-invariant : (ts : List T) (s : S) → All P ts → Q s → Q (run_all run ts s)
  run_all-invariant [] s ps q = q
  run_all-invariant (t ∷ ts) s ps q = run_all-invariant ts (run t s) ps.1 (keep t s ps.0 q)
