-- ===== src/Parallel/Updates/ForEach.antt =====
-- c9y/parallel.h: parallel_for_each applies the operation once to every element.
use c9y.Base.{
  ℕ, zero, suc, ◌+◌, ◌-◌, ◌*◌, ◌<◌, ◌≤◌, ◌≡◌, ap, ◌∙◌, List, [], ◌∷◌, map, length, min, some, arith,
}
use c9y.Parallel.Schedule.Independence.{
  run_all, CommutesAll, AreIndependent, parallel-of_independent,
}
use c9y.Parallel.Chunks.{safe_advance}
use c9y.Parallel.Chunks.Tasks.{Covers, Covers-le, get_results_size-Covers}
use c9y.Parallel.Updates.{Range, range_tasks, for_each, run_for_each, parallel_for_each}
use c9y.Parallel.Updates.Writes.{for_each-for_each, for_each-adjacent, for_each-map}

-- The ranges without the loop's fuel and tests.
abbrev pub spec_ranges : ℕ → (last chunk_size b : ℕ) → List Range
spec_ranges zero last c b = []
spec_ranges (suc m) last c b =
    record { first = b; last = b + min (last - b) c } ∷ spec_ranges m last c (b + min (last - b) c)

range_tasks_lem :
    (fuel m last c b : ℕ)
    → m < fuel
    → b ≤ last
    → Covers (last - b) c m
    → range_tasks fuel last c b (b + min (last - b) c) ≡ some (spec_ranges m last c b)
unfolding range_tasks safe_advance
range_tasks_lem zero m last c b h le v = absurd (omega arith)
range_tasks_lem (suc f) zero last c b h le v = ground arith
range_tasks_lem (suc f) (suc m) last c b h le v =
    let e : ℕ = b + min (last - b) c in
    let v' : Covers (last - e) c m = record { enough = omega arith; tight = grind arith } in
    ground (arith, range_tasks_lem f m last c e (omega arith) (omega arith) v')

-- What the loop makes of a whole range, with its own fuel.
pub range_tasks-spec_ranges :
    (n c : ℕ)
    → 0 < c
    → (m : ℕ) × (n ≤ m * c)
      × (range_tasks (n + 1) n c 0 (safe_advance 0 n c).0 ≡ some (spec_ranges m n c 0))
unfolding safe_advance
range_tasks-spec_ranges n c h =
    let (m, _, v) = get_results_size-Covers n c h in
    (
      m,
      v.enough,
      range_tasks_lem (n + 1) m n c 0 (omega (arith, Covers-le n c m v)) (omega arith)
          (omega arith),
    )

module _ {ℓ} {A : Type ℓ} (op : A → A) where
  CommutesAll-ranges :
      (t : Range) (m last c b : ℕ) → CommutesAll (run_for_each op) t (spec_ranges m last c b)
  unfolding run_for_each
  CommutesAll-ranges t zero last c b = tt
  CommutesAll-ranges t (suc m) last c b = (
    λ s. for_each-for_each op t.first b (t.last - t.first) _ s,
    CommutesAll-ranges t m last c (b + min (last - b) c),
  )

  AreIndependent-ranges :
      (m last c b : ℕ) → AreIndependent (run_for_each op) (spec_ranges m last c b)
  AreIndependent-ranges zero last c b = tt
  AreIndependent-ranges (suc m) last c b = (
    CommutesAll-ranges _ m last c (b + min (last - b) c),
    AreIndependent-ranges m last c (b + min (last - b) c),
  )

  run_all-ranges :
      (m last c b : ℕ) (xs : List A)
      → b ≤ last
      → last - b ≤ m * c
      → run_all (run_for_each op) (spec_ranges m last c b) xs ≡ for_each op b (last - b) xs
  unfolding run_for_each for_each
  run_all-ranges zero last c b xs le h = let e : last - b ≡ 0 = omega arith in rw e
  run_all-ranges (suc m) last c b xs le h =
      let e : ℕ = b + min (last - b) c in
      let joined : (e - b) + (last - e) ≡ last - b = omega arith in
      run_all-ranges m last c e (for_each op b (e - b) xs) (omega arith) (omega arith)
      ∙ for_each-adjacent op b e (e - b) (last - e) xs (omega arith)
      ∙ ap (λ n. for_each op b n xs) joined

  -- With a positive chunk size parallel_for_each applies the operation to every element exactly
  -- once, under every schedule of the tasks.
  pub parallel_for_each-map :
      (schedule : List ℕ) (xs : List A) (c : ℕ)
      → 0 < c
      → parallel_for_each schedule xs op c ≡ some (map op xs)
  unfolding parallel_for_each
  parallel_for_each-map schedule xs c h =
      let (m, enough, tasks) = range_tasks-spec_ranges (length xs) c h in
      rw tasks (
        parallel-of_independent (run_for_each op) schedule _ xs
          (AreIndependent-ranges m (length xs) c 0)
        ∙ ap some (run_all-ranges m (length xs) c 0 xs (omega arith) (omega arith) ∙ whole))
    where
      whole : for_each op 0 (length xs - 0) xs ≡ map op xs
      whole = let e : length xs - 0 ≡ length xs = omega arith in rw e (for_each-map op xs)
