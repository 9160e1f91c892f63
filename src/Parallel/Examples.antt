-- ===== src/Parallel/Examples.antt =====
-- The parallel algorithms on small inputs.
use mathlib.Core.List.{foldr}
use c9y.Base.{
  ◌==◌, ℕ, suc, ◌+◌, ◌*◌, ◌≡◌, inl, refl, Bool, false, some, List, [], ◌∷◌, ◌++◌, map, length,
  replicate, get_elem?, leb, arith,
}
use c9y.Parallel.Schedule.{parallel}
use c9y.Parallel.Schedule.Independence.{parallel-of_independent}
use c9y.Parallel.Std.{all_of, any_of, none_of, count_if}
use c9y.Parallel.Chunks.{Chunk, safe_advance, result_tasks, get_results_size}
use c9y.Parallel.Chunks.Bounds.{ChunkFits, MoveFits, tasks-Fit}
use c9y.Parallel.Updates.{Move, move_tasks}
use c9y.Base.{All}
use c9y.Parallel.Queries.Packed.{Part, IsInterleaving, packed_all_of, packed_all_of-lost}
use c9y.Parallel.Queries.{
  parallel_all_of, parallel_any_of, parallel_none_of, parallel_count, parallel_count_if,
  parallel_reduce, parallel_reduce_by,
}
use c9y.Parallel.Queries.Sequential.{parallel_all_of-all_of, parallel_count_if-count_if}
use c9y.Parallel.Queries.Reduction.{parallel_reduce_by-foldr}
use c9y.Base.Int.{◌-ℤ◌}
use c9y.Parallel.Schedule.{parallel}
use c9y.Parallel.Updates.{
  range_tasks, run_generate, generate, write, parallel_generate, parallel_transform,
}
use c9y.Parallel.Updates.Transform.{parallel_transform-write}
use c9y.Parallel.Updates.Misplaced.{parallel_transform-unwritten}

abbrev five : List ℕ
five = 3 ∷ 1 ∷ 4 ∷ 1 ∷ 5 ∷ []

abbrev four : List ℕ
four = 3 ∷ 1 ∷ 4 ∷ 1 ∷ []

-- The third of the tasks first, then the second of those left.
abbrev shuffled : List ℕ
shuffled = 2 ∷ 1 ∷ []

abbrev small : ℕ → Bool
small n = leb n 4

packed_all_of-lost_example :
    (tasks : List Chunk) × (parts : List Part) × (result_tasks 5 4 2 0 (safe_advance 0 4 2).0 0
      ≡ some tasks)
    × IsInterleaving tasks [] parts
    × (packed_all_of parts four small 2 ≡ some false)
packed_all_of-lost_example =
    packed_all_of-lost four small 2 (omega arith) (omega arith) (omega arith)

tasks-Fit_example :
    (size : ℕ) × (ts : List Chunk) × (ms : List Move) × (get_results_size 5 2 ≡ some size)
    × (result_tasks 6 5 2 0 (safe_advance 0 5 2).0 0 ≡ some ts)
    × All (ChunkFits 5 size) ts
    × (move_tasks 6 5 2 0 (safe_advance 0 5 2).0 0 ≡ some ms)
    × All (MoveFits 5) ms
tasks-Fit_example = tasks-Fit 5 2 (omega arith)

abbrev add : ℕ → ℕ → ℕ
add n s = s + n

parallel-of_independent_example : parallel add shuffled (3 ∷ 1 ∷ []) 0 ≡ some 4
parallel-of_independent_example =
    parallel-of_independent add shuffled (3 ∷ 1 ∷ []) 0 (((λ s. omega arith), tt), (tt, tt))

queries-shuffled :
    (parallel_all_of shuffled five small 2 ≡ some (all_of small five))
    × (parallel_any_of shuffled five small 2 ≡ some (any_of small five))
    × (parallel_none_of shuffled five small 2 ≡ some (none_of small five))
queries-shuffled = parallel_all_of-all_of shuffled five 2 (omega arith) small

parallel_count_if-count_if_example :
    (parallel_count_if shuffled five small 2 ≡ some (count_if small five))
    × (parallel_count ◌==◌ shuffled five 1 2 ≡ some (count_if (λ x. x == 1) five))
parallel_count_if-count_if_example =
    parallel_count_if-count_if shuffled five 2 (omega arith) small ◌==◌ 1 (omega arith)

plus_assoc : (a b c : ℕ) → (a + b) + c ≡ a + (b + c)
plus_assoc a b c = omega arith

plus_comm : (a b : ℕ) → a + b ≡ b + a
plus_comm a b = omega arith

abbrev fold : (ℕ → ℕ → ℕ) → List ℕ → ℕ → ℕ
fold op xs init = foldr op init xs

parallel_reduce_by-foldr_example :
    (m : ℕ) × (get_results_size (length five) 2 ≡ some m)
    × (parallel_reduce_by fold shuffled five 10 ◌+◌ 2
        ≡ some (foldr ◌+◌ 10 (replicate m 10 ++ five)))
    × (parallel_reduce fold ◌+◌ shuffled five 10 2 ≡ some (foldr ◌+◌ 10 (replicate m 10 ++ five)))
parallel_reduce_by-foldr_example =
    parallel_reduce_by-foldr ◌+◌ plus_assoc plus_comm fold (λ op a c xs init. refl) shuffled five 10
      2 (omega arith)

abbrev double : ℕ → ℕ
double n = 2 * n

parallel_transform-write_example :
    parallel_transform shuffled four (0 ∷ 0 ∷ 0 ∷ 0 ∷ 9 ∷ []) double 2
    ≡ some (write 0 (map double four) (0 ∷ 0 ∷ 0 ∷ 0 ∷ 9 ∷ []))
parallel_transform-write_example =
    parallel_transform-write double shuffled four (0 ∷ 0 ∷ 0 ∷ 0 ∷ 9 ∷ []) 2 (omega arith)
      (inl (omega arith))

abbrev zeros : List ℕ
zeros = replicate 5 0

parallel_transform-unwritten_example :
    (out' : List ℕ) × (parallel_transform shuffled five zeros double 2 ≡ some out')
    × (get_elem? out' 4 ≡ some 0)
parallel_transform-unwritten_example =
    parallel_transform-unwritten double shuffled five zeros 2 (omega arith) (omega arith)
      (omega arith)

-- A generator that counts.
abbrev counter : ℕ → ℕ × ℕ
counter n = (n, suc n)

generated_anew : parallel_generate counter shuffled zeros 7 2 ≡ some (7 ∷ 8 ∷ 7 ∷ 8 ∷ 7 ∷ [])
unfolding parallel_generate range_tasks parallel ◌-ℤ◌ run_generate write generate
generated_anew = refl
