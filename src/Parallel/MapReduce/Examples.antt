-- ===== src/Parallel/MapReduce/Examples.antt =====
-- parallel_map_reduce on a small input: each number is mapped to its parity and itself, and the numbers of
-- one parity are added up.
use c9y.Base.{ℕ, ◌+◌, ◌%◌, ◌≤◌, length, ◌≡◌, inl, inr, refl, some, List, [], ◌∷◌, ltb, arith}
use c9y.Parallel.MapReduce.{find, parallel_map_reduce, shuffle}
use c9y.Parallel.MapReduce.Maps.{IsOrder, IsSorted}
use c9y.Parallel.MapReduce.Grouping.{values, reduce_values, parallel_map_reduce-reduce_values}

ltb-IsOrder : IsOrder ltb
ltb-IsOrder = record {
  irreflexive = λ a. ground arith;
  transitive = λ a b c h k. ground arith;
  total = λ a b h k. ground arith;
}

abbrev sum : List ℕ → ℕ
sum [] = 0
sum (n ∷ ns) = n + sum ns

abbrev parity : ℕ → ℕ × ℕ
parity n = (n % 2, n)

abbrev add_up : ℕ × List ℕ → ℕ × ℕ
add_up (k, ns) = (k, sum ns)

abbrev four : List ℕ
four = 3 ∷ 1 ∷ 4 ∷ 1 ∷ []

-- The pairs that the numbers are mapped to.
abbrev pairs : List (ℕ × ℕ)
pairs = (1, 3) ∷ (1, 1) ∷ (0, 4) ∷ (1, 1) ∷ []

two_keys : length (shuffle ltb pairs []) ≤ 2
unfolding shuffle
two_keys = omega arith

parallel_map_reduce-reduce_values_example :
    (out : List (ℕ × ℕ)) × (parallel_map_reduce ltb (0, 0) (1 ∷ []) (1 ∷ []) four parity add_up 2
      ≡ some out)
    × IsSorted ltb out
    × ((j : ℕ) → find ltb j out ≡ reduce_values add_up j (values ltb j pairs))
parallel_map_reduce-reduce_values_example =
    parallel_map_reduce-reduce_values ltb ltb-IsOrder add_up (λ k ns. refl) parity (0, 0) (1 ∷ [])
      (1 ∷ []) four 2 (omega arith) (inl (omega arith)) (inr two_keys)
