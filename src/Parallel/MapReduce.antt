-- ===== src/Parallel/MapReduce.antt =====
-- c9y/parallel.h: parallel_map_reduce. A std::map is the list of its keys and values, in ascending order
-- of the keys by `less`. Each use of parallel_transform has a schedule of its own.
pub mod Maps
pub mod Grouping
mod Examples
use c9y.Base.{
  ℕ, Bool, Option, none, some, List, [], ◌∷◌, ◌++◌, length, replicate, if◌then◌else◌, ◌>>=◌,
}
use c9y.Parallel.Updates.{parallel_transform}

module _ {ℓ κ} {K : Type ℓ} {X : Type κ} (less : K → K → Bool) where
  -- `std::map::find`, as it looks at the keys in their order.
  unfoldable pub find : K → List (K × X) → Option X
  find key [] = none
  find key ((k, x) ∷ m) = if less key k then none else if less k key then find key m else some x

  -- The element of a key is `created` where there was none, and changed by `change` otherwise.
  unfoldable pub upsert : K → (created : X) (change : X → X) → List (K × X) → List (K × X)
  upsert key created change [] = (key, created) ∷ []
  upsert key created change ((k, x) ∷ m) =
      let rest = upsert key created change m in
      if less key k
      then (key, created) ∷ (k, x) ∷ m
      else if less k key
      then (k, x) ∷ rest
      else (k, change x) ∷ m

  -- A map from a range of pairs: the first of those with one key stays.
  unfoldable pub from_range : List (K × X) → List (K × X) → List (K × X)
  unfolding upsert
  from_range [] m = m
  from_range ((key, x) ∷ kxs) m = from_range kxs (upsert key x (λ y. y) m)

module _ {ℓ κ} {K : Type ℓ} {V : Type κ} (less : K → K → Bool) where
  -- The loop over `mapped`: `shuffled[key].push_back(value)`.
  unfoldable pub shuffle : List (K × V) → List (K × List V) → List (K × List V)
  unfolding upsert
  shuffle [] shuffled = shuffled
  shuffle ((key, value) ∷ mapped) shuffled =
      shuffle mapped (upsert less key (value ∷ []) (λ values. values ++ value ∷ []) shuffled)

  -- `blank` is the element that `resize` puts in.
  unfoldable pub parallel_map_reduce {μ} :
      {A : Type μ} (blank : K × V) (map_schedule reduce_schedule : List ℕ)
      → List A
      → (A → K × V)
      → (K × List V → K × V)
      → ℕ
      → Option (List (K × V))
  unfolding parallel_transform shuffle from_range
  parallel_map_reduce blank map_schedule reduce_schedule input map reduce chunk_size = do
    mapped ← parallel_transform map_schedule input (replicate (length input) blank) map chunk_size
    reduced ←
        parallel_transform reduce_schedule (shuffle mapped [])
          (replicate (length (shuffle mapped [])) blank) reduce chunk_size
    some (from_range less reduced [])
