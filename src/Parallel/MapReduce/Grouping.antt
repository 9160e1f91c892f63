-- ===== src/Parallel/MapReduce/Grouping.antt =====
-- c9y/parallel.h: parallel_map_reduce gives each key what the reduction makes of its values.
use c9y.Base.{
  ℕ, ◌<◌, ◌≡◌, refl, ap, sym, ◌∙◌, Bool, Option, none, some, List, [], ◌∷◌, ◌++◌, map, length,
  replicate, if◌then◌else◌, arith, length-map,
}
use mathlib.Core.List.{append_assoc, append-nil}
use c9y.Parallel.Updates.{write, parallel_transform}
use c9y.Parallel.Updates.Transform.{IsEven, parallel_transform-write}
use c9y.Parallel.MapReduce.{find, upsert, from_range, shuffle, parallel_map_reduce}
use c9y.Parallel.MapReduce.Maps.{
  IsOrder, IsAbove, IsSorted, same, changed, find-upsert, upsert-IsSorted, find-from_range,
  from_range-IsSorted,
}

module _ {ℓ} {A : Type ℓ} where
  write-replicate : (ys : List A) (blank : A) → write 0 ys (replicate (length ys) blank) ≡ ys
  unfolding write
  write-replicate [] blank = refl
  write-replicate (y ∷ ys) blank = ap (◌∷◌ y) (write-replicate ys blank)

-- A transform into a new list of the right size.
transform_new {ℓ κ} :
    {A : Type ℓ} {B : Type κ} (op : A → B) (blank : B) (schedule : List ℕ) (xs : List A) (c : ℕ)
    → 0 < c
    → IsEven (length xs) c
    → parallel_transform schedule xs (replicate (length xs) blank) op c ≡ some (map op xs)
transform_new op blank schedule xs c h even =
    parallel_transform-write op schedule xs (replicate (length xs) blank) c h even
    ∙ ap some (
        ap (λ n. write 0 (map op xs) (replicate n blank)) (sym (length-map xs op))
        ∙ write-replicate (map op xs) blank)

module _ {ℓ} {V : Type ℓ} where
  -- What a map of lists has for a key, once more values came.
  abbrev more : Option (List V) → List V → Option (List V)
  more none [] = none
  more none (v ∷ vs) = some (v ∷ vs)
  more (some ws) vs = some (ws ++ vs)

  more-nil : (a : Option (List V)) → more a [] ≡ a
  more-nil none = refl
  more-nil (some ws) = ap some (append-nil ws)

module _ {ℓ κ} {K : Type ℓ} {V : Type κ} where
  -- The reduction of the values of a key, where it has any.
  abbrev pub reduce_values : (K × List V → K × V) → K → List V → Option V
  reduce_values reduce key [] = none
  reduce_values reduce key (v ∷ vs) = some (reduce (key, v ∷ vs)).1

module _ {ℓ κ} {K : Type ℓ} {V : Type κ} (less : K → K → Bool) where
  -- The values of the pairs with a key, in their order.
  abbrev pub values : K → List (K × V) → List V
  values key [] = []
  values key ((k, v) ∷ kvs) = if same less key k then v ∷ values key kvs else values key kvs

  module _ (o : IsOrder less) where
    shuffle-IsSorted :
        (kvs : List (K × V)) (m : List (K × List V))
        → IsSorted less m
        → IsSorted less (shuffle less kvs m)
    unfolding shuffle
    shuffle-IsSorted [] m s = s
    shuffle-IsSorted ((k, v) ∷ kvs) m s =
        shuffle-IsSorted kvs _ (upsert-IsSorted less o k (v ∷ []) (λ vs. vs ++ v ∷ []) m s)

    -- One more value for a key, and then others.
    more-changed :
        (j k : K) (v : V) (vs : List V) (m : List (K × List V))
        → more
            (if same less j k
              then some (changed (v ∷ []) (λ ws. ws ++ v ∷ []) (find less k m))
              else find less j m)
            vs
          ≡ more (find less j m) (if same less j k then v ∷ vs else vs)
    more-changed j k v vs m = grind (arith, o.total j k, one (find less k m))
      where
        one :
            (a : Option (List V))
            → more (some (changed (v ∷ []) (λ ws. ws ++ v ∷ []) a)) vs ≡ more a (v ∷ vs)
        one none = refl
        one (some ws) = ap some (append_assoc ws (v ∷ []) vs)

    find-shuffle :
        (j : K) (kvs : List (K × V)) (m : List (K × List V))
        → find less j (shuffle less kvs m) ≡ more (find less j m) (values j kvs)
    unfolding shuffle find
    find-shuffle j [] m = sym (more-nil (find less j m))
    find-shuffle j ((k, v) ∷ kvs) m =
        find-shuffle j kvs (upsert less k (v ∷ []) (λ vs. vs ++ v ∷ []) m)
        ∙ rw (find-upsert less o j k (v ∷ []) (λ vs. vs ++ v ∷ []) m)
            (more-changed j k v (values j kvs) m)

    module _ (reduce : K × List V → K × V)
        (keeps : (k : K) (vs : List V) → (reduce (k, vs)).0 ≡ k) where
      IsAbove-map :
          (j : K) (m : List (K × List V)) → IsAbove less j m → IsAbove less j (map reduce m)
      IsAbove-map j [] a = tt
      IsAbove-map j ((k, vs) ∷ m) a = (rw (keeps k vs) a.0, IsAbove-map j m a.1)

      map-IsSorted : (m : List (K × List V)) → IsSorted less m → IsSorted less (map reduce m)
      map-IsSorted [] s = tt
      map-IsSorted ((k, vs) ∷ m) s = (rw (keeps k vs) (IsAbove-map k m s.0), map-IsSorted m s.1)

      abbrev reduced : K → Option (List V) → Option V
      reduced j none = none
      reduced j (some vs) = some (reduce (j, vs)).1

      find-map :
          (j : K) (m : List (K × List V)) → find less j (map reduce m) ≡ reduced j (find less j m)
      unfolding find
      find-map j [] = refl
      find-map j ((k, vs) ∷ m) = grind (arith, keeps k vs, o.total j k, find-map j m)

      grouped : (j : K) (vs : List V) → reduced j (more none vs) ≡ reduce_values reduce j vs
      grouped j [] = refl
      grouped j (v ∷ vs) = refl

      -- The keys in their strict total order, a reduction that keeps the key, a positive chunk size,
      -- and sizes of the input and of the set of its keys that the chunk size divides or is not
      -- below: under every schedule parallel_map_reduce returns. Its output has each key once, in
      -- ascending order, and has for a key the reduction of the values that the input was mapped to
      -- with it, in their order, and nothing where there are none.
      pub parallel_map_reduce-reduce_values {μ} :
          {A : Type μ} (map_value : A → K × V) (blank : K × V)
          (map_schedule reduce_schedule : List ℕ) (xs : List A) (c : ℕ)
          → 0 < c
          → IsEven (length xs) c
          → IsEven (length (shuffle less (map map_value xs) [])) c
          → (out : List (K × V)) × (parallel_map_reduce less blank map_schedule reduce_schedule xs
                map_value reduce c
              ≡ some out)
            × IsSorted less out
            × ((j : K) → find less j out ≡ reduce_values reduce j (values j (map map_value xs)))
      unfolding parallel_map_reduce find
      parallel_map_reduce-reduce_values map_value blank first second xs c h even even' = (
        from_range less (map reduce shuffled) [],
        rw
            (
              transform_new map_value blank first xs c h even,
              transform_new reduce blank second shuffled c h even',
            )
            refl,
        from_range-IsSorted less o (map reduce shuffled) [] tt,
        λ j.
            find-from_range less o j (map reduce shuffled) (map-IsSorted shuffled sorted)
            ∙ find-map j shuffled
            ∙ ap (reduced j) (find-shuffle j (map map_value xs) [])
            ∙ grouped j (values j (map map_value xs)),
      )
        where
          shuffled : List (K × List V)
          shuffled = shuffle less (map map_value xs) []

          sorted : IsSorted less shuffled
          sorted = shuffle-IsSorted (map map_value xs) [] tt
