-- ===== src/Parallel/MapReduce/Maps.antt =====
-- c9y/parallel.h: what the maps of parallel_map_reduce hold.
use c9y.Base.{
  ◌≡◌, refl, ◌∙◌, Bool, true, false, ◌&&◌, not, Option, none, some, List, [], ◌∷◌, if◌then◌else◌,
  arith,
}
use c9y.Parallel.MapReduce.{find, upsert, from_range}

module _ {ℓ} {K : Type ℓ} where
  -- `less` is a strict total order.
  pub record IsOrder (less : K → K → Bool) : Type ℓ where
    pub irreflexive : (a : K) → less a a ≡ false
    pub transitive : (a b c : K) → less a b ≡ true → less b c ≡ true → less a c ≡ true
    pub total : (a b : K) → less a b ≡ false → less b a ≡ false → a ≡ b

module _ {ℓ} {K : Type ℓ} (less : K → K → Bool) where
  abbrev pub same : K → K → Bool
  same j k = not (less j k) && not (less k j)

module _ {ℓ} {X : Type ℓ} where
  -- What upsert leaves at a key.
  abbrev pub changed : X → (X → X) → Option X → X
  changed created change none = created
  changed created change (some x) = change x

  abbrev or_else : Option X → Option X → Option X
  or_else none b = b
  or_else (some x) b = some x

module _ {ℓ κ} {K : Type ℓ} {X : Type κ} (less : K → K → Bool) where
  -- All keys are above a key.
  abbrev pub IsAbove : K → List (K × X) → Type 0
  IsAbove j [] = Unit
  IsAbove j ((k, x) ∷ m) = (less j k ≡ true) × IsAbove j m

  abbrev pub IsSorted : List (K × X) → Type 0
  IsSorted [] = Unit
  IsSorted ((k, x) ∷ m) = IsAbove k m × IsSorted m

  module _ (o : IsOrder less) where
    pub find-upsert :
        (j k : K) (created : X) (change : X → X) (m : List (K × X))
        → find less j (upsert less k created change m)
          ≡ (if same less j k then some (changed created change (find less k m)) else find less j m)
    unfolding find upsert
    find-upsert j k created change [] = ground arith
    find-upsert j k created change ((k', x) ∷ m) = grind (
      arith,
      find-upsert j k created change m,
      o.total j k,
      o.transitive j k k',
      o.transitive k k' j,
      o.transitive k' k j,
      o.transitive j k' k,
    )

    IsAbove-upsert :
        (j k : K) (created : X) (change : X → X) (m : List (K × X))
        → less j k ≡ true
        → IsAbove j m
        → IsAbove j (upsert less k created change m)
    unfolding upsert
    IsAbove-upsert j k created change [] h a = (h, tt)
    IsAbove-upsert j k created change ((k', x) ∷ m) h a =
        let rest = IsAbove-upsert j k created change m h a.1 in ground (arith, rest)

    IsAbove-trans : (j k : K) (m : List (K × X)) → less j k ≡ true → IsAbove k m → IsAbove j m
    IsAbove-trans j k [] h a = tt
    IsAbove-trans j k ((k', x) ∷ m) h a = (o.transitive j k k' h a.0, IsAbove-trans j k m h a.1)

    pub upsert-IsSorted :
        (k : K) (created : X) (change : X → X) (m : List (K × X))
        → IsSorted m
        → IsSorted (upsert less k created change m)
    unfolding upsert
    upsert-IsSorted k created change [] s = (tt, tt)
    upsert-IsSorted k created change ((k', x) ∷ m) s =
        let rest = upsert-IsSorted k created change m s.1 in
        grind (arith, rest, IsAbove-upsert k' k created change m, IsAbove-trans k k' m)

    find-IsAbove : (j : K) (m : List (K × X)) → IsAbove j m → find less j m ≡ none
    unfolding find
    find-IsAbove j [] a = refl
    find-IsAbove j ((k, x) ∷ m) a = ground (arith, a.0)

    find-from_range_lem :
        (j : K) (kxs m : List (K × X))
        → IsSorted kxs
        → find less j (from_range less kxs m) ≡ or_else (find less j m) (find less j kxs)
    unfolding find from_range
    find-from_range_lem j [] m s = ground arith
    find-from_range_lem j ((k, x) ∷ kxs) m s =
        find-from_range_lem j kxs (upsert less k x (λ y. y) m) s.1
        ∙ grind (
          arith,
          find-upsert j k x (λ y. y) m,
          o.total j k,
          o.transitive j k,
          find-IsAbove j kxs,
          IsAbove-trans j k kxs,
          s.0,
        )

    -- A map made from a sorted range finds what the range has, and is sorted.
    pub find-from_range :
        (j : K) (kxs : List (K × X))
        → IsSorted kxs
        → find less j (from_range less kxs []) ≡ find less j kxs
    unfolding find
    find-from_range j kxs s = find-from_range_lem j kxs [] s

    pub from_range-IsSorted : (kxs m : List (K × X)) → IsSorted m → IsSorted (from_range less kxs m)
    unfolding from_range
    from_range-IsSorted [] m s = s
    from_range-IsSorted ((k, x) ∷ kxs) m s =
        from_range-IsSorted kxs _ (upsert-IsSorted k x (λ y. y) m s)
