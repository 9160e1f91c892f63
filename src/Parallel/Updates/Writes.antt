-- ===== src/Parallel/Updates/Writes.antt =====
-- Writes to separate parts of a list commute, and adjacent writes join.
use c9y.Base.{
  ℕ, zero, suc, ◌+◌, ◌≤◌, ◌≡◌, refl, ap, sym, ◌∙◌, List, [], ◌∷◌, ◌++◌, map, length, get_elem?,
  arith, subst,
}
use c9y.Parallel.Updates.{for_each, write}

module _ {ℓ} {A : Type ℓ} where
  pub write-write_disjoint :
      (b b' : ℕ) (ys zs out : List A)
      → b + length ys ≤ b'
      → write b' zs (write b ys out) ≡ write b ys (write b' zs out)
  unfolding write
  write-write_disjoint b b' [] zs out h = refl
  write-write_disjoint b b' (y ∷ ys) [] out h = refl
  write-write_disjoint b b' (y ∷ ys) (z ∷ zs) [] h = refl
  write-write_disjoint zero zero (y ∷ ys) (z ∷ zs) (o ∷ out) h = absurd (omega arith)
  write-write_disjoint zero (suc b') (y ∷ ys) (z ∷ zs) (o ∷ out) h =
      ap (◌∷◌ y) (write-write_disjoint zero b' ys (z ∷ zs) out (omega arith))
  write-write_disjoint (suc b) zero (y ∷ ys) (z ∷ zs) (o ∷ out) h = absurd (omega arith)
  write-write_disjoint (suc b) (suc b') (y ∷ ys) (z ∷ zs) (o ∷ out) h =
      ap (◌∷◌ o) (write-write_disjoint b b' (y ∷ ys) (z ∷ zs) out (omega arith))

  pub write-nothing : (b : ℕ) (ys out : List A) → length ys ≡ 0 → write b ys out ≡ out
  unfolding write
  write-nothing b [] out e = refl
  write-nothing b (y ∷ ys) out e = absurd (omega arith)

  pub write-append :
      (b b' : ℕ) (ys zs out : List A)
      → b' ≡ b + length ys
      → write b' zs (write b ys out) ≡ write b (ys ++ zs) out
  unfolding write
  write-append b b' [] zs out e = let e' : b' ≡ b = omega arith in rw e'
  write-append b b' (y ∷ ys) [] [] e = refl
  write-append b b' (y ∷ ys) (z ∷ zs) [] e = refl
  write-append zero zero (y ∷ ys) zs (o ∷ out) e = absurd (omega arith)
  write-append zero (suc b') (y ∷ ys) [] (o ∷ out) e =
      ap (◌∷◌ y) (write-append zero b' ys [] out (omega arith))
  write-append zero (suc b') (y ∷ ys) (z ∷ zs) (o ∷ out) e =
      ap (◌∷◌ y) (write-append zero b' ys (z ∷ zs) out (omega arith))
  write-append (suc b) zero (y ∷ ys) zs (o ∷ out) e = absurd (omega arith)
  write-append (suc b) (suc b') (y ∷ ys) [] (o ∷ out) e =
      ap (◌∷◌ o) (write-append b b' (y ∷ ys) [] out (omega arith))
  write-append (suc b) (suc b') (y ∷ ys) (z ∷ zs) (o ∷ out) e =
      ap (◌∷◌ o) (write-append b b' (y ∷ ys) (z ∷ zs) out (omega arith))

  -- A write leaves the elements behind it alone.
  pub get_elem?-write_above :
      (b i : ℕ) (ys out : List A)
      → b + length ys ≤ i
      → get_elem? (write b ys out) i ≡ get_elem? out i
  unfolding write
  get_elem?-write_above b i [] out h = refl
  get_elem?-write_above b i (y ∷ ys) [] h = refl
  get_elem?-write_above zero zero (y ∷ ys) (o ∷ out) h = absurd (omega arith)
  get_elem?-write_above zero (suc i) (y ∷ ys) (o ∷ out) h =
      get_elem?-write_above zero i ys out (omega arith)
  get_elem?-write_above (suc b) zero (y ∷ ys) (o ∷ out) h = absurd (omega arith)
  get_elem?-write_above (suc b) (suc i) (y ∷ ys) (o ∷ out) h =
      get_elem?-write_above b i (y ∷ ys) out (omega arith)

  pub write-all : (ys out : List A) → length ys ≡ length out → write 0 ys out ≡ ys
  unfolding write
  write-all [] [] e = refl
  write-all [] (o ∷ out) e = absurd (omega arith)
  write-all (y ∷ ys) [] e = absurd (omega arith)
  write-all (y ∷ ys) (o ∷ out) e = ap (◌∷◌ y) (write-all ys out (omega arith))

  module _ (op : A → A) where
    pub for_each-for_each :
        (b b' n n' : ℕ) (xs : List A)
        → for_each op b' n' (for_each op b n xs) ≡ for_each op b n (for_each op b' n' xs)
    unfolding for_each
    for_each-for_each b b' zero n' xs = refl
    for_each-for_each b b' (suc n) zero xs = refl
    for_each-for_each b b' (suc n) (suc n') [] = refl
    for_each-for_each zero zero (suc n) (suc n') (x ∷ xs) =
        ap (◌∷◌ (op (op x))) (for_each-for_each zero zero n n' xs)
    for_each-for_each zero (suc b') (suc n) (suc n') (x ∷ xs) =
        ap (◌∷◌ (op x)) (for_each-for_each zero b' n (suc n') xs)
    for_each-for_each (suc b) zero (suc n) (suc n') (x ∷ xs) =
        ap (◌∷◌ (op x)) (for_each-for_each b zero (suc n) n' xs)
    for_each-for_each (suc b) (suc b') (suc n) (suc n') (x ∷ xs) =
        ap (◌∷◌ x) (for_each-for_each b b' (suc n) (suc n') xs)

    for_each-nil : (b n : ℕ) → for_each op b n [] ≡ []
    unfolding for_each
    for_each-nil b zero = refl
    for_each-nil b (suc n) = refl

    pub for_each-adjacent :
        (b b' n n' : ℕ) (xs : List A)
        → b' ≡ b + n
        → for_each op b' n' (for_each op b n xs) ≡ for_each op b (n + n') xs
    unfolding for_each
    for_each-adjacent b b' zero n' xs e =
        let e' : b' ≡ b = omega arith in let k : 0 + n' ≡ n' = omega arith in rw (e', k)
    for_each-adjacent b b' (suc n) n' [] e = for_each-nil b' n' ∙ sym (for_each-nil b (suc n + n'))
    for_each-adjacent zero zero (suc n) n' (x ∷ xs) e = absurd (omega arith)
    for_each-adjacent zero (suc b') (suc n) zero (x ∷ xs) e =
        let k : suc n + 0 ≡ suc (n + 0) = omega arith in
        rw k (ap (◌∷◌ (op x)) (for_each-adjacent zero b' n zero xs (omega arith)))
    for_each-adjacent zero (suc b') (suc n) (suc n') (x ∷ xs) e =
        let k : suc n + suc n' ≡ suc (n + suc n') = omega arith in
        rw k (ap (◌∷◌ (op x)) (for_each-adjacent zero b' n (suc n') xs (omega arith)))
    for_each-adjacent (suc b) zero (suc n) n' (x ∷ xs) e = absurd (omega arith)
    for_each-adjacent (suc b) (suc b') (suc n) zero (x ∷ xs) e =
        let k : suc n + 0 ≡ suc n = omega arith in rw k refl
    for_each-adjacent (suc b) (suc b') (suc n) (suc n') (x ∷ xs) e =
        let k : suc n + suc n' ≡ suc (n + suc n') = omega arith in
        rw k (
          ap (◌∷◌ x) (
            subst (λ j. for_each op b' (suc n') (for_each op b (suc n) xs) ≡ for_each op b j xs) k
              (for_each-adjacent b b' (suc n) (suc n') xs (omega arith))))

    pub for_each-map : (xs : List A) → for_each op 0 (length xs) xs ≡ map op xs
    unfolding for_each
    for_each-map [] = refl
    for_each-map (x ∷ xs) = ap (◌∷◌ (op x)) (for_each-map xs)
