-- ===== src/Parallel/Queries/Reduction.antt =====
-- What parallel_reduce computes: the initial value goes into each chunk and into the final reduction.
-- `std::reduce` groups and orders its operands as it likes, so it is a parameter here, with the one
-- promise that it is the fold where the operator is associative and commutative.
use mathlib.Core.List.{flatten, foldr}
use mathlib.Core.Path.{fun_ext}
use c9y.Base.{
  ℕ, zero, suc, ◌<◌, ◌≡◌, refl, ap, sym, ◌∙◌, List, [], ◌∷◌, ◌++◌, map, length, replicate, some,
  ◌>>=◌,
}
use c9y.Parallel.Chunks.{chunk_results, get_results_size}
use c9y.Parallel.Chunks.Tasks.{spec_chunks, length-spec_chunks, chunk_results-spec_chunks}
use c9y.Parallel.Queries.{parallel_reduce, parallel_reduce_by}

module _ {ℓ} {A : Type ℓ} where
  abbrev pub IsAssociative : (A → A → A) → Type ℓ
  IsAssociative op = (a b c : A) → op (op a b) c ≡ op a (op b c)

  abbrev pub IsCommutative : (A → A → A) → Type ℓ
  IsCommutative op = (a b : A) → op a b ≡ op b a

  -- The documented result of `std::reduce`.
  abbrev pub IsReduce : ((A → A → A) → List A → A → A) → Type ℓ
  IsReduce reduce =
      (op : A → A → A)
      → IsAssociative op
      → IsCommutative op
      → (xs : List A) (init : A) → reduce op xs init ≡ foldr op init xs

module _ {ℓ} {A : Type ℓ} (op : A → A → A) (assoc : IsAssociative op)
    (comm : IsCommutative op) where
  left_comm : (a b c : A) → op a (op b c) ≡ op b (op a c)
  left_comm a b c = sym (assoc a b c) ∙ ap (λ z. op z c) (comm a b) ∙ assoc b a c

  foldr-op : (xs : List A) (a z : A) → foldr op (op a z) xs ≡ op a (foldr op z xs)
  foldr-op [] a z = refl
  foldr-op (x ∷ xs) a z = ap (op x) (foldr-op xs a z) ∙ left_comm x a (foldr op z xs)

  foldr-append : (xs ys : List A) (z : A) → foldr op z (xs ++ ys) ≡ foldr op (foldr op z ys) xs
  foldr-append [] ys z = refl
  foldr-append (x ∷ xs) ys z = ap (op x) (foldr-append xs ys z)

  foldr-swap : (xs ys : List A) (z : A) → foldr op (foldr op z xs) ys ≡ foldr op (foldr op z ys) xs
  foldr-swap xs [] z = refl
  foldr-swap xs (y ∷ ys) z = ap (op y) (foldr-swap xs ys z) ∙ sym (foldr-op xs y (foldr op z ys))

  op-foldr : (xs : List A) (a z : A) → op (foldr op a xs) z ≡ op a (foldr op z xs)
  op-foldr [] a z = refl
  op-foldr (x ∷ xs) a z = assoc x _ z ∙ ap (op x) (op-foldr xs a z) ∙ left_comm x a _

  -- Reducing the pieces' reductions puts the initial value in once more for each piece.
  foldr-flatten :
      (xss : List (List A)) (init : A)
      → foldr op init (map (foldr op init) xss)
        ≡ foldr op init (replicate (length xss) init ++ flatten xss)
  unfolding flatten
  foldr-flatten [] init = refl
  foldr-flatten (xs ∷ xss) init =
      let inits : List A = replicate (length xss) init in
      op-foldr xs init _
      ∙ ap (op init) (
          ap (λ z. foldr op z xs) (foldr-flatten xss init ∙ foldr-append inits (flatten xss) init)
          ∙ foldr-swap inits xs (foldr op init (flatten xss))
          ∙ ap (λ z. foldr op z inits) (sym (foldr-append xs (flatten xss) init))
          ∙ sym (foldr-append inits (xs ++ flatten xss) init))

  foldr-replicate_unit :
      (init : A)
      → ((a : A) → op init a ≡ a)
      → (n : ℕ) (xs : List A) → foldr op init (replicate n init ++ xs) ≡ foldr op init xs
  foldr-replicate_unit init unit zero xs = refl
  foldr-replicate_unit init unit (suc n) xs = unit _ ∙ foldr-replicate_unit init unit n xs

  module _ (reduce : (A → A → A) → List A → A → A) (law : IsReduce reduce) where
    reduced :
        (schedule : List ℕ) (xs : List A) (init : A) (c : ℕ)
        → 0 < c
        → (m : ℕ) × (get_results_size (length xs) c ≡ some m)
          × ((chunk_results (λ chunk. reduce op chunk init) schedule init xs c >>= λ results.
                some (reduce op results init))
              ≡ some (foldr op init (replicate m init ++ xs)))
    reduced schedule xs init c h =
        let (m, size, e, whole) =
          chunk_results-spec_chunks (λ chunk. reduce op chunk init) xs schedule init c h in
        let xss : List (List A) = spec_chunks m c xs in
        let folds : map (λ chunk. reduce op chunk init) xss ≡ map (foldr op init) xss =
          ap (λ f. map f xss) (fun_ext (λ chunk. law op assoc comm chunk init)) in
        let count : replicate (length xss) init ++ flatten xss ≡ replicate m init ++ xs =
          rw (length-spec_chunks, whole) refl in
        (
          m,
          size,
          rw e (
              ap some (
                law op assoc comm _ init
                ∙ ap (foldr op init) folds
                ∙ foldr-flatten xss init
                ∙ ap (foldr op init) count)),
        )

    -- With a positive chunk size and an associative and commutative operator, both overloads of
    -- parallel_reduce give, under every schedule, the fold of the elements together with one more copy
    -- of the initial value for each chunk.
    pub parallel_reduce_by-foldr :
        (schedule : List ℕ) (xs : List A) (init : A) (c : ℕ)
        → 0 < c
        → (m : ℕ) × (get_results_size (length xs) c ≡ some m)
          × (parallel_reduce_by reduce schedule xs init op c
              ≡ some (foldr op init (replicate m init ++ xs)))
          × (parallel_reduce reduce op schedule xs init c
              ≡ some (foldr op init (replicate m init ++ xs)))
    unfolding parallel_reduce_by parallel_reduce
    parallel_reduce_by-foldr schedule xs init c h =
        let (m, size, e) = reduced schedule xs init c h in (m, size, e, e)

    -- With a positive chunk size, an associative and commutative operator, and its unit for the
    -- initial value, both overloads of parallel_reduce give what std::reduce gives, under every
    -- schedule.
    pub parallel_reduce-reduce :
        (schedule : List ℕ) (xs : List A) (init : A) (c : ℕ)
        → 0 < c
        → ((a : A) → op init a ≡ a)
        → (parallel_reduce reduce op schedule xs init c ≡ some (reduce op xs init))
          × (parallel_reduce_by reduce schedule xs init op c ≡ some (reduce op xs init))
    unfolding parallel_reduce parallel_reduce_by
    parallel_reduce-reduce schedule xs init c h unit =
        let (m, _, e) = reduced schedule xs init c h in
        let whole =
          e ∙ ap some (foldr-replicate_unit init unit m xs ∙ sym (law op assoc comm xs init)) in
        (whole, whole)
