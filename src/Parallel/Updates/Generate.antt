-- ===== src/Parallel/Updates/Generate.antt =====
-- c9y/parallel.h: parallel_generate gives each chunk a copy of the generator as it was at the call.
use c9y.Base.{
  ℕ, zero, suc, ◌+◌, ◌-◌, ◌*◌, ◌%◌, ◌<◌, ◌≤◌, ◌≡◌, refl, sym, ap, ◌∙◌, List, [], ◌∷◌, ◌++◌, length,
  min, get_elem?, some, arith, length-append,
}
use native.Mathlib.Decide.{dec_lt}
use native.Mathlib.Nat.{mod-eq_of_lt, mod-eq-sub-mod}
use c9y.Parallel.Schedule.Independence.{
  run_all, CommutesAll, AreIndependent, parallel-of_independent,
}
use c9y.Parallel.Updates.{Range, write, generate, run_generate, parallel_generate}
use c9y.Parallel.Updates.ForEach.{spec_ranges, range_tasks-spec_ranges}
use c9y.Parallel.Updates.Writes.{write-write_disjoint, write-append, write-all, write-nothing}

module _ {ℓ} {A : Type ℓ} where
  get_elem?-append_left :
      (ys zs : List A) (i : ℕ) → i < length ys → get_elem? (ys ++ zs) i ≡ get_elem? ys i
  get_elem?-append_left [] zs i h = elim h [ ]
  get_elem?-append_left (y ∷ ys) zs zero h = refl
  get_elem?-append_left (y ∷ ys) zs (suc i) h = get_elem?-append_left ys zs i (omega arith)

  get_elem?-append_right :
      (ys zs : List A) (i j : ℕ) → i ≡ length ys + j → get_elem? (ys ++ zs) i ≡ get_elem? zs j
  get_elem?-append_right [] zs i j e = ap (get_elem? zs) (omega arith)
  get_elem?-append_right (y ∷ ys) zs zero j e = absurd (omega arith)
  get_elem?-append_right (y ∷ ys) zs (suc i) j e = get_elem?-append_right ys zs i j (omega arith)

module _ {ℓ κ} {A : Type ℓ} {G : Type κ} (next : G → A × G) where
  -- The k-th value that a generator gives.
  abbrev pub nth_value : ℕ → G → A
  nth_value zero g = (next g).0
  nth_value (suc k) g = nth_value k (next g).1

  length-generate : (n : ℕ) (g : G) → length (generate next n g) ≡ n
  unfolding generate
  length-generate zero g = refl
  length-generate (suc n) g = ap suc (length-generate n (next g).1)

  get_elem?-generate :
      (n i : ℕ) (g : G) → i < n → get_elem? (generate next n g) i ≡ some (nth_value i g)
  unfolding generate
  get_elem?-generate zero i g h = elim h [ ]
  get_elem?-generate (suc n) zero g h = refl
  get_elem?-generate (suc n) (suc i) g h = get_elem?-generate n i (next g).1 (omega arith)

  module _ (g : G) where
    -- What the chunks write, one after the other.
    abbrev pieces : ℕ → (last chunk_size b : ℕ) → List A
    pieces zero last c b = []
    pieces (suc m) last c b =
        generate next (min (last - b) c) g ++ pieces m last c (b + min (last - b) c)

    length-pieces : (m n c b : ℕ) → n - b ≤ m * c → length (pieces m n c b) ≡ n - b
    length-pieces zero n c b h = omega arith
    length-pieces (suc m) n c b h = omega (
      arith,
      length-append (generate next (min (n - b) c) g) (pieces m n c (b + min (n - b) c)),
      length-generate (min (n - b) c) g,
      length-pieces m n c (b + min (n - b) c) (omega arith),
    )

    get_elem?-pieces :
        (m n c b i : ℕ)
        → 0 < c
        → n - b ≤ m * c
        → i < n - b
        → get_elem? (pieces m n c b) i ≡ some (nth_value (i % c) g)
    get_elem?-pieces zero n c b i pos h lt = absurd (omega arith)
    get_elem?-pieces (suc m) n c b i pos h lt = elim (dec_lt i c) [
      | yes here ↦
          let e : i % c ≡ i = mod-eq_of_lt here in
          rw e (
            get_elem?-append_left (generate next (min (n - b) c) g) _ i
              (omega (arith, length-generate (min (n - b) c) g))
            ∙ get_elem?-generate (min (n - b) c) i g (omega arith))
      | no behind ↦
          let e : i % c ≡ (i - c) % c = mod-eq-sub-mod (omega arith) in
          rw e (
            get_elem?-append_right (generate next (min (n - b) c) g) _ i (i - c)
              (omega (arith, length-generate (min (n - b) c) g))
            ∙ get_elem?-pieces m n c (b + min (n - b) c) (i - c) pos (omega arith) (omega arith))
    ]

    CommutesAll-generate :
        (t : Range) (m n c b : ℕ)
        → t.first + (t.last - t.first) ≤ b
        → CommutesAll (run_generate next g) t (spec_ranges m n c b)
    unfolding run_generate
    CommutesAll-generate t zero n c b h = tt
    CommutesAll-generate t (suc m) n c b h = (
      λ s.
          write-write_disjoint t.first b _ _ s
            (omega (arith, length-generate (t.last - t.first) g)),
      CommutesAll-generate t m n c (b + min (n - b) c) (omega arith),
    )

    AreIndependent-generate :
        (m n c b : ℕ) → AreIndependent (run_generate next g) (spec_ranges m n c b)
    AreIndependent-generate zero n c b = tt
    AreIndependent-generate (suc m) n c b = (
      CommutesAll-generate _ m n c (b + min (n - b) c) (omega arith),
      AreIndependent-generate m n c (b + min (n - b) c),
    )

    run_all-generate :
        (m n c b : ℕ) (out : List A)
        → n - b ≤ m * c
        → run_all (run_generate next g) (spec_ranges m n c b) out ≡ write b (pieces m n c b) out
    unfolding run_generate
    run_all-generate zero n c b out h = sym (write-nothing b [] out refl)
    run_all-generate (suc m) n c b out h =
        let k : ℕ = min (n - b) c in
        let size : b + k - b ≡ k = omega arith in
        ap
          (λ j.
            run_all (run_generate next g) (spec_ranges m n c (b + k))
              (write b (generate next j g) out))
          size
        ∙ run_all-generate m n c (b + k) (write b (generate next k g) out) (omega arith)
        ∙ write-append b (b + k) (generate next k g) (pieces m n c (b + k)) out
            (omega (arith, length-generate k g))

    -- With a positive chunk size parallel_generate writes, under every schedule, at each place i the
    -- value that the generator gives at its (i mod chunk size)-th call, and keeps the length.
    pub parallel_generate-nth_value :
        (schedule : List ℕ) (xs : List A) (c : ℕ)
        → 0 < c
        → (out : List A) × (parallel_generate next schedule xs g c ≡ some out)
          × (length out ≡ length xs)
          × ((i : ℕ) → i < length xs → get_elem? out i ≡ some (nth_value (i % c) g))
    unfolding parallel_generate
    parallel_generate-nth_value schedule xs c pos =
        let (m, enough, tasks) = range_tasks-spec_ranges (length xs) c pos in
        let size : length (pieces m (length xs) c 0) ≡ length xs =
          omega (arith, length-pieces m (length xs) c 0 (omega arith)) in
        (
          pieces m (length xs) c 0,
          rw tasks (
              parallel-of_independent (run_generate next g) schedule _ xs
                (AreIndependent-generate m (length xs) c 0)
              ∙ ap some
                  (run_all-generate m (length xs) c 0 xs (omega arith) ∙ write-all _ xs size)),
          size,
          λ i h. get_elem?-pieces m (length xs) c 0 i pos (omega arith) (omega arith),
        )
