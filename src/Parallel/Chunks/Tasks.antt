-- ===== src/Parallel/Chunks/Tasks.antt =====
-- The chunks that the loop makes, in closed form, and the results that their tasks leave.
use c9y.Base.{
  ℕ, zero, suc, ◌+◌, ◌-◌, ◌*◌, ◌/◌, ◌%◌, ◌==◌, ◌≤◌, ◌<◌, ◌≡◌, refl, sym, ap, ◌∙◌, min, some, List,
  [], ◌∷◌, ◌++◌, map, length, set, take, drop, replicate, arith, length-drop, take-append-drop,
  length-append, set-set_ne, set-append-cons, take-min, drop-drop, drop-min, Bool-cases, inl, inr,
}
use mathlib.Core.List.{flatten, append_assoc}
use c9y.Parallel.Schedule.Independence.{
  run_all, Commutes, CommutesAll, AreIndependent, parallel-of_independent,
}
use c9y.Parallel.Chunks.{
  Chunk, get_results_size, safe_advance, result_tasks, slice, run_result, chunk_results,
}

-- `m` chunks cover `n` elements, and the last of them is not empty.
pub record Covers (n chunk_size m : ℕ) : Type 0 where
  pub enough : n ≤ m * chunk_size
  pub tight : m * chunk_size < n + chunk_size

pub get_results_size-Covers :
    (n c : ℕ) → 0 < c → (m : ℕ) × (get_results_size n c ≡ some m) × Covers n c m
unfolding get_results_size
get_results_size-Covers n c h = elim (Bool-cases (n % c == 0)) [
  | inl even ↦ (n / c, ground arith, record { enough = grind arith; tight = grind arith })
  | inr rest ↦ (n / c + 1, ground arith, record { enough = grind arith; tight = grind arith })
]

pub Covers-le : (n c m : ℕ) → Covers n c m → m ≤ n
Covers-le n c zero v = omega arith
Covers-le n c (suc m) v = grind arith

-- The chunks without the loop's fuel and tests.
abbrev pub spec_tasks : ℕ → (last chunk_size b ri : ℕ) → List Chunk
spec_tasks zero last c b ri = []
spec_tasks (suc m) last c b ri =
    record { first = b; last = b + min (last - b) c; slot = ri }
    ∷ spec_tasks m last c (b + min (last - b) c) (ri + 1)

pub result_tasks_lem :
    (fuel m last c b ri : ℕ)
    → m < fuel
    → b ≤ last
    → Covers (last - b) c m
    → result_tasks fuel last c b (b + min (last - b) c) ri ≡ some (spec_tasks m last c b ri)
unfolding result_tasks safe_advance
result_tasks_lem zero m last c b ri h le v = absurd (omega arith)
result_tasks_lem (suc f) zero last c b ri h le v = ground arith
result_tasks_lem (suc f) (suc m) last c b ri h le v =
    let e : ℕ = b + min (last - b) c in
    let v' : Covers (last - e) c m = record { enough = omega arith; tight = grind arith } in
    ground (arith, result_tasks_lem f m last c e (ri + 1) (omega arith) (omega arith) v')

-- The pieces that the chunks cover.
module _ {ℓ} {A : Type ℓ} where
  abbrev pub spec_chunks : ℕ → ℕ → List A → List (List A)
  spec_chunks zero c xs = []
  spec_chunks (suc m) c xs = take c xs ∷ spec_chunks m c (drop c xs)

  pub flatten-spec_chunks :
      (m c : ℕ) (xs : List A) → length xs ≤ m * c → flatten (spec_chunks m c xs) ≡ xs
  unfolding flatten
  flatten-spec_chunks zero c [] h = refl
  flatten-spec_chunks zero c (x ∷ xs) h = absurd (omega arith)
  flatten-spec_chunks (suc m) c xs h =
      ap (◌++◌ (take c xs)) (flatten-spec_chunks m c (drop c xs) (omega (arith, length-drop c xs)))
      ∙ take-append-drop c xs

  pub length-spec_chunks : (m c : ℕ) (xs : List A) → length (spec_chunks m c xs) ≡ m
  length-spec_chunks zero c xs = refl
  length-spec_chunks (suc m) c xs = ap suc (length-spec_chunks m c (drop c xs))

module _ {ℓ κ} {A : Type ℓ} {R : Type κ} (algorithm : List A → R) (xs : List A) where
  Commutes-run_result : (t u : Chunk) → t.slot < u.slot → Commutes (run_result algorithm xs) t u
  unfolding run_result
  Commutes-run_result t u h s = set-set_ne s t.slot u.slot _ _ (λ e. omega arith)

  CommutesAll-spec_tasks :
      (t : Chunk) (m last c b ri : ℕ)
      → t.slot < ri
      → CommutesAll (run_result algorithm xs) t (spec_tasks m last c b ri)
  CommutesAll-spec_tasks t zero last c b ri h = tt
  CommutesAll-spec_tasks t (suc m) last c b ri h = (
    Commutes-run_result t _ h,
    CommutesAll-spec_tasks t m last c (b + min (last - b) c) (ri + 1) (omega arith),
  )

  AreIndependent-spec_tasks :
      (m last c b ri : ℕ) → AreIndependent (run_result algorithm xs) (spec_tasks m last c b ri)
  AreIndependent-spec_tasks zero last c b ri = tt
  AreIndependent-spec_tasks (suc m) last c b ri = (
    CommutesAll-spec_tasks _ m last c (b + min (last - b) c) (ri + 1) (omega arith),
    AreIndependent-spec_tasks m last c (b + min (last - b) c) (ri + 1),
  )

  pub slice_lem :
      (c b : ℕ)
      → b ≤ length xs
      → (slice b (b + min (length xs - b) c) xs ≡ take c (drop b xs))
        × (drop (b + min (length xs - b) c) xs ≡ drop c (drop b xs))
  slice_lem c b h =
      let n : b + min (length xs - b) c - b ≡ min (length (drop b xs)) c =
        omega (arith, length-drop b xs) in
      let k : min (length xs - b) c ≡ min (length (drop b xs)) c =
        omega (arith, length-drop b xs) in
      (
        rw (n, take-min c (drop b xs)),
        sym (drop-drop b (min (length xs - b) c) xs) ∙ rw k (drop-min c (drop b xs)),
      )

  -- The tasks in order write the result of each piece into its slot.
  run_all-spec_tasks :
      (m c b ri : ℕ) (done : List R) (value : R)
      → b ≤ length xs
      → ri ≡ length done
      → run_all
          (run_result algorithm xs)
          (spec_tasks m (length xs) c b ri)
          (done ++ replicate m value)
        ≡ done ++ map algorithm (spec_chunks m c (drop b xs))
  unfolding run_result
  run_all-spec_tasks zero c b ri done value h e = refl
  run_all-spec_tasks (suc m) c b ri done value h e =
      let (this, rest) = slice_lem c b h in
      let r : R = algorithm (take c (drop b xs)) in
      let stored : set (done ++ value ∷ replicate m value) ri
            (algorithm (slice b (b + min (length xs - b) c) xs))
          ≡ (done ++ r ∷ []) ++ replicate m value =
        set-append-cons done (replicate m value) ri value _ e
        ∙ rw this (sym (append_assoc done (r ∷ []) (replicate m value))) in
      ap
        (run_all (run_result algorithm xs)
          (spec_tasks m (length xs) c (b + min (length xs - b) c) (ri + 1)))
        stored
      ∙ run_all-spec_tasks m c (b + min (length xs - b) c) (ri + 1) (done ++ r ∷ []) value
          (omega arith) (omega (arith, length-append done (r ∷ [])))
      ∙ rw rest (append_assoc done (r ∷ []) _)

  -- With a positive chunk size and whatever the schedule, the results are those of the pieces.
  pub chunk_results-spec_chunks :
      (schedule : List ℕ) (value : R) (c : ℕ)
      → 0 < c
      → (m : ℕ) × (get_results_size (length xs) c ≡ some m)
        × (chunk_results algorithm schedule value xs c ≡ some (map algorithm (spec_chunks m c xs)))
        × (flatten (spec_chunks m c xs) ≡ xs)
  unfolding chunk_results safe_advance
  chunk_results-spec_chunks schedule value c h =
      let (m, size, v) = get_results_size-Covers (length xs) c h in
      let tasks : result_tasks (length xs + 1) (length xs) c 0 (0 + min (length xs - 0) c) 0
          ≡ some (spec_tasks m (length xs) c 0 0) =
        result_tasks_lem (length xs + 1) m (length xs) c 0 0
          (omega (arith, Covers-le (length xs) c m v)) (omega arith) (omega arith) in
      (
        m,
        size,
        rw (size, tasks)
            (parallel-of_independent (run_result algorithm xs) schedule _ (replicate m value)
                (AreIndependent-spec_tasks m (length xs) c 0 0)
              ∙ ap some (run_all-spec_tasks m c 0 0 [] value (omega arith) refl)),
        flatten-spec_chunks m c xs v.enough,
      )
