-- ===== src/Parallel/Updates/Transform.antt =====
-- c9y/parallel.h: the moves that parallel_transform and parallel_copy make, where the chunks come
-- out even: the size is a multiple of the chunk size, or there is one chunk at most.
use c9y.Base.{
  ℕ, zero, suc, ◌+◌, ◌-◌, ◌*◌, ◌%◌, ◌<◌, ◌≤◌, ◌≡◌, ◌⊎◌, inl, inr, refl, sym, ap, ◌∙◌, List, [], ◌∷◌,
  ◌++◌, map, length, take, drop, min, some, ◌>>=◌, arith, length-take, length-drop, length-map,
  take-append-drop,
}
use mathlib.Core.List.{map-append}
use mathlib.Core.Path.{fun_ext}
use c9y.Parallel.Schedule.{parallel}
use c9y.Parallel.Schedule.Independence.{
  run_all, CommutesAll, AreIndependent, parallel-of_independent,
}
use c9y.Parallel.Chunks.{safe_advance, slice}
use c9y.Parallel.Chunks.Tasks.{Covers, Covers-le, get_results_size-Covers, slice_lem}
use c9y.Parallel.Updates.{
  Move, move_tasks, write, run_transform, parallel_transform, run_copy, parallel_copy,
}
use c9y.Parallel.Updates.Writes.{write-write_disjoint, write-append, write-nothing}

-- The moves without the loop's fuel and tests.
abbrev pub spec_moves : ℕ → (last chunk_size ib ob : ℕ) → List Move
spec_moves zero last c ib ob = []
spec_moves (suc m) last c ib ob =
    record { first = ib; last = ib + min (last - ib) c; target = ob }
    ∷ spec_moves m last c (ib + min (last - ib) c) (ob + min (last - (ib + min (last - ib) c)) c)

move_tasks_lem :
    (fuel m last c ib ob : ℕ)
    → m < fuel
    → ib ≤ last
    → Covers (last - ib) c m
    → move_tasks fuel last c ib (ib + min (last - ib) c) ob ≡ some (spec_moves m last c ib ob)
unfolding move_tasks safe_advance
move_tasks_lem zero m last c ib ob h le v = absurd (omega arith)
move_tasks_lem (suc f) zero last c ib ob h le v = ground arith
move_tasks_lem (suc f) (suc m) last c ib ob h le v =
    let e : ℕ = ib + min (last - ib) c in
    let v' : Covers (last - e) c m = record { enough = omega arith; tight = grind arith } in
    ground
      (arith, move_tasks_lem f m last c e (ob + min (last - e) c) (omega arith) (omega arith) v')

pub move_tasks-spec_moves :
    (n c : ℕ)
    → 0 < c
    → (m : ℕ) × Covers n c m
      × (move_tasks (n + 1) n c 0 (safe_advance 0 n c).0 0 ≡ some (spec_moves m n c 0 0))
unfolding safe_advance
move_tasks-spec_moves n c h =
    let (m, _, v) = get_results_size-Covers n c h in
    (
      m,
      v,
      move_tasks_lem (n + 1) m n c 0 0 (omega (arith, Covers-le n c m v)) (omega arith)
          (omega arith),
    )

-- The chunks come out even: all of them are full, or there is one at most.
abbrev pub IsEven : (n chunk_size : ℕ) → Type 0
IsEven n c = (n % c ≡ 0) ⊎ (n ≤ c)

-- The moves that write each piece at the place where it was read.
abbrev aligned_moves : ℕ → (last chunk_size ib : ℕ) → List Move
aligned_moves zero last c ib = []
aligned_moves (suc m) last c ib =
    record { first = ib; last = ib + min (last - ib) c; target = ib }
    ∷ aligned_moves m last c (ib + min (last - ib) c)

spec_moves-aligned_moves :
    (m n c ib : ℕ) → (n - ib ≡ m * c) ⊎ (m ≤ 1) → spec_moves m n c ib ib ≡ aligned_moves m n c ib
spec_moves-aligned_moves zero n c ib h = refl
spec_moves-aligned_moves (suc zero) n c ib h = refl
spec_moves-aligned_moves (suc (suc m)) n c ib (inr le) = absurd (omega arith)
spec_moves-aligned_moves (suc (suc m)) n c ib (inl full) =
    let e : ℕ = ib + min (n - ib) c in
    let step : ib + min (n - e) c ≡ e = grind arith in
    let ih : spec_moves (suc m) n c e e ≡ aligned_moves (suc m) n c e =
      spec_moves-aligned_moves (suc m) n c e (inl (grind arith)) in
    rw step (ap (◌∷◌ (record { first = ib; last = e; target = ib })) ih)

IsEven-Covers : (n c m : ℕ) → IsEven n c → Covers n c m → (n - 0 ≡ m * c) ⊎ (m ≤ 1)
IsEven-Covers n c m (inl full) v = inl (divides (v.enough) (v.tight))
  where
    divides : n ≤ m * c → m * c < n + c → n - 0 ≡ m * c
    divides p q = grind (arith, full)
IsEven-Covers n c zero (inr le) v = inr (omega arith)
IsEven-Covers n c (suc zero) (inr le) v = inr (omega arith)
IsEven-Covers n c (suc (suc m)) (inr le) v = absurd (grind arith)

-- What the tasks of both algorithms have in common: `f` acts on each element for itself.
module _ {ℓ κ} {A : Type ℓ} {B : Type κ} (f : List A → List B)
    (f-append : (xs ys : List A) → f (xs ++ ys) ≡ f xs ++ f ys)
    (length-f : (xs : List A) → length (f xs) ≡ length xs) (xs : List A) where
  abbrev run_move : Move → List B → List B
  run_move t out = write t.target (f (slice t.first t.last xs)) out

  length-slice : (b e : ℕ) → length (f (slice b e xs)) ≤ e - b
  length-slice b e = omega (arith, length-f (slice b e xs), length-take (e - b) (drop b xs))

  -- A task writes below the targets of those behind it.
  CommutesAll-aligned_moves :
      (t : Move) (m n c ib : ℕ)
      → t.target + (t.last - t.first) ≤ ib
      → CommutesAll run_move t (aligned_moves m n c ib)
  CommutesAll-aligned_moves t zero n c ib h = tt
  CommutesAll-aligned_moves t (suc m) n c ib h = (
    λ s. write-write_disjoint t.target ib _ _ s (omega (arith, length-slice t.first t.last)),
    CommutesAll-aligned_moves t m n c (ib + min (n - ib) c) (omega arith),
  )

  AreIndependent-aligned_moves : (m n c ib : ℕ) → AreIndependent run_move (aligned_moves m n c ib)
  AreIndependent-aligned_moves zero n c ib = tt
  AreIndependent-aligned_moves (suc m) n c ib = (
    CommutesAll-aligned_moves _ m n c (ib + min (n - ib) c) (omega arith),
    AreIndependent-aligned_moves m n c (ib + min (n - ib) c),
  )

  run_all-aligned_moves :
      (m c ib : ℕ) (out : List B)
      → ib ≤ length xs
      → length xs - ib ≤ m * c
      → run_all run_move (aligned_moves m (length xs) c ib) out ≡ write ib (f (drop ib xs)) out
  unfolding write
  run_all-aligned_moves zero c ib out h le =
      sym (write-nothing ib _ out (none_left ib (omega arith)))
    where
      none_left : (b : ℕ) → length xs ≤ b → length (f (drop b xs)) ≡ 0
      none_left b g = omega (arith, length-f (drop b xs), length-drop b xs)
  run_all-aligned_moves (suc m) c ib out h le =
      let e : ℕ = ib + min (length xs - ib) c in
      let piece : List A = take c (drop ib xs) in
      let rest : List A = drop c (drop ib xs) in
      let (this, behind) = slice_lem f xs c ib h in
      let end : e ≡ ib + length (f piece) =
        omega (arith, length-f piece, length-take c (drop ib xs), length-drop ib xs) in
      run_all-aligned_moves m c e _ (omega arith) (omega arith)
      ∙ rw (this, behind)
          (write-append ib e (f piece) (f rest) out end
            ∙ ap (λ zs. write ib zs out)
                (sym (f-append piece rest) ∙ ap f (take-append-drop c (drop ib xs))))

  -- The loop's moves, under any schedule, where the chunks come out even.
  moved :
      (schedule : List ℕ) (out : List B) (c : ℕ)
      → 0 < c
      → IsEven (length xs) c
      → (move_tasks (length xs + 1) (length xs) c 0 (safe_advance 0 (length xs) c).0 0 >>= λ tasks.
          parallel run_move schedule tasks out)
        ≡ some (write 0 (f xs) out)
  moved schedule out c h even =
      let (m, v, tasks) = move_tasks-spec_moves (length xs) c h in
      let same : spec_moves m (length xs) c 0 0 ≡ aligned_moves m (length xs) c 0 =
        spec_moves-aligned_moves m (length xs) c 0 (IsEven-Covers _ c m even v) in
      rw (tasks, same)
        (parallel-of_independent run_move schedule _ out (AreIndependent-aligned_moves m _ c 0)
          ∙ ap some (run_all-aligned_moves m c 0 out (omega arith) (omega (arith, v.enough))))

module _ {ℓ κ} {A : Type ℓ} {B : Type κ} where
  -- With a positive chunk size that divides the size of the input or is not below it,
  -- parallel_transform writes the image of each input element at its place in the output, and
  -- nothing else, under every schedule of the tasks.
  pub parallel_transform-write :
      (op : A → B) (schedule : List ℕ) (xs : List A) (out : List B) (c : ℕ)
      → 0 < c
      → IsEven (length xs) c
      → parallel_transform schedule xs out op c ≡ some (write 0 (map op xs) out)
  unfolding parallel_transform run_transform
  parallel_transform-write op schedule xs out c h even =
      moved (map op) (λ ys zs. map-append op ys zs) (λ ys. length-map ys op) xs schedule out c h
        even

module _ {ℓ} {A : Type ℓ} where
  map-id : (xs : List A) → map (λ x. x) xs ≡ xs
  map-id [] = refl
  map-id (x ∷ xs) = ap (◌∷◌ x) (map-id xs)

  -- parallel_copy is parallel_transform with the operation that changes nothing, for all inputs, chunk
  -- sizes and schedules: it writes the same where the chunks come out even, and where they do not.
  pub parallel_copy-parallel_transform :
      (schedule : List ℕ) (xs out : List A) (c : ℕ)
      → parallel_copy schedule xs out c ≡ parallel_transform schedule xs out (λ x. x) c
  unfolding parallel_copy parallel_transform run_copy run_transform
  parallel_copy-parallel_transform schedule xs out c =
      ap
        (λ run.
          move_tasks (length xs + 1) (length xs) c 0 (safe_advance 0 (length xs) c).0 0 >>= λ tasks.
          parallel run schedule tasks out)
        (fun_ext λ t. fun_ext λ zs. moves t zs)
    where
      moves : (t : Move) (zs : List A) → run_copy xs t zs ≡ run_transform xs (λ x. x) t zs
      moves t zs = ap (λ ys. write t.target ys zs) (sym (map-id (slice t.first t.last xs)))
