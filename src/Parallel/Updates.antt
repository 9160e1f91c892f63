-- ===== src/Parallel/Updates.antt =====
-- c9y/parallel.h: the algorithms that change a range, or write one. Ranges are lists, and iterators
-- distances from their beginnings; a task's writes are one step, as the tasks of an algorithm touch
-- separate elements unless its theorems say otherwise. A write past the end of the output, which the
-- sources leave undefined, changes nothing here: the statements ask for room.
pub mod Writes
pub mod ForEach
pub mod Transform
pub mod Misplaced
pub mod Generate
use c9y.Base.{
  ℕ, zero, suc, ◌+◌, ◌-◌, ◌==◌, Option, none, some, List, [], ◌∷◌, map, length, if◌then◌else◌,
  ◌>>=◌,
}
use c9y.Parallel.Schedule.{parallel}
use c9y.Parallel.Chunks.{safe_advance, slice}

-- What the λ of a task captures: `b` and `e`.
pub record Range : Type 0 where
  pub first : ℕ
  pub last : ℕ

-- The loop of parallel_for_each and parallel_generate; none: more rounds would follow.
unfoldable pub range_tasks : ℕ → (last chunk_size b e : ℕ) → Option (List Range)
unfolding safe_advance
range_tasks zero last chunk_size b e = none
range_tasks (suc fuel) last chunk_size b e =
    let rest = range_tasks fuel last chunk_size e (safe_advance e last chunk_size).0 in
    if b == last then some [] else (rest >>= λ tasks. some (record { first = b; last = e } ∷ tasks))

-- What the λ of a task captures: `ib`, `ie` and `ob`.
pub record Move : Type 0 where
  pub first : ℕ
  pub last : ℕ
  pub target : ℕ

-- The loop of parallel_transform and parallel_copy. `ob` advances by what `ie` has just advanced.
unfoldable pub move_tasks : ℕ → (last chunk_size ib ie ob : ℕ) → Option (List Move)
unfolding safe_advance
move_tasks zero last chunk_size ib ie ob = none
move_tasks (suc fuel) last chunk_size ib ie ob =
    let (ie', n) = safe_advance ie last chunk_size in
    let rest = move_tasks fuel last chunk_size ie ie' (ob + n) in
    if ib == last
    then some []
    else (rest >>= λ tasks. some (record { first = ib; last = ie; target = ob } ∷ tasks))

-- Applies an operation to `n` elements from the b-th on, in place: `std::for_each`.
module _ {ℓ} {A : Type ℓ} where
  unfoldable pub for_each : (A → A) → (b n : ℕ) → List A → List A
  for_each operation b zero xs = xs
  for_each operation b (suc n) [] = []
  for_each operation zero (suc n) (x ∷ xs) = operation x ∷ for_each operation zero n xs
  for_each operation (suc b) (suc n) (x ∷ xs) = x ∷ for_each operation b (suc n) xs

  -- Writes elements from the b-th on.
  unfoldable pub write : ℕ → List A → List A → List A
  write b [] out = out
  write b (y ∷ ys) [] = []
  write zero (y ∷ ys) (o ∷ out) = y ∷ write zero ys out
  write (suc b) (y ∷ ys) (o ∷ out) = o ∷ write b (y ∷ ys) out

  unfoldable pub run_for_each : (A → A) → Range → List A → List A
  run_for_each operation r xs = for_each operation r.first (r.last - r.first) xs

  unfoldable pub parallel_for_each : List ℕ → List A → (A → A) → ℕ → Option (List A)
  parallel_for_each schedule xs operation chunk_size = do
    tasks ←
        range_tasks (length xs + 1) (length xs) chunk_size 0
          (safe_advance 0 (length xs) chunk_size).0
    parallel (run_for_each operation) schedule tasks xs

-- A generator is an object with a state of its own; a task hands `std::generate` a copy of it.
module _ {ℓ κ} {A : Type ℓ} {G : Type κ} (next : G → A × G) where
  unfoldable pub generate : ℕ → G → List A
  generate zero g = []
  generate (suc n) g = let (a, g') = next g in a ∷ generate n g'

  unfoldable pub run_generate : G → Range → List A → List A
  run_generate generator r xs = write r.first (generate (r.last - r.first) generator) xs

  unfoldable pub parallel_generate : List ℕ → List A → G → ℕ → Option (List A)
  parallel_generate schedule xs generator chunk_size = do
    tasks ←
        range_tasks (length xs + 1) (length xs) chunk_size 0
          (safe_advance 0 (length xs) chunk_size).0
    parallel (run_generate generator) schedule tasks xs

module _ {ℓ κ} {A : Type ℓ} {B : Type κ} where
  unfoldable pub run_transform : List A → (A → B) → Move → List B → List B
  run_transform xs operation t out = write t.target (map operation (slice t.first t.last xs)) out

  unfoldable pub parallel_transform : List ℕ → List A → List B → (A → B) → ℕ → Option (List B)
  parallel_transform schedule xs out operation chunk_size = do
    tasks ←
        move_tasks (length xs + 1) (length xs) chunk_size 0
          (safe_advance 0 (length xs) chunk_size).0 0
    parallel (run_transform xs operation) schedule tasks out

module _ {ℓ} {A : Type ℓ} where
  unfoldable pub run_copy : List A → Move → List A → List A
  run_copy xs t out = write t.target (slice t.first t.last xs) out

  unfoldable pub parallel_copy : List ℕ → List A → List A → ℕ → Option (List A)
  parallel_copy schedule xs out chunk_size = do
    tasks ←
        move_tasks (length xs + 1) (length xs) chunk_size 0
          (safe_advance 0 (length xs) chunk_size).0 0
    parallel (run_copy xs) schedule tasks out
