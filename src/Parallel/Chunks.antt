-- ===== src/Parallel/Chunks.antt =====
-- c9y/parallel.h: how an algorithm cuts its range into chunks, one task for each. An iterator is its
-- distance from the beginning of the sequence; dereferencing reads the list there.
pub mod Tasks
pub mod Bounds
use c9y.Base.{
  ℕ, zero, suc, ◌+◌, ◌-◌, ◌/◌, ◌%◌, ◌==◌, min, Option, none, some, List, [], ◌∷◌, length, set, take,
  drop, replicate, if◌then◌else◌, ◌>>=◌,
}
use c9y.Base
use c9y.Parallel.Schedule.{parallel}
use mathlib.Core.Option

-- `default_chunk_size`
abbrev pub default_chunk_size : ℕ
default_chunk_size = 32

-- `_get_results_size`; none: a division by zero.
unfoldable pub get_results_size : ℕ → ℕ → Option ℕ
get_results_size size chunk_size =
    if chunk_size == 0
    then none
    else if size % chunk_size == 0
    then some (size / chunk_size)
    else some (size / chunk_size + 1)

-- The advanced iterator, and how far it went.
unfoldable pub safe_advance : ℕ → ℕ → ℕ → ℕ × ℕ
safe_advance iter end count =
    let remaining = min (end - iter) count in (iter + remaining, remaining)

-- What the λ of a task captures: `b`, `e`, and `ri`.
pub record Chunk : Type 0 where
  pub first : ℕ
  pub last : ℕ
  pub slot : ℕ

-- The loop `while (b != last)` that fills `tasks`, with `e` and `ri` as they stand. Fuel bounds the
-- rounds; none: more rounds would follow.
unfoldable pub result_tasks : ℕ → (last chunk_size b e ri : ℕ) → Option (List Chunk)
unfolding safe_advance
result_tasks zero last chunk_size b e ri = none
result_tasks (suc fuel) last chunk_size b e ri =
    let rest = result_tasks fuel last chunk_size e (safe_advance e last chunk_size).0 (ri + 1) in
    if b == last
    then some []
    else (rest >>= λ tasks. some (record { first = b; last = e; slot = ri } ∷ tasks))

-- The elements from `b` up to `e`.
abbrev pub slice {ℓ} : {A : Type ℓ} → ℕ → ℕ → List A → List A
slice b e xs = take (e - b) (drop b xs)

module _ {ℓ κ} {A : Type ℓ} {R : Type κ} (algorithm : List A → R) where
  -- `results[ri] = algorithm(b, e)`, as one step.
  unfoldable pub run_result : List A → Chunk → List R → List R
  run_result xs c results = set results c.slot (algorithm (slice c.first c.last xs))

  -- What the algorithms with a result share: `results` filled with `value`, the tasks, `parallel`.
  unfoldable pub chunk_results : List ℕ → R → List A → ℕ → Option (List R)
  chunk_results schedule value xs chunk_size = do
    size ← get_results_size (length xs) chunk_size
    tasks ←
        result_tasks (length xs + 1) (length xs) chunk_size 0
          (safe_advance 0 (length xs) chunk_size).0 0
    parallel (run_result xs) schedule tasks (replicate size value)
