-- ===== src/Parallel/Queries.antt =====
-- c9y/parallel.h: the algorithms that compute a value from a range. Each takes the schedule of its
-- tasks first; a write of one result is one step. The results of parallel_all_of, parallel_any_of and
-- parallel_none_of are bits of a std::vector<bool>, so that for these the tasks are taken to run one at a
-- time; Parallel/Queries/Packed is about tasks that do not.
pub mod Sequential
pub mod Reduction
pub mod Packed
use c9y.Base.{ℕ, Bool, false, List, Option, some, ◌>>=◌}
use c9y.Parallel.Std.{all_of, any_of, none_of, count_if, accumulate}
use c9y.Parallel.Chunks.{chunk_results}

module _ {ℓ} {A : Type ℓ} where
  unfoldable pub parallel_all_of : List ℕ → List A → (A → Bool) → ℕ → Option Bool
  parallel_all_of schedule xs predicate chunk_size = do
    results ← chunk_results (all_of predicate) schedule false xs chunk_size
    some (all_of (λ v. v) results)

  unfoldable pub parallel_any_of : List ℕ → List A → (A → Bool) → ℕ → Option Bool
  parallel_any_of schedule xs predicate chunk_size = do
    results ← chunk_results (any_of predicate) schedule false xs chunk_size
    some (any_of (λ v. v) results)

  unfoldable pub parallel_none_of : List ℕ → List A → (A → Bool) → ℕ → Option Bool
  parallel_none_of schedule xs predicate chunk_size = do
    results ← chunk_results (none_of predicate) schedule false xs chunk_size
    some (all_of (λ v. v) results)

  -- `equal` is the `==` of the element type.
  unfoldable pub parallel_count : (A → A → Bool) → List ℕ → List A → A → ℕ → Option ℕ
  parallel_count equal schedule xs value chunk_size = do
    results ← chunk_results (count_if (λ x. equal x value)) schedule 0 xs chunk_size
    some (accumulate results 0)

  unfoldable pub parallel_count_if : List ℕ → List A → (A → Bool) → ℕ → Option ℕ
  parallel_count_if schedule xs predicate chunk_size = do
    results ← chunk_results (count_if predicate) schedule 0 xs chunk_size
    some (accumulate results 0)

-- `reduce op xs init` is `std::reduce`, whose grouping and order are left open.
module _ {ℓ} {A : Type ℓ} (reduce : (A → A → A) → List A → A → A) where
  unfoldable pub parallel_reduce_by : List ℕ → List A → A → (A → A → A) → ℕ → Option A
  parallel_reduce_by schedule xs init binary_op chunk_size = do
    results ← chunk_results (λ chunk. reduce binary_op chunk init) schedule init xs chunk_size
    some (reduce binary_op results init)

  -- The overload with no operator; `plus` is `std::plus` of the element type.
  unfoldable pub parallel_reduce : (A → A → A) → List ℕ → List A → A → ℕ → Option A
  parallel_reduce plus schedule xs init chunk_size = do
    results ← chunk_results (λ chunk. reduce plus chunk init) schedule init xs chunk_size
    some (reduce plus results init)
