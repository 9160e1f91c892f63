-- ===== src/Parallel/Queries/Sequential.antt =====
-- The parallel algorithms give what the standard algorithms give, under every schedule.
use mathlib.Core.List.{flatten}
use c9y.Base.{ℕ, ◌<◌, ◌≡◌, ap, ◌∙◌, Bool, false, List, map, length, some, ◌>>=◌, arith}
use c9y.Parallel.Std.{
  all_of, any_of, none_of, count_if, accumulate, size_mod, all_of-flatten, any_of-flatten,
  none_of-flatten, count_if-flatten, count_if-le-length,
}
use c9y.Parallel.Chunks.{chunk_results}
use c9y.Parallel.Chunks.Tasks.{spec_chunks, chunk_results-spec_chunks}
use c9y.Parallel.Queries.{
  parallel_all_of, parallel_any_of, parallel_none_of, parallel_count, parallel_count_if,
}

module _ {ℓ} {A : Type ℓ} (schedule : List ℕ) (xs : List A) (c : ℕ) (h : 0 < c) where
  -- A combination of the pieces' results that is right on every list of pieces is right here.
  combined {κ μ} :
      {R : Type κ} {B : Type μ} (algorithm : List A → R) (value : R) (combine : List R → B)
      (whole : List A → B)
      → ((xss : List (List A))
          → flatten xss ≡ xs
          → combine (map algorithm xss) ≡ whole (flatten xss))
      → (chunk_results algorithm schedule value xs c >>= λ results. some (combine results))
        ≡ some (whole xs)
  combined algorithm value combine whole fits =
      let (m, _, e, whole_e) = chunk_results-spec_chunks algorithm xs schedule value c h in
      rw (e) (ap some (fits (spec_chunks m c xs) whole_e ∙ ap whole whole_e))

  -- With a positive chunk size, and where no task runs while another does, as on a pool of one thread,
  -- parallel_all_of, parallel_any_of and parallel_none_of give what std::all_of, std::any_of and
  -- std::none_of give, in whatever order the tasks run.
  pub parallel_all_of-all_of :
      (p : A → Bool)
      → (parallel_all_of schedule xs p c ≡ some (all_of p xs))
        × (parallel_any_of schedule xs p c ≡ some (any_of p xs))
        × (parallel_none_of schedule xs p c ≡ some (none_of p xs))
  unfolding parallel_all_of parallel_any_of parallel_none_of
  parallel_all_of-all_of p = (
    combined (all_of p) false _ (all_of p) (λ xss _. all_of-flatten p xss),
    combined (any_of p) false _ (any_of p) (λ xss _. any_of-flatten p xss),
    combined (none_of p) false _ (none_of p) (λ xss _. none_of-flatten p xss),
  )

  counted :
      (p : A → Bool)
      → length xs < size_mod
      → (chunk_results (count_if p) schedule 0 xs c >>= λ results. some (accumulate results 0))
        ≡ some (count_if p xs)
  counted p small =
      combined (count_if p) 0 (λ results. accumulate results 0) (count_if p)
        λ xss e.
          count_if-flatten p xss 0 (rw e (omega (arith, count_if-le-length p xs))) ∙ omega arith

  -- With a positive chunk size and fewer than 2^64 elements, under every schedule of the tasks:
  -- parallel_count_if returns and gives what std::count_if gives, and parallel_count returns and gives
  -- what std::count gives, by the `==` of the elements.
  pub parallel_count_if-count_if :
      (p : A → Bool) (equal : A → A → Bool) (value : A)
      → length xs < size_mod
      → (parallel_count_if schedule xs p c ≡ some (count_if p xs))
        × (parallel_count equal schedule xs value c ≡ some (count_if (λ x. equal x value) xs))
  unfolding parallel_count_if parallel_count
  parallel_count_if-count_if p equal value small =
      (counted p small, counted (λ x. equal x value) small)
