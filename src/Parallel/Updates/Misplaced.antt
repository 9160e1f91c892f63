-- ===== src/Parallel/Updates/Misplaced.antt =====
-- c9y/parallel.h: parallel_transform, and so parallel_copy, advances the output iterator by the size of the
-- chunk that comes next. Where the last chunk is shorter than the others it is written too early.
use c9y.Base.{
  ℕ, zero, suc, ◌+◌, ◌-◌, ◌*◌, ◌%◌, ◌<◌, ◌≤◌, ◌≡◌, ◌≢◌, ◌∙◌, List, map, length, get_elem?, drop,
  min, some, ◌>>=◌, arith, length-take, length-map, refl,
}
use c9y.Parallel.Schedule.{parallel, order}
use c9y.Parallel.Schedule.Independence.{run_all, parallel-run_all}
use c9y.Base.{All}
use c9y.Parallel.Schedule.Tasks.{All-order, run_all-invariant}
use c9y.Parallel.Chunks.{safe_advance, slice}
use c9y.Parallel.Chunks.Tasks.{Covers}
use c9y.Parallel.Updates.{Move, move_tasks, write, run_transform, parallel_transform}
use c9y.Parallel.Updates.Transform.{spec_moves, move_tasks-spec_moves}
use c9y.Parallel.Updates.Writes.{get_elem?-write_above}

-- The move ends before the last place of an output of `n` elements.
abbrev EndsEarly : ℕ → Move → Type 0
EndsEarly n t = t.target + (t.last - t.first) < n

All-spec_moves :
    (m n c ib : ℕ)
    → n - ib < suc (suc m) * c
    → suc (suc m) * c < n - ib + c
    → All (EndsEarly n) (spec_moves (suc (suc m)) n c ib ib)
All-spec_moves zero n c ib below tight = (omega arith, (omega arith, tt))
All-spec_moves (suc m) n c ib below tight =
    let e : ℕ = ib + min (n - ib) c in
    let wide : c ≤ n - e = grind arith in
    let step : ib + min (n - e) c ≡ e = omega arith in
    (omega arith, rw step (All-spec_moves m n c e (grind arith) (grind arith)))

-- The loop cuts an uneven input into two chunks at least, and its moves all end early.
uneven_moves :
    (n c : ℕ)
    → 0 < c
    → c < n
    → n % c ≢ 0
    → (ts : List Move) × (move_tasks (n + 1) n c 0 (safe_advance 0 n c).0 0 ≡ some ts)
      × All (EndsEarly n) ts
uneven_moves n c h more uneven =
    let (m, v, tasks) = move_tasks-spec_moves n c h in (spec_moves m n c 0 0, tasks, ends m v)
  where
    strict : (m : ℕ) → Covers n c m → n < m * c
    strict m v = grind (arith, v.enough, v.tight)

    ends : (m : ℕ) → Covers n c m → All (EndsEarly n) (spec_moves m n c 0 0)
    ends zero v = tt
    ends (suc zero) v = absurd (omega (arith, v.tight, v.enough))
    ends (suc (suc m)) v =
        All-spec_moves m n c 0 (omega (arith, strict (suc (suc m)) v)) (omega (arith, v.tight))

module _ {ℓ κ} {A : Type ℓ} {B : Type κ} (f : List A → List B)
    (length-f : (xs : List A) → length (f xs) ≡ length xs) (xs : List A) where
  abbrev run_move : Move → List B → List B
  run_move t out = write t.target (f (slice t.first t.last xs)) out

  unwritten :
      (schedule : List ℕ) (out : List B) (c : ℕ)
      → 0 < c
      → c < length xs
      → length xs % c ≢ 0
      → (out' : List B) × ((move_tasks
              (length xs + 1)
              (length xs)
              c
              0
              (safe_advance 0 (length xs) c).0
              0
            >>= λ tasks. parallel run_move schedule tasks out)
          ≡ some out')
        × (get_elem? out' (length xs - 1) ≡ get_elem? out (length xs - 1))
  unwritten schedule out c h more uneven =
      let (ts, tasks, early) = uneven_moves (length xs) c h more uneven in
      (
        run_all run_move (order schedule ts) out,
        rw tasks (parallel-run_all run_move schedule ts out),
        run_all-invariant run_move (EndsEarly (length xs))
            (λ o. get_elem? o (length xs - 1) ≡ get_elem? out (length xs - 1)) kept
            (order schedule ts) out (All-order _ schedule ts early) refl,
      )
    where
      kept :
          (t : Move) (o : List B)
          → EndsEarly (length xs) t
          → get_elem? o (length xs - 1) ≡ get_elem? out (length xs - 1)
          → get_elem? (run_move t o) (length xs - 1) ≡ get_elem? out (length xs - 1)
      kept t o early same =
          get_elem?-write_above t.target (length xs - 1) (f (slice t.first t.last xs)) o (
            omega (
              arith,
              length-f (slice t.first t.last xs),
              length-take (t.last - t.first) (drop t.first xs),
            ))
          ∙ same

module _ {ℓ κ} {A : Type ℓ} {B : Type κ} where
  -- Where the chunk size is positive, below the size of the input, and does not divide it,
  -- parallel_transform returns under every schedule with the output's element at the place of the
  -- last input element as it was before.
  pub parallel_transform-unwritten :
      (op : A → B) (schedule : List ℕ) (xs : List A) (out : List B) (c : ℕ)
      → 0 < c
      → c < length xs
      → length xs % c ≢ 0
      → (out' : List B) × (parallel_transform schedule xs out op c ≡ some out')
        × (get_elem? out' (length xs - 1) ≡ get_elem? out (length xs - 1))
  unfolding parallel_transform run_transform
  parallel_transform-unwritten op schedule xs out c h more uneven =
      unwritten (map op) (λ ys. length-map ys op) xs schedule out c h more uneven
