-- ===== src/Parallel/Chunks/Bounds.antt =====
-- c9y/parallel.h: the tasks that the algorithms queue stay within their ranges.
use c9y.Base.{ℕ, zero, suc, ◌+◌, ◌-◌, ◌<◌, ◌≤◌, ◌≡◌, min, some, List, arith}
use c9y.Base.{All}
use c9y.Parallel.Chunks.{Chunk, get_results_size, safe_advance, result_tasks}
use c9y.Parallel.Chunks.Tasks.{
  Covers, Covers-le, get_results_size-Covers, spec_tasks, result_tasks_lem,
}
use c9y.Parallel.Updates.{Move, move_tasks}
use c9y.Parallel.Updates.Transform.{spec_moves, move_tasks-spec_moves}

-- A task reads a part of the range that is not empty, and writes a result that exists.
abbrev pub ChunkFits : (n size : ℕ) → Chunk → Type 0
ChunkFits n size t = (t.first < t.last) × (t.last ≤ n) × (t.slot < size)

-- A task reads a part of the input that is not empty, and writes within the output.
abbrev pub MoveFits : (n : ℕ) → Move → Type 0
MoveFits n t = (t.first < t.last) × (t.last ≤ n) × (t.target + (t.last - t.first) ≤ n)

All-ChunkFits :
    (m n c b ri : ℕ)
    → 0 < c
    → Covers (n - b) c m
    → All (ChunkFits n (ri + m)) (spec_tasks m n c b ri)
All-ChunkFits zero n c b ri h v = tt
All-ChunkFits (suc m) n c b ri h v =
    let v' : Covers (n - (b + min (n - b) c)) c m = record {
      enough = grind (arith, v.enough);
      tight = grind (arith, v.tight);
    } in
    let e : ri + 1 + m ≡ ri + suc m = omega arith in
    (
      (grind (arith, v.tight), grind (arith, v.tight), omega arith),
      rw e at (All-ChunkFits m n c (b + min (n - b) c) (ri + 1) h v'),
    )

-- The output iterator never passes the input iterator, whether or not the chunks come out even.
All-MoveFits :
    (m n c ib ob : ℕ)
    → 0 < c
    → ob ≤ ib
    → Covers (n - ib) c m
    → All (MoveFits n) (spec_moves m n c ib ob)
All-MoveFits zero n c ib ob h le v = tt
All-MoveFits (suc m) n c ib ob h le v =
    let e : ℕ = ib + min (n - ib) c in
    let v' : Covers (n - e) c m = record {
      enough = grind (arith, v.enough);
      tight = grind (arith, v.tight);
    } in
    (
      (grind (arith, v.tight), grind (arith, v.tight), grind (arith, v.tight)),
      All-MoveFits m n c e (ob + min (n - e) c) h (omega arith) v',
    )

-- With a positive chunk size, whatever the size n of the range: every task of the algorithms with a
-- result reads a part of the range that is not empty, and writes one of the results that
-- _get_results_size made room for; and every task of parallel_transform and parallel_copy reads such a
-- part, and writes below n.
pub tasks-Fit :
    (n c : ℕ)
    → 0 < c
    → (size : ℕ) × (ts : List Chunk) × (ms : List Move) × (get_results_size n c ≡ some size)
      × (result_tasks (n + 1) n c 0 (safe_advance 0 n c).0 0 ≡ some ts)
      × All (ChunkFits n size) ts
      × (move_tasks (n + 1) n c 0 (safe_advance 0 n c).0 0 ≡ some ms)
      × All (MoveFits n) ms
unfolding safe_advance
tasks-Fit n c h =
    let (m, size, v) = get_results_size-Covers n c h in
    let e : 0 + m ≡ m = omega arith in
    let (k, w, moves) = move_tasks-spec_moves n c h in
    (
      m,
      spec_tasks m n c 0 0,
      spec_moves k n c 0 0,
      size,
      result_tasks_lem (n + 1) m n c 0 0 (omega (arith, Covers-le n c m v)) (omega arith)
          (omega arith),
      rw e at (All-ChunkFits m n c 0 0 h (omega arith)),
      moves,
      All-MoveFits k n c 0 0 h (omega arith) (omega arith),
    )
