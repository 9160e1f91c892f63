-- ===== src/Parallel/Nested/Starving.antt =====
-- Tasks that call `parallel` on the shared pool of c9y/parallel.cpp and occupy all its threads.
use c9y.Base.{
  ℕ, ◌+◌, ◌==◌, ◌<◌, ◌≡◌, refl, sym, ap, subst, ◌∙◌, none, some, List, [], ◌∷◌, ◌++◌, length,
  length-append, update, All, All-map, All-middle, All-around, Bool-cases, inl, inr, arith,
}
use c9y.Base.Int.{pos}
use mathlib.Core.List.{append_assoc}
use mathlib.Core.Option.{some-injective}
use c9y.Latch.{Latch, latch, wait}
use c9y.Queue.{Queue, pop_wait, push}
use c9y.Queue.Draining.{pop_wait-front}
use c9y.TaskPool.{TaskPool, enqueue, enqueue_count, enqueue_push}
use c9y.Parallel.Nested.{
  Job, Busy, taken, calling, done, System, Step, other, take, run, call, issue, return, end, Reach,
  here, next,
}

-- The function calls `parallel` with a task at least.
abbrev pub Calls : (ℕ → Job) → ℕ → Type 0
Calls job n = (c f : ℕ) × (fs : List ℕ) × ((job n).calls ≡ some (c, f ∷ fs))

module _ (threads : ℕ) (job : ℕ → Job) where
  -- A thread that will call `parallel`, or is in a call that does not return.
  abbrev pub IsCaught : (ℕ → Latch) → Busy → Type 0
  IsCaught latches (taken n) = Calls job n
  IsCaught latches (calling n c fs) = wait (latches c) ≡ none
  IsCaught latches (done n) = ⊥

  record IsStarved (s : System) : Type 0 where
    left : List ℕ
    behind : List ℕ
    is_queue : s.pool.tasks.container ≡ left ++ behind
    full : length s.busy + length left ≡ threads
    left_call : All (Calls job) left
    caught : All (IsCaught s.latches) s.busy
    none_ended : s.ended ≡ []

  enqueue-container :
      (f : ℕ) (p : TaskPool) → (enqueue f p).tasks.container ≡ p.tasks.container ++ f ∷ []
  unfolding enqueue enqueue_count enqueue_push push
  enqueue-container f p = refl

  enqueue-line :
      (f : ℕ) (p : TaskPool) (left behind : List ℕ)
      → p.tasks.container ≡ left ++ behind
      → (enqueue f p).tasks.container ≡ left ++ (behind ++ f ∷ [])
  enqueue-line f p left behind e =
      enqueue-container f p ∙ ap (λ xs. xs ++ f ∷ []) e ∙ append_assoc left behind (f ∷ [])

  take-IsStarved :
      {s : System} (n : ℕ) (q : Queue ℕ) (i : IsStarved s) (left : List ℕ)
      → i.left ≡ left
      → length s.busy < threads
      → pop_wait s.pool.tasks ≡ some (q, some n)
      → IsStarved (record s { pool = record (s.pool) { tasks = q }; busy = taken n ∷ s.busy })
  take-IsStarved {s} n q i [] none_left free pops =
      absurd (omega (arith, i.full, ap length none_left, free))
  take-IsStarved {s} n q i (x ∷ xs) line free pops =
      let (first, rest) =
        pop_wait-front s.pool.tasks x (xs ++ i.behind) (i.is_queue ∙ ap (λ ys. ys ++ i.behind) line)
          pops in
      let (calls, left_call) = subst (All (Calls job)) line i.left_call in
      record {
        left = xs;
        behind = i.behind;
        is_queue = rest;
        full = omega (arith, i.full, ap length line);
        left_call = left_call;
        caught = (rw first calls, i.caught);
        none_ended = i.none_ended;
      }

  -- The latch of a call is made anew, for a task at least.
  update-IsCaught :
      (latches : ℕ → Latch) (c : ℕ) (l : Latch)
      → wait l ≡ none
      → (b : Busy) → IsCaught latches b
      → IsCaught (update latches c l) b
  update-IsCaught latches c l waits (taken n) caught = caught
  update-IsCaught latches c l waits (calling n d fs) caught = elim (Bool-cases (c == d)) [
    | inl same ↦ rw same waits
    | inr differ ↦ rw differ caught
  ]
  update-IsCaught latches c l waits (done n) caught = caught

  latch-waits : (f : ℕ) (fs : List ℕ) → wait (latch (pos (length (f ∷ fs)))) ≡ none
  unfolding wait latch
  latch-waits f fs = ground arith

  length-replaced :
      (before behind : List Busy) (x y : Busy)
      → length (before ++ y ∷ behind) ≡ length (before ++ x ∷ behind)
  length-replaced before behind x y =
      omega (arith, length-append before (y ∷ behind), length-append before (x ∷ behind))

  -- A thread goes on in the call that it is in.
  replaced-IsStarved :
      {s : System} (i : IsStarved s) (pool : TaskPool) (latches : ℕ → Latch) (line : List ℕ)
      (before behind : List Busy) (x y : Busy)
      → pool.tasks.container ≡ i.left ++ line
      → s.busy ≡ before ++ x ∷ behind
      → ((b : Busy) → IsCaught s.latches b → IsCaught latches b)
      → IsCaught latches y
      → IsStarved (record s { pool = pool; latches = latches; busy = before ++ y ∷ behind })
  replaced-IsStarved {s} i pool latches line before behind x y queue busy kept caught =
      let (first, _, last) =
        All-middle (IsCaught s.latches) before x behind
          (subst (All (IsCaught s.latches)) busy i.caught) in
      record {
        left = i.left;
        behind = line;
        is_queue = queue;
        full = omega (arith, i.full, length-replaced before behind x y, ap length busy);
        left_call = i.left_call;
        caught =
            All-around (IsCaught latches) before y behind
              (All-map (IsCaught s.latches) (IsCaught latches) kept before first) caught
              (All-map (IsCaught s.latches) (IsCaught latches) kept behind last);
        none_ended = i.none_ended;
      }

  Step-IsStarved : {s t : System} → Step threads job s t → IsStarved s → IsStarved t
  Step-IsStarved {s} (other f e) i = rw e (record {
    left = i.left;
    behind = i.behind ++ f ∷ [];
    is_queue = enqueue-line f s.pool i.left i.behind i.is_queue;
    full = i.full;
    left_call = i.left_call;
    caught = i.caught;
    none_ended = i.none_ended;
  })
  Step-IsStarved {s} (take n q free pops e) i = rw e (take-IsStarved n q i i.left refl free pops)
  Step-IsStarved {s} (run n before behind h plain e) i =
      let (_, (c, f, fs, calls), _) =
        All-middle (IsCaught s.latches) before (taken n) behind (rw h at i.caught) in
      cc
  Step-IsStarved {s} (call n c fs before behind h calls e) i =
      let (_, (d, f, gs, nested), _) =
        All-middle (IsCaught s.latches) before (taken n) behind (rw h at i.caught) in
      let task : fs ≡ f ∷ gs = ap (λ p. p.1) (some-injective _ _ (sym calls ∙ nested)) in
      let waits : wait (latch (pos (length fs))) ≡ none = rw task (latch-waits f gs) in
      rw e (
        replaced-IsStarved i s.pool (update s.latches c (latch (pos (length fs)))) i.behind before
          behind (taken n) (calling n c fs) i.is_queue h
          (update-IsCaught s.latches c (latch (pos (length fs))) waits) (ground (arith, waits)))
  Step-IsStarved {s} (issue n c f fs before behind h e) i =
      let (_, waits, _) =
        All-middle (IsCaught s.latches) before (calling n c (f ∷ fs)) behind (rw h at i.caught) in
      rw e (
        replaced-IsStarved i (enqueue f s.pool) s.latches (i.behind ++ f ∷ []) before behind
          (calling n c (f ∷ fs)) (calling n c fs) (enqueue-line f s.pool i.left i.behind i.is_queue)
          h (λ b caught. caught) waits)
  Step-IsStarved {s} (return n c before behind h returns e) i =
      let (_, waits, _) =
        All-middle (IsCaught s.latches) before (calling n c []) behind (rw h at i.caught) in
      cc
  Step-IsStarved {s} (end n before behind h e) i =
      let (_, never, _) =
        All-middle (IsCaught s.latches) before (done n) behind (rw h at i.caught) in
      absurd never

  Reach-IsStarved : {s t : System} → Reach threads job s t → IsStarved s → IsStarved t
  Reach-IsStarved here i = i
  Reach-IsStarved (next r step) i = Step-IsStarved step (Reach-IsStarved r i)

-- A shared pool of n threads of which none is busy. The first n functions of its queue are tasks that
-- call `parallel` themselves, with a task at least. Then no function of the pool ever ends, neither
-- these nor those that stand behind them or are enqueued later: each thread that has taken a function
-- is to call `parallel`, or is in a call whose wait does not return.
pub parallel-starved :
    (threads : ℕ) (job : ℕ → Job) (pool : TaskPool) (latches : ℕ → Latch) (nested behind : List ℕ)
    {t : System}
    → pool.tasks.container ≡ nested ++ behind
    → length nested ≡ threads
    → All (Calls job) nested
    → Reach threads job (record { pool = pool; latches = latches; busy = []; ended = [] }) t
    → (t.ended ≡ []) × All (IsCaught threads job t.latches) t.busy
parallel-starved threads job pool latches nested behind line full calls reach =
    let i = Reach-IsStarved threads job reach (record {
      left = nested;
      behind = behind;
      is_queue = line;
      full = omega (arith, full);
      left_call = calls;
      caught = tt;
      none_ended = refl;
    }) in
    (i.none_ended, i.caught)
