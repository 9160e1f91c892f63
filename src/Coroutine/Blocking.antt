-- ===== src/Coroutine/Blocking.antt =====
-- c9y/coroutine.h: co_async on the pool of async, in steps. The λ of a suspended coroutine waits for its
-- future on a thread of the pool. λ number k is the function 2 k + 1 of the pool, and a function that is
-- enqueued with async is 2 f; `effect` says what it does to the futures.
use c9y.Base.{
  All-remove, ℕ, ◌+◌, ◌*◌, ◌<◌, ◌≡◌, refl, sym, ap, subst, ◌∙◌, false, Option, none, some, List, [],
  ◌∷◌, ◌++◌, map, length, All, arith,
}
use mathlib.Core.List.{append_assoc}
use mathlib.Core.Option.{some-injective}
use c9y.Queue.{Queue, pop_wait, push}
use c9y.Queue.Draining.{pop_wait-front}
use c9y.TaskPool.{TaskPool, complete, async, enqueue, enqueue_count, enqueue_push}
use c9y.Futures.{pending, lambda}
use c9y.Coroutine.{Frame, State, await_ready, continue, post_async}

-- `running`: the functions that the pool's threads have taken and not done.
pub record System {ℓ} (T : Type ℓ) : Type ℓ where
  pub state : State T (Option TaskPool)
  pub running : List ℕ

abbrev pub post : ℕ → Option TaskPool → Option TaskPool
post k pool = post_async (lambda k) pool

module _ {ℓ} {T : Type ℓ} where
  -- `thread_func` after the function: the count.
  abbrev pub completed : State T (Option TaskPool) → State T (Option TaskPool)
  completed s = record s { queue = elim s.queue [ none ↦ none | some p ↦ some (complete p).0 ] }

  module _ (threads : ℕ) (effect : ℕ → State T (Option TaskPool) → State T (Option TaskPool)) where
    pub data Step (s t : System T) : Type ℓ where
      issue :
          (f : ℕ)
          → t ≡ record s { state = record (s.state) { queue = post_async (2 * f) s.state.queue } }
          → Step s t
      take :
          (p : TaskPool) (n : ℕ) (q : Queue ℕ)
          → length s.running < threads
          → s.state.queue ≡ some p
          → pop_wait p.tasks ≡ some (q, some n)
          → t ≡ record {
            state = record (s.state) { queue = some (record p { tasks = q }) };
            running = n ∷ s.running;
          }
          → Step s t
      go_on :
          (k : ℕ) (u : State T (Option TaskPool)) (before behind : List ℕ)
          → s.running ≡ before ++ lambda k ∷ behind
          → continue post k s.state ≡ some u
          → t ≡ record { state = completed u; running = before ++ behind }
          → Step s t
      act :
          (f : ℕ) (before behind : List ℕ)
          → s.running ≡ before ++ 2 * f ∷ behind
          → t ≡ record { state = completed (effect f s.state); running = before ++ behind }
          → Step s t

    pub data Reach (s : System T) : System T → Type ℓ where
      here : Reach s s
      next : {t u : System T} → Reach s t → Step t u → Reach s u

  -- λ number k is of a coroutine whose future is pending.
  abbrev pub Waits : State T (Option TaskPool) → ℕ → Type ℓ
  Waits s k = (fr : Frame T) × (s.frames k ≡ some fr) × (s.shared fr.future ≡ pending)

  continue-Waits : (k : ℕ) (s : State T (Option TaskPool)) → Waits s k → continue post k s ≡ none
  unfolding continue await_ready
  continue-Waits k s (fr, e, waits) =
      let asleep : await_ready (s.shared fr.future) ≡ false = ap await_ready waits in
      rw (continue, e, asleep) refl

  module _ (threads : ℕ) (effect : ℕ → State T (Option TaskPool) → State T (Option TaskPool))
      (start : State T (Option TaskPool)) where
    -- Each thread has a λ that waits, or will take one, as those stand first in the queue.
    record IsStarved (s : System T) : Type ℓ where
      left : List ℕ
      behind : List ℕ
      pool : TaskPool
      is_pool : s.state.queue ≡ some pool
      is_queue : pool.tasks.container ≡ map lambda left ++ behind
      full : length s.running + length left ≡ threads
      running_wait : All (λ n. (k : ℕ) × (n ≡ lambda k) × Waits start k) s.running
      left_wait : All (Waits start) left
      same_shared : s.state.shared ≡ start.shared
      same_frames : s.state.frames ≡ start.frames

    Waits-now : {s : System T} (k : ℕ) → IsStarved s → Waits start k → Waits s.state k
    Waits-now k i (fr, e, waits) = rw (i.same_frames, i.same_shared) (fr, e, waits)

    issue-IsStarved :
        {s : System T} (f : ℕ)
        → IsStarved s
        → IsStarved
            (record s { state = record (s.state) { queue = post_async (2 * f) s.state.queue } })
    unfolding post_async async enqueue enqueue_count enqueue_push push
    issue-IsStarved {s} f i = record {
      left = i.left;
      behind = i.behind ++ (2 * f) ∷ [];
      pool = enqueue (2 * f) i.pool;
      is_pool = rw (i.is_pool) refl;
      is_queue =
          ap (λ xs. xs ++ (2 * f) ∷ []) i.is_queue
          ∙ append_assoc (map lambda i.left) i.behind ((2 * f) ∷ []);
      full = i.full;
      running_wait = i.running_wait;
      left_wait = i.left_wait;
      same_shared = i.same_shared;
      same_frames = i.same_frames;
    }

    take-IsStarved :
        {s : System T} (p : TaskPool) (n : ℕ) (q : Queue ℕ) (i : IsStarved s) (left : List ℕ)
        → i.left ≡ left
        → length s.running < threads
        → s.state.queue ≡ some p
        → pop_wait p.tasks ≡ some (q, some n)
        → IsStarved (record {
          state = record (s.state) { queue = some (record p { tasks = q }) };
          running = n ∷ s.running;
        })
    take-IsStarved {s} p n q i [] none_left free at pops =
        absurd (omega (arith, i.full, ap length none_left, free))
    take-IsStarved {s} p n q i (k ∷ ks) line free at pops =
        let same_pool : i.pool ≡ p = some-injective _ _ (sym i.is_pool ∙ at) in
        let container : p.tasks.container ≡ lambda k ∷ (map lambda ks ++ i.behind) =
          ap (λ x. x.tasks.container) (sym same_pool)
          ∙ i.is_queue
          ∙ ap (λ xs. map lambda xs ++ i.behind) line in
        let (first, rest) =
          pop_wait-front p.tasks (lambda k) (map lambda ks ++ i.behind) container pops in
        let (waits, left_wait) = subst (All (Waits start)) line i.left_wait in
        record {
          left = ks;
          behind = i.behind;
          pool = record p { tasks = q };
          is_pool = refl;
          is_queue = rest;
          full = omega (arith, i.full, ap length line);
          running_wait = ((k, first, waits), i.running_wait);
          left_wait = left_wait;
          same_shared = i.same_shared;
          same_frames = i.same_frames;
        }

    Step-IsStarved : {s t : System T} → Step threads effect s t → IsStarved s → IsStarved t
    Step-IsStarved {s} (issue f e) i = rw e (issue-IsStarved f i)
    Step-IsStarved {s} (take p n q free at pops e) i =
        rw e (take-IsStarved p n q i i.left refl free at pops)
    Step-IsStarved {s} (go_on k u before behind r runs e) i =
        let ((k', same, waits), _) =
          All-remove _ before (lambda k) behind (rw r at i.running_wait) in
        let own : k ≡ k' = omega (arith, same) in
        let stuck = continue-Waits k s.state (Waits-now k i (rw own waits)) in cc
    Step-IsStarved {s} (act f before behind r e) i =
        let ((k', same, _), _) = All-remove _ before (2 * f) behind (rw r at i.running_wait) in
        absurd (omega (arith, same))

    Reach-IsStarved : {s t : System T} → Reach threads effect s t → IsStarved s → IsStarved t
    Reach-IsStarved here i = i
    Reach-IsStarved (next r step) i = Step-IsStarved step (Reach-IsStarved r i)

  -- co_async on a pool of n threads of which none is busy, where the futures are settled by functions
  -- of the pool alone. The first n functions of its queue are the λs of coroutines that wait for
  -- futures that are pending. Then no future is ever settled, whatever the functions that stand behind
  -- them, or are enqueued later, would do: each thread that has taken a function has taken a λ that waits.
  pub co_async-starved :
      (threads : ℕ) (effect : ℕ → State T (Option TaskPool) → State T (Option TaskPool))
      (s : State T (Option TaskPool)) (pool : TaskPool) (waiting behind : List ℕ) {t : System T}
      → s.queue ≡ some pool
      → pool.tasks.container ≡ map lambda waiting ++ behind
      → length waiting ≡ threads
      → All (Waits s) waiting
      → Reach threads effect (record { state = s; running = [] }) t
      → (t.state.shared ≡ s.shared) × All (λ n. (k : ℕ) × (n ≡ lambda k) × Waits s k) t.running
  co_async-starved threads effect s pool waiting behind at line full waits reach =
      let i = Reach-IsStarved threads effect s reach (record {
        left = waiting;
        behind = behind;
        pool = pool;
        is_pool = at;
        is_queue = line;
        full = omega (arith, full);
        running_wait = tt;
        left_wait = waits;
        same_shared = refl;
        same_frames = refl;
      }) in
      (i.same_shared, i.running_wait)
