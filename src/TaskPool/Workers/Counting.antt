-- ===== src/TaskPool/Workers/Counting.antt =====
-- c9y/task_pool.cpp: what the threads of a pool have, and how many steps they can still do.
use c9y.Base.{
  ℕ, ◌+◌, ◌==◌, ◌≡◌, ◌⊎◌, inl, inr, refl, ap, none, some, List, [], ◌∷◌, ◌++◌, if◌then◌else◌, All,
  arith,
}
use c9y.Queue.{Queue, pop_wait, ready}
use c9y.TaskPool.Workers.{Worker, waiting, running, ended}

-- How many steps a thread can still do of itself at most.
abbrev pub weight : List Worker → ℕ
weight [] = 0
weight (waiting ∷ ws) = 1 + weight ws
weight (running f ∷ ws) = 2 + weight ws
weight (ended ∷ ws) = weight ws

-- How often the threads have a function.
abbrev pub at_work : ℕ → List Worker → ℕ
at_work x [] = 0
at_work x (waiting ∷ ws) = at_work x ws
at_work x (running f ∷ ws) = (if f == x then 1 else 0) + at_work x ws
at_work x (ended ∷ ws) = at_work x ws

weight-append : (vs ws : List Worker) → weight (vs ++ ws) ≡ weight vs + weight ws
weight-append [] ws = omega arith
weight-append (waiting ∷ vs) ws = omega (arith, weight-append vs ws)
weight-append (running f ∷ vs) ws = omega (arith, weight-append vs ws)
weight-append (ended ∷ vs) ws = omega (arith, weight-append vs ws)

at_work-append : (x : ℕ) (vs ws : List Worker) → at_work x (vs ++ ws) ≡ at_work x vs + at_work x ws
at_work-append x [] ws = omega arith
at_work-append x (waiting ∷ vs) ws = omega (arith, at_work-append x vs ws)
at_work-append x (running f ∷ vs) ws = omega (arith, at_work-append x vs ws)
at_work-append x (ended ∷ vs) ws = omega (arith, at_work-append x vs ws)

pub pop_wait-some :
    (q : Queue ℕ) {r : Queue ℕ} {f : ℕ}
    → pop_wait q ≡ some (r, some f)
    → (q.container ≡ f ∷ r.container) × (r.stopped ≡ q.stopped)
unfolding pop_wait ready
pop_wait-some q e = ground arith

pub pop_wait-none :
    (q : Queue ℕ) {r : Queue ℕ}
    → pop_wait q ≡ some (r, none)
    → (q.container ≡ []) × (r.container ≡ []) × (r.stopped ≡ q.stopped)
unfolding pop_wait ready
pop_wait-none q e = ground arith

-- A thread goes on to another place.
pub weight-replaced :
    (before behind : List Worker) (v w : Worker) (ws : List Worker)
    → ws ≡ before ++ v ∷ behind
    → weight (before ++ w ∷ behind) + weight (v ∷ []) ≡ weight ws + weight (w ∷ [])
weight-replaced before behind v w ws e = rw e (
    omega (
      arith,
      weight-append before (w ∷ behind),
      weight-append before (v ∷ behind),
      weight-append (w ∷ []) behind,
      weight-append (v ∷ []) behind,
    ))

pub at_work-replaced :
    (x : ℕ) (before behind : List Worker) (v w : Worker) (ws : List Worker)
    → ws ≡ before ++ v ∷ behind
    → at_work x (before ++ w ∷ behind) + at_work x (v ∷ []) ≡ at_work x ws + at_work x (w ∷ [])
at_work-replaced x before behind v w ws e = rw e (
    omega (
      arith,
      at_work-append x before (w ∷ behind),
      at_work-append x before (v ∷ behind),
      at_work-append x (w ∷ []) behind,
      at_work-append x (v ∷ []) behind,
    ))

-- The thread has not ended, and what it does next.
abbrev pub IsAlive : Worker → Type 0
IsAlive waiting = Unit
IsAlive (running f) = Unit
IsAlive ended = ⊥

abbrev pub Found : List Worker → Worker → Type 0
Found ws w = (before : List Worker) × (behind : List Worker) × (ws ≡ before ++ w ∷ behind)

pub find_alive :
    (ws : List Worker)
    → All (λ w. w ≡ ended) ws ⊎ (Found ws waiting ⊎ ((f : ℕ) × Found ws (running f)))
find_alive [] = inl tt
find_alive (waiting ∷ ws) = inr (inl ([], ws, refl))
find_alive (running f ∷ ws) = inr (inr (f, ([], ws, refl)))
find_alive (ended ∷ ws) = elim (find_alive ws) [
  | inl all ↦ inl (refl, all)
  | inr (inl (before, behind, e)) ↦ inr (inl (ended ∷ before, behind, ap (◌∷◌ ended) e))
  | inr (inr (f, (before, behind, e))) ↦ inr (inr (f, (ended ∷ before, behind, ap (◌∷◌ ended) e)))
]
