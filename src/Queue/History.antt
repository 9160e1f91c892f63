-- ===== src/Queue/History.antt =====
-- c9y/queue.h over any sequence of calls, by any threads: first in, first out, and nothing is lost.
use c9y.Base.{
  ◌≡◌, sym, ap, ◌∙◌, Bool, Option, none, some, List, [], ◌∷◌, ◌++◌, ◌>>=◌, arith, >>=-eq-some,
}
use mathlib.Core.Option.{some-injective}
use mathlib.Core.List.{append_assoc, append-nil}
use c9y.Queue.{Queue, push, push_move, emplace, pop, pop_wait, pop_wait_for, stop}

-- The calls of the interface.
pub data Call {ℓ} (T : Type ℓ) : Type ℓ where
  push_call push_move_call emplace_call : T → Call T
  pop_call pop_wait_call stop_call : Call T
  pop_wait_for_call : Bool → Call T

module _ {ℓ} {T : Type ℓ} where
  -- What a call hands in, and what a result hands out.
  abbrev pub pushed : Call T → List T
  pushed (push_call v) = v ∷ []
  pushed (push_move_call v) = v ∷ []
  pushed (emplace_call v) = v ∷ []
  pushed _ = []

  abbrev pub popped : Option T → List T
  popped none = []
  popped (some v) = v ∷ []

  -- One call; none: it sleeps.
  abbrev pub run_call : Call T → Queue T → Option (Queue T × Option T)
  run_call (push_call v) q = some ((push v q).0, none)
  run_call (push_move_call v) q = some ((push_move v q).0, none)
  run_call (emplace_call v) q = some ((emplace v q).0, none)
  run_call pop_call q = some (pop q)
  run_call pop_wait_call q = pop_wait q
  run_call stop_call q = some ((stop q).0, none)
  run_call (pop_wait_for_call timed_out) q = pop_wait_for timed_out q

  -- The calls in the order in which they get the mutex, and the values that they return.
  abbrev pub run_calls : List (Call T) → Queue T → Option (Queue T × List T)
  run_calls [] q = some (q, [])
  run_calls (c ∷ cs) q =
      run_call c q >>= λ r. run_calls cs r.0 >>= λ rest. some (rest.0, popped r.1 ++ rest.1)

  abbrev pub all_pushed : List (Call T) → List T
  all_pushed [] = []
  all_pushed (c ∷ cs) = pushed c ++ all_pushed cs

  run_call-append :
      (c : Call T) (q : Queue T) {r : Queue T × Option T}
      → run_call c q ≡ some r
      → popped r.1 ++ r.0.container ≡ q.container ++ pushed c
  unfolding push push_move emplace pop pop_wait pop_wait_for stop
  run_call-append (push_call v) q h = ground arith
  run_call-append (push_move_call v) q h = ground arith
  run_call-append (emplace_call v) q h = ground arith
  run_call-append pop_call q h = ground (arith, append-nil q.container)
  run_call-append pop_wait_call q h = ground (arith, append-nil q.container)
  run_call-append stop_call q h = ground (arith, append-nil q.container)
  run_call-append (pop_wait_for_call timed_out) q h = ground (arith, append-nil q.container)

  -- Whatever calls the threads make, in whatever order they get the mutex: the values returned,
  -- followed by those still held, are the values held before followed by those pushed, in the same
  -- order. So no value is lost, doubled or overtaken.
  pub run_calls-append :
      (cs : List (Call T)) (q : Queue T) {r : Queue T × List T}
      → run_calls cs q ≡ some r
      → r.1 ++ r.0.container ≡ q.container ++ all_pushed cs
  run_calls-append [] q h = ground (arith, append-nil q.container)
  run_calls-append (c ∷ cs) q {r} h =
      let ((q', v), first, more) = >>=-eq-some (run_call c q) _ h in
      let (rest, others, last) = >>=-eq-some (run_calls cs q') _ more in
      let e : (rest.0, popped v ++ rest.1) ≡ r = some-injective _ _ last in
      rw (← e) (
        append_assoc (popped v) rest.1 rest.0.container
        ∙ ap (◌++◌ (popped v)) (run_calls-append cs q' others)
        ∙ sym (append_assoc (popped v) q'.container (all_pushed cs))
        ∙ ap (λ xs. xs ++ all_pushed cs) (run_call-append c q first)
        ∙ append_assoc q.container (pushed c) (all_pushed cs))
