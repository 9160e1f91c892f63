-- ===== src/Jthread/Lifetime.antt =====
-- c9y/jthread.cpp: a thread's own token, and the destructor that asks for a stop and joins.
use c9y.Base.{ℕ, ◌≡◌, refl, sym, Bool, true, false, Option, none, some, arith}
use mathlib.Core.Option.{some-injective}
use c9y.Exceptions.{Outcome}
use c9y.Stop.{Heap, token_stop_requested, stop_requested, source_request_stop}
use c9y.Stop.Requests.{source_request_stop-once}
use c9y.Jthread.{Jthread, Joined, start, after_end, join, join_after, destroy, get_stop_token}

module _ {ℓ} {W : Type ℓ} (act : ℕ → W → Outcome W) (run_out : ℕ → Heap W → Option (Heap W)) where
  -- The destructor of a thread that can be joined, with the state at address `a`.
  destroy_lem :
      (id a : ℕ) (h : Heap W) (o : Option (Heap W × Bool))
      → source_request_stop act (record { state = some a }) h ≡ o
      → {r : Joined (Jthread × Heap W)}
      → join_after act run_out (record { stop = record { state = some a }; impl = some id }) o
        ≡ some r
      → (k : Heap W) × (token_stop_requested (record { state = some a }) k ≡ true)
        × (r
            ≡ after_end act run_out
                (record { stop = record { state = some a }; impl = some id })
                (run_out id k))
  unfolding join
  destroy_lem id a h none e f = cc
  destroy_lem id a h (some (k, granted)) e f =
      (k, (source_request_stop-once act a h e).1, sym (some-injective _ _ f))

  -- A thread that was started with a function that takes a token: the token belongs to the thread's
  -- own new state, in which no stop is requested yet. If the destructor comes to its end, on whatever
  -- heap there is by then, it has waited for the thread on a heap on which that token sees a stop
  -- request, and its outcome is that of the wait, after which the thread cannot be joined.
  pub start-destroy :
      (id : ℕ) (h k : Heap W) (r : Joined (Jthread × Heap W))
      → destroy act run_out (start act run_out true id h).0 k ≡ some r
      → let s = start act run_out true id h in
        (s.1 ≡ some (get_stop_token s.0))
        × (token_stop_requested (get_stop_token s.0) s.2 ≡ false)
        × ((at : Heap W) × (token_stop_requested (get_stop_token s.0) at ≡ true)
            × (r ≡ after_end act run_out s.0 (run_out id at)))
  unfolding start get_stop_token token_stop_requested stop_requested destroy
  start-destroy id h k r e = (
    refl,
    ground arith,
    destroy_lem id h.next k (source_request_stop act (record { state = some h.next }) k) refl e,
  )
