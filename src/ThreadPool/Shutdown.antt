-- ===== src/ThreadPool/Shutdown.antt =====
-- c9y/thread_pool.cpp: a pool that is asked to stop, joined and destroyed.
use c9y.Base.{ℕ, ◌≡◌, refl, Bool, true, none, some, List, [], ◌∷◌, Option, All}
use c9y.Exceptions.{Outcome, returned}
use c9y.Stop.{Heap, token_stop_requested, stop_requested, get_token}
use c9y.Stop.Requests.{source_request_stop-once}
use c9y.Jthread
use c9y.Jthread.{Jthread, joined}
use c9y.ThreadPool
use c9y.ThreadPool.{ThreadPool, request_stop_from, join_from, destroy_from}
use c9y.ThreadPool.Stopping.{AllStopped}
use c9y.ThreadPool.Destruction.{KeepsStops, IsCooperative, request_lem, KeepsStops-request}

AllStopped-kept {ℓ} :
    {W : Type ℓ} (js : List Jthread) (h k : Heap W)
    → KeepsStops h k
    → AllStopped js h
    → AllStopped js k
unfolding token_stop_requested stop_requested get_token
AllStopped-kept [] h k kept all = tt
AllStopped-kept (j ∷ js) h k kept (first, all) =
    (still j.stop.state first, AllStopped-kept js h k kept all)
  where
    still :
        (o : Option ℕ)
        → token_stop_requested (record { state = o }) h ≡ true
        → token_stop_requested (record { state = o }) k ≡ true
    still none e = e
    still (some a) e = kept a e

module _ {ℓ} {W : Type ℓ} (act : ℕ → W → Outcome W) (run_out : ℕ → Heap W → Option (Heap W))
    (quiet : (cb : ℕ) (w : W) → (w' : W) × (act cb w ≡ returned w')) where
  -- A request through every thread of the list: each thread's token sees it.
  request_stop_from-AllStopped :
      (js : List Jthread) (result : Bool) (h : Heap W)
      → All (IsCooperative run_out) js
      → (k : Heap W) × (granted : Bool) × (request_stop_from act run_out result js h
          ≡ some (k, granted))
        × AllStopped js k
        × KeepsStops h k
  unfolding request_stop_from Jthread.request_stop token_stop_requested stop_requested get_token
  request_stop_from-AllStopped [] result h coop = (h, result, refl, tt, λ a s. s)
  request_stop_from-AllStopped (j ∷ js) result h ((a, id, shape, ends), coop) =
      let (m, granted, e) = request_lem act run_out quiet a h in
      let (_, here, elsewhere, _) = source_request_stop-once act a h e in
      let (k, last, rest, all, kept) = request_stop_from-AllStopped js granted m coop in
      (
        k,
        last,
        rw shape (rw (e, request_stop_from) rest),
        (rw shape (kept a here), all),
        λ b s. kept b (KeepsStops-request a h m here elsewhere b s),
      )

  join_from-joined :
      (js : List Jthread) (h : Heap W)
      → All (IsCooperative run_out) js
      → AllStopped js h
      → (ended : List Jthread) × (k : Heap W) × (join_from act run_out js h ≡ joined (ended, k))
        × All (λ j. j.impl ≡ none) ended
        × KeepsStops h k
  unfolding join_from Jthread.joinable Jthread.join token_stop_requested stop_requested get_token
  join_from-joined [] h coop stopped = ([], h, refl, tt, λ a s. s)
  join_from-joined (j ∷ js) h ((a, id, shape, ends), coop) (first, stopped) =
      let (m, e, kept) = ends h (rw shape at first) in
      let (ended, k, rest, gone, kept') =
        join_from-joined js m coop (AllStopped-kept js h m kept stopped) in
      (
        record { stop = record { state = some a }; impl = none } ∷ ended,
        k,
        rw (shape, join_from) (rw e (rw rest refl)),
        (refl, gone),
        λ b s. kept' b (kept b s),
      )

  destroy_from-joined :
      (js : List Jthread) (h : Heap W)
      → All (λ j. j.impl ≡ none) js
      → destroy_from act run_out js h ≡ some (joined h)
  unfolding destroy_from Jthread.destroy Jthread.joinable
  destroy_from-joined [] h gone = refl
  destroy_from-joined (j ∷ js) h (e, gone) = rw e (destroy_from-joined js h gone)

  -- A pool each of whose threads has a state of its own and ends once a stop is requested through it,
  -- without withdrawing a request, with stop callbacks that do not throw. On any heap request_stop
  -- comes back, with every thread's token seeing the request; join, called then, comes to its end, and
  -- no thread can be joined after it; and the destructor of the pool then changes nothing.
  pub request_stop-join :
      (pool : ThreadPool) (h : Heap W)
      → All (IsCooperative run_out) pool.threads
      → (m : Heap W) × (granted : Bool) × (ThreadPool.request_stop act run_out pool h
          ≡ some (m, granted))
        × AllStopped pool.threads m
        × (ended : List Jthread) × (k : Heap W) × (join_from act run_out pool.threads m
            ≡ joined (ended, k))
        × All (λ j. j.impl ≡ none) ended
        × (ThreadPool.destroy act run_out (record { threads = ended }) k ≡ some (joined k))
  unfolding ThreadPool.request_stop ThreadPool.destroy
  request_stop-join pool h coop =
      let (m, granted, runs, stopped, _) =
        request_stop_from-AllStopped pool.threads Bool.false h coop in
      let (ended, k, joins, gone, _) = join_from-joined pool.threads m coop stopped in
      (m, granted, runs, stopped, ended, k, joins, gone, destroy_from-joined ended k gone)
