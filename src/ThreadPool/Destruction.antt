-- ===== src/ThreadPool/Destruction.antt =====
-- c9y/thread_pool.h: a pool that is destroyed, or assigned to, asks its threads to stop and joins them,
-- one after another.
use c9y.Base.{
  ℕ, ◌≡◌, ◌≢◌, refl, ap, subst, ◌∙◌, Bool, true, false, none, some, List, [], ◌∷◌, Option, All,
}
use native.Mathlib.Decide.{ℕ_discrete}
use c9y.Exceptions.{Outcome, returned}
use c9y.Stop.{
  Heap, call_all, request_stop, token_stop_requested, stop_requested, source_request_stop,
  get_token, store,
}
use c9y.Stop.Requests.{source_request_stop-once, refused}
use c9y.Jthread
use c9y.Jthread.{Jthread, joined}
use c9y.ThreadPool.{ThreadPool, destroy_from, destroy, assign}
use c9y.ThreadPool.Stopping.{AllStopped}

-- What happens between two heaps does not withdraw a stop request.
abbrev pub KeepsStops {ℓ} : {W : Type ℓ} → Heap W → Heap W → Type 0
KeepsStops h k = (a : ℕ) → (h.states a).stopping ≡ true → (k.states a).stopping ≡ true

-- A thread that was started, with a state of its own, and that ends once its token sees a request.
abbrev pub IsCooperative {ℓ} : {W : Type ℓ} → (ℕ → Heap W → Option (Heap W)) → Jthread → Type ℓ
IsCooperative {W} run_out j =
    (a id : ℕ) × (j ≡ record { stop = record { state = some a }; impl = some id })
    × ((h : Heap W)
        → (h.states a).stopping ≡ true
        → (k : Heap W) × (run_out id h ≡ some k) × KeepsStops h k)

-- A request at one address that changes no other state.
pub KeepsStops-request {ℓ} :
    {W : Type ℓ} (a : ℕ) (h m : Heap W)
    → (m.states a).stopping ≡ true
    → ((b : ℕ) → a ≢ b → m.states b ≡ h.states b)
    → KeepsStops h m
KeepsStops-request a h m here elsewhere b s = elim (ℕ_discrete a b) [
  | yes same ↦ subst (λ x. (m.states x).stopping ≡ true) same here
  | no other ↦ ap (λ st. st.stopping) (elsewhere b other) ∙ s
]

module _ {ℓ} {W : Type ℓ} (act : ℕ → W → Outcome W) (run_out : ℕ → Heap W → Option (Heap W))
    (quiet : (cb : ℕ) (w : W) → (w' : W) × (act cb w ≡ returned w')) where
  call_all_lem : (cbs : List ℕ) (w : W) → (w' : W) × (call_all act cbs w ≡ some w')
  unfolding call_all
  call_all_lem [] w = (w, refl)
  call_all_lem (cb ∷ cbs) w =
      let (w₁, e) = quiet cb w in
      let (w₂, rest) = call_all_lem cbs w₁ in (w₂, rw (e, call_all) rest)

  pub request_lem :
      (a : ℕ) (h : Heap W)
      → (k : Heap W) × (granted : Bool) × (source_request_stop act (record { state = some a }) h
          ≡ some (k, granted))
  unfolding source_request_stop request_stop
  request_lem a h = go (h.states a).stopping refl
    where
      go :
          (b : Bool)
          → (h.states a).stopping ≡ b
          → (k : Heap W) × (granted : Bool) × (source_request_stop act (record { state = some a }) h
              ≡ some (k, granted))
      go true e = (h, false, refused act a h e)
      go false e =
          let (w, runs) = call_all_lem (h.states a).callbacks h.world in
          (
            record (store a (record { stopping = true; callbacks = [] }) h) { world = w },
            true,
            rw (e, source_request_stop, request_stop) (rw runs refl),
          )

  destroy_started :
      (a id : ℕ) (h : Heap W)
      → ((m : Heap W)
          → (m.states a).stopping ≡ true
          → (k : Heap W) × (run_out id m ≡ some k) × KeepsStops m k)
      → let j : Jthread = record { stop = record { state = some a }; impl = some id } in
        (k : Heap W) × (Jthread.destroy act run_out j h
          ≡ some (joined (record j { impl = none }, k)))
        × ((k.states a).stopping ≡ true)
        × KeepsStops h k
  unfolding Jthread.destroy Jthread.joinable Jthread.join Jthread.request_stop token_stop_requested
      stop_requested
  destroy_started a id h ends =
      let (m, granted, e) = request_lem a h in
      let (_, here, elsewhere, _) = source_request_stop-once act a h e in
      let (k, ended, kept) = ends m here in
      (
        k,
        rw e (rw ended refl),
        kept a here,
        λ b s. kept b (KeepsStops-request a h m here elsewhere b s),
      )

  destroy_lem :
      (js : List Jthread) (h : Heap W)
      → All (IsCooperative run_out) js
      → (k : Heap W) × (destroy_from act run_out js h ≡ some (joined k))
        × AllStopped js k
        × KeepsStops h k
  unfolding destroy_from token_stop_requested stop_requested get_token
  destroy_lem [] h coop = (h, refl, tt, λ a s. s)
  destroy_lem (j ∷ js) h ((a, id, shape, ends), coop) =
      let (m, ended, stopped, kept) = destroy_started a id h ends in
      let (k, rest, all, kept') = destroy_lem js m coop in
      (
        k,
        rw shape (rw (ended, destroy_from) rest),
        (rw shape (kept' a stopped), all),
        λ b s. kept' b (kept b s),
      )

  -- A pool each of whose threads has a state of its own and ends once a stop is requested through it,
  -- without withdrawing a request, with stop callbacks that do not throw. On any heap its destructor
  -- comes to its end, with every thread's token seeing the request and no request withdrawn. Move assignment to such a pool ends on the same heap and gives the other pool's threads to
  -- the target.
  pub destroy-AllStopped :
      (pool other : ThreadPool) (h : Heap W)
      → All (IsCooperative run_out) pool.threads
      → (k : Heap W) × (destroy act run_out pool h ≡ some (joined k))
        × AllStopped pool.threads k
        × KeepsStops h k
        × (assign act run_out pool other h ≡ some (joined (other, record { threads = [] }, k)))
  unfolding destroy assign
  destroy-AllStopped pool other h coop =
      let (k, ended, stopped, kept) = destroy_lem pool.threads h coop in
      (k, ended, stopped, kept, rw ended refl)
