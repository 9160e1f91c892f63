-- ===== src/Stop/Requests.antt =====
-- c9y/jthread.cpp: a stop request is granted once, and every token of the same state sees it.
use c9y.Base.{
  ℕ, ◌≡◌, ◌≢◌, refl, sym, ap, subst, ◌∙◌, Bool, true, false, not, some, [], arith, >>=-eq-some,
}
use mathlib.Core.Path.{fun_ext}
use mathlib.Core.Option.{some-injective}
use c9y.Exceptions.{Outcome}
use c9y.Stop.{
  StopState, call_all, request_stop, Heap, token_stop_requested, stop_requested,
  source_request_stop, store, new_state,
}

store-same {ℓ} : {W : Type ℓ} (a : ℕ) (h : Heap W) → store a (h.states a) h ≡ h
store-same a h = ap (λ f. record h { states = f }) (fun_ext (λ b. ground arith))

module _ {ℓ} {W : Type ℓ} (act : ℕ → W → Outcome W) where
  request_stop_lem :
      (st : StopState) (w : W) {r : StopState × W × Bool}
      → request_stop act st w ≡ some r
      → (r.0.stopping ≡ true) × (r.2 ≡ not st.stopping)
  unfolding request_stop
  request_stop_lem st w h = ground arith

  request_stop-again :
      (st : StopState) (w : W) → st.stopping ≡ true → request_stop act st w ≡ some (st, w, false)
  unfolding request_stop
  request_stop-again st w h = ground arith

  pub refused :
      (a : ℕ) (h : Heap W)
      → (h.states a).stopping ≡ true
      → source_request_stop act (record { state = some a }) h ≡ some (h, false)
  unfolding source_request_stop
  refused a h e =
      rw (request_stop-again (h.states a) h.world e) (ap (λ k. some (k, false)) (store-same a h))

  pub granted_new :
      (a : ℕ) (h : Heap W)
      → h.states a ≡ new_state
      → source_request_stop act (record { state = some a }) h
        ≡ some (store a (record { stopping = true; callbacks = [] }) h, true)
  unfolding source_request_stop request_stop call_all
  granted_new a h e = rw e refl

  -- A source that shares the state at some address: if its request comes back, then it was granted
  -- exactly if no token of the state saw a request before; every token of the state sees one now; the
  -- states at the other addresses are as before; and a second request, by any source of the state,
  -- is refused and changes nothing.
  pub source_request_stop-once :
      (a : ℕ) (h : Heap W) {h' : Heap W} {granted : Bool}
      → source_request_stop act (record { state = some a }) h ≡ some (h', granted)
      → (granted ≡ not (token_stop_requested (record { state = some a }) h))
        × (token_stop_requested (record { state = some a }) h' ≡ true)
        × ((b : ℕ) → a ≢ b → h'.states b ≡ h.states b)
        × (source_request_stop act (record { state = some a }) h' ≡ some (h', false))
  unfolding source_request_stop token_stop_requested stop_requested
  source_request_stop-once a h {h'} {granted} e =
      let (r, first, last) = >>=-eq-some (request_stop act (h.states a) h.world) _ e in
      let (stopped, grant) = request_stop_lem (h.states a) h.world first in
      let pair : (record (store a r.0 h) { world = r.1 }, r.2) ≡ (h', granted) =
        some-injective _ _ last in
      let heap : record (store a r.0 h) { world = r.1 } ≡ h' = ap (λ p. p.0) pair in
      let here : (h'.states a).stopping ≡ true =
        subst (λ k. (k.states a).stopping ≡ true) heap (at_a r.0 r.1 stopped) in
      (
        sym (ap (λ p. p.1) pair) ∙ grant,
        here,
        λ b ne. subst (λ k. k.states b ≡ h.states b) heap (elsewhere r.0 r.1 b ne),
        refused a h' here,
      )
    where
      elsewhere :
          (st : StopState) (w : W) (b : ℕ)
          → a ≢ b
          → (record (store a st h) { world = w }).states b ≡ h.states b
      elsewhere st w b ne = ground arith

      at_a :
          (st : StopState) (w : W)
          → st.stopping ≡ true
          → ((record (store a st h) { world = w }).states a).stopping ≡ true
      at_a st w e' = ground arith
