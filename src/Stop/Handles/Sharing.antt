-- ===== src/Stop/Handles/Sharing.antt =====
-- c9y/jthread.cpp: a token sees a stop request if and only if one was made through a source of the same
-- origin, which the history of the program's calls gives.
use c9y.Base.{
  ℕ, suc, ◌==◌, ◌≤◌, ◌<◌, ◌≡◌, refl, sym, ap, ◌∙◌, Bool, true, false, ◌||◌, Option, none, some,
  List, [], ◌∷◌, if◌then◌else◌, arith, inl, inr, ◌⊎◌, Bool-cases,
}
use c9y.Exceptions.{Outcome}
use c9y.Stop.{
  Heap, StopState, StopSource, StopToken, is_set, token_stop_requested, token_stop_possible,
  source_stop_possible, stop_requested, source_request_stop, swap_sources, swap_tokens, get_token,
  new_source, store,
}
use c9y.Stop.Requests.{refused, granted_new}
use c9y.Stop.Handles.{
  Handles, no_handles, Transfer, copied, moved, swapped, HandleCall, source_made, source_changed,
  token_changed, token_taken, stop_asked, call, calls, transfer_sources, transfer_tokens,
  copy_source, move_source, copy_token, move_token,
}
use c9y.Stop.Handles.Origins.{
  sources_made, trace, source_origin, token_origin, is_at, requested, should_see,
}

abbrev Below : ℕ → Option ℕ → Type 0
Below m none = Unit
Below m (some a) = a < m

Below-suc : (m : ℕ) (o : Option ℕ) → Below m o → Below (suc m) o
Below-suc m none low = tt
Below-suc m (some a) low = omega arith

if-All : (P : Option ℕ → Type 0) (b : Bool) (x y : Option ℕ) → P x → P y → P (if b then x else y)
if-All P true x y px py = px
if-All P false x y px py = py

trace-All :
    (P : Option ℕ → Type 0) (how : Transfer) (to from : ℕ) (origin : ℕ → Option ℕ)
    → P none
    → ((n : ℕ) → P (origin n))
    → (n : ℕ) → P (trace how to from origin n)
trace-All P copied to from origin empty each n = if-All P (to == n) _ _ (each from) (each n)
trace-All P moved to from origin empty each n =
    if-All P (to == n) _ _ (each from) (if-All P (from == n) _ _ empty (each n))
trace-All P swapped to from origin empty each n =
    if-All P (from == n) _ _ (each to) (if-All P (to == n) _ _ (each from) (each n))

source_origin-Below : (cs : List HandleCall) (s : ℕ) → Below (sources_made cs) (source_origin cs s)
source_origin-Below [] s = tt
source_origin-Below (source_made to ∷ cs) s =
    let m = sources_made cs in
    if-All (Below (suc m)) (to == s) (some m) (source_origin cs s) (omega arith)
      (Below-suc m (source_origin cs s) (source_origin-Below cs s))
source_origin-Below (source_changed how to from ∷ cs) s =
    trace-All (Below (sources_made cs)) how to from (source_origin cs) tt (source_origin-Below cs) s
source_origin-Below (token_changed how to from ∷ cs) s = source_origin-Below cs s
source_origin-Below (token_taken to from ∷ cs) s = source_origin-Below cs s
source_origin-Below (stop_asked by ∷ cs) s = source_origin-Below cs s

is_at-Below : (o : Option ℕ) (m a : ℕ) → Below m o → m ≤ a → is_at o a ≡ false
is_at-Below none m a low le = refl
is_at-Below (some b) m a low le = ground arith

requested-fresh : (cs : List HandleCall) (a : ℕ) → sources_made cs ≤ a → requested a cs ≡ false
requested-fresh [] a le = refl
requested-fresh (source_made to ∷ cs) a le = requested-fresh cs a (omega arith)
requested-fresh (source_changed how to from ∷ cs) a le = requested-fresh cs a le
requested-fresh (token_changed how to from ∷ cs) a le = requested-fresh cs a le
requested-fresh (token_taken to from ∷ cs) a le = requested-fresh cs a le
requested-fresh (stop_asked by ∷ cs) a le =
    rw (is_at-Below (source_origin cs by) (sources_made cs) a (source_origin-Below cs by) le)
      (requested-fresh cs a le)

transfer_sources-trace :
    (how : Transfer) (to from : ℕ) (sources : ℕ → StopSource) (origin : ℕ → Option ℕ)
    → ((n : ℕ) → (sources n).state ≡ origin n)
    → (n : ℕ) → (transfer_sources how to from sources n).state ≡ trace how to from origin n
unfolding transfer_sources copy_source move_source swap_sources
transfer_sources-trace copied to from sources origin same n = grind arith
transfer_sources-trace moved to from sources origin same n = grind arith
transfer_sources-trace swapped to from sources origin same n = grind arith

transfer_tokens-trace :
    (how : Transfer) (to from : ℕ) (tokens : ℕ → StopToken) (origin : ℕ → Option ℕ)
    → ((n : ℕ) → (tokens n).state ≡ origin n)
    → (n : ℕ) → (transfer_tokens how to from tokens n).state ≡ trace how to from origin n
unfolding transfer_tokens copy_token move_token swap_tokens
transfer_tokens-trace copied to from tokens origin same n = grind arith
transfer_tokens-trace moved to from tokens origin same n = grind arith
transfer_tokens-trace swapped to from tokens origin same n = grind arith

stopped_if :
    (b : Bool) (st : StopState) {on : Bool}
    → st ≡ record { stopping = on; callbacks = [] }
    → (if b then record { stopping = true; callbacks = [] } else st)
      ≡ record { stopping = b || on; callbacks = [] }
stopped_if true st e = refl
stopped_if false st e = e

module _ {ℓ} {W : Type ℓ} (act : ℕ → W → Outcome W) where
  -- What the heap holds where no callback is registered, with what is requested at each address.
  abbrev Holds : (ℕ → Bool) → Heap W → Type 0
  Holds seen h = (a : ℕ) → h.states a ≡ record { stopping = seen a; callbacks = [] }

  request-Holds :
      (o : Option ℕ) (seen : ℕ → Bool) (h : Heap W)
      → Holds seen h
      → (k : Heap W) × (granted : Bool) × (source_request_stop act (record { state = o }) h
          ≡ some (k, granted))
        × (k.next ≡ h.next)
        × Holds (λ a. is_at o a || seen a) k
  unfolding source_request_stop
  request-Holds none seen h holds = (h, false, refl, refl, holds)
  request-Holds (some b) seen h holds = go (seen b) refl
    where
      go :
          (on : Bool)
          → seen b ≡ on
          → (k : Heap W) × (granted : Bool) × (source_request_stop act (record { state = some b }) h
              ≡ some (k, granted))
            × (k.next ≡ h.next)
            × Holds (λ a. is_at (some b) a || seen a) k
      go true on = (
        h,
        false,
        refused act b h (ap (λ st. st.stopping) (holds b) ∙ on),
        refl,
        λ a. holds a ∙ ap (λ x. record { stopping = x; callbacks = [] }) grind arith,
      )
      go false off = (
        store b (record { stopping = true; callbacks = [] }) h,
        true,
        granted_new act b h (holds b ∙ ap (λ x. record { stopping = x; callbacks = [] }) off),
        refl,
        λ a. let at = holds a in stopped_if (b == a) (h.states a) at,
      )

  -- The sources and the tokens point to the states that their origins have, in the order in which they
  -- were made, and each state has seen the requests for it.
  abbrev Tracks : List HandleCall → Handles W → Type 0
  Tracks cs h =
      ((s : ℕ) → (h.sources s).state ≡ source_origin cs s)
      × ((t : ℕ) → (h.tokens t).state ≡ token_origin cs t)
      × (h.heap.next ≡ sources_made cs)
      × Holds (λ a. requested a cs) h.heap

  call-Tracks :
      (c : HandleCall) (cs : List HandleCall) (h : Handles W)
      → Tracks cs h
      → (k : Handles W) × (call act c h ≡ some k) × Tracks (c ∷ cs) k
  unfolding call new_source get_token
  call-Tracks (source_made to) cs h (sources, tokens, next, holds) = (
    _,
    refl,
    (
      λ s. grind (arith, sources, next),
      tokens,
      ap suc next,
      λ a. made_new a (Bool-cases (h.heap.next == a)),
    ),
  )
    where
      made_new :
          (a : ℕ)
          → (((h.heap.next == a) ≡ true) ⊎ ((h.heap.next == a) ≡ false))
          → (new_source h.heap).1.states a ≡ record { stopping = requested a cs; callbacks = [] }
      made_new a (inl e) = rw e (
          ap (λ x. record { stopping = x; callbacks = [] })
            (sym (requested-fresh cs a (ground (arith, e, next)))))
      made_new a (inr e) = rw e (holds a)
  call-Tracks (source_changed how to from) cs h (sources, tokens, next, holds) = (
    _,
    refl,
    (transfer_sources-trace how to from h.sources (source_origin cs) sources, tokens, next, holds),
  )
  call-Tracks (token_changed how to from) cs h (sources, tokens, next, holds) = (
    _,
    refl,
    (sources, transfer_tokens-trace how to from h.tokens (token_origin cs) tokens, next, holds),
  )
  call-Tracks (token_taken to from) cs h (sources, tokens, next, holds) =
      (_, refl, (sources, λ t. grind (arith, sources, tokens), next, holds))
  call-Tracks (stop_asked by) cs h (sources, tokens, next, holds) =
      let (k, granted, e, same, holds') =
        request-Holds (source_origin cs by) (λ a. requested a cs) h.heap holds in
      let at : h.sources by ≡ record { state = source_origin cs by } =
        ap (λ o. record { state = o }) (sources by) in
      (record h { heap = k }, rw at (rw e refl), (sources, tokens, same ∙ next, holds'))

  calls-Tracks :
      (cs : List HandleCall) (w : W)
      → (h : Handles W) × (calls act cs (no_handles w) ≡ some h) × Tracks cs h
  calls-Tracks [] w = (no_handles w, refl, (λ s. refl, λ t. refl, refl, λ a. refl))
  calls-Tracks (c ∷ cs) w =
      let (h, e, tracks) = calls-Tracks cs w in
      let (k, e', tracks') = call-Tracks c cs h tracks in (k, rw e e', tracks')

  -- A program starts without tokens and sources and calls the constructors, the copies, the moves and
  -- the assignments of both, the swaps, get_token and request_stop, in any order. No call fails, and
  -- then each token sees a stop request if and only if one was made through a source that went back
  -- to the same constructed source as the token does; and a stop is possible for the tokens and the
  -- sources that go back to one, and for no others.
  pub tokens-should_see :
      (cs : List HandleCall) (w : W)
      → (h : Handles W) × (calls act cs (no_handles w) ≡ some h)
        × ((t : ℕ) → token_stop_requested (h.tokens t) h.heap ≡ should_see (token_origin cs t) cs)
        × ((t : ℕ) → token_stop_possible (h.tokens t) ≡ is_set (token_origin cs t))
        × ((s : ℕ) → source_stop_possible (h.sources s) ≡ is_set (source_origin cs s))
  unfolding token_stop_requested stop_requested token_stop_possible source_stop_possible
  tokens-should_see cs w =
      let (h, e, (sources, tokens, _, holds)) = calls-Tracks cs w in
      (
        h,
        e,
        λ t. rw (tokens t) (seen (token_origin cs t) h.heap holds),
        λ t. ap is_set (tokens t),
        λ s. ap is_set (sources s),
      )
    where
      seen :
          (o : Option ℕ) (heap : Heap W)
          → Holds (λ a. requested a cs) heap
          → token_stop_requested (record { state = o }) heap ≡ should_see o cs
      seen none heap holds = refl
      seen (some a) heap holds = ap (λ st. st.stopping) (holds a)
