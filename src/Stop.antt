-- ===== src/Stop.antt =====
-- c9y/jthread.h and c9y/jthread.cpp: stop_state, and the tokens, sources and callbacks that share one.
-- A state stands on a heap, and a `shared_ptr` to it is its address, or none. A callback object is
-- known by a number; `act` says what its function does to the world and whether it throws. It is
-- called with the state's mutex held, so it must not call the state: it acts on the world alone.
pub mod Requests
pub mod Callbacks
pub mod Handles
mod Examples
use c9y.Base.{
  ℕ, suc, ◌==◌, Bool, true, false, Option, none, some, List, [], ◌∷◌, ◌++◌, ◌>>=◌, if◌then◌else◌,
}
use c9y.Exceptions.{Outcome, returned, threw}

pub record StopState : Type 0 where
  pub stopping : Bool
  pub callbacks : List ℕ

abbrev pub new_state : StopState
new_state = record { stopping = false; callbacks = [] }

-- `std::find` and `erase`: the first occurrence goes.
abbrev pub erase : ℕ → List ℕ → List ℕ
erase cb [] = []
erase cb (c ∷ cs) = if c == cb then cs else c ∷ erase cb cs

module _ {ℓ} {W : Type ℓ} (act : ℕ → W → Outcome W) where
  -- The loop of `request_stop`, under `noexcept`: an exception ends the process.
  unfoldable pub call_all : List ℕ → W → Option W
  call_all [] w = some w
  call_all (cb ∷ cbs) w = elim (act cb w) [ returned w' ↦ call_all cbs w' | threw w' ↦ none ]

  -- `stop_state::request_stop`
  unfoldable pub request_stop : StopState → W → Option (StopState × W × Bool)
  unfolding call_all
  request_stop st w =
      if st.stopping
      then some (st, w, false)
      else (call_all st.callbacks w >>= λ w'.
          some (record { stopping = true; callbacks = [] }, w', true))

  -- `stop_state::add_callback`
  unfoldable pub add_callback : ℕ → StopState → W → StopState × Outcome W
  add_callback cb st w =
      if st.stopping
      then (st, act cb w)
      else (record st { callbacks = st.callbacks ++ cb ∷ [] }, returned w)

-- `stop_state::stop_requested`
unfoldable pub stop_requested : StopState → Bool
stop_requested st = st.stopping

-- `stop_state::remove_callback`
unfoldable pub remove_callback : ℕ → StopState → StopState
remove_callback cb st = record st { callbacks = erase cb st.callbacks }

-- The heap: the state at each address, the next free address, and all else.
pub record Heap {ℓ} (W : Type ℓ) : Type ℓ where
  pub states : ℕ → StopState
  pub next : ℕ
  pub world : W

abbrev pub store {ℓ} : {W : Type ℓ} → ℕ → StopState → Heap W → Heap W
store a st h = record h { states = λ b. if a == b then st else h.states b }

-- `stop_token` and `stop_source`: a pointer to a state, or none.
pub record StopToken : Type 0 where
  pub state : Option ℕ

pub record StopSource : Type 0 where
  pub state : Option ℕ

pub record StopCallback : Type 0 where
  pub token : StopToken
  pub callback : ℕ

-- A token that the default constructor makes, and a source for `nostopstate`.
abbrev pub no_token : StopToken
no_token = record { state = none }

abbrev pub no_source : StopSource
no_source = record { state = none }

-- `static_cast<bool>(state)`
abbrev pub is_set : Option ℕ → Bool
is_set none = false
is_set (some a) = true

module _ {ℓ} {W : Type ℓ} where
  unfoldable pub new_source : Heap W → StopSource × Heap W
  new_source h =
      (record { state = some h.next }, store h.next new_state (record h { next = suc h.next }))

  abbrev pub requested_at : Option ℕ → Heap W → Bool
  requested_at none h = false
  requested_at (some a) h = stop_requested (h.states a)

  unfoldable pub token_stop_requested : StopToken → Heap W → Bool
  unfolding stop_requested
  token_stop_requested t h = requested_at t.state h

module _ {ℓ} {W : Type ℓ} (act : ℕ → W → Outcome W) where
  abbrev pub request_at : Option ℕ → Heap W → Option (Heap W × Bool)
  request_at none h = some (h, false)
  request_at (some a) h = request_stop act (h.states a) h.world >>= λ r.
      some (record (store a r.0 h) { world = r.1 }, r.2)

  -- `stop_source::request_stop`
  unfoldable pub source_request_stop : StopSource → Heap W → Option (Heap W × Bool)
  unfolding request_stop
  source_request_stop s h = request_at s.state h

  abbrev pub with_world : Heap W → Outcome W → Outcome (Heap W)
  with_world h (returned w) = returned (record h { world = w })
  with_world h (threw w) = threw (record h { world = w })

  abbrev pub register_at : Option ℕ → ℕ → Heap W → Outcome (Heap W)
  register_at none cb h = with_world h (act cb h.world)
  register_at (some a) cb h =
      let (st, o) = add_callback act cb (h.states a) h.world in with_world (store a st h) o

  -- `stop_callback::self_register`, which both constructors call.
  unfoldable pub self_register : StopCallback → Heap W → Outcome (Heap W)
  unfolding add_callback
  self_register c h = register_at c.token.state c.callback h

module _ {ℓ} {W : Type ℓ} where
  abbrev pub deregister_at : Option ℕ → ℕ → Heap W → Heap W
  deregister_at none cb h = h
  deregister_at (some a) cb h = store a (remove_callback cb (h.states a)) h

  -- `stop_callback::~stop_callback`
  unfoldable pub destroy_callback : StopCallback → Heap W → Heap W
  unfolding remove_callback
  destroy_callback c h = deregister_at c.token.state c.callback h

unfoldable pub get_token : StopSource → StopToken
get_token s = record { state = s.state }

unfoldable pub token_stop_possible : StopToken → Bool
token_stop_possible t = is_set t.state

unfoldable pub source_stop_possible : StopSource → Bool
source_stop_possible s = is_set s.state

unfoldable pub swap_tokens : StopToken → StopToken → StopToken × StopToken
swap_tokens a b = (record { state = b.state }, record { state = a.state })

unfoldable pub swap_sources : StopSource → StopSource → StopSource × StopSource
swap_sources a b = (record { state = b.state }, record { state = a.state })
