-- ===== src/Stop/Examples.antt =====
-- Stop states on small inputs. The world is the list of the callbacks that ran.
use c9y.Base.{ℕ, ◌==◌, ◌≡◌, refl, true, false, some, List, [], ◌∷◌, if◌then◌else◌}
use c9y.Stop.{
  StopState, new_state, Heap, token_stop_requested, source_request_stop, request_stop, call_all,
  token_stop_possible, source_stop_possible, is_set,
}
use c9y.Stop.Handles.{
  Handles, no_handles, copied, moved, HandleCall, source_made, source_changed, token_taken,
  stop_asked, calls,
}
use c9y.Stop.Handles.Origins.{source_origin, token_origin, should_see}
use c9y.Stop.Handles.Sharing.{tokens-should_see}
use c9y.Stop.Callbacks.{logging, register, deregister, request, run_events, callbacks-should_run}

abbrev two_callbacks : Heap (List ℕ)
two_callbacks = record {
  states = λ a. record { stopping = false; callbacks = 7 ∷ 8 ∷ [] };
  next = 4;
  world = [];
}

abbrev after_request : Heap (List ℕ)
after_request = record {
  states =
      λ a. if 3 == a then record { stopping = true; callbacks = [] } else two_callbacks.states a;
  next = 4;
  world = 7 ∷ 8 ∷ [];
}

request_stop-two_callbacks :
    source_request_stop logging (record { state = some 3 }) two_callbacks
    ≡ some (after_request, true)
unfolding source_request_stop request_stop call_all
request_stop-two_callbacks = refl

callbacks-should_run_example :
    (st : StopState) × (run_events
        (register 1 ∷ register 2 ∷ deregister 1 ∷ request ∷ register 3 ∷ [])
        (new_state, [])
      ≡ some (st, 2 ∷ 3 ∷ []))
callbacks-should_run_example =
    callbacks-should_run (register 1 ∷ register 2 ∷ deregister 1 ∷ request ∷ register 3 ∷ [])

-- Two sources: token 0 is of the first, which is copied and then overwritten by a move of the second,
-- whose token is 1; the stop is requested through the copy.
abbrev history : List HandleCall
history =
    stop_asked 2
    ∷ token_taken 1 0
    ∷ source_changed moved 0 1
    ∷ source_changed copied 2 0
    ∷ token_taken 0 0
    ∷ source_made 1
    ∷ source_made 0
    ∷ []

tokens-should_see_example :
    (h : Handles (List ℕ)) × (calls logging history (no_handles []) ≡ some h)
    × ((t : ℕ)
        → token_stop_requested (h.tokens t) h.heap ≡ should_see (token_origin history t) history)
    × ((t : ℕ) → token_stop_possible (h.tokens t) ≡ is_set (token_origin history t))
    × ((s : ℕ) → source_stop_possible (h.sources s) ≡ is_set (source_origin history s))
tokens-should_see_example = tokens-should_see logging history []

-- Token 0 sees the request, and token 1 does not.
history_seen : should_see (token_origin history 0) history ≡ true
history_seen = refl

history_unseen : should_see (token_origin history 1) history ≡ false
history_unseen = refl
