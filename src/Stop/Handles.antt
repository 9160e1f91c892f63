-- ===== src/Stop/Handles.antt =====
-- c9y/jthread.h and c9y/jthread.cpp: the copies, the moves and the assignments of tokens and sources,
-- and a program's tokens and sources, by name, with the calls that make and change them.
pub mod Origins
pub mod Sharing
use c9y.Base.{ℕ, Option, none, some, List, [], ◌∷◌, ◌>>=◌, update}
use c9y.Exceptions.{Outcome}
use c9y.Stop.{
  Heap, new_state, StopSource, StopToken, no_source, no_token, new_source, get_token, swap_sources,
  swap_tokens, source_request_stop,
}

-- The copy constructors and the copy assignments: the pointer is copied.
unfoldable pub copy_token : StopToken → StopToken
copy_token other = record { state = other.state }

unfoldable pub copy_source : StopSource → StopSource
copy_source other = record { state = other.state }

-- The move constructors and the move assignments: the new handle, and what is left of the old one.
unfoldable pub move_token : StopToken → StopToken × StopToken
move_token other = (record { state = other.state }, record { state = none })

unfoldable pub move_source : StopSource → StopSource × StopSource
move_source other = (record { state = other.state }, record { state = none })

pub record Handles {ℓ} (W : Type ℓ) : Type ℓ where
  pub sources : ℕ → StopSource
  pub tokens : ℕ → StopToken
  pub heap : Heap W

abbrev pub no_handles {ℓ} : {W : Type ℓ} → W → Handles W
no_handles w = record {
  sources = λ s. no_source;
  tokens = λ t. no_token;
  heap = record { states = λ a. new_state; next = 0; world = w };
}

-- What a copy, a move and a swap do to the named sources and tokens.
pub data Transfer : Type 0 where
  copied moved swapped : Transfer

unfoldable pub transfer_sources : Transfer → (to from : ℕ) → (ℕ → StopSource) → ℕ → StopSource
unfolding copy_source move_source swap_sources
transfer_sources copied to from sources = update sources to (copy_source (sources from))
transfer_sources moved to from sources =
    let (s, left) = move_source (sources from) in update (update sources from left) to s
transfer_sources swapped to from sources =
    let (s, r) = swap_sources (sources to) (sources from) in update (update sources to s) from r

unfoldable pub transfer_tokens : Transfer → (to from : ℕ) → (ℕ → StopToken) → ℕ → StopToken
unfolding copy_token move_token swap_tokens
transfer_tokens copied to from tokens = update tokens to (copy_token (tokens from))
transfer_tokens moved to from tokens =
    let (t, left) = move_token (tokens from) in update (update tokens from left) to t
transfer_tokens swapped to from tokens =
    let (t, r) = swap_tokens (tokens to) (tokens from) in update (update tokens to t) from r

-- The calls of a program.
pub data HandleCall : Type 0 where
  source_made : (to : ℕ) → HandleCall
  source_changed token_changed : Transfer → (to from : ℕ) → HandleCall
  token_taken : (to from : ℕ) → HandleCall
  stop_asked : (by : ℕ) → HandleCall

module _ {ℓ} {W : Type ℓ} (act : ℕ → W → Outcome W) where
  unfoldable pub call : HandleCall → Handles W → Option (Handles W)
  unfolding new_source transfer_sources transfer_tokens get_token source_request_stop
  call (source_made to) h =
      let (s, heap) = new_source h.heap in
      some (record h { sources = update h.sources to s; heap = heap })
  call (source_changed how to from) h =
      some (record h { sources = transfer_sources how to from h.sources })
  call (token_changed how to from) h =
      some (record h { tokens = transfer_tokens how to from h.tokens })
  call (token_taken to from) h =
      some (record h { tokens = update h.tokens to (get_token (h.sources from)) })
  call (stop_asked by) h =
      source_request_stop act (h.sources by) h.heap >>= λ r. some (record h { heap = r.0 })

  -- The calls so far, the last one first.
  abbrev pub calls : List HandleCall → Handles W → Option (Handles W)
  calls [] h = some h
  calls (c ∷ earlier) h = calls earlier h >>= call c
