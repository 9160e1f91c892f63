-- ===== src/ThreadPool/Stopping.antt =====
-- c9y/thread_pool.cpp: a pool of new threads is stopped by one request, and only by the first.
use c9y.Base.{
  ℕ, zero, suc, ◌+◌, ◌==◌, ◌≤◌, ◌<◌, ◌≡◌, ◌≢◌, refl, sym, ap, ◌∙◌, Bool, true, false, not, some,
  List, [], ◌∷◌, ◌++◌, length, arith, Option,
}
use native.Mathlib.Decide.{ℕ_discrete}
use mathlib.Core.List.{append_assoc, append-nil}
use c9y.Exceptions.{Outcome}
use c9y.Stop.{Heap, new_state, token_stop_requested, stop_requested, get_token, store}
use c9y.Stop.Requests.{refused, granted_new}
use c9y.Jthread.{Jthread}
use c9y.ThreadPool.{get_concurency, emplace_threads, thread_pool, request_stop_from, request_stop}

-- `n` threads whose states stand at `base` and the addresses behind it.
abbrev new_threads : (ids : ℕ → ℕ) (n i base : ℕ) → List Jthread
new_threads ids zero i base = []
new_threads ids (suc n) i base =
    record { stop = record { state = some base }; impl = some (ids i) }
    ∷ new_threads ids n (i + 1) (suc base)

length-new_threads : (ids : ℕ → ℕ) (n i base : ℕ) → length (new_threads ids n i base) ≡ n
length-new_threads ids zero i base = refl
length-new_threads ids (suc n) i base = ap suc (length-new_threads ids n (i + 1) (suc base))

module _ {ℓ} {W : Type ℓ} where
  -- The states from `base` on, `n` of them, are new.
  abbrev AreNew : (n base : ℕ) → Heap W → Type 0
  AreNew n base h = (a : ℕ) → base ≤ a → a < base + n → h.states a ≡ new_state

  abbrev AreStopping : (n base : ℕ) → Heap W → Type 0
  AreStopping n base h = (a : ℕ) → base ≤ a → a < base + n → (h.states a).stopping ≡ true

-- Every thread's token sees a stop request.
abbrev pub AllStopped {ℓ} : {W : Type ℓ} → List Jthread → Heap W → Type 0
AllStopped [] h = Unit
AllStopped (j ∷ js) h = (token_stop_requested (get_token j.stop) h ≡ true) × AllStopped js h

module _ {ℓ} {W : Type ℓ} (act : ℕ → W → Outcome W) (run_out : ℕ → Heap W → Option (Heap W))
    (ids : ℕ → ℕ) where
  emplace_threads_lem :
      (takes_token : Bool) (n i base : ℕ) (ts : List Jthread) (h : Heap W)
      → h.next ≡ base
      → (h' : Heap W) × (emplace_threads act run_out takes_token ids n i ts h
          ≡ (ts ++ new_threads ids n i base, h'))
        × AreNew n base h'
        × ((a : ℕ) → a < base → h'.states a ≡ h.states a)
  unfolding emplace_threads
  emplace_threads_lem takes_token zero i base ts h e =
      (h, ap (λ xs. (xs, h)) (sym (append-nil ts)), λ a le lt. absurd (omega arith), λ a lt. refl)
  emplace_threads_lem takes_token (suc n) i base ts h e =
      let j : Jthread = record { stop = record { state = some base }; impl = some (ids i) } in
      let k : Heap W = store base new_state (record h { next = suc base }) in
      let (h', made, fresh, kept) =
        emplace_threads_lem takes_token n (i + 1) (suc base) (ts ++ j ∷ []) k refl in
      (
        h',
        rw e (
            made
            ∙ ap (λ xs. (xs, h'))
                (append_assoc ts (j ∷ []) (new_threads ids n (i + 1) (suc base)))),
        λ a le lt. elim (ℕ_discrete a base) [
          | yes same ↦ kept a (omega arith) ∙ ground arith
          | no other ↦ fresh a (omega arith) (omega arith)
        ],
        λ a lt. kept a (omega arith) ∙ ground arith,
      )

  -- The result of the loop: that of the last thread, if there is one.
  abbrev last_result : ℕ → (unless any : Bool) → Bool
  last_result zero unless any = unless
  last_result (suc n) unless any = any

  last_result-same : (n : ℕ) (b : Bool) → last_result n b b ≡ b
  last_result-same zero b = refl
  last_result-same (suc n) b = refl

  stopped_at : ℕ → Heap W → Heap W
  stopped_at base h = store base (record { stopping = true; callbacks = [] }) h

  states-stopped_at :
      (base : ℕ) (h : Heap W)
      → ((a : ℕ) → a ≢ base → (stopped_at base h).states a ≡ h.states a)
        × (((stopped_at base h).states base).stopping ≡ true)
  unfolding stopped_at
  states-stopped_at base h = (λ a ne. ground arith, ground arith)

  first_request :
      (n i base : ℕ) (res : Bool) (h : Heap W)
      → AreNew n base h
      → (h' : Heap W) × (request_stop_from act run_out res (new_threads ids n i base) h
          ≡ some (h', last_result n res true))
        × AreStopping n base h'
        × ((a : ℕ) → a < base → h'.states a ≡ h.states a)
  unfolding request_stop_from stopped_at
  first_request zero i base res h fresh = (h, refl, λ a le lt. absurd (omega arith), λ a lt. refl)
  first_request (suc n) i base res h fresh =
      let (else_same, here) = states-stopped_at base h in
      let new : AreNew n (suc base) (stopped_at base h) =
        λ a le lt. else_same a (omega arith) ∙ fresh a (omega arith) (omega arith) in
      let (h', runs, stopped, kept) =
        first_request n (i + 1) (suc base) true (stopped_at base h) new in
      (
        h',
        rw (granted_new act base h (fresh base (omega arith) (omega arith)))
            (runs ∙ ap (λ b. some (h', b)) (last_result-same n true)),
        λ a le lt. elim (ℕ_discrete a base) [
          | yes same ↦ rw same (ap (λ st. st.stopping) (kept base (omega arith)) ∙ here)
          | no other ↦ stopped a (omega arith) (omega arith)
        ],
        λ a lt. kept a (omega arith) ∙ else_same a (omega arith),
      )

  second_request :
      (n i base : ℕ) (res : Bool) (h : Heap W)
      → AreStopping n base h
      → request_stop_from act run_out res (new_threads ids n i base) h
        ≡ some (h, last_result n res false)
  unfolding request_stop_from
  second_request zero i base res h stopping = refl
  second_request (suc n) i base res h stopping =
      rw (refused act base h (stopping base (omega arith) (omega arith))) (
        second_request n (i + 1) (suc base) false h
          (λ a le lt. stopping a (omega arith) (omega arith))
        ∙ ap (λ b. some (h, b)) (last_result-same n false))

  AllStopped-new_threads :
      (n i base : ℕ) (h : Heap W) → AreStopping n base h → AllStopped (new_threads ids n i base) h
  unfolding token_stop_requested get_token stop_requested
  AllStopped-new_threads zero i base h stopping = tt
  AllStopped-new_threads (suc n) i base h stopping = (
    stopping base (omega arith) (omega arith),
    AllStopped-new_threads n (i + 1) (suc base) h
        (λ a le lt. stopping a (omega arith) (omega arith)),
  )

  -- A pool constructed for n threads has n, with any heap before. Its first request_stop comes back
  -- with every thread's token seeing the request, and is granted exactly if there is a thread; a
  -- second one is refused and changes nothing.
  pub request_stop-thread_pool :
      (takes_token : Bool) (n : ℕ) (h : Heap W)
      → let made = thread_pool act run_out takes_token ids n h in
        (get_concurency made.0 ≡ n)
        × ((h' : Heap W) × (request_stop act run_out made.0 made.1 ≡ some (h', not (n == 0)))
            × AllStopped made.0.threads h'
            × (request_stop act run_out made.0 h' ≡ some (h', false)))
  unfolding thread_pool request_stop get_concurency
  request_stop-thread_pool takes_token n h =
      let (h₀, made, fresh, _) = emplace_threads_lem takes_token n 0 h.next [] h refl in
      let (h₁, granted, stopping, _) = first_request n 0 h.next false h₀ fresh in
      rw made (
        length-new_threads ids n 0 h.next,
        (
          h₁,
          granted ∙ ap (λ b. some (h₁, b)) (granted_iff n),
          AllStopped-new_threads n 0 h.next h₁ stopping,
          second_request n 0 h.next false h₁ stopping
              ∙ ap (λ b. some (h₁, b)) (last_result-same n false),
        ),
      )
    where
      granted_iff : (k : ℕ) → last_result k false true ≡ not (k == 0)
      granted_iff zero = refl
      granted_iff (suc k) = ground arith
