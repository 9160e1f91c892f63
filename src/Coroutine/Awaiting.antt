-- ===== src/Coroutine/Awaiting.antt =====
-- c9y/coroutine.h: what a coroutine ends with does not depend on which futures are ready when it
-- awaits them.
use c9y.Base.{
  update, ℕ, suc, ◌==◌, ◌<◌, ◌≡◌, ◌⊎◌, inl, inr, refl, ap, ◌∙◌, true, false, some, if◌then◌else◌,
  arith,
}
use c9y.Futures.{Result, FutureState, pending, exception, value}
use c9y.Coroutine.{
  Body, co_return, throw, co_await, Frame, State, await_ready, await_resume, settle, await_suspend,
  resume, start, continue,
}

module _ {ℓ} {T : Type ℓ} where
  -- What a body ends with where the futures end as `final` says.
  abbrev pub outcome : (ℕ → FutureState T) → Body T → FutureState T
  outcome final (co_return v) = value v
  outcome final throw = exception
  outcome final (co_await f rest) = outcome final (rest (await_resume (final f)))

  -- The body awaits futures with smaller numbers alone.
  abbrev pub AwaitsBelow : ℕ → Body T → Type ℓ
  AwaitsBelow n (co_return v) = Unit
  AwaitsBelow n throw = Unit
  AwaitsBelow n (co_await f rest) = (f < n) × ((r : Result T) → AwaitsBelow n (rest r))

module _ {ℓ κ} {T : Type ℓ} {Q : Type κ} (post : ℕ → Q → Q) (final : ℕ → FutureState T)
    (ready : (k : ℕ) → await_ready (final k) ≡ true) where
  -- One await: the body goes on, or is suspended.
  resume-ready :
      (f : ℕ) (rest : Result T → Body T) (p : ℕ) (s : State T Q) (a : FutureState T)
      → s.shared f ≡ a
      → await_ready a ≡ true
      → resume post (co_await f rest) p s ≡ resume post (rest (await_resume a)) p s
  unfolding resume
  resume-ready f rest p s a e r =
      let b : await_ready (s.shared f) ≡ true = ap await_ready e ∙ r in
      rw (resume, b) (ap (λ x. resume post (rest (await_resume x)) p s) e)

  resume-waiting :
      (f : ℕ) (rest : Result T → Body T) (p : ℕ) (s : State T Q)
      → s.shared f ≡ pending
      → resume post (co_await f rest) p s ≡ await_suspend post f rest p s
  unfolding resume await_ready
  resume-waiting f rest p s e =
      let b : await_ready (s.shared f) ≡ false = ap await_ready e in rw (resume, b) refl

  pub resume-settled :
      (body : Body T) (p : ℕ) (s : State T Q)
      → AwaitsBelow p body
      → ((k : ℕ) → k < p → s.shared k ≡ final k)
      → resume post body p s ≡ settle p (outcome final body) s
  unfolding resume
  resume-settled (co_return v) p s below same = refl
  resume-settled throw p s below same = refl
  resume-settled (co_await f rest) p s below same =
      resume-ready f rest p s (final f) (same f below.0) (ready f)
      ∙ resume-settled (rest (await_resume (final f))) p s (below.1 _) same

  -- Ended, or suspended in front of a future that is pending.
  abbrev pub Ran : Body T → ℕ → State T Q → State T Q → Type (ℓ ⊔ κ)
  Ran body p s t =
      (t ≡ settle p (outcome final body) s)
      ⊎ ((f : ℕ) × (rest : Result T → Body T) × (t ≡ await_suspend post f rest p s)
          × AwaitsBelow p (co_await f rest)
          × (outcome final (co_await f rest) ≡ outcome final body))

  pub resume-Ran :
      (body : Body T) (p : ℕ) (s : State T Q)
      → AwaitsBelow p body
      → ((k : ℕ) → k < p → (s.shared k ≡ pending) ⊎ (s.shared k ≡ final k))
      → Ran body p s (resume post body p s)
  unfolding resume
  resume-Ran (co_return v) p s below unsettled = inl refl
  resume-Ran throw p s below unsettled = inl refl
  resume-Ran (co_await f rest) p s below unsettled = elim (unsettled f below.0) [
    | inl waits ↦ inr (f, rest, resume-waiting f rest p s waits, below, refl)
    | inr same ↦
        rw (resume-ready f rest p s (final f) same (ready f))
          (resume-Ran (rest (await_resume (final f))) p s (below.1 _) unsettled)
  ]

  -- The futures but the coroutine's own have all ended.
  abbrev pub all_ended : ℕ → State T Q → State T Q
  all_ended p s = record s { shared = λ k. if k == p then s.shared k else final k }

  pub continue-ready :
      (number : ℕ) (fr : Frame T) (s : State T Q) (a : FutureState T)
      → s.frames number ≡ some fr
      → s.shared fr.future ≡ a
      → await_ready a ≡ true
      → continue post number s ≡ some (resume post (fr.rest (await_resume a)) fr.promise s)
  unfolding continue
  continue-ready number fr s a e same r =
      let b : await_ready (s.shared fr.future) ≡ true = ap await_ready same ∙ r in
      rw (continue, e, b)
        (ap (λ x. some (resume post (fr.rest (await_resume x)) fr.promise s)) same)

  -- A coroutine with promise `p` has ended with what its body ends with; or it is suspended, its λ
  -- queued, and when the λ is called after all futures but its own have ended, it ends with that.
  abbrev pub Ends : Body T → (p : ℕ) → (s t : State T Q) → Type (ℓ ⊔ κ)
  Ends body p s t =
      ((t.shared p ≡ outcome final body) × (t.queue ≡ s.queue))
      ⊎ ((t.shared p ≡ pending)
          × (t.queue ≡ post s.next_frame s.queue)
          × (u : State T Q) × (continue post s.next_frame (all_ended p t) ≡ some u)
          × (u.shared p ≡ outcome final body)
          × (u.queue ≡ t.queue))

  suspended-Ends :
      (f : ℕ) (rest : Result T → Body T) (p : ℕ) (s : State T Q)
      → AwaitsBelow p (co_await f rest)
      → s.shared p ≡ pending
      → Ends (co_await f rest) p s (await_suspend post f rest p s)
  unfolding await_suspend
  suspended-Ends f rest p s below own = inr (
    own,
    refl,
    settle p (outcome final (co_await f rest)) ended,
    continue-ready s.next_frame (record { future = f; rest = rest; promise = p }) ended (final f)
          (ground arith) (ground (arith, below.0)) (ready f)
        ∙ ap some (
            resume-settled (rest (await_resume (final f))) p ended (below.1 _)
              (λ k h. ground arith)),
    ground arith,
    refl,
  )
    where
      ended : State T Q
      ended = all_ended p (await_suspend post f rest p s)

  -- What each future ends with is given. A coroutine is called that awaits futures made before it, of
  -- which some have ended, and others not. Either it ends in the call, with what its body makes of the
  -- ends of the futures, and nothing is queued; or its future is pending and one λ is queued, and once
  -- all other futures have ended the λ does not wait, and the coroutine ends with the same, and queues
  -- nothing more.
  pub start-outcome :
      (body : Body T) (s : State T Q)
      → AwaitsBelow s.next body
      → ((k : ℕ) → k < s.next → (s.shared k ≡ pending) ⊎ (s.shared k ≡ final k))
      → Ends body s.next s (start post body s).1
  unfolding start
  start-outcome body s below unsettled =
      ends _ (resume-Ran body s.next made below (λ k h. ground (arith, unsettled k h)))
    where
      made : State T Q
      made = record s { shared = update s.shared s.next pending; next = suc s.next }

      ends : (t : State T Q) → Ran body s.next made t → Ends body s.next s t
      ends t (inl e) = rw e (inl (ground arith, refl))
      ends t (inr (f, rest, e, below', same)) =
          rw (e, ← same) (suspended-Ends f rest s.next made below' (ground arith))
