-- ===== src/Coroutine/SyncPoint/Resuming.antt =====
-- c9y/coroutine.h: what a sync_point makes of coroutines that wait with co_sync.
use c9y.Base.{
  ℕ, ◌+◌, ◌<◌, ◌≤◌, ◌≡◌, ◌⊎◌, inl, inr, refl, ltb, leb, Bool-cases, true, false, some, List, [],
  length, if◌then◌else◌, arith,
}
use c9y.Exceptions.{Handler}
use c9y.Sync.{Program, sync_point}
use c9y.Futures.{FutureState, pending}
use c9y.Coroutine.{Body, await_ready}
use c9y.Coroutine.SyncPoint.{World, call_lambda, sync_point-resumed}
use c9y.Coroutine.SyncPoint.Calls.{call_coroutines, others_ended, EndAs, call_coroutines-IsCalled}

module _ {ℓ} {T : Type ℓ} where
  in_between :
      (least last j : ℕ) {a b : FutureState T}
      → (least ≤ j → j < last → a ≡ b)
      → (if leb least j then if ltb j last then a else b else b) ≡ b
  in_between least last j h = elim (Bool-cases (leb least j)) [
    | inr before ↦ rw before refl
    | inl low ↦ elim (Bool-cases (ltb j last)) [
      | inr behind ↦ rw (low, behind) refl
      | inl below ↦ rw (low, below) (h (ground (arith, low)) (ground (arith, below)))
    ]
  ]

  -- A thread with an empty queue calls coroutines one after the other, which use co_sync: each awaits
  -- futures made before its own, also those of the coroutines called before it, and what each future
  -- ends with is given. Some of the futures made before the calls have ended, and others not. Once all
  -- futures but theirs have ended, one sync_point of the thread does not sleep, and then every coroutine
  -- has ended with what its body makes of the ends of the futures, and the queue is empty.
  pub co_sync-resumed :
      (final : ℕ → FutureState T) (ready : (k : ℕ) → await_ready (final k) ≡ true)
      (handler : Handler (Program (World T))) (this : ℕ) (bs : List (Body T))
      (p : Program (World T))
      → p.world.asleep ≡ false
      → p.tasks this ≡ []
      → ((j : ℕ) → j < p.world.next → (p.world.shared j ≡ pending) ⊎ (p.world.shared j ≡ final j))
      → EndAs final p.world.next bs
      → (q : Program (World T)) × (sync_point
            (call_lambda this)
            handler
            this
            (others_ended final p.world.next (p.world.next + length bs) (call_coroutines this bs p))
          ≡ some q)
        × ((j : ℕ) → q.world.shared j ≡ final j)
        × (q.tasks this ≡ [])
        × (q.world.asleep ≡ false)
  co_sync-resumed final ready handler this bs p awake empty unsettled ends =
      let (ls, i, next) =
        call_coroutines-IsCalled final ready this p.world.next bs p [] ends (record {
          awake = awake;
          tasks = empty;
          line = tt;
          new = tt;
          unsettled = unsettled;
          ended = λ j h low out. absurd (omega (arith, h, low));
        }) in
      sync_point-resumed final ready handler this ls _ i.awake i.tasks i.line (λ j out.
        in_between p.world.next (p.world.next + length bs) j
          (λ low h. i.ended j (omega (arith, next, h)) low out))
