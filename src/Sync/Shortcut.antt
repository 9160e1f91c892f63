-- ===== src/Sync/Shortcut.antt =====
-- c9y/sync.cpp: sync runs a function at once on the thread itself. With a tag it also releases the
-- tag, which another call may hold.
use c9y.Base.{ℕ, ◌==◌, ◌≡◌, false, some, [], ◌∷◌, ◌++◌, ◌>>=◌, arith}
use mathlib.Core.List.{append_assoc}
use c9y.Exceptions.{Outcome, returned, threw, Handler, unhandled_exception}
use c9y.Sync.{tagged, Program, sync_to, sync_to_tagged, push_tagged, release}

module _ {ℓ} {W : Type ℓ} (call : ℕ → Program W → Outcome (Program W))
    (handler : Handler (Program W)) where
  -- A function that throws under sync on the thread itself, with a tag or without, is handed to the
  -- handler for unhandled exceptions, in the state that it left: no tag is released and nothing is
  -- queued.
  pub sync_to-threw :
      (this tag func : ℕ) (p : Program W) {q : Program W}
      → call func p ≡ threw q
      → (sync_to call handler this this func p ≡ unhandled_exception handler q)
        × (sync_to_tagged call handler this tag this func p ≡ unhandled_exception handler q)
  unfolding sync_to sync_to_tagged
  sync_to-threw this tag func p h = (ground arith, ground arith)

  -- For a tag that is not active: another thread syncs a function to a thread, the thread itself syncs
  -- a function that only acts on the world, and the other thread syncs a third. Then the thread's
  -- queue holds the first and the third, both for the same tag.
  pub sync_to_tagged-twice :
      (other thread tag first second third : ℕ) (act : W → W) (p : Program W)
      → (thread == other) ≡ false
      → p.active tag ≡ false
      → ((q : Program W) → call second q ≡ returned (record q { world = act q.world }))
      → (q : Program W) × ((sync_to_tagged call handler other tag thread first p
            >>= sync_to_tagged call handler thread tag thread second
            >>= sync_to_tagged call handler other tag thread third)
          ≡ some q)
        × (q.tasks thread ≡ p.tasks thread ++ tagged tag first ∷ tagged tag third ∷ [])
  unfolding sync_to_tagged
  sync_to_tagged-twice other thread tag first second third act p ne idle returns = (
    p₃,
    ground (arith, returns p₁),
    ground (arith, append_assoc (p.tasks thread) (tagged tag first ∷ []) (tagged tag third ∷ [])),
  )
    where
      p₁ : Program W
      p₁ = push_tagged tag thread first p

      p₂ : Program W
      p₂ = release tag (record p₁ { world = act p₁.world })

      p₃ : Program W
      p₃ = push_tagged tag thread third p₂
