-- ===== src/Utils.antt =====
-- c9y/utils.h: tests and waits over a row of waitable items. `std::future` is not part of the sources:
-- `wait_for_zero` is `item.wait_for(std::chrono::seconds(0))`, on a world that other threads change,
-- and `wait` what happens until `item.wait()` returns (none: it never does).
mod Examples
use c9y.Base.{◌≡◌, ◌↔◌, refl, Bool, true, false, Option, none, some, List, [], ◌∷◌, ◌>>=◌, arith}

-- `std::future_status`
pub data FutureStatus : Type 0 where
  ready timeout deferred : FutureStatus

module _ {ℓ κ} {W : Type ℓ} {I : Type κ} (wait_for_zero : I → W → FutureStatus) where
  unfoldable pub all_ready : List I → W → Bool
  all_ready [] w = true
  all_ready (item ∷ items) w = elim (wait_for_zero item w) [
    | ready ↦ all_ready items w
    | timeout ↦ false
    | deferred ↦ false
  ]

  abbrev pub AreReady : List I → W → Type 0
  AreReady [] w = Unit
  AreReady (item ∷ items) w = (wait_for_zero item w ≡ ready) × AreReady items w

  -- While no other thread changes the world, all_ready answers whether each of the items is ready; one
  -- that is deferred is not.
  pub all_ready-AreReady : (items : List I) (w : W) → (all_ready items w ≡ true) ↔ AreReady items w
  unfolding all_ready
  all_ready-AreReady [] w = (λ h. tt, λ h. refl)
  all_ready-AreReady (item ∷ items) w =
      let rest = all_ready-AreReady items w in
      (λ h. (ground arith, rest.0 (ground arith)), λ h. ground (arith, rest.1 h.1))

module _ {ℓ κ} {W : Type ℓ} {I : Type κ} (wait : I → W → Option W) where
  unfoldable pub wait_all : List I → W → Option W
  wait_all [] w = some w
  wait_all (item ∷ items) w = wait item w >>= wait_all items
