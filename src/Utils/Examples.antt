-- ===== src/Utils/Examples.antt =====
-- Three items, of which the world says which is ready.
use c9y.Base.{ℕ, ◌≡◌, refl, true, false, [], ◌∷◌, leb, if◌then◌else◌}
use c9y.Utils.{FutureStatus, ready, timeout, all_ready}

abbrev up_to : ℕ → ℕ → FutureStatus
up_to item w = if leb item w then ready else timeout

not_all_ready : all_ready up_to (1 ∷ 2 ∷ 3 ∷ []) 2 ≡ false
unfolding all_ready
not_all_ready = refl

all_three_ready : all_ready up_to (1 ∷ 2 ∷ 3 ∷ []) 3 ≡ true
unfolding all_ready
all_three_ready = refl
