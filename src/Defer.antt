-- ===== src/Defer.antt =====
-- c9y/defer.h and c9y/defer.cpp: the functions that a thread puts off, in the order of their arrival.
-- A function is known by a number, and `call` says what calling it does: to the world, to the list of
-- what is put off, since it may defer more, and whether it throws.
pub mod CatchUp
mod Examples
use c9y.Base.{ℕ, zero, suc, Bool, true, false, Option, none, some, List, [], ◌∷◌, ◌++◌}
use c9y.Exceptions.{Outcome, returned, threw}

-- The thread-local `scheduler`, and all else that functions act on.
pub record Thread {ℓ} (W : Type ℓ) : Type ℓ where
  pub scheduler : List ℕ
  pub world : W

module _ {ℓ} {W : Type ℓ} where
  -- `none` is the empty function: `std::invalid_argument` is thrown, and nothing changes.
  unfoldable pub defer : Option ℕ → Thread W → Outcome (Thread W)
  defer none t = threw t
  defer (some fun) t = returned (record t { scheduler = t.scheduler ++ fun ∷ [] })

  module _ (call : ℕ → Thread W → Outcome (Thread W)) where
    -- The loop of `catch_up` with `work_done`; fuel bounds its rounds, none: more would follow. An
    -- exception of a task leaves the loop, its task gone from the scheduler.
    unfoldable pub catch_up_from : ℕ → Bool → List ℕ → Thread W → Option (Outcome (Thread W × Bool))
    catch_up_from zero work_done tasks t = none
    catch_up_from (suc fuel) work_done [] t = some (returned (t, work_done))
    catch_up_from (suc fuel) work_done (task ∷ rest) t =
        elim (call task (record t { scheduler = rest })) [
          | threw t' ↦ some (threw (t', work_done))
          | returned t' ↦ catch_up_from fuel true t'.scheduler t'
        ]

    unfoldable pub catch_up : ℕ → Thread W → Option (Outcome (Thread W × Bool))
    unfolding catch_up_from
    catch_up fuel t = catch_up_from fuel false t.scheduler t
