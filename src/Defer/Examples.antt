-- ===== src/Defer/Examples.antt =====
-- Putting off on small inputs. The world is the list of what was called.
use c9y.Base.{ℕ, zero, suc, ◌≡◌, refl, true, some, List, [], ◌∷◌, ◌++◌, length, arith}
use c9y.Exceptions.{Outcome, returned, threw}
use c9y.Defer.{catch_up}
use c9y.Defer.CatchUp.{total, deferring, run_acts, all_children, catch_up-all_children, acting}

abbrev note : ℕ → List ℕ → List ℕ
note f log = log ++ f ∷ []

-- Function 0 defers nothing, and each other one its predecessor.
abbrev predecessors : ℕ → List ℕ
predecessors zero = []
predecessors (suc n) = n ∷ []

predecessors_count : (f : ℕ) → suc f ≡ suc (total suc (predecessors f))
predecessors_count zero = refl
predecessors_count (suc n) = omega arith

catch_up-all_children_example :
    (ran : List ℕ) × (catch_up
        (deferring note predecessors)
        6
        (record { scheduler = 2 ∷ 1 ∷ []; world = [] })
      ≡ some
          (returned (record { scheduler = []; world = run_acts note predecessors ran [] }, true)))
    × (ran ≡ (2 ∷ 1 ∷ []) ++ all_children note predecessors ran)
    × (length ran ≡ 5)
catch_up-all_children_example =
    catch_up-all_children note predecessors suc predecessors_count 6
      (record { scheduler = 2 ∷ 1 ∷ []; world = [] }) (omega arith)

-- Function 0 throws.
abbrev note_or_throw : ℕ → List ℕ → Outcome (List ℕ)
note_or_throw zero log = threw log
note_or_throw (suc n) log = returned (log ++ suc n ∷ [])

caught_up_to_0 :
    catch_up (acting note_or_throw) 5 (record { scheduler = 3 ∷ 0 ∷ 4 ∷ []; world = [] })
    ≡ some (threw (record { scheduler = 4 ∷ []; world = 3 ∷ [] }, true))
unfolding catch_up
caught_up_to_0 = refl
