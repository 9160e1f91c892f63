-- ===== src/Defer/CatchUp.antt =====
-- c9y/defer.cpp: what catch_up runs, when it ends, and what an exception leaves behind.
use c9y.Base.{
  ℕ, zero, suc, ◌+◌, ◌<◌, ◌≡◌, refl, ap, ◌∙◌, Bool, true, false, ◌||◌, not, some, List, [], ◌∷◌,
  ◌++◌, length, arith,
}
use mathlib.Core.List.{append_assoc}
use c9y.Exceptions.{Outcome, returned, threw}
use c9y.Defer.{Thread, catch_up, catch_up_from}

abbrev pub is_empty {ℓ} : {A : Type ℓ} → List A → Bool
is_empty [] = true
is_empty (x ∷ xs) = false

abbrev pub total : (ℕ → ℕ) → List ℕ → ℕ
total size [] = 0
total size (f ∷ fs) = size f + total size fs

total-append :
    (size : ℕ → ℕ) (fs gs : List ℕ) → total size (fs ++ gs) ≡ total size fs + total size gs
total-append size [] gs = omega arith
total-append size (f ∷ fs) gs = omega (arith, total-append size fs gs)

-- The functions act on the world, and each defers its `children`, of which there are finitely many in
-- all: `size` counts a function with what it puts off, directly or not.
module _ {ℓ} {W : Type ℓ} (act : ℕ → W → W) (children : ℕ → List ℕ) where
  abbrev pub deferring : ℕ → Thread W → Outcome (Thread W)
  deferring f t = returned (record { scheduler = t.scheduler ++ children f; world = act f t.world })

  -- The functions run one after another, and what they defer, in that order.
  abbrev pub run_acts : List ℕ → W → W
  run_acts [] w = w
  run_acts (f ∷ fs) w = run_acts fs (act f w)

  abbrev pub all_children : List ℕ → List ℕ
  all_children [] = []
  all_children (f ∷ fs) = children f ++ all_children fs

  -- What a run of the loop over `fs` leaves, having run the functions of `ran`.
  record Ran (fuel : ℕ) (done : Bool) (fs : List ℕ) (t : Thread W) (n : ℕ) : Type ℓ where
    ran : List ℕ
    in_order : ran ≡ fs ++ all_children ran
    as_many : length ran ≡ n
    result :
        catch_up_from deferring fuel done fs t
        ≡ some (
            returned
              (record { scheduler = []; world = run_acts ran t.world }, done || not (is_empty fs)))

  module _ (size : ℕ → ℕ) (counts : (f : ℕ) → size f ≡ suc (total size (children f))) where
    catch_up_from-Ran :
        (fuel : ℕ) (done : Bool) (fs : List ℕ) (t : Thread W)
        → total size fs < fuel
        → t.scheduler ≡ fs
        → Ran fuel done fs t (total size fs)
    unfolding catch_up_from
    catch_up_from-Ran zero done fs t h e = absurd (omega arith)
    catch_up_from-Ran (suc fuel) done [] t h e = record {
      ran = [];
      in_order = refl;
      as_many = refl;
      result = ground arith;
    }
    catch_up_from-Ran (suc fuel) done (f ∷ fs) t h e =
        let t' : Thread W = record { scheduler = fs ++ children f; world = act f t.world } in
        let later : Ran fuel true (fs ++ children f) t' (total size (fs ++ children f)) =
          catch_up_from-Ran fuel true (fs ++ children f) t'
            (omega (arith, counts f, total-append size fs (children f))) refl in
        record {
          ran = f ∷ later.ran;
          in_order =
              ap (◌∷◌ f) (later.in_order ∙ append_assoc fs (children f) (all_children later.ran));
          as_many = omega (arith, later.as_many, counts f, total-append size fs (children f));
          result = later.result ∙ ground arith;
        }

    -- Functions that throw nothing and each defer a list of others, finitely many in all (`size`
    -- counts a function with all that it puts off): with more rounds than there are functions
    -- catch_up returns, the scheduler is empty, and it has run every one, first those put off before
    -- and then what each of them deferred, in the order in which they ran. It answers whether
    -- anything was put off.
    pub catch_up-all_children :
        (fuel : ℕ) (t : Thread W)
        → total size t.scheduler < fuel
        → (ran : List ℕ) × (catch_up deferring fuel t
            ≡ some (
                returned (
                  record { scheduler = []; world = run_acts ran t.world },
                  not (is_empty t.scheduler),
                )))
          × (ran ≡ t.scheduler ++ all_children ran)
          × (length ran ≡ total size t.scheduler)
    unfolding catch_up
    catch_up-all_children fuel t h =
        let r = catch_up_from-Ran fuel false t.scheduler t h refl in
        (r.ran, r.result, r.in_order, r.as_many)

-- Functions that act on the world alone, and may throw.
module _ {ℓ} {W : Type ℓ} (act : ℕ → W → Outcome W) where
  abbrev pub with_world : Thread W → Outcome W → Outcome (Thread W)
  with_world t (returned w) = returned (record t { world = w })
  with_world t (threw w) = threw (record t { world = w })

  abbrev pub acting : ℕ → Thread W → Outcome (Thread W)
  acting f t = with_world t (act f t.world)

  -- Each of these returns, from one world to the last.
  pub data Returns : List ℕ → W → W → Type ℓ where
    nothing : {w : W} → Returns [] w w
    one_more :
        {f : ℕ} {fs : List ℕ} {w w' w'' : W}
        → act f w ≡ returned w'
        → Returns fs w' w''
        → Returns (f ∷ fs) w w''

  catch_up_from-threw :
      {fs : List ℕ} {w w' : W} (fuel : ℕ) (done : Bool) (bad : ℕ) (post : List ℕ) {last : W}
      → length fs < fuel
      → Returns fs w w'
      → act bad w' ≡ threw last
      → catch_up_from acting fuel done
          (fs ++ bad ∷ post)
          (record { scheduler = fs ++ bad ∷ post; world = w })
        ≡ some (threw (record { scheduler = post; world = last }, done || not (is_empty fs)))
  unfolding catch_up_from
  catch_up_from-threw zero done bad post h r e = absurd (omega arith)
  catch_up_from-threw (suc fuel) done bad post h nothing e = ground arith
  catch_up_from-threw (suc fuel) done bad post h (one_more {fs} {w' = v} first r) e =
      ground (arith, catch_up_from-threw {w = v} fuel true bad post (omega arith) r e)

  -- Functions that act on the world alone: those before the first that throws have run, catch_up
  -- throws, and what was put off behind that one stays put off.
  pub catch_up-threw :
      (fuel : ℕ) (fs : List ℕ) (bad : ℕ) (post : List ℕ) {w w' last : W}
      → length fs < fuel
      → Returns fs w w'
      → act bad w' ≡ threw last
      → catch_up acting fuel (record { scheduler = fs ++ bad ∷ post; world = w })
        ≡ some (threw (record { scheduler = post; world = last }, not (is_empty fs)))
  unfolding catch_up
  catch_up-threw fuel fs bad post h r e = catch_up_from-threw fuel false bad post h r e
