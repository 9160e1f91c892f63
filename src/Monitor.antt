-- ===== src/Monitor.antt =====
-- The classes that keep their state under one mutex and notify all sleepers with the mutex held
-- (c9y/latch.cpp, c9y/barrier.h): what such a class has to provide, and its threads in steps, each of
-- which is what one thread does with the mutex held, or the end of a sleep.
pub mod Settling
use c9y.Base.{ℕ, suc, ◌≡◌, Bool, true, false, Option, none, some, List, [], ◌∷◌, ◌++◌}

-- `C`: the calls that change the state, `W`: the calls that wait, `R`: what these return. `test` is one
-- test of the predicate, told whether the time is up: the call returns, or sleeps. A change without a
-- notification lets no sleeper go on.
pub record Monitored {ℓ κ μ ν} (S : Type ℓ) (C : Type κ) (W : Type μ) (R : Type ν)
    : Type (ℓ ⊔ κ ⊔ μ ⊔ ν) where
  pub change : C → S → S × Bool
  pub test : W → (timed_out : Bool) → S → Option R
  pub test_again : (w : W) (s : S) → test w true s ≡ none → test w false s ≡ none
  pub change_notifies :
      (c : C) (w : W) (s : S)
      → test w false s ≡ none
      → (change c s).1 ≡ false
      → test w false (change c s).0 ≡ none

-- `woken`: the threads that are awake again and have not got the mutex yet. `returned`: what the calls
-- that are over returned, the last one first.
pub record System {ℓ μ ν} (S : Type ℓ) (W : Type μ) (R : Type ν) : Type (ℓ ⊔ μ ⊔ ν) where
  pub shared : S
  pub sleeping : List W
  pub woken : List W
  pub returned : List R

module _ {ℓ μ ν} {S : Type ℓ} {W : Type μ} {R : Type ν} where
  abbrev pub fresh : S → System S W R
  fresh s = record { shared = s; sleeping = []; woken = []; returned = [] }

  -- `cond.notify_all()`, if there is one.
  abbrev pub notify_all : Bool → System S W R → System S W R
  notify_all false s = s
  notify_all true s = record s { sleeping = []; woken = s.sleeping ++ s.woken }

  -- The thread of a call that has tested its predicate goes to sleep, or returns.
  abbrev pub attempt : W → Option R → System S W R → System S W R
  attempt w none s = record s { sleeping = w ∷ s.sleeping }
  attempt w (some r) s = record s { returned = r ∷ s.returned }

module _ {ℓ κ μ ν} {S : Type ℓ} {C : Type κ} {W : Type μ} {R : Type ν} (i : Monitored S C W R) where
  pub data Step (s t : System S W R) : Type (ℓ ⊔ κ ⊔ μ ⊔ ν) where
    changes :
        (c : C)
        → t ≡ notify_all (i.change c s.shared).1 (record s { shared = (i.change c s.shared).0 })
        → Step s t
    enters : (w : W) (timed_out : Bool) → t ≡ attempt w (i.test w timed_out s.shared) s → Step s t
    -- A thread that is awake again gets the mutex and tests its predicate once more.
    retries :
        (w : W) (timed_out : Bool) (before behind : List W)
        → s.woken ≡ before ++ w ∷ behind
        → t ≡ attempt w (i.test w timed_out s.shared) (record s { woken = before ++ behind })
        → Step s t
    -- A sleeping thread wakes of itself, or as its time is up.
    wakes :
        (w : W) (before behind : List W)
        → s.sleeping ≡ before ++ w ∷ behind
        → t ≡ record s { sleeping = before ++ behind; woken = w ∷ s.woken }
        → Step s t

  pub data Reach (s : System S W R) : System S W R → Type (ℓ ⊔ κ ⊔ μ ⊔ ν) where
    here : Reach s s
    next : {t u : System S W R} → Reach s t → Step t u → Reach s u
