-- ===== src/Barrier/Rendezvous.antt =====
-- c9y/barrier.h: threads that call arrive_and_wait in a loop, in any order of their steps.
pub mod Counting
pub mod Keeping
pub mod Meeting
mod Examples
use c9y.Base.{ℕ, suc, ◌≡◌, Option, none, some, List, ◌∷◌, ◌++◌, replicate}
use c9y.Base.Int.{pos}
use c9y.Barrier.{ArrivalToken, Barrier, barrier, arrive, wait}

-- `rounds`: how many calls of the thread have returned. `token`: that of the call that it is in, once
-- it has arrived.
pub record Thread : Type 0 where
  pub rounds : ℕ
  pub token : Option ArrivalToken

abbrev pub idle : ℕ → Thread
idle n = record { rounds = n; token = none }

abbrev pub waiting : ℕ → ArrivalToken → Thread
waiting n at = record { rounds = n; token = some at }

pub record System {ℓ} (S : Type ℓ) : Type ℓ where
  pub barrier : Barrier
  pub threads : List Thread
  pub world : S

module _ {ℓ} {S : Type ℓ} (compl_func : S → S) where
  -- `arrive_and_wait`, in its two steps: `arrive()`, and the `wait` for its token that returns.
  pub data Step (s t : System S) : Type ℓ where
    arriving :
        (n : ℕ) (before behind : List Thread)
        → s.threads ≡ before ++ idle n ∷ behind
        → t ≡ record {
          barrier = (arrive compl_func (pos 1) s.barrier s.world).barrier;
          threads =
              before ++ waiting n (arrive compl_func (pos 1) s.barrier s.world).token ∷ behind;
          world = (arrive compl_func (pos 1) s.barrier s.world).world;
        }
        → Step s t
    leaving :
        (n : ℕ) (at : ArrivalToken) (before behind : List Thread)
        → s.threads ≡ before ++ waiting n at ∷ behind
        → wait at s.barrier ≡ some tt
        → t ≡ record s { threads = before ++ idle (suc n) ∷ behind }
        → Step s t

  pub data Reach (s : System S) : System S → Type ℓ where
    here : Reach s s
    next : {t u : System S} → Reach s t → Step t u → Reach s u

-- `m` threads and a barrier for as many.
abbrev pub start {ℓ} : {S : Type ℓ} → ℕ → S → System S
start m w = record { barrier = barrier (pos m); threads = replicate m (idle 0); world = w }
