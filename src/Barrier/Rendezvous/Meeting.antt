-- ===== src/Barrier/Rendezvous/Meeting.antt =====
-- c9y/barrier.h: no call of arrive_and_wait returns before all threads have arrived.
use c9y.Base.{All, ℕ, suc, ◌≤◌, ◌<◌, ◌≡◌, inl, inr, refl, Option, none, some, List, [], ◌∷◌, arith}
use c9y.Barrier.{ArrivalToken, wait}
use c9y.Barrier.Rendezvous.{Thread, System, Step, arriving, leaving, Reach, start}
use c9y.Barrier.Rendezvous.Counting.{FitsToken, Fits, may_go}
use c9y.Barrier.Rendezvous.Keeping.{iterate, Reach-Meets, start-Meets}

-- How often a thread has arrived.
abbrev arrivals_by : ℕ → Option ArrivalToken → ℕ
arrivals_by n none = n
arrivals_by n (some at) = suc n

abbrev pub arrivals : Thread → ℕ
arrivals t = arrivals_by t.rounds t.token

-- A thread has returned from k calls at most, and has arrived k times at least.
abbrev pub IsAround : ℕ → Thread → Type 0
IsAround k t = (t.rounds ≤ k) × (k ≤ arrivals t)

Fits-IsAround : (k : ℕ) (ts : List Thread) → All (Fits k) ts → All (IsAround k) ts
Fits-IsAround k [] fits = tt
Fits-IsAround k (t ∷ ts) fits = (one t.rounds t.token fits.0, Fits-IsAround k ts fits.1)
  where
    one : (n : ℕ) (o : Option ArrivalToken) → FitsToken k n o → (n ≤ k) × (k ≤ arrivals_by n o)
    one n none f = (omega arith, omega arith)
    one n (some at) (e, inl f) = (omega arith, omega arith)
    one n (some at) (e, inr f) = (omega arith, omega arith)

module _ {ℓ} {S : Type ℓ} (compl_func : S → S) where
  -- Threads that call arrive_and_wait in a loop, on a barrier for as many of them, in any order of
  -- their steps: there is a phase k such that the completion function has run k times, no thread has
  -- returned from more than k calls, and each has arrived k times at least. So no call returns before
  -- every thread has arrived as often as the caller. And some thread can go on.
  pub arrive_and_wait-IsAround :
      (m : ℕ) (world : S) {s : System S}
      → 0 < m
      → Reach compl_func (start m world) s
      → ((k : ℕ) × (s.world ≡ iterate compl_func k world) × All (IsAround k) s.threads)
        × ((t : System S) × Step compl_func s t)
  unfolding wait
  arrive_and_wait-IsAround m world {s} h r =
      let (k, c, i) = Reach-Meets compl_func m world (start-Meets compl_func m world h) r in
      let (n, before, behind, which) =
        may_go k s.threads i.fits (omega (arith, i.sum, i.missing, i.all_threads)) in
      (
        (k, i.completed, Fits-IsAround k s.threads i.fits),
        elim which [
          | inl e ↦ (_, arriving n before behind e refl)
          | inr (at, e, token, over) ↦
              (_, leaving n at before behind e (ground (arith, i.phase, token, over)) refl)
        ],
      )
