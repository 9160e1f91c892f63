-- ===== src/Barrier/Rendezvous/Counting.antt =====
-- c9y/barrier.h: how many threads of a row have arrived in a phase.
use c9y.Base.{
  ℕ, suc, ◌+◌, ◌==◌, ◌≤◌, ◌<◌, ◌≡◌, ◌⊎◌, inl, inr, refl, ap, subst, Option, none, some, List, [],
  ◌∷◌, ◌++◌, length, if◌then◌else◌, arith,
}
use c9y.Base.Int.{pos}
use c9y.Barrier.{ArrivalToken}
use c9y.Base.{All}
use c9y.Barrier.Rendezvous.{Thread, idle, waiting}

-- 1: the thread has arrived in phase k.
abbrev pub counted : ℕ → ℕ → Option ArrivalToken → ℕ
counted k n none = 0
counted k n (some at) = if n == k then 1 else 0

abbrev pub arrived : ℕ → List Thread → ℕ
arrived k [] = 0
arrived k (t ∷ ts) = counted k t.rounds t.token + arrived k ts

-- In phase k a thread is between two calls, has arrived in this phase, or may leave the one before.
abbrev pub FitsToken : ℕ → ℕ → Option ArrivalToken → Type 0
FitsToken k n none = n ≡ k
FitsToken k n (some at) = (at.iteration ≡ pos n) × ((n ≡ k) ⊎ (suc n ≡ k))

abbrev pub Fits : ℕ → Thread → Type 0
Fits k t = FitsToken k t.rounds t.token

pub arrived-append :
    (k : ℕ) (ts us : List Thread) → arrived k (ts ++ us) ≡ arrived k ts + arrived k us
arrived-append k [] us = omega arith
arrived-append k (t ∷ ts) us = omega (arith, arrived-append k ts us)

counted-le : (k n : ℕ) (o : Option ArrivalToken) → counted k n o ≤ 1
counted-le k n none = omega arith
counted-le k n (some at) = ground arith

pub arrived-le-length : (k : ℕ) (ts : List Thread) → arrived k ts ≤ length ts
arrived-le-length k [] = omega arith
arrived-le-length k (t ∷ ts) = omega (arith, arrived-le-length k ts, counted-le k t.rounds t.token)

-- Threads that have all arrived in phase k are released in the next.
pub phase_full :
    (k : ℕ) (ts : List Thread)
    → All (Fits k) ts
    → arrived k ts ≡ length ts
    → All (Fits (suc k)) ts × (arrived (suc k) ts ≡ 0)
phase_full k [] fits e = (tt, refl)
phase_full k (t ∷ ts) fits e =
    let (rest, none_yet) =
      phase_full k ts fits.1
        (omega (arith, arrived-le-length k ts, counted-le k t.rounds t.token)) in
    let (this, not_yet) =
      one t.rounds t.token fits.0
        (omega (arith, arrived-le-length k ts, counted-le k t.rounds t.token)) in
    ((this, rest), omega (arith, not_yet, none_yet))
  where
    one :
        (n : ℕ) (o : Option ArrivalToken)
        → FitsToken k n o
        → counted k n o ≡ 1
        → FitsToken (suc k) n o × (counted (suc k) n o ≡ 0)
    one n none f h = absurd (omega arith)
    one n (some at) f h = ((f.0, inr (ground arith)), ground arith)

-- Threads that have not all arrived in phase k: one is between two calls, or may leave.
abbrev pub MayGo : ℕ → List Thread → Type 0
MayGo k ts =
    (n : ℕ) × (before : List Thread) × (behind : List Thread) × ((ts ≡ before ++ idle n ∷ behind)
      ⊎ ((at : ArrivalToken) × (ts ≡ before ++ waiting n at ∷ behind)
          × (at.iteration ≡ pos n)
          × (suc n ≡ k)))

MayGo-cons : (k : ℕ) (t : Thread) (ts : List Thread) → MayGo k ts → MayGo k (t ∷ ts)
MayGo-cons k t ts (n, before, behind, inl e) = (n, t ∷ before, behind, inl (ap (◌∷◌ t) e))
MayGo-cons k t ts (n, before, behind, inr (at, e, token, over)) =
    (n, t ∷ before, behind, inr (at, ap (◌∷◌ t) e, token, over))

pub may_go : (k : ℕ) (ts : List Thread) → All (Fits k) ts → arrived k ts < length ts → MayGo k ts
may_go k [] fits h = absurd (omega arith)
may_go k (t ∷ ts) fits h = by_token (λ g. may_go k ts fits.1 g) t.token refl
  where
    by_token :
        (arrived k ts < length ts → MayGo k ts)
        → (o : Option ArrivalToken) → t.token ≡ o
        → MayGo k (t ∷ ts)
    by_token rest none e =
        (t.rounds, [], ts, inl (ap (λ o. record { rounds = t.rounds; token = o } ∷ ts) e))
    by_token rest (some at) e =
        let (token, in_phase_or) = subst (FitsToken k t.rounds) e fits.0 in
        elim in_phase_or [
          | inr over ↦ (
            t.rounds,
            [],
            ts,
            inr (at, ap (λ o. record { rounds = t.rounds; token = o } ∷ ts) e, token, over),
          )
          | inl same ↦ MayGo-cons k t ts (rest (ground (arith, h, e, same)))
        ]
