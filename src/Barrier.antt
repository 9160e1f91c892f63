-- ===== src/Barrier.antt =====
-- c9y/barrier.h: the phase barrier. `iteration` numbers the phases; each call is one step under the
-- mutex. A call that waits returns `none` while its predicate fails, and is then made again after a
-- notification. The counters are integers: the sources leave the overflow of `ptrdiff_t` undefined.
pub mod Phases
pub mod Dropping
pub mod Sleepers
pub mod Rendezvous
mod Examples
use c9y.Base.{ℕ, zero, suc, Bool, true, false, Option, none, some, if◌then◌else◌}
use c9y.Base.Int.{ℤ, pos, ltb_ℤ, eqb_ℤ, ◌+ℤ◌, ◌-ℤ◌}

pub record ArrivalToken : Type 0 where
  pub iteration : ℤ

pub record Barrier : Type 0 where
  pub count : ℤ
  pub iteration : ℤ
  pub expected : ℤ

-- The constructor.
unfoldable pub barrier : ℤ → Barrier
barrier expected = record { count = expected; iteration = pos 0; expected = expected }

-- What a call of `do_ardive` leaves: the barrier, the state that the completion function acts on,
-- the token, and whether the sleeping threads are notified.
pub record Arrival {ℓ} (S : Type ℓ) : Type ℓ where
  pub barrier : Barrier
  pub world : S
  pub token : ArrivalToken
  pub notified : Bool

module _ {ℓ} {S : Type ℓ} (compl_func : S → S) where
  unfoldable pub do_ardive : (n drop : ℤ) → Barrier → S → Arrival S
  do_ardive n drop b s =
      let at : ArrivalToken = record { iteration = b.iteration } in
      let count : ℤ = b.count -ℤ n in
      if ltb_ℤ (pos 0) count
      then record { barrier = record b { count = count }; world = s; token = at; notified = false }
      else record {
        barrier = record {
          count = b.expected -ℤ drop;
          iteration = b.iteration +ℤ pos 1;
          expected = b.expected -ℤ drop;
        };
        world = compl_func s;
        token = at;
        notified = true;
      }

  unfoldable pub arrive : ℤ → Barrier → S → Arrival S
  unfolding do_ardive
  arrive n b s = do_ardive n (pos 0) b s

  unfoldable pub arrive_and_drop : Barrier → S → Arrival S
  unfolding do_ardive
  arrive_and_drop b s = do_ardive (pos 1) (pos 1) b s

  -- The threads arrive one by one, in whatever order.
  unfoldable pub arrive_times : ℕ → Barrier → S → Barrier × S
  unfolding arrive
  arrive_times zero b s = (b, s)
  arrive_times (suc k) b s = let a = arrive (pos 1) b s in arrive_times k a.barrier a.world

-- Both tests of `wait` are this one: the phase of the token is over.
unfoldable pub wait : ArrivalToken → Barrier → Option (Unit {0})
wait arrival b = if eqb_ℤ arrival.iteration b.iteration then none else some tt
