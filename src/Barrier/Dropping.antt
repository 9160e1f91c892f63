-- ===== src/Barrier/Dropping.antt =====
-- What becomes of `arrive_and_drop`: the source takes the drop off `expected` only in the call that
-- ends a phase.
use c9y.Base.{ℕ, suc, ◌+◌, ◌-◌, ◌/◌, ◌%◌, ◌<◌, ◌≡◌, refl, ◌∙◌, none, arith}
use c9y.Base.Int.{pos, ◌+ℤ◌, ◌-ℤ◌}
use c9y.Barrier.{barrier, arrive_and_drop, arrive_times, wait}
use c9y.Barrier.Phases.{in_phase, completed, arrive_times-in_phase}

module _ {ℓ} {S : Type ℓ} (compl_func : S → S) where
  drop_last :
      (m i : ℕ) (s : S)
      → ((arrive_and_drop compl_func (in_phase (suc m) i 1) s).barrier ≡ in_phase m (suc i) m)
        × ((arrive_and_drop compl_func (in_phase (suc m) i 1) s).world ≡ compl_func s)
  unfolding arrive_and_drop ◌-ℤ◌ ◌+ℤ◌
  drop_last m i s = (ground arith, ground arith)

  drop_first :
      (r : ℕ) (s : S)
      → ((arrive_and_drop compl_func (barrier (pos (suc (suc r)))) s).barrier
          ≡ in_phase (suc (suc r)) 0 (suc r))
        × ((arrive_and_drop compl_func (barrier (pos (suc (suc r)))) s).world ≡ s)
  unfolding arrive_and_drop barrier ◌-ℤ◌ ◌+ℤ◌
  drop_first r s = (ground arith, ground arith)

  -- The call that ends a phase takes effect: with m + 1 threads expected and one of them missing, a
  -- thread that drops out ends the phase, and k further arrivals of the m that remain (m positive)
  -- complete k / m phases more.
  pub arrive_and_drop-last :
      (m i k : ℕ) (s : S)
      → 0 < m
      → let a = arrive_and_drop compl_func (in_phase (suc m) i 1) s in
        arrive_times compl_func k a.barrier a.world ≡ (
          record { count = pos (m - k % m); iteration = pos (suc i + k / m); expected = pos m },
          completed compl_func (k / m) (compl_func s),
        )
  arrive_and_drop-last m i k s h =
      let (b, w) = drop_last m i s in
      let z : 0 + k ≡ k = omega arith in
      rw (b, w)
        (rw z at (arrive_times-in_phase compl_func k m (suc i) 0 m (compl_func s) h (omega arith)))

  -- On a new barrier for r + 2 threads, let one thread drop out first. The r + 1 others complete the
  -- phase. When all of them have arrived once more, the second phase is not complete: the completion
  -- function has run once, one arrival is missing, and a wait in this phase does not return.
  pub arrive_and_drop-first :
      (r : ℕ) (s : S)
      → let a = arrive_and_drop compl_func (barrier (pos (suc (suc r)))) s in
        let after = arrive_times compl_func (suc r + suc r) a.barrier a.world in
        (after ≡ (in_phase (suc (suc r)) 1 1, compl_func s))
        × (wait (record { iteration = pos 1 }) after.0 ≡ none)
  unfolding wait
  arrive_and_drop-first r s = let (b, w) = drop_first r s in rw (b, w, again) (refl, stuck)
    where
      m : ℕ
      m = suc (suc r)

      again :
          arrive_times compl_func (suc r + suc r) (in_phase m 0 (suc r)) s
          ≡ (in_phase m 1 1, compl_func s)
      again =
          let q : (1 + (suc r + suc r)) / m ≡ 1 = div_one in
          let p : (1 + (suc r + suc r)) % m ≡ suc r = grind (arith, q) in
          let one : 0 + 1 ≡ 1 = refl in
          let left : m - suc r ≡ 1 = omega arith in
          arrive_times-in_phase compl_func (suc r + suc r) m 0 1 (suc r) s (omega arith)
            (omega arith)
          ∙ rw (q, p, left)
        where
          div_one : (1 + (suc r + suc r)) / m ≡ 1
          div_one = grind arith

      stuck : wait (record { iteration = pos 1 }) (in_phase m 1 1) ≡ none
      stuck = ground arith
