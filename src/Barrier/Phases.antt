-- ===== src/Barrier/Phases.antt =====
-- The phases of a barrier on which nobody drops out, and when the waiting threads go on.
use c9y.Base.{ℕ, zero, suc, ◌+◌, ◌-◌, ◌/◌, ◌%◌, ◌<◌, ◌≡◌, ◌≢◌, refl, ◌∙◌, true, ◌↔◌, some, arith}
use native.Mathlib.Nat.{mod-eq_of_lt, div-eq_of_lt}
use c9y.Base.Int.{ℤ, pos, ◌+ℤ◌, ◌-ℤ◌}
use c9y.Barrier.{Barrier, barrier, arrive, do_ardive, arrive_times, wait}

-- A barrier in phase `i` that waits for `m` threads in each, of which `r` are missing.
abbrev pub in_phase : (m i r : ℕ) → Barrier
in_phase m i r = record { count = pos r; iteration = pos i; expected = pos m }

module _ {ℓ} {S : Type ℓ} (compl_func : S → S) where
  abbrev pub completed : ℕ → S → S
  completed zero s = s
  completed (suc k) s = completed k (compl_func s)

  arrive-in_phase :
      (m i r : ℕ) (s : S)
      → ((arrive compl_func (pos 1) (in_phase m i (suc (suc r))) s).barrier ≡ in_phase m i (suc r))
        × ((arrive compl_func (pos 1) (in_phase m i (suc (suc r))) s).world ≡ s)
  unfolding arrive ◌-ℤ◌
  arrive-in_phase m i r s = (ground arith, ground arith)

  arrive_last-in_phase :
      (m i : ℕ) (s : S)
      → ((arrive compl_func (pos 1) (in_phase m i 1) s).barrier ≡ in_phase m (suc i) m)
        × ((arrive compl_func (pos 1) (in_phase m i 1) s).world ≡ compl_func s)
  unfolding arrive ◌-ℤ◌ ◌+ℤ◌
  arrive_last-in_phase m i s = (ground arith, ground arith)

  -- `j` threads have arrived in phase `i`, and `k` more arrive.
  pub arrive_times-in_phase :
      (k m i j r : ℕ) (s : S)
      → j < m
      → r ≡ m - j
      → arrive_times compl_func k (in_phase m i r) s
        ≡ (in_phase m (i + (j + k) / m) (m - (j + k) % m), completed ((j + k) / m) s)
  unfolding arrive_times
  arrive_times-in_phase zero m i j r s h e =
      let q : (j + 0) / m ≡ 0 = div-eq_of_lt (omega arith) in
      let p : (j + 0) % m ≡ j = mod-eq_of_lt (omega arith) ∙ omega arith in
      let i' : i + 0 ≡ i = omega arith in rw (q, p, i', e)
  arrive_times-in_phase (suc k) m i j zero s h e = absurd (omega arith)
  arrive_times-in_phase (suc k) m i j (suc zero) s h e =
      let (b, w) = arrive_last-in_phase m i s in
      let q : (j + suc k) / m ≡ suc (k / m) = grind arith in
      let p : (j + suc k) % m ≡ k % m = grind arith in
      let z : 0 + k ≡ k = omega arith in
      let i' : i + suc (k / m) ≡ suc i + k / m = omega arith in
      rw (b, w, q, p, i')
        (rw z at (arrive_times-in_phase k m (suc i) 0 m (compl_func s) (omega arith) (omega arith)))
  arrive_times-in_phase (suc k) m i j (suc (suc r)) s h e =
      let (b, w) = arrive-in_phase m i r s in
      let n : j + suc k ≡ j + 1 + k = omega arith in
      rw (b, w, n) (arrive_times-in_phase k m i (j + 1) (suc r) s (omega arith) (omega arith))

  in_phase-barrier : (m : ℕ) → barrier (pos m) ≡ in_phase m 0 m
  unfolding barrier
  in_phase-barrier m = refl

  -- On a barrier for m threads (m positive) from which nobody drops out, k arrivals complete k / m
  -- phases: the completion function has run as often, and m - k % m arrivals are missing.
  pub arrive_times-barrier :
      (m k : ℕ) (s : S)
      → 0 < m
      → arrive_times compl_func k (barrier (pos m)) s ≡ (
        record { count = pos (m - k % m); iteration = pos (k / m); expected = pos m },
        completed (k / m) s,
      )
  arrive_times-barrier m k s h =
      let z : 0 + k ≡ k = omega arith in
      let i : 0 + k / m ≡ k / m = omega arith in
      rw in_phase-barrier (rw (z, i) at (arrive_times-in_phase k m 0 0 m s h (omega arith)))

  token-arrive :
      (b : Barrier) (s : S)
      → (arrive compl_func (pos 1) b s).token ≡ record { iteration = b.iteration }
  unfolding arrive
  token-arrive b s = ground arith

  wait_iff :
      (i j m r : ℕ) → (wait (record { iteration = pos i }) (in_phase m j r) ≡ some tt) ↔ (i ≢ j)
  unfolding wait
  wait_iff i j m r = (λ h. ground arith, λ h. ground arith)

  -- On such a barrier the thread that arrives after j others, and waits with its token once k have
  -- arrived, goes on exactly when the phase of its arrival is not the present one: j / m ≢ k / m.
  pub wait-arrive_times :
      (m j k : ℕ) (s : S)
      → 0 < m
      → let at = arrive_times compl_func j (barrier (pos m)) s in
        (wait
            (arrive compl_func (pos 1) at.0 at.1).token
            (arrive_times compl_func k (barrier (pos m)) s).0
          ≡ some tt)
        ↔ (j / m ≢ k / m)
  wait-arrive_times m j k s h =
      rw (token-arrive, arrive_times-barrier m j s h, arrive_times-barrier m k s h)
        (wait_iff (j / m) (k / m) m (m - k % m))

  -- Whatever the barrier, the number of arrivals and of those that drop out: the sleeping threads
  -- are notified exactly when the arrival ends the phase, which is when a wait with its token would
  -- return.
  pub do_ardive-notified :
      (n drop : ℤ) (b : Barrier) (s : S)
      → let a = do_ardive compl_func n drop b s in
        (a.notified ≡ true) ↔ (wait a.token a.barrier ≡ some tt)
  unfolding do_ardive wait ◌+ℤ◌
  do_ardive-notified n drop b s = (λ h. ground arith, λ h. ground arith)
