-- ===== src/Latch/Waiting.antt =====
-- When the calls that wait on a latch return, and who is woken.
use c9y.Base.{
  Bool, Bool-cases, ◌⊎◌, inl, inr, ◌≡◌, ◌≢◌, true, false, ◌↔◌, none, some, List, [], ◌∷◌, arith, ap,
  leb→le, le→leb,
}
use c9y.Base.Int.{pos_part, neg_part, leb_ℤ, eqb_ℤ, ℤ, pos, ◌+ℤ◌, ◌-ℤ◌, ◌≤ℤ◌, ◌<ℤ◌, int_laws}
use c9y.Latch.{Latch, latch, count_down, count_down_all, wait, wait_for}

abbrev pub sum : List ℤ → ℤ
sum [] = pos 0
sum (n ∷ ns) = n +ℤ sum ns

pub count-count_down_all :
    (ns : List ℤ) (l : Latch) → (count_down_all ns l).count ≡ l.count -ℤ sum ns
unfolding count_down_all
count-count_down_all [] l = omega int_laws
count-count_down_all (n ∷ ns) l = rw (count-count_down_all ns (count_down n l).0) (omega int_laws)

released_iff : (l : Latch) → (wait l ≡ some tt) ↔ (l.count ≤ℤ pos 0)
unfolding wait
released_iff l = (λ h. ground arith, λ h. ground arith)

wait_for_iff :
    (timed_out : Bool) (l : Latch) → (wait_for timed_out l ≡ some true) ↔ (l.count ≡ pos 0)
unfolding wait_for
wait_for_iff timed_out l = (λ h. ground arith, λ h. ground arith)

wait_for-sleeps : (l : Latch) → (wait_for false l ≡ none) ↔ (l.count ≢ pos 0)
unfolding wait_for
wait_for-sleeps l = (λ h e. ground arith, λ h. sleeps (Bool-cases (eqb_ℤ l.count (pos 0))) h)
  where
    sleeps :
        (eqb_ℤ l.count (pos 0) ≡ true) ⊎ (eqb_ℤ l.count (pos 0) ≡ false)
        → l.count ≢ pos 0
        → wait_for false l ≡ none
    sleeps (inl zero) h = absurd (h (ground (arith, zero)))
    sleeps (inr other) h = ground (arith, other)

-- Every count_down that leaves the latch in a state where wait returns notifies the sleepers, and
-- no other count_down does: nobody sleeps through the release.
pub count_down-notifies :
    (n : ℤ) (l : Latch) → ((count_down n l).1 ≡ true) ↔ (wait (count_down n l).0 ≡ some tt)
unfolding wait count_down
count_down-notifies n l = (λ h. ground arith, λ h. ground arith)

-- On a latch that was counted below zero wait returns at once, while wait_for sleeps until its
-- time-out and then answers false.
pub wait_for_below_zero :
    (l : Latch)
    → l.count <ℤ pos 0
    → (wait l ≡ some tt) × (wait_for false l ≡ none) × (wait_for true l ≡ some false)
unfolding wait wait_for
wait_for_below_zero l h = (ground arith, ground arith, ground arith)

chain {ℓ κ μ} : {A : Type ℓ} {B : Type κ} {C : Type μ} → A ↔ B → B ↔ C → A ↔ C
chain p q = (λ a. q.0 (p.0 a), λ c. p.1 (q.1 c))

differs {ℓ κ} :
    {A : Type ℓ} {B : Type κ} {a b : A} {c d : B} → (a ≡ b) ↔ (c ≡ d) → (a ≢ b) ↔ (c ≢ d)
differs p = (λ h e. h (p.1 e), λ h e. h (p.0 e))

at_most : (e s : ℤ) → (e -ℤ s ≤ℤ pos 0) ↔ (e ≤ℤ s)
at_most e s = (λ h. omega int_laws, λ h. omega int_laws)

equal : (e s : ℤ) → (e -ℤ s ≡ pos 0) ↔ (e ≡ s)
equal e s = (λ h. omega (int_laws, ap pos_part h, ap neg_part h), λ h. rw h (omega int_laws))

notifies : (e s n : ℤ) → (leb_ℤ (e -ℤ s -ℤ n) (pos 0) ≡ true) ↔ (e ≤ℤ s +ℤ n)
notifies e s n = (λ h. omega (int_laws, leb→le _ _ h), λ h. le→leb _ _ (omega int_laws))

-- After any history of count_down calls on a fresh latch: wait returns exactly when the amounts add up
-- to the expected count at least; wait_for answers true exactly when they add up to that count, and
-- sleeps until its time-out in all other cases, also where wait returns; and a further count_down
-- notifies the sleepers exactly when with its amount wait returns.
pub wait-count_down_all :
    (expected : ℤ) (ns : List ℤ) (timed_out : Bool) (n : ℤ)
    → let l = count_down_all ns (latch expected) in
      ((wait l ≡ some tt) ↔ (expected ≤ℤ sum ns))
      × ((wait_for timed_out l ≡ some true) ↔ (expected ≡ sum ns))
      × ((wait_for false l ≡ none) ↔ (expected ≢ sum ns))
      × (((count_down n l).1 ≡ true) ↔ (expected ≤ℤ sum ns +ℤ n))
unfolding latch count_down
wait-count_down_all expected ns timed_out n =
    let l = count_down_all ns (latch expected) in
    let counted : l.count ≡ expected -ℤ sum ns = count-count_down_all ns (latch expected) in
    (
      chain (released_iff l) (rw counted (at_most expected (sum ns))),
      chain (wait_for_iff timed_out l) (rw counted (equal expected (sum ns))),
      chain (wait_for-sleeps l) (rw counted (differs (equal expected (sum ns)))),
      rw counted (notifies expected (sum ns) n),
    )
