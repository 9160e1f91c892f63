-- ===== src/Monitor/Settling.antt =====
-- Threads that sleep on a monitored state: none sleeps though its call may return, and those that were
-- woken get on.
use c9y.Base.{
  ℕ, suc, ◌+◌, ◌≡◌, refl, ap, ◌∙◌, ◌⊎◌, inl, inr, Bool, true, false, Option, none, some, List, [],
  ◌∷◌, ◌++◌, length, All, All-remove, Option-cases, arith,
}
use c9y.Monitor.{
  Monitored, System, fresh, notify_all, attempt, Step, changes, enters, retries, wakes, Reach, here,
  next,
}

module _ {ℓ κ μ ν} {S : Type ℓ} {C : Type κ} {W : Type μ} {R : Type ν} (i : Monitored S C W R) where
  -- Each call that sleeps would sleep again.
  abbrev pub AllBlocked : System S W R → Type ν
  AllBlocked s = All (λ w. i.test w false s.shared ≡ none) s.sleeping

  attempt-AllBlocked :
      (w : W) (timed_out : Bool) (s : System S W R)
      → AllBlocked s
      → AllBlocked (attempt w (i.test w timed_out s.shared) s)
  attempt-AllBlocked w timed_out s all = go timed_out (Option-cases (i.test w timed_out s.shared))
    where
      go :
          (b : Bool)
          → ((i.test w b s.shared ≡ none) ⊎ ((r : R) × (i.test w b s.shared ≡ some r)))
          → AllBlocked (attempt w (i.test w b s.shared) s)
      go b (inr (r, e)) = rw e all
      go true (inl e) = rw e (i.test_again w s.shared e, all)
      go false (inl e) = rw e (e, all)

  changed-All :
      (c : C) (s : S) (ws : List W)
      → (i.change c s).1 ≡ false
      → All (λ w. i.test w false s ≡ none) ws
      → All (λ w. i.test w false (i.change c s).0 ≡ none) ws
  changed-All c s [] quiet all = tt
  changed-All c s (w ∷ ws) quiet (e, all) =
      (i.change_notifies c w s e quiet, changed-All c s ws quiet all)

  change-AllBlocked :
      (c : C) (s : System S W R)
      → AllBlocked s
      → AllBlocked
          (notify_all (i.change c s.shared).1 (record s { shared = (i.change c s.shared).0 }))
  change-AllBlocked c s all = go (i.change c s.shared).1 refl
    where
      go :
          (b : Bool)
          → (i.change c s.shared).1 ≡ b
          → AllBlocked (notify_all b (record s { shared = (i.change c s.shared).0 }))
      go true e = tt
      go false e = changed-All c s.shared s.sleeping e all

  Step-AllBlocked : {s t : System S W R} → Step i s t → AllBlocked s → AllBlocked t
  Step-AllBlocked {s} (changes c e) all = rw e (change-AllBlocked c s all)
  Step-AllBlocked {s} (enters w timed_out e) all = rw e (attempt-AllBlocked w timed_out s all)
  Step-AllBlocked {s} (retries w timed_out before behind h e) all =
      rw e (attempt-AllBlocked w timed_out (record s { woken = before ++ behind }) all)
  Step-AllBlocked (wakes w before behind h e) all =
      rw e (All-remove _ before w behind (rw h at all)).1

  Reach-AllBlocked : {s t : System S W R} → Reach i s t → AllBlocked s → AllBlocked t
  Reach-AllBlocked here all = all
  Reach-AllBlocked (next r step) all = Step-AllBlocked step (Reach-AllBlocked r all)

  pub calls : System S W R → ℕ
  calls s = length s.sleeping + length s.woken + length s.returned

  Reach-trans : {s t u : System S W R} → Reach i s t → Reach i t u → Reach i s u
  Reach-trans r here = r
  Reach-trans r (next q step) = next (Reach-trans r q) step

  attempt_lem :
      (w : W) (o : Option R) (s : System S W R)
      → ((attempt w o s).shared ≡ s.shared)
        × ((attempt w o s).woken ≡ s.woken)
        × (calls (attempt w o s) ≡ suc (calls s))
  unfolding calls
  attempt_lem w none s = (refl, refl, omega arith)
  attempt_lem w (some r) s = (refl, refl, omega arith)

  -- The woken threads get the mutex, one after another.
  retry_all :
      (ws : List W) (s : System S W R)
      → s.woken ≡ ws
      → AllBlocked s
      → (t : System S W R) × Reach i s t
        × (t.shared ≡ s.shared)
        × (t.woken ≡ [])
        × AllBlocked t
        × (calls t ≡ calls s)
  unfolding calls
  retry_all [] s e all = (s, here, refl, e, all, refl)
  retry_all (w ∷ ws) s e all =
      let rest : System S W R = record s { woken = ws } in
      let tried : System S W R = attempt w (i.test w false s.shared) rest in
      let (same, waiting, one_more) = attempt_lem w (i.test w false s.shared) rest in
      let (t, r, shared, woken, blocked, count) =
        retry_all ws tried waiting (attempt-AllBlocked w false rest all) in
      (
        t,
        Reach-trans (next here (retries w false [] ws e refl)) r,
        shared ∙ same,
        woken,
        blocked,
        omega (arith, count, one_more, ap length e),
      )

  -- Whatever the threads do with a new state, in whatever order: each call that sleeps would sleep
  -- again if it tested its predicate. And if nobody changes the state from then on, the threads come
  -- to rest, with no thread left that is awake, no call lost, and only calls asleep that would sleep
  -- again.
  pub settles :
      {s : System S W R} (start : S)
      → Reach i (fresh start) s
      → AllBlocked s
        × (t : System S W R) × Reach i s t
        × (t.shared ≡ s.shared)
        × (t.woken ≡ [])
        × AllBlocked t
        × (calls t ≡ calls s)
  settles {s} start r =
      let all = Reach-AllBlocked r tt in
      let (t, more, shared, woken, blocked, count) = retry_all s.woken s refl all in
      (all, t, more, shared, woken, blocked, count)
