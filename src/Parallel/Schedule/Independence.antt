-- ===== src/Parallel/Schedule/Independence.antt =====
-- `parallel` always returns, and tasks that commute give one result under every schedule.
use mathlib.Core.List.Perm
use mathlib.Core.List.{Perm}
use c9y.Base.{ℕ, zero, suc, ◌+◌, ◌≡◌, refl, sym, ap, ◌∙◌, some, List, [], ◌∷◌, length, arith}
use c9y.Base.Int.{pos, ◌-ℤ◌}
use c9y.Latch.{Latch, latch, count_down}
use c9y.Parallel.Schedule.{pick, order, run_counting, parallel}

pick-perm {ℓ} :
    {T : Type ℓ} (k : ℕ) (t : T) (ts : List T) → Perm ((pick k t ts).0 ∷ (pick k t ts).1) (t ∷ ts)
unfolding pick
pick-perm zero t ts = Perm.refl _
pick-perm (suc k) t [] = Perm.refl _
pick-perm (suc k) t (u ∷ us) = Perm.trans (Perm.swap _ _ _) (Perm.cons t (pick-perm k u us))

-- Every schedule runs each task exactly once.
pub order-perm {ℓ} : {T : Type ℓ} (ks : List ℕ) (ts : List T) → Perm (order ks ts) ts
unfolding order
order-perm [] [] = Perm.refl _
order-perm (k ∷ ks) [] = Perm.refl _
order-perm [] (t ∷ ts) = Perm.refl _
order-perm (k ∷ ks) (t ∷ ts) = Perm.trans (Perm.cons _ (order-perm ks _)) (pick-perm k t ts)

length-pick {ℓ} : {T : Type ℓ} (k : ℕ) (t : T) (ts : List T) → length (pick k t ts).1 ≡ length ts
unfolding pick
length-pick zero t ts = refl
length-pick (suc k) t [] = refl
length-pick (suc k) t (u ∷ us) = ap suc (length-pick k u us)

length-order {ℓ} : {T : Type ℓ} (ks : List ℕ) (ts : List T) → length (order ks ts) ≡ length ts
unfolding order
length-order [] [] = refl
length-order (k ∷ ks) [] = refl
length-order [] (t ∷ ts) = refl
length-order (k ∷ ks) (t ∷ ts) = ap suc (length-order ks _ ∙ length-pick k t ts)

module _ {ℓ κ} {S : Type ℓ} {T : Type κ} (run : T → S → S) where
  abbrev pub run_all : List T → S → S
  run_all [] s = s
  run_all (t ∷ ts) s = run_all ts (run t s)

  abbrev pub Commutes : T → T → Type ℓ
  Commutes t u = (s : S) → run u (run t s) ≡ run t (run u s)

  abbrev pub CommutesAll : T → List T → Type ℓ
  CommutesAll t [] = Unit
  CommutesAll t (u ∷ us) = Commutes t u × CommutesAll t us

  -- Any two of the tasks commute.
  abbrev pub AreIndependent : List T → Type ℓ
  AreIndependent [] = Unit
  AreIndependent (t ∷ ts) = CommutesAll t ts × AreIndependent ts

  run_counting-run_all :
      (ts : List T) (s : S) (l : Latch) (n : ℕ)
      → l.count ≡ pos (n + length ts)
      → ((run_counting run ts (s, l)).0 ≡ run_all ts s)
        × ((run_counting run ts (s, l)).1.count ≡ pos n)
  unfolding run_counting ◌-ℤ◌
  run_counting-run_all [] s l n e = (refl, rw e (ap pos (omega arith)))
  run_counting-run_all (t ∷ ts) s l n e =
      run_counting-run_all ts (run t s) (count_down (pos 1) l).0 n (rw e (ground arith))

  pub parallel-run_all :
      (schedule : List ℕ) (tasks : List T) (s : S)
      → parallel run schedule tasks s ≡ some (run_all (order schedule tasks) s)
  unfolding parallel
  parallel-run_all schedule tasks s = ground (
    arith,
    run_counting-run_all (order schedule tasks) s (latch (pos (length tasks))) 0
        (rw length-order (ap pos (omega arith))),
  )

  -- Tasks that throw nothing, each of them one step: under every schedule parallel returns, and has
  -- run the tasks one after another, each exactly once.
  pub parallel-perm :
      (schedule : List ℕ) (tasks : List T) (s : S)
      → (ran : List T) × Perm ran tasks × (parallel run schedule tasks s ≡ some (run_all ran s))
  parallel-perm schedule tasks s =
      (order schedule tasks, order-perm schedule tasks, parallel-run_all schedule tasks s)

  CommutesAll-pick :
      (x : T) (k : ℕ) (t : T) (ts : List T)
      → CommutesAll x (t ∷ ts)
      → CommutesAll x ((pick k t ts).0 ∷ (pick k t ts).1)
  unfolding pick
  CommutesAll-pick x zero t ts c = c
  CommutesAll-pick x (suc k) t [] c = c
  CommutesAll-pick x (suc k) t (u ∷ us) c =
      let d = CommutesAll-pick x k u us c.1 in (d.0, (c.0, d.1))

  -- A task that is picked early leaves the result as it is, and the rest independent.
  pick-AreIndependent :
      (k : ℕ) (t : T) (ts : List T)
      → AreIndependent (t ∷ ts)
      → AreIndependent (pick k t ts).1
        × ((s : S) → run_all (pick k t ts).1 (run (pick k t ts).0 s) ≡ run_all (t ∷ ts) s)
  unfolding pick
  pick-AreIndependent zero t ts i = (i.1, λ s. refl)
  pick-AreIndependent (suc k) t [] i = (i.1, λ s. refl)
  pick-AreIndependent (suc k) t (u ∷ us) i =
      let (rest, same) = pick-AreIndependent k u us i.1 in
      let c = CommutesAll-pick t k u us i.0 in
      ((c.1, rest), λ s. ap (run_all (pick k u us).1) (sym (c.0 s)) ∙ same (run t s))

  run_all-order :
      (ks : List ℕ) (ts : List T) (s : S)
      → AreIndependent ts
      → run_all (order ks ts) s ≡ run_all ts s
  unfolding order
  run_all-order [] [] s i = refl
  run_all-order (k ∷ ks) [] s i = refl
  run_all-order [] (t ∷ ts) s i = refl
  run_all-order (k ∷ ks) (t ∷ ts) s i =
      let (rest, same) = pick-AreIndependent k t ts i in
      run_all-order ks (pick k t ts).1 (run (pick k t ts).0 s) rest ∙ same s

  -- Tasks of which any two commute (one step each, and none throws) have one result, that of running
  -- them in the order given, under every schedule, and parallel returns it.
  pub parallel-of_independent :
      (schedule : List ℕ) (tasks : List T) (s : S)
      → AreIndependent tasks
      → parallel run schedule tasks s ≡ some (run_all tasks s)
  parallel-of_independent schedule tasks s i =
      parallel-run_all schedule tasks s ∙ ap some (run_all-order schedule tasks s i)
