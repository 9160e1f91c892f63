-- ===== src/Parallel/Pool/Placing.antt =====
-- A call of `parallel` on the shared pool: each step keeps the places of the tasks.
use c9y.Base.{
  Bool, occurrences, occurrences-append, occurrences-removed, ℕ, ◌+◌, ◌%◌, ◌≡◌, refl, ap, List, [],
  ◌∷◌, ◌++◌, arith, sym, ◌∙◌,
}
use native.Mathlib.Decide.{ℕ_discrete}
use c9y.Base.Int.{pos, ◌-ℤ◌}
use c9y.Exceptions.{Outcome, Handler}
use c9y.Latch.{count_down, wait}
use c9y.Queue.{pop_wait}
use c9y.TaskPool.{enqueue, complete}
use c9y.Parallel.Schedule.Independence.{run_all}
use c9y.Parallel.Pool.{
  own, foreign, System, Step, issue, other, take, act, act_threw, act_other, count, end, return,
  Reach, here, next,
}
use c9y.Parallel.Pool.Counting.{
  own_length, own_length-append, effect, effect-returned, effect-threw, IsPlaced,
}

module _ {ℓ} {S : Type ℓ} (threads : ℕ) (handler : Handler S) (run : ℕ → S → Outcome S)
    (can_end : ℕ → Bool) (tasks : List ℕ) (world : S) where
  abbrev Placed : System S → List ℕ → Type ℓ
  Placed s ran = IsPlaced threads handler run tasks world s ran

  own_length-removed :
      (n : ℕ) (before behind ns : List ℕ)
      → ns ≡ before ++ n ∷ behind
      → own_length ns ≡ n % 2 + own_length (before ++ behind)
  own_length-removed n before behind ns e =
      rw e (omega (arith, own_length-append before (n ∷ behind), own_length-append before behind))

  run_all-append :
      (fs gs : List ℕ) (w : S)
      → run_all (effect handler run) (fs ++ gs) w
        ≡ run_all (effect handler run) gs (run_all (effect handler run) fs w)
  run_all-append [] gs w = refl
  run_all-append (f ∷ fs) gs w = run_all-append fs gs (effect handler run f w)

  after_task :
      {s : System S} (ran : List ℕ) (f : ℕ) (before behind : List ℕ)
      → Placed s ran
      → s.running ≡ before ++ own f ∷ behind
      → (x : ℕ)
      → occurrences x (ran ++ f ∷ [])
          + occurrences (own x) (before ++ behind)
          + occurrences (own x) s.pool.tasks.container
          + occurrences x s.left
        ≡ occurrences x tasks
  after_task {s} ran f before behind p h x = ground (
    arith,
    p.places x,
    occurrences-append x ran (f ∷ []),
    occurrences-removed (own x) (own f) before behind s.running h,
  )

  acted_on-append :
      {s : System S} (ran : List ℕ) (f : ℕ) {w : S}
      → Placed s ran
      → effect handler run f s.world ≡ w
      → w ≡ run_all (effect handler run) (ran ++ f ∷ []) world
  acted_on-append ran f p e =
      sym e ∙ ap (effect handler run f) p.acted_on ∙ sym (run_all-append ran (f ∷ []) world)

  -- A task that has returned is none that always throws.
  not_it :
      (f : ℕ) (u w : S)
      → run f u ≡ Outcome.returned w
      → (x : ℕ) → ((y : S) → (v : S) × (run x y ≡ Outcome.threw v))
      → occurrences x (f ∷ []) ≡ 0
  not_it f u w runs x throws = elim (ℕ_discrete f x) [
    | yes same ↦ let (v, e) = throws u in let this : run f u ≡ Outcome.threw v = rw same e in cc
    | no differ ↦ ground (arith, differ)
  ]

  pub Step-IsPlaced :
      {s t : System S} (ran : List ℕ)
      → Step threads handler run can_end s t
      → Placed s ran
      → (ran' : List ℕ) × Placed t ran'
  unfolding enqueue pop_wait complete count_down wait ◌-ℤ◌
  Step-IsPlaced {s} ran (issue f rest h e) p = (
    ran,
    rw e (record {
      places = λ x.
          ground
            (arith, p.places x, occurrences-append (own x) s.pool.tasks.container (own f ∷ []));
      latched =
          p.latched
          ∙ ap pos (ground (arith, own_length-append s.pool.tasks.container (own f ∷ [])));
      acted_on = p.acted_on;
      waited = p.waited;
      uncounted = p.uncounted;
    }),
  )
  Step-IsPlaced {s} ran (other f e) p = (
    ran,
    rw e (record {
      places = λ x.
          ground
            (arith, p.places x, occurrences-append (own x) s.pool.tasks.container (foreign f ∷ []));
      latched =
          p.latched
          ∙ ap pos (ground (arith, own_length-append s.pool.tasks.container (foreign f ∷ [])));
      acted_on = p.acted_on;
      waited = p.waited;
      uncounted = p.uncounted;
    }),
  )
  Step-IsPlaced {s} ran (take n q free h e) p = (
    ran,
    rw e (record {
      places = λ x. ground (arith, p.places x);
      latched = p.latched ∙ ap pos (ground arith);
      acted_on = p.acted_on;
      waited = p.waited;
      uncounted = p.uncounted;
    }),
  )
  Step-IsPlaced {s} ran (act f before behind w h ends runs e) p = (
    ran ++ f ∷ [],
    rw e (record {
      places = after_task ran f before behind p h;
      latched =
          p.latched ∙ ap pos (omega (arith, own_length-removed (own f) before behind s.running h));
      acted_on = acted_on-append ran f p (effect-returned handler run f s.world w runs);
      waited = p.waited;
      uncounted = λ x throws. omega (
        arith,
        occurrences-append x ran (f ∷ []),
        not_it f s.world w runs x throws,
        p.uncounted x throws,
      );
    }),
  )
  Step-IsPlaced {s} ran (act_threw f before behind w v h ends runs handled e) p = (
    ran ++ f ∷ [],
    rw e (record {
      places = after_task ran f before behind p h;
      latched =
          p.latched ∙ ap pos (omega (arith, own_length-removed (own f) before behind s.running h));
      acted_on = acted_on-append ran f p (effect-threw handler run f s.world w v runs handled);
      waited = p.waited;
      uncounted =
          λ x throws. ground (arith, occurrences-append x ran (f ∷ []), p.uncounted x throws);
    }),
  )
  Step-IsPlaced {s} ran (act_other f before behind h ends e) p = (
    ran,
    rw e (record {
      places = λ x.
          ground
            (arith, p.places x, occurrences-removed (own x) (foreign f) before behind s.running h);
      latched =
          p.latched
          ∙ ap pos (omega (arith, own_length-removed (foreign f) before behind s.running h));
      acted_on = p.acted_on;
      waited = p.waited;
      uncounted = p.uncounted;
    }),
  )
  Step-IsPlaced {s} ran (count k h e) p = (
    ran,
    rw e (record {
      places = p.places;
      latched = rw p.latched (ground arith);
      acted_on = p.acted_on;
      waited = λ r. ground (arith, p.latched, p.waited r);
      uncounted = p.uncounted;
    }),
  )
  Step-IsPlaced {s} ran (end k h e) p = (
    ran,
    rw e (record {
      places = p.places;
      latched = p.latched;
      acted_on = p.acted_on;
      waited = p.waited;
      uncounted = p.uncounted;
    }),
  )
  Step-IsPlaced {s} ran (return h w e) p = (
    ran,
    rw e (record {
      places = p.places;
      latched = p.latched;
      acted_on = p.acted_on;
      waited = λ r. ground (arith, p.latched);
      uncounted = p.uncounted;
    }),
  )

  pub Reach-IsPlaced :
      {s t : System S} (ran : List ℕ)
      → Placed s ran
      → Reach threads handler run can_end s t
      → (ran' : List ℕ) × Placed t ran'
  Reach-IsPlaced ran p here = (ran, p)
  Reach-IsPlaced ran p (next r st) =
      let (ran', q) = Reach-IsPlaced ran p r in Step-IsPlaced ran' st q
