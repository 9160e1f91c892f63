-- ===== src/Sync/Tags.antt =====
-- c9y/sync.cpp: what a once_tag promises, where no thread syncs to itself with it: at most one call is
-- queued or running for it at any time, under every interleaving of the threads.
use c9y.Base.{
  update, ℕ, ◌+◌, ◌==◌, ◌<◌, ◌≤◌, ◌≡◌, true, false, some, List, [], ◌∷◌, ◌++◌, if◌then◌else◌, arith,
}
use mathlib.Core.Option.{some-injective}
use c9y.Exceptions.{Outcome, Handler}
use c9y.Sync.{
  Entry, plain, tagged, Program, push_task, push_tagged, delay, delay_tagged, sync_to,
  sync_to_tagged, get_this_threads_tasks,
}
use c9y.Sync.Threads.{
  System, release_entry, Step, do_delay, do_delay_tagged, do_sync, do_sync_tagged, begin, finish,
  act, Reach, here, next,
}

-- How many entries of a list are for the tag.
abbrev pub pending : ℕ → List Entry → ℕ
pending t [] = 0
pending t (plain f ∷ es) = pending t es
pending t (tagged tag f ∷ es) = (if tag == t then 1 else 0) + pending t es

pending-append : (t : ℕ) (es fs : List Entry) → pending t (es ++ fs) ≡ pending t es + pending t fs
pending-append t [] fs = omega arith
pending-append t (plain f ∷ es) fs = pending-append t es fs
pending-append t (tagged tag f ∷ es) fs = omega (arith, pending-append t es fs)

module _ {ℓ} {W : Type ℓ} where
  -- The calls for the tag that thread `i` has queued or taken.
  abbrev pub held : ℕ → System W → ℕ → ℕ
  held t s i = pending t (s.program.tasks i) + pending t (s.running i)

  pub record IsOnce (t : ℕ) (s : System W) : Type 0 where
    pub inactive : (i : ℕ) → s.program.active t ≡ false → held t s i ≡ 0
    pub single : (i : ℕ) → held t s i ≤ 1
    pub unique : (i j : ℕ) → 0 < held t s i → 0 < held t s j → i ≡ j

  module _ (t : ℕ) (s : System W) (o : IsOnce t s) where
    push_plain-IsOnce :
        (thread func : ℕ)
        → IsOnce t (record s { program = push_task thread (plain func) s.program })
    unfolding push_task
    push_plain-IsOnce thread func = record {
      inactive = λ i h. ground (arith, o.inactive i, more i);
      single = λ i. ground (arith, o.single i, more i);
      unique = λ i j h k. ground (arith, o.unique i j, more i, more j);
    }
      where
        more :
            (i : ℕ)
            → pending t (s.program.tasks i ++ plain func ∷ []) ≡ pending t (s.program.tasks i)
        more i = omega (arith, pending-append t (s.program.tasks i) (plain func ∷ []))

    push_tagged-IsOnce :
        (tag thread func : ℕ)
        → IsOnce t (record s { program = push_tagged tag thread func s.program })
    unfolding push_tagged
    push_tagged-IsOnce tag thread func = record {
      inactive = λ i h. ground (arith, o.inactive i, more i);
      single = λ i. ground (arith, o.single i, o.inactive i, more i);
      unique = λ i j h k. ground (arith, o.unique i j, o.inactive i, o.inactive j, more i, more j);
    }
      where
        more :
            (i : ℕ)
            → pending t (s.program.tasks i ++ tagged tag func ∷ [])
              ≡ pending t (s.program.tasks i) + (if tag == t then 1 else 0)
        more i = omega (arith, pending-append t (s.program.tasks i) (tagged tag func ∷ []))

    begin-IsOnce :
        (this : ℕ)
        → IsOnce t (record {
          program = (get_this_threads_tasks this s.program).1;
          running =
              update s.running this ((get_this_threads_tasks this s.program).0 ++ s.running this);
        })
    unfolding get_this_threads_tasks
    begin-IsOnce this = record {
      inactive = λ i h. ground (arith, o.inactive i, both i);
      single = λ i. ground (arith, o.single i, both i);
      unique = λ i j h k. ground (arith, o.unique i j, both i, both j);
    }
      where
        both :
            (i : ℕ)
            → (this == i) ≡ true
            → pending t (s.program.tasks this ++ s.running this) ≡ held t s i
        both i h = ground (arith, pending-append t (s.program.tasks this) (s.running this))

    finish-IsOnce :
        (this : ℕ) (e : Entry) (es : List Entry)
        → s.running this ≡ e ∷ es
        → IsOnce t
            (record { program = release_entry e s.program; running = update s.running this es })
    finish-IsOnce this (plain f) es e = record {
      inactive = λ i h. ground (arith, o.inactive i, had i);
      single = λ i. ground (arith, o.single i, had i);
      unique = λ i j h k. ground (arith, o.unique i j, had i, had j);
    }
      where
        had : (i : ℕ) → (this == i) ≡ true → pending t (s.running i) ≡ pending t es
        had i h = ground (arith, e)
    finish-IsOnce this (tagged tag f) es e = record {
      inactive = λ i h. ground (arith, o.inactive i, o.single i, o.unique this i, had i, had this);
      single = λ i. ground (arith, o.single i, had i);
      unique = λ i j h k. ground (arith, o.unique i j, had i, had j);
    }
      where
        had :
            (i : ℕ)
            → (this == i) ≡ true
            → pending t (s.running i) ≡ (if tag == t then 1 else 0) + pending t es
        had i h = ground (arith, e)

  module _ (call : ℕ → Program W → Outcome (Program W)) (handler : Handler (Program W)) where
    -- For another thread, sync queues.
    pub to_plain :
        (this thread func : ℕ) (p q : Program W)
        → (thread == this) ≡ false
        → sync_to call handler this thread func p ≡ some q
        → push_task thread (plain func) p ≡ q
    unfolding sync_to
    to_plain this thread func p q e h = some-injective _ _ (rw e at h)

    pub to_tagged :
        (this tag thread func : ℕ) (p q : Program W)
        → (thread == this) ≡ false
        → sync_to_tagged call handler this tag thread func p ≡ some q
        → push_tagged tag thread func p ≡ q
    unfolding sync_to_tagged
    to_tagged this tag thread func p q e h = some-injective _ _ (rw e at h)

  module _ (call : ℕ → Program W → Outcome (Program W)) (handler : Handler (Program W))
      (t : ℕ) where
    Step-IsOnce : {s u : System W} → Step call handler s u → IsOnce t s → IsOnce t u
    unfolding delay delay_tagged
    Step-IsOnce {s} (do_delay this func e) o = rw e (push_plain-IsOnce t s o this func)
    Step-IsOnce {s} (do_delay_tagged this tag func e) o =
        rw e (push_tagged-IsOnce t s o tag this func)
    Step-IsOnce {s} (do_sync this thread func p ne h e) o =
        rw (e, ← to_plain call handler this thread func s.program p ne h)
          (push_plain-IsOnce t s o thread func)
    Step-IsOnce {s} (do_sync_tagged this tag thread func p ne h e) o =
        rw (e, ← to_tagged call handler this tag thread func s.program p ne h)
          (push_tagged-IsOnce t s o tag thread func)
    Step-IsOnce {s} (begin this e) o = rw e (begin-IsOnce t s o this)
    Step-IsOnce {s} (finish this f es busy e) o = rw e (finish-IsOnce t s o this f es busy)
    Step-IsOnce {s} (act w e) o =
        rw e (record { inactive = o.inactive; single = o.single; unique = o.unique })

    Reach-IsOnce : {s u : System W} → IsOnce t s → Reach call handler s u → IsOnce t u
    Reach-IsOnce o here = o
    Reach-IsOnce o (next r st) = Step-IsOnce st (Reach-IsOnce o r)

    -- From a state in which nothing is queued or running, under any interleaving of delay, sync (to
    -- other threads) and sync_point, also where functions that it runs call it again: no thread holds two calls for a tag, no two threads hold one
    -- each, and none holds one while the tag is not active.
    pub once_tag-single :
        {s u : System W}
        → ((i : ℕ) → (s.program.tasks i ≡ []) × (s.running i ≡ []))
        → Reach call handler s u
        → ((i : ℕ) → held t u i ≤ 1)
          × ((i j : ℕ) → 0 < held t u i → 0 < held t u j → i ≡ j)
          × ((i : ℕ) → u.program.active t ≡ false → held t u i ≡ 0)
    once_tag-single {s} {u} empty r = (o.single, o.unique, o.inactive)
      where
        nothing : (i : ℕ) → held t s i ≡ 0
        nothing i = ground (arith, empty i)

        o : IsOnce t u
        o =
            Reach-IsOnce
              (record {
                inactive = λ i h. nothing i;
                single = λ i. omega (arith, nothing i);
                unique = λ i j h k. absurd (omega (arith, nothing i));
              })
              r
