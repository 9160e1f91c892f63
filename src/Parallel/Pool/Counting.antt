-- ===== src/Parallel/Pool/Counting.antt =====
-- Where the tasks of a call of `parallel` are at any time: each stands in one place, as often as it was
-- given; and what the latch still waits for.
use c9y.Base.{
  occurrences, ℕ, ◌+◌, ◌%◌, ◌≤◌, ◌≡◌, refl, ap, true, Option, none, some, List, [], ◌∷◌, ◌++◌,
  length, arith, ◌∙◌,
}
use c9y.Base.Int.{pos}
use c9y.Exceptions.{Outcome, Handler, guarded, unhandled_exception}
use c9y.TaskPool.{TaskPool}
use c9y.Parallel.Schedule.Independence.{run_all}
use c9y.Parallel.Pool.{get_parallel_pool, own, System, begin}

-- How many functions of a list are λs of the call.
abbrev pub own_length : List ℕ → ℕ
own_length [] = 0
own_length (n ∷ ns) = n % 2 + own_length ns

pub own_length-append : (ns ms : List ℕ) → own_length (ns ++ ms) ≡ own_length ns + own_length ms
own_length-append [] ms = omega arith
own_length-append (n ∷ ns) ms = omega (arith, own_length-append ns ms)

pub occurrences-le-own_length : (x : ℕ) (ns : List ℕ) → occurrences (own x) ns ≤ own_length ns
occurrences-le-own_length x [] = omega arith
occurrences-le-own_length x (n ∷ ns) = ground (arith, occurrences-le-own_length x ns)

abbrev pub or_else {ℓ} : {S : Type ℓ} → S → Option S → S
or_else w none = w
or_else w (some v) = v

-- What a task does to the world, with the handler after it if it throws and the handler returns.
abbrev pub effect {ℓ} : {S : Type ℓ} → Handler S → (ℕ → S → Outcome S) → ℕ → S → S
effect handler run f w = or_else w (guarded handler (run f w))

pub effect-returned {ℓ} :
    {S : Type ℓ} (handler : Handler S) (run : ℕ → S → Outcome S) (f : ℕ) (w v : S)
    → run f w ≡ Outcome.returned v
    → effect handler run f w ≡ v
unfolding guarded
effect-returned handler run f w v e = ap (λ o. or_else w (guarded handler o)) e

pub effect-threw {ℓ} :
    {S : Type ℓ} (handler : Handler S) (run : ℕ → S → Outcome S) (f : ℕ) (w u v : S)
    → run f w ≡ Outcome.threw u
    → unhandled_exception handler u ≡ some v
    → effect handler run f w ≡ v
unfolding guarded
effect-threw handler run f w u v e h = ap (λ o. or_else w (guarded handler o)) e ∙ ap (or_else w) h

module _ {ℓ} {S : Type ℓ} (threads : ℕ) (handler : Handler S) (run : ℕ → S → Outcome S)
    (tasks : List ℕ) (world : S) where
  -- Of each task: how often it has run, is taken, is queued, and is left.
  pub record IsPlaced (s : System S) (ran : List ℕ) : Type ℓ where
    pub places :
        (x : ℕ)
        → occurrences x ran
            + occurrences (own x) s.running
            + occurrences (own x) s.pool.tasks.container
            + occurrences x s.left
          ≡ occurrences x tasks
    pub latched :
        s.latch.count
        ≡ pos (
            s.acted
            + s.thrown
            + own_length s.running
            + own_length s.pool.tasks.container
            + length s.left)
    pub acted_on : s.world ≡ run_all (effect handler run) ran world
    pub waited : s.returned ≡ true → s.latch.count ≡ pos 0
    -- A task that always throws has not been counted down each time that it ran.
    pub uncounted :
        (x : ℕ) → ((w : S) → (v : S) × (run x w ≡ Outcome.threw v)) → occurrences x ran ≤ s.thrown

  pub begin-IsPlaced :
      (pool : Option TaskPool)
      → own_length (get_parallel_pool pool).tasks.container ≡ 0
      → IsPlaced (begin pool tasks world) []
  unfolding begin
  begin-IsPlaced pool clean = record {
    places =
        λ x. omega (arith, occurrences-le-own_length x (get_parallel_pool pool).tasks.container);
    latched = ap pos (omega (arith, clean));
    acted_on = refl;
    waited = λ h. ground arith;
    uncounted = λ x throws. omega arith;
  }

  -- When the call has returned, each task has run as often as it was given.
  pub ran_when_returned :
      {s : System S} {ran : List ℕ}
      → IsPlaced s ran
      → s.returned ≡ true
      → (x : ℕ) → occurrences x ran ≡ occurrences x tasks
  ran_when_returned {s} {ran} p r x = ground (
    arith,
    p.places x,
    p.latched,
    p.waited r,
    occurrences-le-own_length x s.running,
    occurrences-le-own_length x s.pool.tasks.container,
    empty s.left,
  )
    where
      empty : (ns : List ℕ) → length ns ≡ 0 → occurrences x ns ≡ 0
      empty [] e = refl
      empty (n ∷ ns) e = absurd (omega arith)

  -- When the call has returned, no task has thrown.
  pub thrown_when_returned :
      {s : System S} {ran : List ℕ} → IsPlaced s ran → s.returned ≡ true → s.thrown ≡ 0
  thrown_when_returned {s} p r = ground (arith, p.latched, p.waited r)
