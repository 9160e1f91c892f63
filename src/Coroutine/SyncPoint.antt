-- ===== src/Coroutine/SyncPoint.antt =====
-- c9y/coroutine.h: co_sync. The λs of suspended coroutines are delayed on a thread, whose sync_point
-- calls them. Each function in the queue is the λ with its number.
pub mod Calls
pub mod Resuming
pub mod Sleeping
mod Examples
use c9y.Base.{
  update, ℕ, suc, ◌<◌, ◌≤◌, ◌≡◌, All, ◌==◌, ◌⊎◌, inl, inr, refl, sym, ap, ◌∙◌, Bool, true, false,
  Option, none, some, List, [], ◌∷◌, map, Bool-cases, if◌then◌else◌, arith,
}
use c9y.Exceptions.{Outcome, returned, guarded, Handler}
use c9y.Sync.{plain, Program, run_entry, run_entries, get_this_threads_tasks, sync_point}
use c9y.Futures.{Result, FutureState}
use c9y.Coroutine.{
  co_await, Frame, State, settle, await_ready, await_resume, resume, continue, post_delay,
}
use c9y.Coroutine.Awaiting.{outcome, AwaitsBelow, resume-settled, continue-ready}

-- The futures and the λs. `asleep`: the thread sleeps in the `wait` of a λ, and calls no other.
pub record World {ℓ} (T : Type ℓ) : Type ℓ where
  pub shared : ℕ → FutureState T
  pub next : ℕ
  pub frames : ℕ → Option (Frame T)
  pub next_frame : ℕ
  pub asleep : Bool

module _ {ℓ} {T : Type ℓ} where
  abbrev pub state : Program (World T) → State T (Program (World T))
  state p = record {
    shared = p.world.shared;
    next = p.world.next;
    frames = p.world.frames;
    next_frame = p.world.next_frame;
    queue = p;
  }

  abbrev pub program : State T (Program (World T)) → Program (World T)
  program s = record (s.queue) {
    world = record {
      shared = s.shared;
      next = s.next;
      frames = s.frames;
      next_frame = s.next_frame;
      asleep = s.queue.world.asleep;
    };
  }

  abbrev pub sleep : Program (World T) → Program (World T)
  sleep p = record p { world = record (p.world) { asleep = true } }

  -- What the thread has done when a λ has returned; none: it sleeps in it.
  abbrev pub answer :
      Program (World T) → Option (State T (Program (World T))) → Outcome (Program (World T))
  answer p none = returned (sleep p)
  answer p (some s) = returned (program s)

  -- The call of a λ by the thread `this`.
  unfoldable pub call_lambda : (this number : ℕ) → Program (World T) → Outcome (Program (World T))
  unfolding continue post_delay
  call_lambda this number p =
      if p.world.asleep then returned p else answer p (continue (post_delay this) number (state p))

  pub call_lambda-awake :
      (this number : ℕ) (p : Program (World T)) {o : Option (State T (Program (World T)))}
      → p.world.asleep ≡ false
      → continue (post_delay this) number (state p) ≡ o
      → call_lambda this number p ≡ answer p o
  unfolding call_lambda
  call_lambda-awake this number p awake e =
      ap (λ b. if b then returned p else answer p (continue (post_delay this) number (state p)))
        awake
      ∙ ap (answer p) e

  -- The thread has called λs that settled a promise each.
  abbrev pub settled : (ℕ → FutureState T) → ℕ → Program (World T) → Program (World T)
  settled final promise p = record p {
    world = record (p.world) { shared = update p.world.shared promise (final promise) };
  }

  abbrev pub IsOther : ℕ → ℕ × Frame T → Type 0
  IsOther j l = ¬ (j ≡ l.1.promise)

  module _ (final : ℕ → FutureState T) (ready : (k : ℕ) → await_ready (final k) ≡ true) where
    -- λs that wait in this order, each with its coroutine: the promises ascend, each coroutine awaits
    -- futures made before its own, and `final` has for its own what its body ends with.
    abbrev pub IsLine : (ℕ → Option (Frame T)) → ℕ → List (ℕ × Frame T) → Type ℓ
    IsLine frames least [] = Unit
    IsLine frames least ((k, fr) ∷ ls) =
        (frames k ≡ some fr)
        × (least ≤ fr.promise)
        × AwaitsBelow fr.promise (co_await fr.future fr.rest)
        × (final fr.promise ≡ outcome final (co_await fr.future fr.rest))
        × IsLine frames (suc fr.promise) ls

    -- Each future that is not the promise of one of them has ended.
    abbrev pub OthersEnded : (ℕ → FutureState T) → List (ℕ × Frame T) → Type ℓ
    OthersEnded shared ls = (j : ℕ) → All (IsOther j) ls → shared j ≡ final j

    above :
        (frames : ℕ → Option (Frame T)) (least j : ℕ) (ls : List (ℕ × Frame T))
        → j < least
        → IsLine frames least ls
        → All (IsOther j) ls
    above frames least j [] h line = tt
    above frames least j ((k, fr) ∷ ls) h (_, low, _, _, line) = (
      λ e. omega (arith, h, low, e),
      above frames (suc fr.promise) j ls (omega (arith, h, low)) line,
    )

    call_lambda-resumed :
        (this k : ℕ) (fr : Frame T) (p : Program (World T))
        → p.world.asleep ≡ false
        → p.world.frames k ≡ some fr
        → AwaitsBelow fr.promise (co_await fr.future fr.rest)
        → final fr.promise ≡ outcome final (co_await fr.future fr.rest)
        → ((j : ℕ) → j < fr.promise → p.world.shared j ≡ final j)
        → call_lambda this k p ≡ returned (settled final fr.promise p)
    call_lambda-resumed this k fr p awake e below own same = call_lambda-awake this k p awake (
        continue-ready (post_delay this) final ready k fr (state p) (final fr.future) e
          (same fr.future below.0) (ready fr.future)
        ∙ ap some (
            resume-settled (post_delay this) final ready (fr.rest (await_resume (final fr.future)))
              fr.promise (state p) (below.1 _) same
            ∙ ap (λ x. settle fr.promise x (state p)) (sym own)))

    run_entries-resumed :
        (handler : Handler (Program (World T))) (this least : ℕ) (ls : List (ℕ × Frame T))
        (p : Program (World T))
        → p.world.asleep ≡ false
        → IsLine p.world.frames least ls
        → OthersEnded p.world.shared ls
        → (q : Program (World T)) × (run_entries
              (call_lambda this)
              handler
              (map (λ l. plain l.0) ls)
              p
            ≡ some q)
          × ((j : ℕ) → q.world.shared j ≡ final j)
          × (q.tasks ≡ p.tasks)
          × (q.world.asleep ≡ false)
    unfolding run_entries run_entry guarded
    run_entries-resumed handler this least [] p awake line others =
        (p, refl, (λ j. others j tt), refl, awake)
    run_entries-resumed handler this least ((k, fr) ∷ ls) p awake (e, low, below, own, line)
          others =
        let before : (j : ℕ) → j < fr.promise → p.world.shared j ≡ final j = λ j h. others j (
          (λ same. omega (arith, h, same)),
          above p.world.frames (suc fr.promise) j ls (omega (arith, h)) line,
        ) in
        let now = call_lambda-resumed this k fr p awake e below own before in
        let (q, runs, ends, queues, still) =
          run_entries-resumed handler this (suc fr.promise) ls (settled final fr.promise p) awake
            line (others_now) in
        (q, rw now runs, ends, queues, still)
      where
        others_now : OthersEnded (settled final fr.promise p).world.shared ls
        others_now j new = elim (Bool-cases (fr.promise == j)) [
          | inl same ↦ rw same (ap final (ground (arith, same)))
          | inr other ↦ rw other (others j ((λ same. ground (arith, other, same)), new))
        ]

    -- Coroutines that wait with co_sync on a thread, in the order in which they were made, each for
    -- futures made before its own; all futures but theirs have ended, so that they may wait for each
    -- other. One sync_point of the thread never sleeps: it resumes all of them, each future ends with
    -- what its coroutine's body makes of the ends of the futures that it awaits, and the queue is empty.
    pub sync_point-resumed :
        (handler : Handler (Program (World T))) (this : ℕ) (ls : List (ℕ × Frame T))
        (p : Program (World T))
        → p.world.asleep ≡ false
        → p.tasks this ≡ map (λ l. plain l.0) ls
        → IsLine p.world.frames 0 ls
        → OthersEnded p.world.shared ls
        → (q : Program (World T)) × (sync_point (call_lambda this) handler this p ≡ some q)
          × ((j : ℕ) → q.world.shared j ≡ final j)
          × (q.tasks this ≡ [])
          × (q.world.asleep ≡ false)
    unfolding sync_point get_this_threads_tasks
    sync_point-resumed handler this ls p awake line is_line others =
        let taken = record p { tasks = update p.tasks this [] } in
        let (q, runs, ends, queues, still) =
          run_entries-resumed handler this 0 ls taken awake is_line others in
        (q, rw line runs, ends, rw queues (ground arith), still)
