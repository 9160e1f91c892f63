-- ===== src/Coroutine/SyncPoint/Sleeping.antt =====
-- c9y/coroutine.h: a thread whose sync_point calls the λs of co_sync, and the other threads, in steps; and
-- how the thread comes to sleep for good.
use c9y.Base.{
  ℕ, ◌==◌, ◌<◌, ◌≡◌, ◌≢◌, refl, ap, ◌∙◌, Bool-cases, inl, inr, true, false, none, some, List, [],
  ◌∷◌, ◌++◌, arith,
}
use c9y.Sync.{Entry, plain, tagged, Program, delay, push_task, release, get_this_threads_tasks}
use c9y.Futures.{Result, FutureState, pending}
use c9y.Coroutine.{
  Body, co_await, Frame, State, settle, await_ready, await_resume, await_suspend, resume, continue,
  post_delay,
}

-- `running`: what the thread's sync_point has taken and not done, the first of them being called. A
-- plain function is the λ with its number, or one that does nothing here, if there is none.
pub record System {ℓ κ} (T : Type ℓ) (W : Type κ) : Type (ℓ ⊔ κ) where
  pub state : State T (Program W)
  pub running : List Entry

module _ {ℓ κ} {T : Type ℓ} {W : Type κ} (this : ℕ) where
  abbrev pub with_queue : Program W → State T (Program W) → State T (Program W)
  with_queue p s = record s { queue = p }

  pub data Step (s t : System T W) : Type (ℓ ⊔ κ) where
    -- The thread calls sync_point.
    begin :
        s.running ≡ []
        → t ≡ record {
          state = with_queue (get_this_threads_tasks this s.state.queue).1 s.state;
          running = (get_this_threads_tasks this s.state.queue).0;
        }
        → Step s t
    -- A λ has returned; it does not while its future is pending.
    run :
        (n : ℕ) (es : List Entry) (u : State T (Program W))
        → s.running ≡ plain n ∷ es
        → continue (post_delay this) n s.state ≡ some u
        → t ≡ record { state = u; running = es }
        → Step s t
    run_tagged :
        (tag func : ℕ) (es : List Entry)
        → s.running ≡ tagged tag func ∷ es
        → t ≡ record { state = with_queue (release tag s.state.queue) s.state; running = es }
        → Step s t
    -- Another thread settles a future, which is not that of a coroutine of this thread.
    settles :
        (f : ℕ) (result : FutureState T)
        → ((k : ℕ) (fr : Frame T) → s.state.frames k ≡ some fr → f ≢ fr.promise)
        → t ≡ record s { state = settle f result s.state }
        → Step s t
    -- Another thread queues a function for some thread.
    queues :
        (thread n : ℕ)
        → t ≡ record s { state = with_queue (push_task thread (plain n) s.state.queue) s.state }
        → Step s t

  pub data Reach (s : System T W) : System T W → Type (ℓ ⊔ κ) where
    here : Reach s s
    next : {t u : System T W} → Reach s t → Step t u → Reach s u

  -- The thread is in the λ with number k, which waits for the coroutine that λ number `off` continues,
  -- and that stands in the queue of the thread.
  pub record IsAsleep (k off : ℕ) (es : List Entry) (gr hr : Frame T) (s : System T W)
      : Type (ℓ ⊔ κ) where
    pub running : s.running ≡ plain k ∷ es
    pub waiting : s.state.frames k ≡ some gr
    pub put_off : s.state.frames off ≡ some hr
    pub unsettled : s.state.shared gr.future ≡ pending
    pub queued : (behind : List Entry) × (s.state.queue.tasks this ≡ plain off ∷ behind)

  continue-sleeps :
      (k : ℕ) (fr : Frame T) (s : State T (Program W))
      → s.frames k ≡ some fr
      → s.shared fr.future ≡ pending
      → continue (post_delay this) k s ≡ none
  unfolding continue await_ready
  continue-sleeps k fr s e waits =
      let asleep : await_ready (s.shared fr.future) ≡ false = ap await_ready waits in
      rw (continue, e, asleep) refl

  module _ (k off : ℕ) (es : List Entry) (gr hr : Frame T) (same : gr.future ≡ hr.promise) where
    Step-IsAsleep :
        {s t : System T W} → Step s t → IsAsleep k off es gr hr s → IsAsleep k off es gr hr t
    unfolding push_task
    Step-IsAsleep (begin e h) i = let r = i.running in cc
    Step-IsAsleep {s} (run n fs u e h h') i =
        let stuck = continue-sleeps k gr s.state i.waiting i.unsettled in let r = i.running in cc
    Step-IsAsleep (run_tagged tag func fs e h) i = let r = i.running in cc
    Step-IsAsleep {s} (settles f result other e) i = rw e (record {
      running = i.running;
      waiting = i.waiting;
      put_off = i.put_off;
      unsettled = ground (arith, i.unsettled, same, other off hr i.put_off);
      queued = i.queued;
    })
    Step-IsAsleep {s} (queues thread n e) i =
        let (behind, line) = i.queued in
        rw e (record {
          running = i.running;
          waiting = i.waiting;
          put_off = i.put_off;
          unsettled = i.unsettled;
          queued = elim (Bool-cases (thread == this)) [
            | inl mine ↦ (behind ++ plain n ∷ [], ground (arith, mine, line))
            | inr other ↦ (behind, ground (arith, other, line))
          ];
        })

    Reach-IsAsleep :
        {s t : System T W} → IsAsleep k off es gr hr s → Reach s t → IsAsleep k off es gr hr t
    Reach-IsAsleep i here = i
    Reach-IsAsleep i (next r st) = Step-IsAsleep st (Reach-IsAsleep i r)

  continue-awaits :
      (j f : ℕ) (fr : Frame T) (rest : Result T → Body T) (s : State T (Program W))
      → s.frames j ≡ some fr
      → await_ready (s.shared fr.future) ≡ true
      → fr.rest (await_resume (s.shared fr.future)) ≡ co_await f rest
      → s.shared f ≡ pending
      → continue (post_delay this) j s ≡ some (await_suspend (post_delay this) f rest fr.promise s)
  unfolding continue resume await_ready
  continue-awaits j f fr rest s e over goes_on waits =
      let asleep : await_ready (s.shared f) ≡ false = ap await_ready waits in
      rw (continue, e, over, goes_on, resume, asleep) refl

  -- Two λs stand first in the queue of a thread that runs nothing. The first is of a coroutine whose
  -- future is pending, while the one that it waits for has ended; it will go on to await another,
  -- number f, which is pending. The second is of a coroutine that waits for the first. Then a state
  -- can be reached from which on, whatever the threads do: the thread sleeps in the call of the second
  -- λ, the future that it waits for is pending, also when future f has ended, and what would settle
  -- it stands in the queue of the thread that sleeps, first, to be run by its next sync_point.
  pub co_sync-deadlock :
      (j k f : ℕ) (es : List Entry) (fr gr : Frame T) (rest : Result T → Body T)
      (s : State T (Program W))
      → s.queue.tasks this ≡ plain j ∷ plain k ∷ es
      → k < s.next_frame
      → s.frames j ≡ some fr
      → s.frames k ≡ some gr
      → await_ready (s.shared fr.future) ≡ true
      → fr.rest (await_resume (s.shared fr.future)) ≡ co_await f rest
      → s.shared f ≡ pending
      → s.shared fr.promise ≡ pending
      → gr.future ≡ fr.promise
      → (t : System T W) × Reach (record { state = s; running = [] }) t
        × ((u : System T W)
            → Reach t u
            → IsAsleep k s.next_frame es gr
                (record { future = f; rest = rest; promise = fr.promise })
                u)
  unfolding get_this_threads_tasks await_suspend post_delay delay push_task
  co_sync-deadlock j k f es fr gr rest s line known fj fk over goes_on waits own same =
      let taken = with_queue (get_this_threads_tasks this s.queue).1 s in
      let off = await_suspend (post_delay this) f rest fr.promise taken in
      let called = continue-awaits j f fr rest taken fj over goes_on waits in
      (
        record { state = off; running = plain k ∷ es },
        next (next here (begin refl refl)) (run j (plain k ∷ es) off line called refl),
        λ u r.
            Reach-IsAsleep k s.next_frame es gr
              (record { future = f; rest = rest; promise = fr.promise }) same
              (record {
                running = refl;
                waiting = ground (arith, fk, known);
                put_off = ground arith;
                unsettled = ap s.shared same ∙ own;
                queued = ([], ground arith);
              })
              r,
      )
