-- ===== src/Sync/Order.antt =====
-- c9y/sync.cpp: what is queued for a thread runs there once each, in order, under every interleaving.
use c9y.Base.{
  update, ℕ, ◌==◌, ◌≡◌, refl, ap, sym, ◌∙◌, true, false, List, [], ◌∷◌, ◌++◌, if◌then◌else◌, arith,
  Bool, Bool-cases, inl, inr, ==_iff,
}
use mathlib.Core.List.{append_assoc, append-nil}
use c9y.Exceptions.{Outcome, Handler}
use c9y.Sync.{
  Entry, plain, tagged, Program, push_task, push_tagged, delay, delay_tagged,
  get_this_threads_tasks,
}
use c9y.Sync.Threads.{
  System, release_entry, Step, do_delay, do_delay_tagged, do_sync, do_sync_tagged, begin, finish,
  act, Reach, here, next,
}
use c9y.Sync.Merging.{has_some, IsSent, joined, taken_first}
use c9y.Sync.Tags.{to_plain, to_tagged}

-- One entry for thread `i`, or none.
abbrev only : Bool → Entry → List Entry
only true e = e ∷ []
only false e = []

module _ {ℓ} {W : Type ℓ} (call : ℕ → Program W → Outcome (Program W))
    (handler : Handler (Program W)) where
  -- What a step queues for thread `i`: a call with a tag is dropped while the tag is active.
  abbrev pub sent_in : {s t : System W} → Step call handler s t → ℕ → List Entry
  sent_in (do_delay this func e) i = only (this == i) (plain func)
  sent_in {s} (do_delay_tagged this tag func e) i =
      if s.program.active tag then [] else only (this == i) (tagged tag func)
  sent_in (do_sync this thread func p ne h e) i = only (thread == i) (plain func)
  sent_in {s} (do_sync_tagged this tag thread func p ne h e) i =
      if s.program.active tag then [] else only (thread == i) (tagged tag func)
  sent_in (begin this e) i = []
  sent_in (finish this f es h e) i = []
  sent_in (act w e) i = []

  -- What thread `i` finishes in a step.
  abbrev pub finished_in : {s t : System W} → Step call handler s t → ℕ → List Entry
  finished_in (do_delay this func e) i = []
  finished_in (do_delay_tagged this tag func e) i = []
  finished_in (do_sync this thread func p ne h e) i = []
  finished_in (do_sync_tagged this tag thread func p ne h e) i = []
  finished_in (begin this e) i = []
  finished_in (finish this f es h e) i = only (this == i) f
  finished_in (act w e) i = []

  abbrev pub sent : {s t : System W} → Reach call handler s t → ℕ → List Entry
  sent here i = []
  sent (next r st) i = sent r i ++ sent_in st i

  abbrev pub finished : {s t : System W} → Reach call handler s t → ℕ → List Entry
  finished here i = []
  finished (next r st) i = finished r i ++ finished_in st i

  -- Whether thread `i` calls sync_point in a step while it runs a function of another.
  abbrev pub nested_in : {s t : System W} → Step call handler s t → ℕ → Bool
  nested_in (do_delay this func e) i = false
  nested_in (do_delay_tagged this tag func e) i = false
  nested_in (do_sync this thread func p ne h e) i = false
  nested_in (do_sync_tagged this tag thread func p ne h e) i = false
  nested_in {s} (begin this e) i = if this == i then has_some (s.running i) else false
  nested_in (finish this f es h e) i = false
  nested_in (act w e) i = false

  abbrev pub nested : {s t : System W} → Reach call handler s t → ℕ → Bool
  nested here i = false
  nested (next r st) i = if nested r i then true else nested_in st i

  -- What thread `i` has taken and what is queued for it.
  abbrev pub due : System W → ℕ → List Entry
  due s i = s.running i ++ s.program.tasks i

  due-push_task :
      (s : System W) (thread : ℕ) (entry : Entry) (i : ℕ)
      → due (record s { program = push_task thread entry s.program }) i
        ≡ due s i ++ only (thread == i) entry
  unfolding push_task
  due-push_task s thread entry i = elim (Bool-cases (thread == i)) [
    | inl this ↦
        ground (arith, this, sym (append_assoc (s.running i) (s.program.tasks i) (entry ∷ [])))
    | inr other ↦ ground (arith, other, append-nil (s.running i ++ s.program.tasks i))
  ]

  due-push_tagged :
      (s : System W) (tag thread func : ℕ) (i : ℕ)
      → due (record s { program = push_tagged tag thread func s.program }) i
        ≡ due s i ++ (if s.program.active tag then [] else only (thread == i) (tagged tag func))
  unfolding push_tagged
  due-push_tagged s tag thread func i = elim (Bool-cases (s.program.active tag)) [
    | inl busy ↦ rw busy (sym (append-nil (due s i)))
    | inr free ↦ rw free (
        due-push_task
          (record s { program = record (s.program) { active = update s.program.active tag true } })
          thread (tagged tag func) i)
  ]

  tasks-release_entry : (f : Entry) (p : Program W) → (release_entry f p).tasks ≡ p.tasks
  tasks-release_entry (plain func) p = refl
  tasks-release_entry (tagged tag func) p = refl

  begin-due :
      (s : System W) (this i : ℕ)
      → IsSent
          (if this == i then has_some (s.running i) else false)
          (due
            (record {
              program = (get_this_threads_tasks this s.program).1;
              running =
                  update s.running this
                    ((get_this_threads_tasks this s.program).0 ++ s.running this);
            })
            i)
          (due s i ++ [])
  unfolding get_this_threads_tasks
  begin-due s this i = elim (Bool-cases (this == i)) [
    | inr other ↦ rw other (sym (append-nil (due s i)))
    | inl same ↦ rw (same, (==_iff this i).0 same) (taken_first (s.running i) (s.program.tasks i))
  ]

  Step-due :
      {s t : System W} (st : Step call handler s t) (i : ℕ)
      → IsSent (nested_in st i) (finished_in st i ++ due t i) (due s i ++ sent_in st i)
  unfolding delay delay_tagged
  Step-due {s} (do_delay this func e) i = rw e (due-push_task s this (plain func) i)
  Step-due {s} (do_delay_tagged this tag func e) i = rw e (due-push_tagged s tag this func i)
  Step-due {s} (do_sync this thread func p ne h e) i =
      rw (e, ← to_plain call handler this thread func s.program p ne h)
        (due-push_task s thread (plain func) i)
  Step-due {s} (do_sync_tagged this tag thread func p ne h e) i =
      rw (e, ← to_tagged call handler this tag thread func s.program p ne h)
        (due-push_tagged s tag thread func i)
  Step-due {s} (begin this e) i = rw e (begin-due s this i)
  Step-due {s} (finish this f es h e) i = elim (Bool-cases (this == i)) [
    | inl same ↦
        let k : s.running i ≡ f ∷ es = ap s.running (sym ((==_iff this i).0 same)) ∙ h in
        rw (e, same, k, tasks-release_entry f s.program)
          (sym (append-nil (f ∷ (es ++ s.program.tasks i))))
    | inr other ↦ rw (e, other, tasks-release_entry f s.program) (sym (append-nil (due s i)))
  ]
  Step-due {s} (act w e) i = rw e (sym (append-nil (due s i)))

  -- Under any interleaving of delay, sync (to other threads, with a tag or without) and sync_point, also
  -- where functions that it runs call it again: what a thread has finished, followed by what it has
  -- taken and then by what is queued for it, has each entry as often as what it had taken and had
  -- queued at first followed by what was sent to it. So each function that is sent runs once. And
  -- unless the thread has called sync_point in a function that another one ran, these lists are
  -- equal, in the order in which it was sent; so each function runs behind those sent before it.
  pub finished-sent :
      {s t : System W} (r : Reach call handler s t) (i : ℕ)
      → IsSent
          (nested r i)
          (finished r i ++ (t.running i ++ t.program.tasks i))
          ((s.running i ++ s.program.tasks i) ++ sent r i)
  finished-sent {s} here i = sym (append-nil (due s i))
  finished-sent {s} {t = u} (next {t} r st) i =
      joined (nested r i) (nested_in st i) (finished r i) (finished_in st i) (due u i) (due t i)
        (due s i) (sent r i) (sent_in st i) (finished-sent r i) (Step-due st i)
