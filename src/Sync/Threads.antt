-- ===== src/Sync/Threads.antt =====
-- c9y/sync.cpp: the threads that call sync, delay and sync_point, step by step, where none of them
-- syncs to itself. A function that a sync_point runs may call sync_point again.
use c9y.Base.{update, ℕ, ◌==◌, ◌≡◌, false, some, List, ◌∷◌, ◌++◌}
use c9y.Exceptions.{Outcome, Handler}
use c9y.Sync.{
  Entry, plain, tagged, Program, delay, delay_tagged, sync_to, sync_to_tagged,
  get_this_threads_tasks, release,
}

-- Each thread that is in a sync_point has a list of its own: the tasks that it took and has not
-- finished, the first of them running. If that calls sync_point, the tasks that are taken then stand
-- before it, as they are run before it goes on.
pub record System {ℓ} (W : Type ℓ) : Type ℓ where
  pub program : Program W
  pub running : ℕ → List Entry

abbrev pub release_entry {ℓ} : {W : Type ℓ} → Entry → Program W → Program W
release_entry (plain func) p = p
release_entry (tagged tag func) p = release tag p

module _ {ℓ} {W : Type ℓ} (call : ℕ → Program W → Outcome (Program W))
    (handler : Handler (Program W)) where
  -- A running function acts on the world step by step, and may queue others meanwhile. It ends with
  -- `finish`, whether it returns or throws.
  pub data Step (s t : System W) : Type ℓ where
    do_delay : (this func : ℕ) → t ≡ record s { program = delay this func s.program } → Step s t
    do_delay_tagged :
        (this tag func : ℕ)
        → t ≡ record s { program = delay_tagged this tag func s.program }
        → Step s t
    do_sync :
        (this thread func : ℕ) (p : Program W)
        → (thread == this) ≡ false
        → sync_to call handler this thread func s.program ≡ some p
        → t ≡ record s { program = p }
        → Step s t
    do_sync_tagged :
        (this tag thread func : ℕ) (p : Program W)
        → (thread == this) ≡ false
        → sync_to_tagged call handler this tag thread func s.program ≡ some p
        → t ≡ record s { program = p }
        → Step s t
    begin :
        (this : ℕ)
        → t ≡ record {
          program = (get_this_threads_tasks this s.program).1;
          running =
              update s.running this ((get_this_threads_tasks this s.program).0 ++ s.running this);
        }
        → Step s t
    finish :
        (this : ℕ) (e : Entry) (es : List Entry)
        → s.running this ≡ e ∷ es
        → t ≡ record { program = release_entry e s.program; running = update s.running this es }
        → Step s t
    act : (w : W) → t ≡ record s { program = record (s.program) { world = w } } → Step s t

  pub data Reach (s : System W) : System W → Type ℓ where
    here : Reach s s
    next : {t u : System W} → Reach s t → Step t u → Reach s u
