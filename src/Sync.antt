-- ===== src/Sync.antt =====
-- c9y/sync.h and c9y/sync.cpp: functions queued for other threads, and run there by sync_point. A
-- thread is known by its id (0 is `std::thread::id()`), a function and a once_tag by a number.
-- `call` says what calling a function does to the program, which it may change in any way, and
-- whether it throws. `this` is the id of the calling thread. A failing `assert` ends the process, as
-- the unhandled-exception handler may: `none`.
pub mod Points
pub mod Threads
pub mod Tags
pub mod Merging
pub mod Order
pub mod Shortcut
mod Examples
use c9y.Base.{
  update, ℕ, ◌==◌, Bool, true, false, Option, none, some, List, [], ◌∷◌, ◌++◌, ◌>>=◌, if◌then◌else◌,
}
use c9y.Exceptions.{Outcome, returned, threw, Handler, guarded}

-- What stands in a thread's queue: a function, or the λ that calls a function and releases its tag.
pub data Entry : Type 0 where
  plain : ℕ → Entry
  tagged : (tag func : ℕ) → Entry

-- `tasks`, `main_thread_id`, the flags of all once_tags, and all else that functions act on.
pub record Program {ℓ} (W : Type ℓ) : Type ℓ where
  pub tasks : ℕ → List Entry
  pub main_thread_id : ℕ
  pub active : ℕ → Bool
  pub world : W

module _ {ℓ} {W : Type ℓ} where
  unfoldable pub set_main_thread_id : ℕ → Program W → Program W
  set_main_thread_id id p = record p { main_thread_id = id }

  unfoldable pub get_main_thread_id : Program W → ℕ
  get_main_thread_id p = p.main_thread_id

  -- `_sync`, with an entry for the function.
  unfoldable pub push_task : ℕ → Entry → Program W → Program W
  push_task thread entry p = record p {
    tasks = update p.tasks thread (p.tasks thread ++ entry ∷ []);
  }

  -- `_sync` with a tag: nothing is queued while the tag is active.
  unfoldable pub push_tagged : (tag thread func : ℕ) → Program W → Program W
  unfolding push_task
  push_tagged tag thread func p =
      if p.active tag
      then p
      else push_task thread (tagged tag func) (record p { active = update p.active tag true })

  unfoldable pub delay : (this func : ℕ) → Program W → Program W
  unfolding push_task
  delay this func p = push_task this (plain func) p

  unfoldable pub delay_tagged : (this tag func : ℕ) → Program W → Program W
  unfolding push_tagged
  delay_tagged this tag func p = push_tagged tag this func p

  abbrev pub release : ℕ → Program W → Program W
  release tag p = record p { active = update p.active tag false }

  -- The tasks of the calling thread, swapped for none.
  unfoldable pub get_this_threads_tasks : ℕ → Program W → List Entry × Program W
  get_this_threads_tasks this p = (p.tasks this, record p { tasks = update p.tasks this [] })

  module _ (call : ℕ → Program W → Outcome (Program W)) where
    -- The λ of a tag releases it whether the function returns or throws, and throws again.
    abbrev pub release_both : ℕ → Outcome (Program W) → Outcome (Program W)
    release_both tag (returned p) = returned (release tag p)
    release_both tag (threw p) = threw (release tag p)

    unfoldable pub run_entry : Entry → Program W → Outcome (Program W)
    run_entry (plain func) p = call func p
    run_entry (tagged tag func) p = release_both tag (call func p)

  module _ (call : ℕ → Program W → Outcome (Program W)) (handler : Handler (Program W)) where
    -- `sync` for a given thread.
    unfoldable pub sync_to : (this thread func : ℕ) → Program W → Option (Program W)
    unfolding push_task guarded
    sync_to this thread func p =
        if thread == this
        then guarded handler (call func p)
        else some (push_task thread (plain func) p)

    -- On the thread itself the tag is released when the function returns, and only then.
    abbrev pub release_returned : ℕ → Outcome (Program W) → Outcome (Program W)
    release_returned tag (returned p) = returned (release tag p)
    release_returned tag (threw p) = threw p

    unfoldable pub sync_to_tagged : (this tag thread func : ℕ) → Program W → Option (Program W)
    unfolding push_tagged guarded
    sync_to_tagged this tag thread func p =
        if thread == this
        then guarded handler (release_returned tag (call func p))
        else some (push_tagged tag thread func p)

    unfoldable pub sync : (this func : ℕ) → Program W → Option (Program W)
    unfolding sync_to
    sync this func p = if p.main_thread_id == 0 then none else sync_to this p.main_thread_id func p

    unfoldable pub sync_tagged : (this tag func : ℕ) → Program W → Option (Program W)
    unfolding sync_to_tagged
    sync_tagged this tag func p =
        if p.main_thread_id == 0 then none else sync_to_tagged this tag p.main_thread_id func p

    unfoldable pub run_entries : List Entry → Program W → Option (Program W)
    unfolding run_entry guarded
    run_entries [] p = some p
    run_entries (e ∷ es) p = guarded handler (run_entry call e p) >>= run_entries es

    unfoldable pub sync_point : ℕ → Program W → Option (Program W)
    unfolding get_this_threads_tasks run_entries
    sync_point this p = let (es, p') = get_this_threads_tasks this p in run_entries es p'

    -- The adapters: what the returned function does when a thread calls it.
    unfoldable pub sync_fun : (func this : ℕ) → Program W → Option (Program W)
    unfolding sync
    sync_fun func this p = sync this func p

    unfoldable pub sync_fun_to : (thread func this : ℕ) → Program W → Option (Program W)
    unfolding sync_to
    sync_fun_to thread func this p = sync_to this thread func p

    unfoldable pub sync_fun_tagged : (tag func this : ℕ) → Program W → Option (Program W)
    unfolding sync_tagged
    sync_fun_tagged tag func this p = sync_tagged this tag func p

    unfoldable pub sync_fun_to_tagged : (tag thread func this : ℕ) → Program W → Option (Program W)
    unfolding sync_to_tagged
    sync_fun_to_tagged tag thread func this p = sync_to_tagged this tag thread func p
