-- ===== src/Stop/Callbacks.antt =====
-- c9y/jthread.cpp: which callbacks of a stop state run, how often, and in which order.
use c9y.Base.{ℕ, ◌≡◌, sym, ap, ◌∙◌, true, false, Option, some, List, [], ◌∷◌, ◌++◌, ◌>>=◌}
use mathlib.Core.List.{append_assoc, append-nil}
use c9y.Exceptions.{Outcome, returned, threw}
use c9y.Stop.{StopState, new_state, call_all, request_stop, add_callback, remove_callback, erase}

-- What the threads do with one state, in the order in which they get its mutex.
pub data Event : Type 0 where
  register deregister : ℕ → Event
  request : Event

-- A callback writes itself down.
abbrev pub logging : ℕ → List ℕ → Outcome (List ℕ)
logging cb log = returned (log ++ cb ∷ [])

abbrev pub logged : Outcome (List ℕ) → List ℕ
logged (returned log) = log
logged (threw log) = log

abbrev pub run_event : Event → StopState × List ℕ → Option (StopState × List ℕ)
run_event (register cb) (st, log) = let r = add_callback logging cb st log in some (r.0, logged r.1)
run_event (deregister cb) (st, log) = some (remove_callback cb st, log)
run_event request (st, log) = request_stop logging st log >>= λ r. some (r.0, r.1)

abbrev pub run_events : List Event → StopState × List ℕ → Option (StopState × List ℕ)
run_events [] s = some s
run_events (e ∷ es) s = run_event e s >>= run_events es

-- What should run once a stop was requested: each callback that is registered, at once.
abbrev pub ran_late : List Event → List ℕ
ran_late [] = []
ran_late (register cb ∷ es) = cb ∷ ran_late es
ran_late (deregister cb ∷ es) = ran_late es
ran_late (request ∷ es) = ran_late es

-- What should run in all, where `waiting` are registered: nothing before the first request; then
-- those that wait, in the order of their registration; and then the late ones.
abbrev pub should_run : List Event → (waiting : List ℕ) → List ℕ
should_run [] waiting = []
should_run (register cb ∷ es) waiting = should_run es (waiting ++ cb ∷ [])
should_run (deregister cb ∷ es) waiting = should_run es (erase cb waiting)
should_run (request ∷ es) waiting = waiting ++ ran_late es

call_all-logging : (cbs log : List ℕ) → call_all logging cbs log ≡ some (log ++ cbs)
unfolding call_all
call_all-logging [] log = ap some (sym (append-nil log))
call_all-logging (cb ∷ cbs) log =
    call_all-logging cbs (log ++ cb ∷ []) ∙ ap some (append_assoc log (cb ∷ []) cbs)

run_events-late :
    (es : List Event) (cbs log : List ℕ)
    → (st : StopState) × (run_events es (record { stopping = true; callbacks = cbs }, log)
        ≡ some (st, log ++ ran_late es))
unfolding add_callback remove_callback request_stop
run_events-late [] cbs log = (_, ap (λ l. some (_, l)) (sym (append-nil log)))
run_events-late (register cb ∷ es) cbs log =
    let (st, e) = run_events-late es cbs (log ++ cb ∷ []) in
    (st, e ∙ ap (λ l. some (st, l)) (append_assoc log (cb ∷ []) (ran_late es)))
run_events-late (deregister cb ∷ es) cbs log = run_events-late es (erase cb cbs) log
run_events-late (request ∷ es) cbs log = run_events-late es cbs log

run_events-should_run :
    (es : List Event) (cbs log : List ℕ)
    → (st : StopState) × (run_events es (record { stopping = false; callbacks = cbs }, log)
        ≡ some (st, log ++ should_run es cbs))
unfolding add_callback remove_callback request_stop
run_events-should_run [] cbs log = (_, ap (λ l. some (_, l)) (sym (append-nil log)))
run_events-should_run (register cb ∷ es) cbs log = run_events-should_run es (cbs ++ cb ∷ []) log
run_events-should_run (deregister cb ∷ es) cbs log = run_events-should_run es (erase cb cbs) log
run_events-should_run (request ∷ es) cbs log =
    let (st, e) = run_events-late es [] (log ++ cbs) in
    (st, rw call_all-logging (e ∙ ap (λ l. some (st, l)) (append_assoc log cbs (ran_late es))))

-- Whatever the threads do with a new state, in whatever order, with callbacks that throw nothing:
-- nothing runs before the first request; it runs the callbacks that are registered and not
-- deregistered by then, once each, in the order of their registration; and each that is registered
-- later runs at once.
pub callbacks-should_run :
    (es : List Event)
    → (st : StopState) × (run_events es (new_state, []) ≡ some (st, should_run es []))
callbacks-should_run es = run_events-should_run es [] []
