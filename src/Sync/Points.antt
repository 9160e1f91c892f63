-- ===== src/Sync/Points.antt =====
-- c9y/sync.cpp: a sync_point runs what was queued for its thread when it began, in that order, and
-- leaves what is queued meanwhile to the next one.
use c9y.Base.{
  update, ℕ, ◌==◌, ◌≡◌, ◌≢◌, refl, sym, ap, ◌∙◌, Bool, false, ◌||◌, some, List, [], ◌∷◌, ◌++◌, map,
  if◌then◌else◌, arith,
}
use mathlib.Core.List.{append_assoc, append-nil}
use c9y.Exceptions.{Outcome, returned, Handler}
use c9y.Sync.{Entry, plain, tagged, Program, delay, run_entry, run_entries, sync_point}

abbrev pub func : Entry → ℕ
func (plain f) = f
func (tagged tag f) = f

-- Whether the entry releases the tag.
abbrev pub releases : ℕ → Entry → Bool
releases tag (plain f) = false
releases tag (tagged t f) = t == tag

abbrev pub some_releases : ℕ → List Entry → Bool
some_releases tag [] = false
some_releases tag (e ∷ es) = releases tag e || some_releases tag es

-- The functions act on the world, and each calls `delay` for its `children`.
module _ {ℓ} {W : Type ℓ} (act : ℕ → W → W) (children : ℕ → List ℕ) (this : ℕ)
    (handler : Handler (Program W)) where
  abbrev pub delay_all : List ℕ → Program W → Program W
  delay_all [] p = p
  delay_all (f ∷ fs) p = delay_all fs (delay this f p)

  abbrev pub delaying : ℕ → Program W → Outcome (Program W)
  delaying f p = returned (delay_all (children f) (record p { world = act f p.world }))

  abbrev pub run_funcs : List Entry → W → W
  run_funcs [] w = w
  run_funcs (e ∷ es) w = run_funcs es (act (func e) w)

  abbrev pub delayed : List Entry → List Entry
  delayed [] = []
  delayed (e ∷ es) = map plain (children (func e)) ++ delayed es

  -- From `p` to `q` the entries `es` have been run.
  pub record HasRun (es : List Entry) (p q : Program W) : Type ℓ where
    pub world : q.world ≡ run_funcs es p.world
    pub own : q.tasks this ≡ p.tasks this ++ delayed es
    pub others : (j : ℕ) → j ≢ this → q.tasks j ≡ p.tasks j
    pub tags : (tag : ℕ) → q.active tag ≡ (if some_releases tag es then false else p.active tag)
    pub main : q.main_thread_id ≡ p.main_thread_id

  -- What the calls of `delay` change: the thread's own queue.
  record Delayed (fs : List ℕ) (p q : Program W) : Type ℓ where
    own : q.tasks this ≡ p.tasks this ++ map plain fs
    others : (j : ℕ) → j ≢ this → q.tasks j ≡ p.tasks j
    rest : (q.world ≡ p.world) × (q.active ≡ p.active) × (q.main_thread_id ≡ p.main_thread_id)

  delay_all-Delayed : (fs : List ℕ) (p : Program W) → Delayed fs p (delay_all fs p)
  delay_all-Delayed [] p = record {
    own = sym (append-nil (p.tasks this));
    others = λ j h. refl;
    rest = (refl, refl, refl);
  }
  delay_all-Delayed (f ∷ fs) p =
      let d = delay_all-Delayed fs (delay this f p) in
      record {
        own =
            d.own
            ∙ ap (λ es. es ++ map plain fs) own_first
            ∙ append_assoc (p.tasks this) (plain f ∷ []) (map plain fs);
        others = λ j h. d.others j h ∙ other j h;
        rest = (d.rest.0 ∙ refl_world, d.rest.1 ∙ refl_active, d.rest.2 ∙ refl_main);
      }
    where
      own_first : (delay this f p).tasks this ≡ p.tasks this ++ plain f ∷ []
      own_first = unfold delay in ground arith

      other : (j : ℕ) → j ≢ this → (delay this f p).tasks j ≡ p.tasks j
      other j h = unfold delay in ground arith

      refl_world : (delay this f p).world ≡ p.world
      refl_world = unfold delay in refl

      refl_active : (delay this f p).active ≡ p.active
      refl_active = unfold delay in refl

      refl_main : (delay this f p).main_thread_id ≡ p.main_thread_id
      refl_main = unfold delay in refl

  -- What one entry leaves.
  abbrev after : Entry → Program W → Program W
  after (plain f) p = delay_all (children f) (record p { world = act f p.world })
  after (tagged tag f) p =
      let q = delay_all (children f) (record p { world = act f p.world }) in
      record q { active = update q.active tag false }

  run_entry-after : (e : Entry) (p : Program W) → run_entry delaying e p ≡ returned (after e p)
  unfolding run_entry
  run_entry-after (plain f) p = refl
  run_entry-after (tagged tag f) p = refl

  after-HasRun : (e : Entry) (p : Program W) → HasRun (e ∷ []) p (after e p)
  after-HasRun (plain f) p =
      let d = delay_all-Delayed (children f) (record p { world = act f p.world }) in
      record {
        world = d.rest.0;
        own = d.own ∙ ap (◌++◌ (p.tasks this)) (sym (append-nil (map plain (children f))));
        others = d.others;
        tags = λ tag. ap (λ a. a tag) d.rest.1;
        main = d.rest.2;
      }
  after-HasRun (tagged t f) p =
      let d = delay_all-Delayed (children f) (record p { world = act f p.world }) in
      record {
        world = d.rest.0;
        own = d.own ∙ ap (◌++◌ (p.tasks this)) (sym (append-nil (map plain (children f))));
        others = d.others;
        tags = λ tag. rw d.rest.1 (ground arith);
        main = d.rest.2;
      }

  HasRun-cons :
      (e : Entry) (es : List Entry) {p q r : Program W}
      → HasRun (e ∷ []) p q
      → HasRun es q r
      → HasRun (e ∷ es) p r
  HasRun-cons e es {p} {q} {r} a b = record {
    world = b.world ∙ ap (run_funcs es) a.world;
    own =
        b.own
        ∙ ap (λ xs. xs ++ delayed es) a.own
        ∙ append_assoc (p.tasks this) _ (delayed es)
        ∙ ap (λ xs. p.tasks this ++ (xs ++ delayed es))
            (append-nil (map plain (children (func e))));
    others = λ j h. b.others j h ∙ a.others j h;
    tags = λ tag. ground (arith, a.tags tag, b.tags tag);
    main = b.main ∙ a.main;
  }

  run_entries-HasRun :
      (es : List Entry) (p : Program W)
      → (q : Program W) × (run_entries delaying handler es p ≡ some q) × HasRun es p q
  unfolding run_entries
  run_entries-HasRun [] p = (
    p,
    refl,
    record {
      world = refl;
      own = sym (append-nil (p.tasks this));
      others = λ j h. refl;
      tags = λ tag. refl;
      main = refl;
    },
  )
  run_entries-HasRun (e ∷ es) p =
      let (q, runs, has) = run_entries-HasRun es (after e p) in
      (q, rw (run_entry-after e p) runs, HasRun-cons e es (after-HasRun e p) has)

  -- Functions that throw nothing, act on the world and delay others: sync_point returns. It has run
  -- the functions that were queued for its thread when it began, in the order of the queue, each
  -- once. The thread's queue holds what they delayed, in order; the queues of the other threads are
  -- as before; and the tags are active as before, but for those of the functions run, released.
  pub sync_point-HasRun :
      (p : Program W)
      → (q : Program W) × (sync_point delaying handler this p ≡ some q)
        × (q.world ≡ run_funcs (p.tasks this) p.world)
        × (q.tasks this ≡ delayed (p.tasks this))
        × ((j : ℕ) → j ≢ this → q.tasks j ≡ p.tasks j)
        × ((tag : ℕ)
            → q.active tag ≡ (if some_releases tag (p.tasks this) then false else p.active tag))
  unfolding sync_point
  sync_point-HasRun p =
      let taken : Program W = record p { tasks = update p.tasks this [] } in
      let (q, runs, has) = run_entries-HasRun (p.tasks this) taken in
      (q, runs, has.world, has.own ∙ cleared, λ j h. has.others j h ∙ kept j h, has.tags)
    where
      cleared : update p.tasks this [] this ++ delayed (p.tasks this) ≡ delayed (p.tasks this)
      cleared = ground arith

      kept : (j : ℕ) → j ≢ this → update p.tasks this [] j ≡ p.tasks j
      kept j h = ground arith
