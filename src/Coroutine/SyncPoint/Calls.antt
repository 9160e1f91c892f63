-- ===== src/Coroutine/SyncPoint/Calls.antt =====
-- c9y/coroutine.h: coroutines that a thread calls one after the other, which wait with co_sync, and its
-- next sync_point.
use mathlib.Core.List.{map-append}
use c9y.Base.{
  subst, All-append, All-map, All-middle, update, ℕ, suc, ◌+◌, ◌<◌, ◌≤◌, ◌≡◌, ◌⊎◌, inl, inr, refl,
  sym, ap, ◌∙◌, All, ◌==◌, ltb, leb, true, false, Option, some, List, [], ◌∷◌, ◌++◌, length, map,
  if◌then◌else◌, arith, Bool-cases,
}
use c9y.Sync.{plain, Program, delay, push_task}
use c9y.Futures.{Result, FutureState, pending}
use c9y.Coroutine.{Body, co_await, Frame, State, await_ready, await_suspend, start, post_delay}
use c9y.Coroutine.Awaiting.{outcome, AwaitsBelow, Ran, resume-Ran}
use c9y.Coroutine.SyncPoint.{World, state, program, IsOther, IsLine}

module _ {ℓ} {T : Type ℓ} where
  -- The thread calls a coroutine, and then the others.
  unfoldable pub call_coroutines :
      (this : ℕ) → List (Body T) → Program (World T) → Program (World T)
  unfolding start
  call_coroutines this [] p = p
  call_coroutines this (b ∷ bs) p =
      call_coroutines this bs (program (start (post_delay this) b (state p)).1)

  -- The futures but those from number `first` on and below `last` have ended.
  abbrev pub others_ended :
      (ℕ → FutureState T) → (first last : ℕ) → Program (World T) → Program (World T)
  others_ended final first last p = record p {
    world = record (p.world) {
      shared =
          λ j. if leb first j then if ltb j last then p.world.shared j else final j else final j;
    };
  }

  -- A call has made its future, number p.world.next.
  abbrev made : Program (World T) → State T (Program (World T))
  made p = record (state p) {
    shared = update p.world.shared p.world.next pending;
    next = suc p.world.next;
  }

  abbrev pub IsOlder : (number next : ℕ) → ℕ × Frame T → Type 0
  IsOlder number next l = (l.0 < number) × (l.1.promise < next)

  -- The bodies of coroutines that are called with promises from n on: each awaits futures made before
  -- its own, which ends with what its body ends with.
  abbrev pub EndAs : (ℕ → FutureState T) → ℕ → List (Body T) → Type ℓ
  EndAs final n [] = Unit
  EndAs final n (b ∷ bs) = AwaitsBelow n b × (final n ≡ outcome final b) × EndAs final (suc n) bs

  module _ (final : ℕ → FutureState T) (ready : (k : ℕ) → await_ready (final k) ≡ true)
      (this first : ℕ) where
    abbrev pub IsUnsettled : (ℕ → FutureState T) → ℕ → Type ℓ
    IsUnsettled shared j = (shared j ≡ pending) ⊎ (shared j ≡ final j)

    abbrev pub HasEnded : (ℕ → FutureState T) → List (ℕ × Frame T) → ℕ → Type ℓ
    HasEnded shared ls j = first ≤ j → All (IsOther j) ls → shared j ≡ final j

    -- Coroutines have been called with promises from `first` on, of which those of `ls` wait.
    pub record IsCalled (p : Program (World T)) (ls : List (ℕ × Frame T)) : Type ℓ where
      pub awake : p.world.asleep ≡ false
      pub tasks : p.tasks this ≡ map (λ l. plain l.0) ls
      pub line : IsLine final ready p.world.frames 0 ls
      pub new : All (IsOlder p.world.next_frame p.world.next) ls
      pub unsettled : (j : ℕ) → j < p.world.next → IsUnsettled p.world.shared j
      pub ended : (j : ℕ) → j < p.world.next → HasEnded p.world.shared ls j

    IsLine-append :
        (frames : ℕ → Option (Frame T)) (number next least : ℕ) (fr : Frame T)
        (ls : List (ℕ × Frame T))
        → IsLine final ready frames least ls
        → All (IsOlder number next) ls
        → least ≤ next
        → fr.promise ≡ next
        → AwaitsBelow fr.promise (co_await fr.future fr.rest)
        → final fr.promise ≡ outcome final (co_await fr.future fr.rest)
        → IsLine final ready (update frames number (some fr)) least (ls ++ (number, fr) ∷ [])
    IsLine-append frames number next least fr [] line new low own below ends =
        (ground arith, omega (arith, low, own), below, ends, tt)
    IsLine-append frames number next least fr ((k, gr) ∷ ls) (e, low', below', ends', line) (h, new)
          low own below ends =
        (
          ground (arith, e, h.0),
          low',
          below',
          ends',
          IsLine-append frames number next (suc gr.promise) fr ls line new (omega (arith, h.1)) own
              below ends,
        )

    newer :
        (n : ℕ) (p : Program (World T)) (ls : List (ℕ × Frame T))
        → p.world.next_frame ≤ n
        → All (IsOlder p.world.next_frame p.world.next) ls
        → All (IsOlder n (suc p.world.next)) ls
    newer n p ls more =
        All-map (IsOlder p.world.next_frame p.world.next) (IsOlder n (suc p.world.next))
          (λ l h. (omega (arith, more, h.0), omega (arith, h.1))) ls

    -- What holds of the numbers below n and of n holds below the next.
    up_to {κ} : (P : ℕ → Type κ) (n : ℕ) → ((j : ℕ) → j < n → P j) → P n → (j : ℕ) → j < suc n → P j
    up_to P n below at j h = elim (Bool-cases (n == j)) [
      | inl same ↦ subst P (ground (arith, same)) at
      | inr other ↦ below j (ground (arith, h, other))
    ]

    ended-IsCalled :
        (p : Program (World T)) (ls : List (ℕ × Frame T)) (v : FutureState T)
        → final p.world.next ≡ v
        → IsCalled p ls
        → IsCalled
            (record p {
              world = record (p.world) {
                shared = update (update p.world.shared p.world.next pending) p.world.next v;
                next = suc p.world.next;
              };
            })
            ls
    ended-IsCalled p ls v own i = record {
      awake = i.awake;
      tasks = i.tasks;
      line = i.line;
      new = newer p.world.next_frame p ls (omega arith) i.new;
      unsettled =
          up_to (IsUnsettled (update (made p).shared p.world.next v)) p.world.next
            (λ j h. ground (arith, h, i.unsettled j h)) (inr (ground (arith, own)));
      ended =
          up_to (HasEnded (update (made p).shared p.world.next v) ls) p.world.next
            (λ j h low out. ground (arith, h, i.ended j h low out))
            (λ low out. ground (arith, own));
    }

    waits-IsCalled :
        (p : Program (World T)) (ls : List (ℕ × Frame T)) (f : ℕ) (rest : Result T → Body T)
        → AwaitsBelow p.world.next (co_await f rest)
        → final p.world.next ≡ outcome final (co_await f rest)
        → IsCalled p ls
        → IsCalled (program (await_suspend (post_delay this) f rest p.world.next (made p))) (
            ls
            ++ (p.world.next_frame, record { future = f; rest = rest; promise = p.world.next })
              ∷ [])
    unfolding await_suspend post_delay delay push_task
    waits-IsCalled p ls f rest below own i = record {
      awake = i.awake;
      tasks =
          posted
          ∙ ap (λ xs. xs ++ plain p.world.next_frame ∷ []) i.tasks
          ∙ sym (map-append (λ l. plain l.0) ls _);
      line =
          IsLine-append p.world.frames p.world.next_frame p.world.next 0 _ ls i.line i.new
            (omega arith) refl below own;
      new =
          All-append (IsOlder (suc p.world.next_frame) (suc p.world.next)) ls _
            (newer (suc p.world.next_frame) p ls (omega arith) i.new)
            ((omega arith, omega arith), tt);
      unsettled =
          up_to (IsUnsettled (made p).shared) p.world.next
            (λ j h. ground (arith, h, i.unsettled j h)) (inl (ground arith));
      ended =
          up_to (HasEnded (made p).shared _) p.world.next
            (λ j h low out.
              let (out', _, _) = All-middle (IsOther j) ls _ [] out in
              ground (arith, h, i.ended j h low out'))
            (λ low out.
              let (_, other, _) = All-middle (IsOther p.world.next) ls _ [] out in
              absurd (other refl));
    }
      where
        posted :
            (post_delay this p.world.next_frame p).tasks this
            ≡ p.tasks this ++ plain p.world.next_frame ∷ []
        posted = ground arith

    start-IsCalled :
        (b : Body T) (p : Program (World T)) (ls : List (ℕ × Frame T))
        → AwaitsBelow p.world.next b
        → final p.world.next ≡ outcome final b
        → IsCalled p ls
        → (ms : List (ℕ × Frame T)) × IsCalled (program (start (post_delay this) b (state p)).1) ms
          × ((program (start (post_delay this) b (state p)).1).world.next ≡ suc p.world.next)
    unfolding start
    start-IsCalled b p ls below own i = cases _ (
        resume-Ran (post_delay this) final ready b p.world.next (made p) below
          (λ k h. ground (arith, i.unsettled k h)))
      where
        cases :
            (t : State T (Program (World T)))
            → Ran (post_delay this) final ready b p.world.next (made p) t
            → (ms : List (ℕ × Frame T)) × IsCalled (program t) ms
              × ((program t).world.next ≡ suc p.world.next)
        cases t (inl e) = rw e (ls, ended-IsCalled p ls (outcome final b) own i, refl)
        cases t (inr (f, rest, e, below', same)) =
            rw e (ls ++ _ ∷ [], waits-IsCalled p ls f rest below' (own ∙ sym same) i, refl)

    pub call_coroutines-IsCalled :
        (bs : List (Body T)) (p : Program (World T)) (ls : List (ℕ × Frame T))
        → EndAs final p.world.next bs
        → IsCalled p ls
        → (ms : List (ℕ × Frame T)) × IsCalled (call_coroutines this bs p) ms
          × ((call_coroutines this bs p).world.next ≡ p.world.next + length bs)
    unfolding call_coroutines
    call_coroutines-IsCalled [] p ls ends i = (ls, i, omega arith)
    call_coroutines-IsCalled (b ∷ bs) p ls (below, own, ends) i =
        let (ms, j, next) = start-IsCalled b p ls below own i in
        let (ns, k, after) =
          call_coroutines-IsCalled bs _ ms (subst (λ n. EndAs final n bs) (sym next) ends) j in
        (ns, k, omega (arith, next, after))
