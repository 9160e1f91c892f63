-- ===== src/Queue/Draining.antt =====
-- c9y/queue.h: what is pushed comes out again, through every call that takes values.
use c9y.Base.{
  ◌+◌, ◌<◌, ◌≡◌, refl, ap, sym, ◌∙◌, Bool, true, Option, none, some, List, [], ◌∷◌, ◌++◌, length,
  map, arith, length-append, length-map,
}
use mathlib.Core.List.{append_assoc, append-nil}
use mathlib.Core.Option.{some-injective}
use c9y.Queue.{Queue, queue, push, push_move, emplace, pop, pop_wait, pop_wait_for, stop, ready}

-- What pop_wait takes from a queue that is not empty.
pub pop_wait-front {ℓ} :
    {T : Type ℓ} (q : Queue T) (x : T) (xs : List T) {r : Queue T} {v : T}
    → q.container ≡ x ∷ xs
    → pop_wait q ≡ some (r, some v)
    → (v ≡ x) × (r.container ≡ xs)
unfolding pop_wait ready
pop_wait-front {T} q x xs {r} {v} e pops =
    let first : pop_wait q ≡ some (record q { container = xs }, some x) = rw e refl in
    let same = some-injective _ _ (sym first ∙ pops) in
    (some-injective _ _ (sym (ap (λ p. p.1) same)), sym (ap (λ p. p.0.container) same))

-- The calls that put a value in, and those that take one out.
pub data Putting : Type 0 where
  by_push by_push_move by_emplace : Putting

pub data Taking : Type 0 where
  by_pop by_pop_wait : Taking
  by_pop_wait_for : (timed_out : Bool) → Taking

module _ {ℓ} {T : Type ℓ} where
  abbrev pub put : Putting → T → Queue T → Queue T
  put by_push v q = (push v q).0
  put by_push_move v q = (push_move v q).0
  put by_emplace v q = (emplace v q).0

  abbrev pub put_all : List (Putting × T) → Queue T → Queue T
  put_all [] q = q
  put_all ((how, v) ∷ vs) q = put_all vs (put how v q)

  -- none: the call sleeps.
  abbrev pub take_by : Taking → Queue T → Option (Queue T × Option T)
  take_by by_pop q = some (pop q)
  take_by by_pop_wait q = pop_wait q
  take_by (by_pop_wait_for timed_out) q = pop_wait_for timed_out q

  -- `while (auto value = ...)`, with the call of each round; none: a call sleeps, or more rounds follow.
  abbrev pub take_all : List Taking → Queue T → Option (List T)
  take_all [] q = none
  take_all (how ∷ hows) q = elim (take_by how q) [
    | none ↦ none
    | some (q', none) ↦ some []
    | some (q', some v) ↦ elim (take_all hows q') [ none ↦ none | some vs ↦ some (v ∷ vs) ]
  ]

  put_lem :
      (how : Putting) (v : T) (q : Queue T)
      → put how v q ≡ record q { container = q.container ++ v ∷ [] }
  unfolding push push_move emplace
  put_lem by_push v q = refl
  put_lem by_push_move v q = refl
  put_lem by_emplace v q = refl

  put_all-append :
      (vs : List (Putting × T)) (q : Queue T)
      → put_all vs q ≡ record q { container = q.container ++ map (λ v. v.1) vs }
  put_all-append [] q = ap (λ xs. record q { container = xs }) (sym (append-nil q.container))
  put_all-append ((how, v) ∷ vs) q =
      ap (put_all vs) (put_lem how v q)
      ∙ put_all-append vs (record q { container = q.container ++ v ∷ [] })
      ∙ ap (λ xs. record q { container = xs })
          (append_assoc q.container (v ∷ []) (map (λ v. v.1) vs))

  take_all-stopped :
      (hows : List Taking) (vs : List T)
      → length vs < length hows
      → take_all hows (record { container = vs; stopped = true }) ≡ some vs
  unfolding pop pop_wait pop_wait_for
  take_all-stopped [] vs h = absurd (omega arith)
  take_all-stopped (by_pop ∷ hows) [] h = refl
  take_all-stopped (by_pop_wait ∷ hows) [] h = refl
  take_all-stopped (by_pop_wait_for t ∷ hows) [] h = refl
  take_all-stopped (by_pop ∷ hows) (v ∷ vs) h = rw (take_all-stopped hows vs (omega arith)) refl
  take_all-stopped (by_pop_wait ∷ hows) (v ∷ vs) h =
      rw (take_all-stopped hows vs (omega arith)) refl
  take_all-stopped (by_pop_wait_for t ∷ hows) (v ∷ vs) h =
      rw (take_all-stopped hows vs (omega arith)) refl

  -- A queue made with some values, into which others are put by any of push and emplace, and which is
  -- then stopped: a loop that takes a value in each round, by any of pop, pop_wait and pop_wait_for,
  -- and has more rounds than there are values, ends with exactly these values, in their order, and no
  -- call sleeps.
  pub take_all-put_all :
      (items : List T) (vs : List (Putting × T)) (hows : List Taking)
      → length items + length vs < length hows
      → take_all hows (stop (put_all vs (queue items))).0 ≡ some (items ++ map (λ v. v.1) vs)
  unfolding stop queue
  take_all-put_all items vs hows h = rw put_all-append (
      take_all-stopped hows (items ++ map (λ v. v.1) vs)
        (omega (arith, length-append items (map (λ v. v.1) vs), length-map vs (λ v. v.1))))
