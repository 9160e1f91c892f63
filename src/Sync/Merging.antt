-- ===== src/Sync/Merging.antt =====
-- c9y/sync.cpp: lists of what stood in a thread's queue, in order where no sync_point is nested in
-- another, and in some order where one is.
use c9y.Base.{subst, Bool, true, false, List, [], ◌∷◌, ◌++◌, ◌≡◌, sym, ap, ◌∙◌, if◌then◌else◌}
use mathlib.Core.List.{append_assoc, append-nil, Perm}
use mathlib.Core.List.Perm
use c9y.Sync.{Entry}

abbrev pub has_some : List Entry → Bool
has_some [] = false
has_some (e ∷ es) = true

-- The same list; or, where sync_points are nested, the same entries in some order.
abbrev pub IsSent : (nested : Bool) → List Entry → List Entry → Type 0
IsSent false xs ys = xs ≡ ys
IsSent true xs ys = Perm xs ys

either : (nested : Bool) (xs ys : List Entry) → IsSent nested xs ys → Perm xs ys
either false xs ys e = subst (Perm xs) e (Perm.refl xs)
either true xs ys p = p

append-middle : (x : Entry) (xs ys : List Entry) → Perm (xs ++ x ∷ ys) (x ∷ (xs ++ ys))
append-middle x [] ys = Perm.refl (x ∷ ys)
append-middle x (z ∷ xs) ys =
    Perm.trans (Perm.cons z (append-middle x xs ys)) (Perm.swap x z (xs ++ ys))

append-comm : (xs ys : List Entry) → Perm (xs ++ ys) (ys ++ xs)
append-comm [] ys = subst (Perm ys) (sym (append-nil ys)) (Perm.refl ys)
append-comm (x ∷ xs) ys =
    Perm.trans (Perm.cons x (append-comm xs ys)) (Perm.symm (append-middle x ys xs))

some_order :
    (m n : Bool) (done more left due start sent last : List Entry)
    → IsSent m (done ++ due) (start ++ sent)
    → IsSent n (more ++ left) (due ++ last)
    → Perm ((done ++ more) ++ left) (start ++ (sent ++ last))
some_order m n done more left due start sent last p q =
    rw (append_assoc done more left, ← append_assoc start sent last)
      (Perm.trans (Perm.append_left done (either n _ _ q))
        (rw (← append_assoc done due last) (Perm.append_right last (either m _ _ p))))

-- What holds before a step, and of it, holds after it.
pub joined :
    (m n : Bool) (done more left due start sent last : List Entry)
    → IsSent m (done ++ due) (start ++ sent)
    → IsSent n (more ++ left) (due ++ last)
    → IsSent (if m then true else n) ((done ++ more) ++ left) (start ++ (sent ++ last))
joined false false done more left due start sent last p q =
    append_assoc done more left
    ∙ ap (λ xs. done ++ xs) q
    ∙ sym (append_assoc done due last)
    ∙ ap (λ xs. xs ++ last) p
    ∙ append_assoc start sent last
joined false true done more left due start sent last p q =
    some_order false true done more left due start sent last p q
joined true n done more left due start sent last p q =
    some_order true n done more left due start sent last p q

pub taken_first :
    (running tasks : List Entry)
    → IsSent (has_some running) ((tasks ++ running) ++ []) ((running ++ tasks) ++ [])
taken_first [] tasks = ap (λ xs. xs ++ []) (append-nil tasks)
taken_first (e ∷ es) tasks = Perm.append_right [] (append-comm tasks (e ∷ es))
