-- ===== src/Parallel/Std.antt =====
-- What c9y/parallel.h uses of the standard algorithms, on the list of the elements of a range.
use mathlib.Core.List.{flatten}
use c9y.Base.{
  ℕ, suc, ◌+◌, ◌%◌, ◌^◌, ◌<◌, ◌≤◌, ◌≡◌, refl, ap, sym, ◌∙◌, Bool, true, false, ◌&&◌, ◌||◌, not,
  List, [], ◌∷◌, ◌++◌, map, length, if◌then◌else◌, arith,
}

module _ {ℓ} {A : Type ℓ} (p : A → Bool) where
  unfoldable pub all_of : List A → Bool
  all_of [] = true
  all_of (x ∷ xs) = p x && all_of xs

  unfoldable pub any_of : List A → Bool
  any_of [] = false
  any_of (x ∷ xs) = p x || any_of xs

  unfoldable pub none_of : List A → Bool
  none_of [] = true
  none_of (x ∷ xs) = not (p x) && none_of xs

  unfoldable pub count_if : List A → ℕ
  count_if [] = 0
  count_if (x ∷ xs) = if p x then suc (count_if xs) else count_if xs

-- `size_t` sums wrap around.
abbrev pub size_mod : ℕ
size_mod = 2 ^ 64

unfoldable pub accumulate : List ℕ → ℕ → ℕ
accumulate [] acc = acc
accumulate (n ∷ ns) acc = accumulate ns ((acc + n) % size_mod)

-- The results of pieces, put together, are the result of the whole.
module _ {ℓ} {A : Type ℓ} (p : A → Bool) where
  all_of-append : (xs ys : List A) → all_of p (xs ++ ys) ≡ (all_of p xs && all_of p ys)
  unfolding all_of
  all_of-append [] ys = refl
  all_of-append (x ∷ xs) ys = ground (arith, all_of-append xs ys)

  any_of-append : (xs ys : List A) → any_of p (xs ++ ys) ≡ (any_of p xs || any_of p ys)
  unfolding any_of
  any_of-append [] ys = refl
  any_of-append (x ∷ xs) ys = ground (arith, any_of-append xs ys)

  none_of-append : (xs ys : List A) → none_of p (xs ++ ys) ≡ (none_of p xs && none_of p ys)
  unfolding none_of
  none_of-append [] ys = refl
  none_of-append (x ∷ xs) ys = ground (arith, none_of-append xs ys)

  count_if-append : (xs ys : List A) → count_if p (xs ++ ys) ≡ count_if p xs + count_if p ys
  unfolding count_if
  count_if-append [] ys = omega arith
  count_if-append (x ∷ xs) ys = ground (arith, count_if-append xs ys)

  pub count_if-le-length : (xs : List A) → count_if p xs ≤ length xs
  unfolding count_if
  count_if-le-length [] = omega arith
  count_if-le-length (x ∷ xs) = ground (arith, count_if-le-length xs)

  pub all_of-flatten :
      (xss : List (List A)) → all_of (λ b. b) (map (all_of p) xss) ≡ all_of p (flatten xss)
  unfolding flatten all_of
  all_of-flatten [] = refl
  all_of-flatten (xs ∷ xss) =
      ap (◌&&◌ (all_of p xs)) (all_of-flatten xss) ∙ sym (all_of-append xs (flatten xss))

  pub any_of-flatten :
      (xss : List (List A)) → any_of (λ b. b) (map (any_of p) xss) ≡ any_of p (flatten xss)
  unfolding flatten any_of
  any_of-flatten [] = refl
  any_of-flatten (xs ∷ xss) =
      ap (◌||◌ (any_of p xs)) (any_of-flatten xss) ∙ sym (any_of-append xs (flatten xss))

  pub none_of-flatten :
      (xss : List (List A)) → all_of (λ b. b) (map (none_of p) xss) ≡ none_of p (flatten xss)
  unfolding flatten all_of none_of
  none_of-flatten [] = refl
  none_of-flatten (xs ∷ xss) =
      ap (◌&&◌ (none_of p xs)) (none_of-flatten xss) ∙ sym (none_of-append xs (flatten xss))

  pub count_if-flatten :
      (xss : List (List A)) (acc : ℕ)
      → acc + count_if p (flatten xss) < size_mod
      → accumulate (map (count_if p) xss) acc ≡ acc + count_if p (flatten xss)
  unfolding flatten accumulate count_if
  count_if-flatten [] acc h = omega arith
  count_if-flatten (xs ∷ xss) acc h =
      let e : count_if p (xs ++ flatten xss) ≡ count_if p xs + count_if p (flatten xss) =
        count_if-append xs (flatten xss) in
      let small : (acc + count_if p xs) % size_mod ≡ acc + count_if p xs = omega arith in
      ap (accumulate (map (count_if p) xss)) small
      ∙ count_if-flatten xss (acc + count_if p xs) (omega arith)
      ∙ omega arith
