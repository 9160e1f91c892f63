-- ===== src/Parallel/Queries/Packed.antt =====
-- c9y/parallel.h: the results of parallel_all_of, parallel_any_of and parallel_none_of stand in a
-- std::vector<bool>, as bits of words. Writing one of them loads its word and stores it with the bit
-- changed. Here the tasks take these two parts each in any order, on results that fill one word.
use c9y.Base.{
  ℕ, zero, suc, ◌+◌, ◌*◌, ◌==◌, ◌<◌, ◌≤◌, ◌≡◌, refl, ap, Bool, true, false, Option, none, some,
  List, [], ◌∷◌, ◌++◌, map, length, set, replicate, if◌then◌else◌, ◌>>=◌, ltb, arith,
}
use c9y.Parallel.Std.{all_of}
use c9y.Parallel.Chunks.{Chunk, get_results_size, safe_advance, result_tasks, slice}
use c9y.Parallel.Chunks.Tasks.{
  Covers, Covers-le, get_results_size-Covers, spec_tasks, result_tasks_lem,
}

abbrev pub word_bits : ℕ
word_bits = 64

-- The word, and what the task of each result has loaded.
pub record Word : Type 0 where
  pub results : List Bool
  pub loaded : ℕ → List Bool

pub data Part : Type 0 where
  load store : Chunk → Part

module _ {ℓ} {A : Type ℓ} (algorithm : List A → Bool) (xs : List A) where
  unfoldable run_part : Part → Word → Word
  run_part (load t) s = record s { loaded = λ i. if t.slot == i then s.results else s.loaded i }
  run_part (store t) s = record s {
    results = set (s.loaded t.slot) t.slot (algorithm (slice t.first t.last xs));
  }

  abbrev run_parts : List Part → Word → Word
  run_parts [] s = s
  run_parts (p ∷ ps) s = run_parts ps (run_part p s)

-- Orders in which the first tasks load and store, and the second, which have loaded, store.
pub data IsInterleaving : (fresh loaded : List Chunk) → List Part → Type 0 where
  done : IsInterleaving [] [] []
  begin :
      (before after : List Chunk) {ls : List Chunk} {t : Chunk} {ps : List Part}
      → IsInterleaving (before ++ after) (t ∷ ls) ps
      → IsInterleaving (before ++ t ∷ after) ls (load t ∷ ps)
  finish :
      (before after : List Chunk) {ts : List Chunk} {t : Chunk} {ps : List Part}
      → IsInterleaving ts (before ++ after) ps
      → IsInterleaving ts (before ++ t ∷ after) (store t ∷ ps)

-- The results, all false; none: they do not fit.
unfoldable new_word : ℕ → Option Word
new_word size =
    if ltb word_bits size
    then none
    else some (record { results = replicate size false; loaded = λ i. [] })

-- parallel_all_of, on results that fill one word at most; none: they do not, or a division by zero.
module _ {ℓ} {A : Type ℓ} where
  unfoldable pub packed_all_of : List Part → List A → (A → Bool) → ℕ → Option Bool
  unfolding run_part new_word
  packed_all_of parts xs predicate chunk_size = do
    size ← get_results_size (length xs) chunk_size
    word ← new_word size
    some (all_of (λ v. v) (run_parts (all_of predicate) xs parts word).results)

-- All tasks load, and then all of them store.
abbrev pub loads_first : (fresh loaded : List Chunk) → List Part
loads_first [] ls = map store ls
loads_first (t ∷ ts) ls = load t ∷ loads_first ts (t ∷ ls)

stores-IsInterleaving : (ls : List Chunk) → IsInterleaving [] ls (map store ls)
stores-IsInterleaving [] = done
stores-IsInterleaving (t ∷ ls) = finish [] ls (stores-IsInterleaving ls)

loads_first-IsInterleaving : (ts ls : List Chunk) → IsInterleaving ts ls (loads_first ts ls)
loads_first-IsInterleaving [] ls = stores-IsInterleaving ls
loads_first-IsInterleaving (t ∷ ts) ls = begin [] ts (loads_first-IsInterleaving ts (t ∷ ls))

all_of-set :
    (n i : ℕ) (v : Bool) → all_of (λ b. b) (set (replicate (suc (suc n)) false) i v) ≡ false
unfolding all_of
all_of-set n zero true = refl
all_of-set n zero false = refl
all_of-set n (suc i) v = refl

abbrev HaveLoaded : List Bool → (ℕ → List Bool) → List Chunk → Type 0
HaveLoaded word loaded [] = Unit
HaveLoaded word loaded (t ∷ ts) = (loaded t.slot ≡ word) × HaveLoaded word loaded ts

module _ {ℓ} {A : Type ℓ} (algorithm : List A → Bool) (xs : List A) (n : ℕ) where
  abbrev IsLost : Word → Type 0
  IsLost s = all_of (λ b. b) s.results ≡ false

  abbrev falses : List Bool
  falses = replicate (suc (suc n)) false

  stores-IsLost :
      (ls : List Chunk) (s : Word)
      → HaveLoaded falses s.loaded ls
      → IsLost s
      → IsLost (run_parts algorithm xs (map store ls) s)
  unfolding run_part
  stores-IsLost [] s have lost = lost
  stores-IsLost (t ∷ ls) s have lost = stores-IsLost ls _ have.1 (rw have.0 (all_of-set n t.slot _))

  load-HaveLoaded :
      (i : ℕ) (loaded : ℕ → List Bool) (ls : List Chunk)
      → HaveLoaded falses loaded ls
      → HaveLoaded falses (λ j. if i == j then falses else loaded j) ls
  load-HaveLoaded i loaded [] have = tt
  load-HaveLoaded i loaded (t ∷ ls) have =
      (ground (arith, have.0), load-HaveLoaded i loaded ls have.1)

  loads_first-IsLost :
      (ts ls : List Chunk) (loaded : ℕ → List Bool)
      → HaveLoaded falses loaded ls
      → IsLost (
          run_parts algorithm xs (loads_first ts ls) (record { results = falses; loaded = loaded }))
  unfolding run_part all_of
  loads_first-IsLost [] ls loaded have = stores-IsLost ls _ have refl
  loads_first-IsLost (t ∷ ts) ls loaded have =
      loads_first-IsLost ts (t ∷ ls) _ (ground arith, load-HaveLoaded t.slot loaded ls have)

-- With a positive chunk size, and a range of two chunks at least and 64 at most, whose results stand
-- in one word: the tasks of parallel_all_of can load and store in an order in which it answers false,
-- whatever the predicate, also where that holds of every element.
pub packed_all_of-lost {ℓ} :
    {A : Type ℓ} (xs : List A) (p : A → Bool) (c : ℕ)
    → 0 < c
    → c < length xs
    → length xs ≤ 64 * c
    → (tasks : List Chunk) × (parts : List Part) × (result_tasks
          (length xs + 1)
          (length xs)
          c
          0
          (safe_advance 0 (length xs) c).0
          0
        ≡ some tasks)
      × IsInterleaving tasks [] parts
      × (packed_all_of parts xs p c ≡ some false)
unfolding packed_all_of safe_advance new_word
packed_all_of-lost xs p c h more fits =
    let (m, size, v) = get_results_size-Covers (length xs) c h in
    let tasks = spec_tasks m (length xs) c 0 0 in
    (
      tasks,
      loads_first tasks [],
      result_tasks_lem (length xs + 1) m (length xs) c 0 0
          (omega (arith, Covers-le (length xs) c m v)) (omega arith) (omega arith),
      loads_first-IsInterleaving tasks [],
      rw size (lost m v tasks),
    )
  where
    small : (m : ℕ) → Covers (length xs) c m → m ≤ 64
    small m v = grind (arith, v.tight)

    lost :
        (m : ℕ)
        → Covers (length xs) c m
        → (ts : List Chunk)
        → (new_word m >>= λ word.
            some (all_of (λ b. b) (run_parts (all_of p) xs (loads_first ts []) word).results))
          ≡ some false
    lost zero v ts = absurd (omega (arith, v.enough))
    lost (suc zero) v ts = absurd (omega (arith, v.enough))
    lost (suc (suc n)) v ts =
        let word : ltb word_bits (suc (suc n)) ≡ false = ground (arith, small (suc (suc n)) v) in
        rw word (ap some (loads_first-IsLost (all_of p) xs n ts [] (λ i. []) tt))
