-- ===== src/Stop/Handles/Origins.antt =====
-- c9y/jthread.cpp: what the history of a program's calls says of its tokens and sources, with no heap
-- and no pointers.
use c9y.Base.{ℕ, suc, ◌==◌, Bool, false, ◌||◌, Option, none, some, List, [], ◌∷◌, if◌then◌else◌}
use c9y.Stop.Handles.{
  Transfer, copied, moved, swapped, HandleCall, source_made, source_changed, token_changed,
  token_taken, stop_asked,
}

abbrev pub sources_made : List HandleCall → ℕ
sources_made [] = 0
sources_made (source_made to ∷ cs) = suc (sources_made cs)
sources_made (source_changed how to from ∷ cs) = sources_made cs
sources_made (token_changed how to from ∷ cs) = sources_made cs
sources_made (token_taken to from ∷ cs) = sources_made cs
sources_made (stop_asked by ∷ cs) = sources_made cs

-- The origin of a name after a copy, a move or a swap, from the origins before. A move leaves the name
-- that it moves from with none, unless it moves to itself.
abbrev pub trace : Transfer → (to from : ℕ) → (ℕ → Option ℕ) → ℕ → Option ℕ
trace copied to from origin name = if to == name then origin from else origin name
trace moved to from origin name =
    if to == name then origin from else (if from == name then none else origin name)
trace swapped to from origin name =
    if from == name then origin to else (if to == name then origin from else origin name)

-- Which of the sources that were made a source goes back to.
abbrev pub source_origin : List HandleCall → ℕ → Option ℕ
source_origin [] s = none
source_origin (source_made to ∷ cs) s =
    let before = source_origin cs s in if to == s then some (sources_made cs) else before
source_origin (source_changed how to from ∷ cs) s = trace how to from (source_origin cs) s
source_origin (token_changed how to from ∷ cs) s = source_origin cs s
source_origin (token_taken to from ∷ cs) s = source_origin cs s
source_origin (stop_asked by ∷ cs) s = source_origin cs s

abbrev pub token_origin : List HandleCall → ℕ → Option ℕ
token_origin [] t = none
token_origin (source_made to ∷ cs) t = token_origin cs t
token_origin (source_changed how to from ∷ cs) t = token_origin cs t
token_origin (token_changed how to from ∷ cs) t = trace how to from (token_origin cs) t
token_origin (token_taken to from ∷ cs) t =
    let before = token_origin cs t in if to == t then source_origin cs from else before
token_origin (stop_asked by ∷ cs) t = token_origin cs t

abbrev pub is_at : Option ℕ → ℕ → Bool
is_at none a = false
is_at (some b) a = b == a

-- Whether a stop was requested through a source that went back to the source `a`.
abbrev pub requested : ℕ → List HandleCall → Bool
requested a [] = false
requested a (source_made to ∷ cs) = requested a cs
requested a (source_changed how to from ∷ cs) = requested a cs
requested a (token_changed how to from ∷ cs) = requested a cs
requested a (token_taken to from ∷ cs) = requested a cs
requested a (stop_asked by ∷ cs) = is_at (source_origin cs by) a || requested a cs

-- What a handle of that origin should see.
abbrev pub should_see : Option ℕ → List HandleCall → Bool
should_see none cs = false
should_see (some a) cs = requested a cs
