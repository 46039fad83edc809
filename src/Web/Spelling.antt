-- ===== src/Web/Spelling.antt =====
-- editDistance of apps/web/src/lib/spelling.ts: the distance of two words, abandoned past a bound.
-- A row of the matrix is a list; a text is its UTF-16 code units.
pub mod Levenshtein
pub mod Distance
use keco.Prelude.{
  ℕ, suc, ◌+◌, ◌-◌, Bool, ◌||◌, List, [], ◌∷◌, min, if◌then◌else◌, ltb, ◌==◌, length, indicator,
  not,
}
use keco.Prelude.Text.{Text, text_eq}

-- `Array.from({ length: b.length + 1 }, (_, index) => index)`
unfoldable pub first_row : ℕ → Text → List ℕ
first_row i [] = i ∷ []
first_row i (y ∷ ys) = i ∷ first_row (suc i) ys

-- `row[0] ?? 0`, and what follows it
abbrev pub first_or_zero : List ℕ → ℕ
first_or_zero [] = 0
first_or_zero (n ∷ ns) = n

abbrev pub after_first : List ℕ → List ℕ
after_first [] = []
after_first (n ∷ ns) = ns

-- The inner loop, for the character `x` of `a`: `diagonal` is `previous[j - 1]`, `above` what
-- follows it, and `left` is `current[j - 1]`.
unfoldable pub fill : ℕ → Text → ℕ → List ℕ → ℕ → List ℕ
fill x [] diagonal above left = []
fill x (y ∷ ys) diagonal above left =
    let substitution = diagonal + (if x == y then 0 else 1) in
    let deletion = first_or_zero above + 1 in
    let insertion = left + 1 in
    let best = min (min substitution deletion) insertion in
    best ∷ fill x ys (first_or_zero above) (after_first above) best

unfoldable pub next_row : ℕ → Text → ℕ → List ℕ → List ℕ
unfolding fill
next_row x b i previous = i ∷ fill x b (first_or_zero previous) (after_first previous) i

unfoldable pub row_best : ℕ → List ℕ → ℕ
row_best best [] = best
row_best best (n ∷ ns) = row_best (if ltb n best then n else best) ns

-- `row[at] ?? missing`
unfoldable pub entry : List ℕ → Text → ℕ → ℕ
entry [] b missing = missing
entry (n ∷ ns) [] missing = n
entry (n ∷ ns) (y ∷ ys) missing = entry ns ys missing

-- The outer loop.
unfoldable pub rows : ℕ → Text → Text → ℕ → List ℕ → ℕ
unfolding next_row row_best entry
rows bound [] b i previous = entry previous b (bound + 1)
rows bound (x ∷ xs) b i previous =
    let current = next_row x b i previous in
    let rest = rows bound xs b (suc i) current in
    if ltb bound (row_best i (after_first current)) then bound + 1 else rest

unfoldable pub edit_distance : Text → Text → ℕ → ℕ
unfolding rows first_row
edit_distance a b bound =
    if text_eq a b
    then 0
    else if ltb bound ((length a - length b) + (length b - length a))
    then bound + 1
    else rows bound a b 1 (first_row 0 b)
