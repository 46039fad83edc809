-- ===== src/Discovery/Windows/Bands.antt =====
-- The star bands of apps/workers/src/discovery/windows.ts, read as GitHub Search reads a `stars:`
-- qualifier: `>n`, `a..b` with both ends, or `n`.
use keco.Prelude.{
  ℕ, ◌≡◌, Bool, ◌&&◌, Option, none, some, [], ◌∷◌, arith, ltb, leb, ◌==◌, if◌then◌else◌, count_if,
  All,
}
use keco.Prelude.Text.{Text, value_from, Lacks}
use keco.Discovery.Windows.{star_bands}

-- The texts before and after the first `..`.
cut_dots : Text → Option (Text × Text)
cut_dots [] = none
cut_dots (c ∷ []) = none
cut_dots (c ∷ d ∷ r) =
    let rest = cut_dots (d ∷ r) in
    if c == b'.' && d == b'.'
    then some ([], r)
    else elim rest [ none ↦ none | some (a, b) ↦ some (c ∷ a, b) ]

above : Text → ℕ → Bool
above [] stars = Bool.false
above (c ∷ r) stars = c == b'>' && ltb (value_from 0 r) stars

unfoldable pub band_matches : Text → ℕ → Bool
unfolding cut_dots above value_from
band_matches [] stars = Bool.false
band_matches (c ∷ r) stars =
    if c == b'>' then ltb (value_from 0 r) stars else elim (cut_dots (c ∷ r)) [
      | none ↦ stars == value_from 0 (c ∷ r)
      | some (a, b) ↦ leb (value_from 0 a) stars && leb stars (value_from 0 b)
    ]

-- Every number of stars lies in exactly one band.
pub star_bands-cover : (stars : ℕ) → count_if (λ band. band_matches band stars) star_bands ≡ 1
unfolding band_matches
star_bands-cover stars = ground arith

-- No band holds a space.
pub star_bands-Lacks : All (Lacks 32) star_bands
star_bands-Lacks = omega arith
