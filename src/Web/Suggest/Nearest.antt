-- ===== src/Web/Suggest/Nearest.antt =====
-- The loop over the vocabulary in suggestQueries of apps/web/src/lib/spelling.ts.
use keco.Prelude.{
  ℕ, ◌≤◌, ◌≡◌, inl, inr, Bool, true, false, Bool-cases, none, some, List, [], ◌∷◌, arith, leb,
  leb→le, All, if◌then◌else◌,
}
use keco.Prelude.Text.{Text, text_eq, text_eq_iff}
use keco.Core.Read.{includes}
use keco.Web.Spelling.{edit_distance}
use keco.Web.Spelling.Levenshtein.{levenshtein}
use keco.Web.Spelling.Distance.{edit_distance-levenshtein}
use keco.Web.Suggest.{Best, closer, nearest}

-- A word of the vocabulary that is no further than the tolerance.
abbrev pub IsNear : List Text → Text → ℕ → Best → Type 0
IsNear vocab word tolerance none = Unit
IsNear vocab word tolerance (some (c, d)) =
    (includes vocab c ≡ true) × (levenshtein word c ≤ tolerance)

chosen : (P : Best → Type 0) (b : Bool) (x y : Best) → P x → P y → P (if b then x else y)
chosen P true x y p q = p
chosen P false x y p q = q

closer-IsNear :
    (vocab : List Text) (word : Text) (tolerance : ℕ) (c : Text) (best : Best)
    → includes vocab c ≡ true
    → IsNear vocab word tolerance best
    → IsNear vocab word tolerance (closer tolerance (edit_distance word c tolerance) c best)
unfolding closer
closer-IsNear vocab word tolerance c best h k =
    let d = edit_distance word c tolerance in
    elim (Bool-cases (leb d tolerance)) [
      | inl near ↦
          let same = edit_distance-levenshtein word c tolerance in
          let bounded = leb→le d tolerance near in
          rw near (
            chosen (IsNear vocab word tolerance) _ (some (c, d)) best
              (h, omega (arith, same, bounded)) k)
      | inr far ↦ rw far k
    ]

nearest-IsNear_from :
    (vocab : List Text) (word : Text) (tolerance : ℕ) (cs : List Text) (best : Best)
    → All (λ c. includes vocab c ≡ true) cs
    → IsNear vocab word tolerance best
    → IsNear vocab word tolerance (nearest word tolerance cs best)
unfolding nearest
nearest-IsNear_from vocab word tolerance [] best h k = k
nearest-IsNear_from vocab word tolerance (c ∷ cs) best h k =
    chosen (IsNear vocab word tolerance) (text_eq c word) none _ tt (
      nearest-IsNear_from vocab word tolerance cs
        (closer tolerance (edit_distance word c tolerance) c best) h.1
        (closer-IsNear vocab word tolerance c best h.0 k))

includes-cons :
    (v : Text) (vs ws : List Text)
    → All (λ c. includes vs c ≡ true) ws
    → All (λ c. includes (v ∷ vs) c ≡ true) ws
unfolding includes
includes-cons v vs [] h = tt
includes-cons v vs (w ∷ ws) h = (ground (arith, h.0), includes-cons v vs ws h.1)

pub includes-all : (vs : List Text) → All (λ c. includes vs c ≡ true) vs
unfolding includes
includes-all [] = tt
includes-all (v ∷ vs) = (ground (arith, text_eq_iff v v), includes-cons v vs vs (includes-all vs))

-- What the loop finds is in the vocabulary and within the tolerance.
pub nearest-IsNear :
    (vocab : List Text) (word : Text) (tolerance : ℕ)
    → IsNear vocab word tolerance (nearest word tolerance vocab none)
nearest-IsNear vocab word tolerance =
    nearest-IsNear_from vocab word tolerance vocab none (includes-all vocab) tt

-- A word of the vocabulary is not corrected.
pub nearest-known :
    (word : Text) (tolerance : ℕ) (cs : List Text) (best : Best)
    → includes cs word ≡ true
    → nearest word tolerance cs best ≡ none
unfolding nearest includes
nearest-known word tolerance [] best h = cc
nearest-known word tolerance (c ∷ cs) best h = ground (
  arith,
  nearest-known word tolerance cs (closer tolerance (edit_distance word c tolerance) c best),
)
