-- ===== src/Discovery/Collections/Slug.antt =====
-- `slugifyQuery` and `repoDocumentId` of apps/workers/src/discovery/store/collections.ts: the
-- namespace that a query gives its documents, and the ids in it.
pub mod Ids
use keco.Prelude.{
  ℕ, zero, suc, ◌+◌, ◌≤◌, ◌≡◌, ◌≢◌, ◌⊎◌, refl, Bool, true, false, ◌&&◌, ◌||◌, Option, none, some,
  List, [], ◌∷◌, ◌++◌, arith, leb, ◌==◌, if◌then◌else◌, length, take, All, length-take-le,
}
use mathlib.Core.Path.{subst}
use keco.Prelude.Text.{Text, codes, Lacks}
use keco.Discovery.Dates.{dash}

abbrev pub max_slug_length : ℕ
max_slug_length = 100

abbrev pub is_slug_char : ℕ → Bool
is_slug_char c = (leb b'a' c && leb c b'z') || (leb b'0' c && leb c b'9')

-- `.replace(/[^a-z0-9]+/g, '-')`; the flag says that the character before was replaced.
collapse : Bool → Text → Text
collapse in_run [] = []
collapse in_run (c ∷ cs) =
    let kept = c ∷ collapse false cs in
    let again = collapse true cs in
    if is_slug_char c then kept else if in_run then again else dash ∷ again

-- `.replace(/^-+/, '')`
trim_start : Text → Text
trim_start [] = []
trim_start (c ∷ cs) = let rest = trim_start cs in if c == dash then rest else c ∷ cs

abbrev is_empty : Text → Bool
is_empty [] = true
is_empty (_ ∷ _) = false

-- `.replace(/-+$/, '')`
trim_end : Text → Text
trim_end [] = []
trim_end (c ∷ cs) = let rest = trim_end cs in if c == dash && is_empty rest then [] else c ∷ rest

-- `lower` stands for `toLowerCase`; `none` is the throw for a query with no usable character.
unfoldable pub slugify_query : (Text → Text) → Text → Option Text
unfolding collapse trim_start trim_end
slugify_query lower query =
    let slug =
      trim_end (take max_slug_length (trim_end (trim_start (collapse false (lower query))))) in
    if is_empty slug then none else some slug

abbrev pub IsSlugText : Text → Type 0
IsSlugText = All (λ c. (is_slug_char c ≡ true) ⊎ (c ≡ dash))

collapse-IsSlugText : (b : Bool) (cs : Text) → IsSlugText (collapse b cs)
unfolding collapse
collapse-IsSlugText b [] = tt
collapse-IsSlugText b (c ∷ cs) =
    ground (arith, collapse-IsSlugText true cs, collapse-IsSlugText false cs)

trim_start-IsSlugText : (cs : Text) → IsSlugText cs → IsSlugText (trim_start cs)
unfolding trim_start
trim_start-IsSlugText [] h = tt
trim_start-IsSlugText (c ∷ cs) h = ground (arith, trim_start-IsSlugText cs)

trim_end-IsSlugText : (cs : Text) → IsSlugText cs → IsSlugText (trim_end cs)
unfolding trim_end
trim_end-IsSlugText [] h = tt
trim_end-IsSlugText (c ∷ cs) h = ground (arith, trim_end-IsSlugText cs)

take-IsSlugText : (n : ℕ) (cs : Text) → IsSlugText cs → IsSlugText (take n cs)
take-IsSlugText zero cs h = tt
take-IsSlugText (suc n) [] h = tt
take-IsSlugText (suc n) (c ∷ cs) h = (h.0, take-IsSlugText n cs h.1)

length-trim_end : (cs : Text) → length (trim_end cs) ≤ length cs
unfolding trim_end
length-trim_end [] = omega arith
length-trim_end (c ∷ cs) = ground (arith, length-trim_end cs)

-- The first and the last character are not dashes.
abbrev StartsWell : Text → Type 0
StartsWell [] = Unit
StartsWell (c ∷ _) = c ≢ dash

abbrev EndsWell : Text → Type 0
EndsWell [] = Unit
EndsWell (c ∷ []) = c ≢ dash
EndsWell (c ∷ d ∷ r) = EndsWell (d ∷ r)

trim_start-StartsWell : (cs : Text) → StartsWell (trim_start cs)
unfolding trim_start
trim_start-StartsWell [] = tt
trim_start-StartsWell (c ∷ cs) = ground (arith, trim_start-StartsWell cs)

trim_end-StartsWell : (cs : Text) → StartsWell cs → StartsWell (trim_end cs)
unfolding trim_end
trim_end-StartsWell [] h = tt
trim_end-StartsWell (c ∷ cs) h = ground arith

take-StartsWell : (n : ℕ) (cs : Text) → StartsWell cs → StartsWell (take n cs)
take-StartsWell zero cs h = tt
take-StartsWell (suc n) [] h = tt
take-StartsWell (suc n) (c ∷ cs) h = h

EndsWell-cons : (c : ℕ) (r : Text) → (r ≡ [] → c ≢ dash) → EndsWell r → EndsWell (c ∷ r)
EndsWell-cons c [] h k = h refl
EndsWell-cons c (d ∷ r) h k = k

trim_end-EndsWell : (cs : Text) → EndsWell (trim_end cs)
unfolding trim_end
trim_end-EndsWell [] = tt
trim_end-EndsWell (c ∷ cs) = ground (arith, trim_end-EndsWell cs, EndsWell-cons c (trim_end cs))

pub record IsSlug (slug : Text) : Type 0 where
  pub chars : IsSlugText slug
  pub short : length slug ≤ 100
  pub non_empty : slug ≢ []
  pub starts : StartsWell slug
  pub ends : EndsWell slug

raw_slug : Text → Text
raw_slug text = trim_end (take max_slug_length (trim_end (trim_start (collapse false text))))

raw_slug-IsSlug : (text : Text) → raw_slug text ≢ [] → IsSlug (raw_slug text)
unfolding raw_slug
raw_slug-IsSlug text filled =
    let inner = trim_end (trim_start (collapse false text)) in
    record {
      chars = trim_end-IsSlugText (take 100 inner) (
          take-IsSlugText 100 inner (
            trim_end-IsSlugText (trim_start (collapse false text))
              (trim_start-IsSlugText (collapse false text) (collapse-IsSlugText false text))));
      short = omega (arith, length-trim_end (take 100 inner), length-take-le 100 inner);
      non_empty = filled;
      starts = trim_end-StartsWell (take 100 inner) (
          take-StartsWell 100 inner (
            trim_end-StartsWell (trim_start (collapse false text))
              (trim_start-StartsWell (collapse false text))));
      ends = trim_end-EndsWell (take 100 inner);
    }

slug_cases :
    (raw slug : Text)
    → (if is_empty raw then none else some raw) ≡ some slug
    → (raw ≢ []) × (raw ≡ slug)
slug_cases [] slug e = cc
slug_cases (c ∷ cs) slug e = (λ h. cc, ground arith)

-- A query that is accepted has a slug of 1 to 100 lower-case letters, digits and dashes, which
-- neither begins nor ends with a dash.
pub slugify_query-IsSlug :
    (lower : Text → Text) (query slug : Text) → slugify_query lower query ≡ some slug → IsSlug slug
unfolding slugify_query raw_slug
slugify_query-IsSlug lower query slug e =
    let (filled, same) = slug_cases (raw_slug (lower query)) slug e in
    subst IsSlug same (raw_slug-IsSlug (lower query) filled)
