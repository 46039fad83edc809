-- ===== src/Discovery/Collections/Slug/Ids.antt =====
-- The document ids of apps/workers/src/discovery/store/collections.ts against the port's rule for
-- ids in apps/workers/src/lib/data-store.ts.
use keco.Prelude.{
  ℕ, ◌^◌, ◌≤◌, ◌<◌, ◌≡◌, ◌≢◌, refl, sym, true, false, ◌||◌, [], ◌∷◌, ◌++◌, arith, ltb,
  if◌then◌else◌, length, length-append, All,
}
use keco.Prelude.Text.{
  Text, codes, show, length-show, show-IsDigit, IsDigit, Lacks, text_eq, text_eq_iff, cut_unique,
  show_injective, Lacks-not_cut,
}
use keco.DataStore.Port.{ok, err, missing_key, all_id_chars, is_document_id, check_document_id}
use keco.Discovery.Collections.{repo_document_id}
use keco.Discovery.Collections.Slug.{IsSlug, IsSlugText}

-- Slugs hold no underscore, so it cuts an id at one place.
Lacks-slug : (s : Text) → IsSlugText s → Lacks b'_' s
Lacks-slug [] h = tt
Lacks-slug (c ∷ cs) h = ground (arith, Lacks-slug cs h.1)

-- Two queries never write to one repository document, unless they share their slug.
pub repo_document_id_injective :
    (s s' : Text) (n n' : ℕ)
    → IsSlug s
    → IsSlug s'
    → repo_document_id s n ≡ repo_document_id s' n'
    → (s ≡ s') × (n ≡ n')
unfolding repo_document_id
repo_document_id_injective s s' n n' v v' e =
    let cut =
      cut_unique b'_' s s' {ys = show n} {ys' = show n'} (Lacks-slug s v.chars)
        (Lacks-slug s' v'.chars) e in
    (cut.0, show_injective n n' cut.1)

id_chars-slug : (s : Text) → IsSlugText s → all_id_chars s ≡ true
unfolding all_id_chars
id_chars-slug [] h = refl
id_chars-slug (c ∷ cs) h = ground (arith, id_chars-slug cs h.1)

id_chars-digits : (s : Text) → All IsDigit s → all_id_chars s ≡ true
unfolding all_id_chars
id_chars-digits [] h = refl
id_chars-digits (c ∷ cs) h = ground (arith, id_chars-digits cs h.1)

id_chars-append :
    (s t : Text) → all_id_chars s ≡ true → all_id_chars t ≡ true → all_id_chars (s ++ t) ≡ true
unfolding all_id_chars
id_chars-append [] t h k = k
id_chars-append (c ∷ cs) t h k = ground (arith, id_chars-append cs t)

is_document_id-all : (s : Text) → s ≢ [] → all_id_chars s ≡ true → is_document_id s ≡ true
unfolding all_id_chars
is_document_id-all [] h k = absurd (h refl)
is_document_id-all (c ∷ cs) h k = k

id_chars-underscore : (s : Text) → all_id_chars s ≡ true → all_id_chars (b'_' ∷ s) ≡ true
unfolding all_id_chars
id_chars-underscore s h = h

repo_document_id-chars :
    (s : Text) (n : ℕ) → IsSlug s → is_document_id (repo_document_id s n) ≡ true
unfolding repo_document_id
repo_document_id-chars s n v = is_document_id-all (s ++ b'_' ∷ show n) (non_empty s) (
    id_chars-append s (b'_' ∷ show n) (id_chars-slug s v.chars)
      (id_chars-underscore (show n) (id_chars-digits (show n) (show-IsDigit n))))
  where
    non_empty : (s : Text) → s ++ b'_' ∷ show n ≢ []
    non_empty [] = λ e. cc
    non_empty (c ∷ cs) = λ e. cc

length-repo_document_id :
    (s : Text) (n : ℕ) → IsSlug s → n < 10 ^ 16 → length (repo_document_id s n) ≤ 117
unfolding repo_document_id
length-repo_document_id s n v h = rw length-append (omega (arith, length-show 15 n h, v.short))

text_eq-ne : (a b : Text) → a ≢ b → text_eq a b ≡ false
text_eq-ne a b h = ground (arith, text_eq_iff a b)

-- The store accepts the id of every repository under every slug: GitHub's ids are below 10^16.
pub repo_document_id-accepted :
    (s : Text) (n : ℕ)
    → IsSlug s
    → n < 10 ^ 16
    → check_document_id (repo_document_id s n) ≡ ok (repo_document_id s n)
unfolding check_document_id repo_document_id
repo_document_id-accepted s n v h =
    let bounded : length (s ++ b'_' ∷ show n) ≤ 117 = length-repo_document_id s n v h in
    let short : ltb 250 (length (s ++ b'_' ∷ show n)) ≡ false = ground arith in
    let well_spelt : is_document_id (s ++ b'_' ∷ show n) ≡ true = repo_document_id-chars s n v in
    rw (
      text_eq-ne _ [] (λ e. Lacks-not_cut b'_' [] s (show n) tt (sym e)),
      text_eq-ne _ (codes "undefined")
          (λ e. Lacks-not_cut b'_' (codes "undefined") s (show n) (omega arith) (sym e)),
      text_eq-ne _ (codes "null")
          (λ e. Lacks-not_cut b'_' (codes "null") s (show n) (omega arith) (sym e)),
      short,
      well_spelt,
    )

-- The state of a query is kept under its slug, and the store accepts every slug as an id but
-- `undefined` and `null`.
pub slug-accepted :
    (s : Text)
    → IsSlug s
    → check_document_id s ≡ (
        if text_eq s (codes "undefined") || text_eq s (codes "null") then err missing_key else ok s)
unfolding check_document_id
slug-accepted s v =
    let short : ltb 250 (length s) ≡ false = ground (arith, v.short) in
    rw (
      text_eq-ne s [] v.non_empty,
      short,
      is_document_id-all s v.non_empty (id_chars-slug s v.chars),
    )
