-- ===== src/Analyze/Pipeline/Vocabulary.antt =====
-- The values that the rules of packages/analyze/src/rules take from the vocabulary or name
-- themselves.
use keco.Prelude.{
  ℕ, zero, suc, ◌≤◌, ◌≡◌, refl, inl, inr, true, Bool-cases, Option, none, some, List, [], ◌∷◌,
  arith, length, take, All, All-append, any, length-take-le,
}
use mathlib.Core.Path.{subst}
use keco.Prelude.Text.{Text, codes, text_eq, text_eq_iff}
use keco.Prelude.Maps.{Map, get, put, text_key}
use keco.Core.Taxonomy.{
  TaxonomyFamily, TaxonomyValue, family, is_value, has_value, aliases_for, aliases_from,
  add_aliases,
}
use keco.Core.Read.{includes}
use keco.Analyze.Rules.{RuleInput, add_domain, add_domains, classify_domains, max_or_three}
use keco.Analyze.Llm.{is_known, all_known}

abbrev IsIn : TaxonomyFamily → Text → Type 0
IsIn f v = has_value f v ≡ true

abbrev AreIn : TaxonomyFamily → Map Text Text → Type 0
AreIn f = All (λ (e : Text × Text). IsIn f e.1)

put-AreIn :
    (f : TaxonomyFamily) (m : Map Text Text) (k v : Text)
    → AreIn f m
    → IsIn f v
    → AreIn f (put m k v)
unfolding put
put-AreIn f [] k v h i = (i, tt)
put-AreIn f ((j, w) ∷ m) k v h i = elim (Bool-cases (text_eq j k)) [
  | inl same ↦ rw same (i, h.1)
  | inr other ↦ rw other (h.0, put-AreIn f m k v h.1 i)
]

abbrev IsNoneOrIn : TaxonomyFamily → Option Text → Type 0
IsNoneOrIn f none = Unit
IsNoneOrIn f (some v) = IsIn f v

get-IsNoneOrIn :
    (f : TaxonomyFamily) (m : Map Text Text) (k : Text) → AreIn f m → IsNoneOrIn f (get m k)
unfolding get
get-IsNoneOrIn f [] k h = tt
get-IsNoneOrIn f ((j, w) ∷ m) k h = elim (Bool-cases (text_eq j k)) [
  | inl same ↦ rw same h.0
  | inr other ↦ rw other (get-IsNoneOrIn f m k h.1)
]

add_aliases-AreIn :
    (lower : Text → Text) (f : TaxonomyFamily) (m : Map Text Text) (names : List Text) (id : Text)
    → AreIn f m
    → IsIn f id
    → AreIn f (add_aliases lower m names id)
unfolding add_aliases
add_aliases-AreIn lower f m [] id h i = h
add_aliases-AreIn lower f m (a ∷ names) id h i =
    add_aliases-AreIn lower f (put m (lower a) id) names id (put-AreIn f m (lower a) id h i) i

aliases_from-AreIn :
    (lower : Text → Text) (f : TaxonomyFamily) (m : Map Text Text) (vs : List TaxonomyValue)
    → AreIn f m
    → All (λ (v : TaxonomyValue). IsIn f v.id) vs
    → AreIn f (aliases_from lower m vs)
unfolding aliases_from
aliases_from-AreIn lower f m [] h i = h
aliases_from-AreIn lower f m (v ∷ vs) h i =
    aliases_from-AreIn lower f (add_aliases lower m v.aliases v.id) vs
      (add_aliases-AreIn lower f m v.aliases v.id h i.0) i.1

-- Every value of a list is one of the list.
own_values :
    (vs ws : List TaxonomyValue)
    → ((id : Text)
        → any (λ (v : TaxonomyValue). text_eq v.id id) ws ≡ true
        → any (λ (v : TaxonomyValue). text_eq v.id id) vs ≡ true)
    → All (λ (w : TaxonomyValue). any (λ (v : TaxonomyValue). text_eq v.id w.id) vs ≡ true) ws
own_values vs [] h = tt
own_values vs (w ∷ ws) h = (
  h w.id (ground (arith, text_eq_iff w.id w.id)),
  own_values vs ws (λ id k. h id (ground (arith, k))),
)

aliases_for-AreIn :
    (lower : Text → Text) (taxonomy : List TaxonomyFamily) (id : Text) (f : TaxonomyFamily)
    → family taxonomy id ≡ some f
    → (m : Map Text Text) × (aliases_for lower taxonomy id ≡ some m) × AreIn f m
unfolding aliases_for has_value
aliases_for-AreIn lower taxonomy id f e = (
  aliases_from lower [] f.values,
  rw e refl,
  aliases_from-AreIn lower f [] f.values tt (own_values f.values f.values (λ k h. h)),
)

is_known-of_IsIn :
    (taxonomy : List TaxonomyFamily) (id v : Text) (f : TaxonomyFamily)
    → family taxonomy id ≡ some f
    → IsIn f v
    → is_known taxonomy id v ≡ true
unfolding is_known is_value
is_known-of_IsIn taxonomy id v f e h = rw (e, h) refl

-- A text that an alias stands for is a value of the family.
pub get-alias-known :
    (lower : Text → Text) (taxonomy : List TaxonomyFamily) (id : Text) (f : TaxonomyFamily)
    → family taxonomy id ≡ some f
    → (m : Map Text Text) × (aliases_for lower taxonomy id ≡ some m)
      × ((k v : Text) → get m k ≡ some v → is_known taxonomy id v ≡ true)
get-alias-known lower taxonomy id f e =
    let all = aliases_for-AreIn lower taxonomy id f e in
    (
      all.0,
      all.1,
      λ k v h.
          is_known-of_IsIn taxonomy id v f e
            (subst (IsNoneOrIn f) h (get-IsNoneOrIn f all.0 k all.2)),
    )

abbrev pub AreKnown : List TaxonomyFamily → Text → List Text → Type 0
AreKnown taxonomy id = All (λ v. is_known taxonomy id v ≡ true)

pub all_known-of_AreKnown :
    (taxonomy : List TaxonomyFamily) (id : Text) (vs : List Text)
    → AreKnown taxonomy id vs
    → all_known taxonomy id vs ≡ true
unfolding all_known
all_known-of_AreKnown taxonomy id [] h = refl
all_known-of_AreKnown taxonomy id (v ∷ vs) h =
    ground (arith, h.0, all_known-of_AreKnown taxonomy id vs h.1)

take-AreKnown :
    (taxonomy : List TaxonomyFamily) (id : Text) (n : ℕ) (vs : List Text)
    → AreKnown taxonomy id vs
    → AreKnown taxonomy id (take n vs)
take-AreKnown taxonomy id zero vs h = tt
take-AreKnown taxonomy id (suc n) [] h = tt
take-AreKnown taxonomy id (suc n) (v ∷ vs) h = (h.0, take-AreKnown taxonomy id n vs h.1)

add_domain-AreKnown :
    (taxonomy : List TaxonomyFamily) (id : Text) (found : List Text) (o : Option Text)
    → ((v : Text) → o ≡ some v → is_known taxonomy id v ≡ true)
    → AreKnown taxonomy id found
    → AreKnown taxonomy id (add_domain found o)
unfolding add_domain
add_domain-AreKnown taxonomy id found none h k = k
add_domain-AreKnown taxonomy id found (some []) h k = k
add_domain-AreKnown taxonomy id found (some (c ∷ cs)) h k =
    elim (Bool-cases (includes found (c ∷ cs))) [
      | inl there ↦ rw there k
      | inr new ↦ rw new (
          All-append (λ v. is_known taxonomy id v ≡ true) found ((c ∷ cs) ∷ []) k
            (h (c ∷ cs) refl, tt))
    ]

add_domains-AreKnown :
    (lower : Text → Text) (taxonomy : List TaxonomyFamily) (id : Text) (m : Map Text Text)
    (found ts : List Text)
    → ((k v : Text) → get m k ≡ some v → is_known taxonomy id v ≡ true)
    → AreKnown taxonomy id found
    → AreKnown taxonomy id (add_domains lower m found ts)
unfolding add_domains
add_domains-AreKnown lower taxonomy id m found [] h k = k
add_domains-AreKnown lower taxonomy id m found (t ∷ ts) h k =
    add_domains-AreKnown lower taxonomy id m (add_domain found (get m (lower t))) ts h
      (add_domain-AreKnown taxonomy id found (get m (lower t)) (h (lower t)) k)

-- The domains that the topics give are domains, and no more than the family allows.
pub classify_domains-AreKnown :
    (lower : Text → Text) (taxonomy : List TaxonomyFamily) (input : RuleInput) (f : TaxonomyFamily)
    → family taxonomy (codes "domains") ≡ some f
    → (ds : List Text) × (classify_domains lower taxonomy input ≡ some ds)
      × AreKnown taxonomy (codes "domains") ds
      × (length ds ≤ max_or_three f)
unfolding classify_domains
classify_domains-AreKnown lower taxonomy input f e =
    let aliases = get-alias-known lower taxonomy (codes "domains") f e in
    let all = add_domains lower aliases.0 [] input.topics in
    (
      take (max_or_three f) all,
      rw (aliases.1, e) refl,
      take-AreKnown taxonomy (codes "domains") (max_or_three f) all (
          add_domains-AreKnown lower taxonomy (codes "domains") aliases.0 [] input.topics aliases.2
            tt),
      length-take-le (max_or_three f) all,
    )
