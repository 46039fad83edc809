-- ===== src/Analyze/InstallMethods/Chosen.antt =====
-- The package that bestArtifactHubMatch of packages/analyze/src/signals.ts chooses.
use keco.Prelude.{
  ℕ, ◌≤◌, ◌≡◌, ◌⊎◌, inl, inr, refl, Bool, true, false, ◌&&◌, Bool-cases, Option, none, some, List,
  [], ◌∷◌, arith, All, ap, ◌∙◌, Option-cases,
}
use keco.Prelude.Text.{Text, codes, text_eq, text_eq_iff}
use keco.Analyze.InstallMethods.{
  ArtifactHubPackage, RepositoryKind, helm, krew, other, is_safe_slug, all_slug_chars,
  is_letter_or_digit, is_slug_char, has_safe_kind, is_candidate, is_before, is_official, stars_of,
  ranks_before, best_artifact_hub_match,
}
use keco.Analyze.InstallMethods.Best.{IsOneOf, best_from-none, slug_of, IsRead, candidate-IsRead}

-- A letter of the Latin alphabet, or a digit.
abbrev IsAlphanumeric : ℕ → Type 0
IsAlphanumeric c = ((97 ≤ c) × (c ≤ 122)) ⊎ ((65 ≤ c) × (c ≤ 90)) ⊎ ((48 ≤ c) × (c ≤ 57))

-- A letter, a digit, a dot, an underscore or a dash.
abbrev IsSlugChar : ℕ → Type 0
IsSlugChar c = IsAlphanumeric c ⊎ (c ≡ b'.') ⊎ (c ≡ b'_') ⊎ (c ≡ b'-')

-- A slug that may stand in a command: a letter or a digit, and then slug characters.
abbrev pub IsSafeSlug : Text → Type 0
IsSafeSlug [] = ⊥
IsSafeSlug (c ∷ cs) = IsAlphanumeric c × All IsSlugChar cs

-- A repository that gives a command: a krew index, or a chart repository at an https URL.
abbrev pub IsServed : (Text → Option Text) → RepositoryKind → Option Text → Type 0
IsServed protocol helm url =
    (address : Text) × (url ≡ some address) × (protocol address ≡ some (codes "https:"))
IsServed protocol krew url = Unit
IsServed protocol other url = ⊥

-- A package that may stand for a repository: it has its name but for case, safe slugs, and a
-- repository that gives a command.
pub record Fits (lower : Text → Text) (protocol : Text → Option Text) (repo_name : Text)
    (p : ArtifactHubPackage) : Type 0 where
  pub same_name : lower p.name ≡ lower repo_name
  pub chart : Text
  pub chart_same : p.normalized_name ≡ some chart
  pub chart_safe : IsSafeSlug chart
  pub repository : Text
  pub repository_same : p.repository_name ≡ some repository
  pub repository_safe : IsSafeSlug repository
  pub served : IsServed protocol p.kind p.url

abbrev pub star_count : Option ℕ → ℕ
star_count none = 0
star_count (some n) = n

-- A package is not ranked behind another: it is official where the other is not, or both or neither are
-- and it has no fewer stars.
abbrev pub IsAtLeast : ArtifactHubPackage → ArtifactHubPackage → Type 0
IsAtLeast p q =
    ((p.official ≡ some true) × (¬ (q.official ≡ some true)))
    ⊎ ((((p.official ≡ some true) × (q.official ≡ some true))
          ⊎ ((¬ (p.official ≡ some true)) × (¬ (q.official ≡ some true))))
        × (star_count q.stars ≤ star_count p.stars))

-- What is chosen of some packages: one of them, that fits, and no other that fits ranks before it.
pub record IsChosen (lower : Text → Text) (protocol : Text → Option Text) (repo_name : Text)
    (packages : List ArtifactHubPackage) (p : ArtifactHubPackage) : Type 0 where
  pub there : IsOneOf p packages
  pub fits : Fits lower protocol repo_name p
  pub first :
      All (λ (q : ArtifactHubPackage). (¬ Fits lower protocol repo_name q) ⊎ IsAtLeast p q) packages

is_letter_or_digit-IsAlphanumeric : (c : ℕ) → is_letter_or_digit c ≡ true → IsAlphanumeric c
is_letter_or_digit-IsAlphanumeric c h = ground arith

is_slug_char-IsSlugChar : (c : ℕ) → is_slug_char c ≡ true → IsSlugChar c
is_slug_char-IsSlugChar c h = ground arith

all_slug_chars-All : (t : Text) → all_slug_chars t ≡ true → All IsSlugChar t
unfolding all_slug_chars
all_slug_chars-All [] h = tt
all_slug_chars-All (c ∷ cs) h =
    (is_slug_char-IsSlugChar c (ground arith), all_slug_chars-All cs (ground arith))

is_safe_slug-IsSafeSlug : (t : Text) → is_safe_slug t ≡ true → IsSafeSlug t
unfolding is_safe_slug
is_safe_slug-IsSafeSlug [] h = cc
is_safe_slug-IsSafeSlug (c ∷ cs) h =
    (is_letter_or_digit-IsAlphanumeric c (ground arith), all_slug_chars-All cs (ground arith))

has_safe_kind-IsServed :
    (protocol : Text → Option Text) (k : RepositoryKind) (u : Option Text)
    → has_safe_kind protocol k u ≡ true
    → IsServed protocol k u
has_safe_kind-IsServed protocol helm none h = cc
has_safe_kind-IsServed protocol helm (some a) h = elim (Option-cases (protocol a)) [
  | inl broken ↦ absurd (cc (rw broken at h))
  | inr (p, there) ↦ (a, refl, there ∙ ap some ((text_eq_iff p (codes "https:")).0 (rw there at h)))
]
has_safe_kind-IsServed protocol krew u h = tt
has_safe_kind-IsServed protocol other u h = cc

candidate-Fits :
    (lower : Text → Text) (protocol : Text → Option Text) (repo_name : Text)
    (p : ArtifactHubPackage)
    → is_candidate lower protocol repo_name p ≡ true
    → Fits lower protocol repo_name p
unfolding is_candidate
candidate-Fits lower protocol repo_name p h =
    let chart = slug_of p.normalized_name (ground (arith, h)) in
    let repository = slug_of p.repository_name (ground (arith, h)) in
    record {
      same_name = (text_eq_iff (lower p.name) (lower repo_name)).0 (ground (arith, h));
      chart = chart.0;
      chart_same = chart.1;
      chart_safe = is_safe_slug-IsSafeSlug chart.0 chart.2;
      repository = repository.0;
      repository_same = repository.1;
      repository_safe = is_safe_slug-IsSafeSlug repository.0 repository.2;
      served = has_safe_kind-IsServed protocol p.kind p.url (ground (arith, h));
    }

IsAlphanumeric-is_letter_or_digit : (c : ℕ) → IsAlphanumeric c → is_letter_or_digit c ≡ true
IsAlphanumeric-is_letter_or_digit c h = ground arith

IsSlugChar-is_slug_char : (c : ℕ) → IsSlugChar c → is_slug_char c ≡ true
IsSlugChar-is_slug_char c h = ground arith

All-all_slug_chars : (t : Text) → All IsSlugChar t → all_slug_chars t ≡ true
unfolding all_slug_chars
All-all_slug_chars [] h = refl
All-all_slug_chars (c ∷ cs) h = cc (IsSlugChar-is_slug_char c h.0, All-all_slug_chars cs h.1)

IsSafeSlug-is_safe_slug : (t : Text) → IsSafeSlug t → is_safe_slug t ≡ true
unfolding is_safe_slug
IsSafeSlug-is_safe_slug [] h = absurd h
IsSafeSlug-is_safe_slug (c ∷ cs) h =
    cc (IsAlphanumeric-is_letter_or_digit c h.0, All-all_slug_chars cs h.1)

IsServed-has_safe_kind :
    (protocol : Text → Option Text) (k : RepositoryKind) (u : Option Text)
    → IsServed protocol k u
    → has_safe_kind protocol k u ≡ true
unfolding text_eq
IsServed-has_safe_kind protocol helm u h = rw (h.1, h.2) refl
IsServed-has_safe_kind protocol krew u h = refl
IsServed-has_safe_kind protocol other u h = absurd h

Fits-candidate :
    (lower : Text → Text) (protocol : Text → Option Text) (repo_name : Text)
    (p : ArtifactHubPackage)
    → Fits lower protocol repo_name p
    → is_candidate lower protocol repo_name p ≡ true
unfolding is_candidate
Fits-candidate lower protocol repo_name p h =
    rw
      (
        h.chart_same,
        h.repository_same,
        IsSafeSlug-is_safe_slug h.chart h.chart_safe,
        IsSafeSlug-is_safe_slug h.repository h.repository_safe,
        IsServed-has_safe_kind protocol p.kind p.url h.served,
        (text_eq_iff (lower p.name) (lower repo_name)).1 h.same_name,
      )
      refl

abbrev HasOrder : Option Bool → ℕ → Option Bool → ℕ → Type 0
HasOrder a m b n =
    ((a ≡ some true) × (¬ (b ≡ some true)))
    ⊎ ((((a ≡ some true) × (b ≡ some true)) ⊎ ((¬ (a ≡ some true)) × (¬ (b ≡ some true))))
        × (n ≤ m))

ranks-HasOrder :
    (a b : Option Bool) (m n : ℕ)
    → ranks_before (is_official b) n (is_official a) m ≡ false
    → HasOrder a m b n
ranks-HasOrder (some true) (some true) m n h = inr (inl (refl, refl), ground arith)
ranks-HasOrder (some true) (some false) m n h = inl (refl, λ e. cc)
ranks-HasOrder (some true) none m n h = inl (refl, λ e. cc)
ranks-HasOrder (some false) (some true) m n h = cc
ranks-HasOrder none (some true) m n h = cc
ranks-HasOrder (some false) (some false) m n h = inr (inr ((λ e. cc), λ e. cc), ground arith)
ranks-HasOrder (some false) none m n h = inr (inr ((λ e. cc), λ e. cc), ground arith)
ranks-HasOrder none (some false) m n h = inr (inr ((λ e. cc), λ e. cc), ground arith)
ranks-HasOrder none none m n h = inr (inr ((λ e. cc), λ e. cc), ground arith)

star_count-lem : (o : Option ℕ) → stars_of o ≡ star_count o
star_count-lem none = refl
star_count-lem (some n) = refl

before-IsAtLeast : (p q : ArtifactHubPackage) → is_before q p ≡ false → IsAtLeast p q
unfolding is_before
before-IsAtLeast p q h =
    ranks-HasOrder p.official q.official (star_count p.stars) (star_count q.stars)
      (rw (← star_count-lem p.stars, ← star_count-lem q.stars) h)

module _ (lower : Text → Text) (protocol : Text → Option Text) (repo_name : Text) where
  first-Fits :
      (p : ArtifactHubPackage) (qs : List ArtifactHubPackage)
      → All
          (λ (q : ArtifactHubPackage).
            (is_candidate lower protocol repo_name q && is_before q p) ≡ false)
          qs
      → All (λ (q : ArtifactHubPackage). (¬ Fits lower protocol repo_name q) ⊎ IsAtLeast p q) qs
  first-Fits p [] h = tt
  first-Fits p (q ∷ qs) h = (
    elim (Bool-cases (is_candidate lower protocol repo_name q)) [
      | inl fine ↦ inr (before-IsAtLeast p q (ground (arith, h.0, fine)))
      | inr unfit ↦ inl (λ f. cc (Fits-candidate lower protocol repo_name q f, unfit))
    ],
    first-Fits p qs h.1,
  )

  -- The package that is chosen for a repository is one of those that the search gave. It has the name of
  -- the repository but for case, slugs of letters, digits, dots, underscores and dashes that begin with
  -- a letter or a digit, and is of a krew index or of a chart repository at an https URL; and no other
  -- such package is official where it is not, or has more stars where both are or neither is.
  pub best_artifact_hub_match-IsChosen :
      (packages : List ArtifactHubPackage) (p : ArtifactHubPackage)
      → best_artifact_hub_match lower protocol packages repo_name ≡ some p
      → IsChosen lower protocol repo_name packages p
  unfolding best_artifact_hub_match
  best_artifact_hub_match-IsChosen packages p h =
      let best = best_from-none (is_candidate lower protocol repo_name) packages p h in
      record {
        there = best.there;
        fits = candidate-Fits lower protocol repo_name p best.fine;
        first = first-Fits p packages best.first;
      }

  -- The shell reads the first line of the command of a chart that is chosen as five words, `helm repo
  -- add`, the name of its repository and its URL, whatever the URL holds; and no more than the line that
  -- installs the chart follows.
  pub best_artifact_hub_match-IsRead :
      (packages : List ArtifactHubPackage) (p : ArtifactHubPackage)
      → best_artifact_hub_match lower protocol packages repo_name ≡ some p
      → p.kind ≡ helm
      → IsRead p repo_name
  unfolding best_artifact_hub_match
  best_artifact_hub_match-IsRead packages p h chart =
      let best = best_from-none (is_candidate lower protocol repo_name) packages p h in
      candidate-IsRead lower protocol repo_name p chart best.fine
