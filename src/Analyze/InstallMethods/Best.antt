-- ===== src/Analyze/InstallMethods/Best.antt =====
-- The package that bestArtifactHubMatch of packages/analyze/src/signals.ts chooses, and its command.
use keco.Prelude.{
  ◌≡◌, refl, Bool, true, false, ◌&&◌, Bool-cases, inl, inr, Option, none, some, List, [], ◌∷◌,
  if◌then◌else◌, ◌++◌, arith, All, sym, ◌⊎◌,
}
use mathlib.Core.Path.{subst}
use mathlib.Core.Option.{some-injective}
use keco.Prelude.Text.{Text, codes}
use keco.Analyze.InstallMethods.{
  ArtifactHubPackage, RepositoryKind, helm, is_safe_slug, is_candidate, is_before, is_official,
  best_from, command_of, is_slug, has_safe_kind, krew, other,
}
use keco.Analyze.InstallMethods.Shell.{line, helm_command-line}

unfoldable pub IsOneOf : ArtifactHubPackage → List ArtifactHubPackage → Type 0
IsOneOf p [] = ⊥
IsOneOf p (q ∷ ps) = (p ≡ q) ⊎ IsOneOf p ps

is_before_trans :
    (a b c : ArtifactHubPackage)
    → is_before a b ≡ false
    → is_before b c ≡ false
    → is_before a c ≡ false
unfolding is_before
is_before_trans a b c h k = elim (Bool-cases (is_official a.official)) [
  | inl x ↦ elim (Bool-cases (is_official b.official)) [
    | inl y ↦ elim (Bool-cases (is_official c.official)) [
      | inl z ↦ ground arith
      | inr z ↦ ground arith
    ]
    | inr y ↦ ground arith
  ]
  | inr x ↦ elim (Bool-cases (is_official b.official)) [
    | inl y ↦ ground arith
    | inr y ↦ ground arith
  ]
]

is_before_irrefl : (a : ArtifactHubPackage) → is_before a a ≡ false
unfolding is_before
is_before_irrefl a = elim (Bool-cases (is_official a.official)) [
  | inl x ↦ ground arith
  | inr x ↦ ground arith
]

before-asym : (a b : ArtifactHubPackage) → is_before a b ≡ true → is_before b a ≡ false
unfolding is_before
before-asym a b h = elim (Bool-cases (is_official a.official)) [
  | inl x ↦ elim (Bool-cases (is_official b.official)) [
    | inl y ↦ ground arith
    | inr y ↦ ground arith
  ]
  | inr x ↦ elim (Bool-cases (is_official b.official)) [
    | inl y ↦ ground arith
    | inr y ↦ ground arith
  ]
]

not_first :
    (fine : Bool) (q b p : ArtifactHubPackage)
    → (fine && is_before q b) ≡ false
    → is_before b p ≡ false
    → (fine && is_before q p) ≡ false
not_first true q b p h k = is_before_trans q b p h k
not_first false q b p h k = refl

module _ (is_fine : ArtifactHubPackage → Bool) where
  -- A fine package of a list, that no fine one of it ranks before.
  pub record IsBest (ps : List ArtifactHubPackage) (p : ArtifactHubPackage) : Type 0 where
    pub fine : is_fine p ≡ true
    pub there : IsOneOf p ps
    pub first : All (λ (q : ArtifactHubPackage). (is_fine q && is_before q p) ≡ false) ps

  best_from-some :
      (ps : List ArtifactHubPackage) (b p : ArtifactHubPackage)
      → is_fine b ≡ true
      → best_from is_fine (some b) ps ≡ some p
      → (is_fine p ≡ true)
        × ((p ≡ b) ⊎ IsOneOf p ps)
        × (is_before b p ≡ false)
        × All (λ (q : ArtifactHubPackage). (is_fine q && is_before q p) ≡ false) ps
  unfolding best_from IsOneOf
  best_from-some [] b p fine h =
      let same : b ≡ p = some-injective b p h in
      (
        subst (λ (x : ArtifactHubPackage). is_fine x ≡ true) same fine,
        inl (sym same),
        subst (λ (x : ArtifactHubPackage). is_before b x ≡ false) same (is_before_irrefl b),
        tt,
      )
  best_from-some (q ∷ ps) b p fine h = elim (Bool-cases (is_fine q && is_before q b)) [
    | inl better ↦
        let more = best_from-some ps q p (ground (arith, better)) (
          subst (λ (t : Bool). best_from is_fine (if t then some q else some b) ps ≡ some p) better
            h) in
        (
          more.0,
          inr (elim more.1 [ inl e ↦ inl e | inr t ↦ inr t ]),
          is_before_trans b q p (before-asym q b (ground (arith, better))) more.2,
          (ground (arith, more.2), more.3),
        )
    | inr worse ↦
        let more = best_from-some ps b p fine (
          subst (λ (t : Bool). best_from is_fine (if t then some q else some b) ps ≡ some p) worse
            h) in
        (
          more.0,
          elim more.1 [ inl e ↦ inl e | inr t ↦ inr (inr t) ],
          more.2,
          (not_first (is_fine q) q b p worse more.2, more.3),
        )
  ]

  pub best_from-none :
      (ps : List ArtifactHubPackage) (p : ArtifactHubPackage)
      → best_from is_fine none ps ≡ some p
      → IsBest ps p
  unfolding best_from IsOneOf
  best_from-none [] p h = cc
  best_from-none (q ∷ ps) p h = elim (Bool-cases (is_fine q)) [
    | inl fine ↦
        let more = best_from-some ps q p fine (
          subst (λ (t : Bool). best_from is_fine (if t then some q else none) ps ≡ some p) fine
            h) in
        record {
          fine = more.0;
          there = elim more.1 [ inl e ↦ inl e | inr t ↦ inr t ];
          first = (ground (arith, more.2), more.3);
        }
    | inr unfit ↦
        let more = best_from-none ps p (
          subst (λ (t : Bool). best_from is_fine (if t then some q else none) ps ≡ some p) unfit
            h) in
        record {
          fine = more.fine;
          there = inr more.there;
          first = (ground (arith, unfit), more.first);
        }
  ]

-- The command of a chart is read by the shell as the words of its parts: `helm repo add` with the
-- repository's name and its URL, whatever the URL holds, and then the line that installs it.
pub record IsRead (p : ArtifactHubPackage) (repo_name : Text) : Type 0 where
  pub repository : Text
  pub address : Text
  pub chart : Text
  pub repository_same : p.repository_name ≡ some repository
  pub address_same : p.url ≡ some address
  pub chart_same : p.normalized_name ≡ some chart
  pub words :
      line 5 (command_of p.kind p repo_name)
      ≡ some (
        codes "helm" ∷ codes "repo" ∷ codes "add" ∷ repository ∷ address ∷ [],
        codes "helm install " ++ (repo_name ++ (b' ' ∷ (repository ++ (b'/' ∷ chart)))),
      )

pub slug_of :
    (o : Option Text) → is_slug o ≡ true → (n : Text) × (o ≡ some n) × (is_safe_slug n ≡ true)
slug_of none h = cc
slug_of (some n) h = (n, refl, h)

url_of :
    (protocol : Text → Option Text) (k : RepositoryKind) (u : Option Text)
    → k ≡ helm
    → has_safe_kind protocol k u ≡ true
    → (a : Text) × (u ≡ some a)
url_of protocol helm none e h = cc
url_of protocol helm (some a) e h = (a, refl)
url_of protocol krew u e h = cc
url_of protocol other u e h = cc

parts-IsRead :
    (repo_name : Text) (p : ArtifactHubPackage) (name address chart_name : Text)
    → p.kind ≡ helm
    → p.repository_name ≡ some name
    → p.url ≡ some address
    → p.normalized_name ≡ some chart_name
    → is_safe_slug name ≡ true
    → IsRead p repo_name
unfolding command_of
parts-IsRead repo_name p name address chart_name chart named there called safe = record {
  repository = name;
  address = address;
  chart = chart_name;
  repository_same = named;
  address_same = there;
  chart_same = called;
  words =
      rw (chart, named, there, called) (helm_command-line name address repo_name chart_name safe);
}

pub candidate-IsRead :
    (lower : Text → Text) (protocol : Text → Option Text) (repo_name : Text)
    (p : ArtifactHubPackage)
    → p.kind ≡ helm
    → is_candidate lower protocol repo_name p ≡ true
    → IsRead p repo_name
unfolding is_candidate
candidate-IsRead lower protocol repo_name p chart fine =
    let name = slug_of p.repository_name (ground (arith, fine)) in
    let address = url_of protocol p.kind p.url chart (ground (arith, fine)) in
    let chart_name = slug_of p.normalized_name (ground (arith, fine)) in
    parts-IsRead repo_name p name.0 address.0 chart_name.0 chart name.1 address.1 chart_name.1
      name.2
