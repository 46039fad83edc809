-- ===== src/Analyze/Pipeline/Declared.antt =====
-- The values that the rules of packages/analyze/src/rules give are those that they declare.
use keco.Prelude.{
  ℕ, ◌≤◌, ◌≡◌, refl, inl, inr, Bool, true, false, Bool-cases, Option-cases, Option, none, some,
  List, [], ◌∷◌, arith, All, if◌then◌else◌,
}
use mathlib.Core.Path.{subst}
use keco.Prelude.Text.{Text, codes, text_eq, text_eq_iff}
use keco.Prelude.Maps.{get, text_key}
use keco.Core.Taxonomy.{TaxonomyFamily, family}
use keco.Core.Read.{includes}
use keco.Analyze.Rules.{RuleInput, RuleVerdict, KindRule, fired, kind_rules}
use keco.Analyze.Rules.Runtime.{declared_runtimes}
use keco.Analyze.Rules.Derived.{
  DerivedInput, unknown, classify_license_class, classify_openness, classify_maturity, age_band,
  band, classify_governance, CncfLevel, graduated, incubating, sandbox, OrgType, foundation, vendor,
  community, OwnerType, user, organization, level_or, level_of, by_org, org_of,
}
use keco.Analyze.Llm.{is_known, at_least, at_most}
use keco.Analyze.Pipeline.{best_of, fallback_kind, fallback_domain}
use keco.Analyze.Pipeline.Vocabulary.{AreKnown, get-alias-known}

abbrev pub declared_kinds : List Text
declared_kinds =
    codes "kubectl-plugin"
    ∷ codes "operator"
    ∷ codes "helm-chart"
    ∷ codes "controller"
    ∷ codes "admission-webhook"
    ∷ codes "terraform-provider"
    ∷ codes "library-sdk"
    ∷ codes "cli"
    ∷ codes "learning-resource"
    ∷ fallback_kind
    ∷ []

abbrev pub declared_openness : List Text
declared_openness = codes "fully-open" ∷ codes "open-core" ∷ codes "source-available" ∷ unknown ∷ []

abbrev pub declared_maturity : List Text
declared_maturity =
    codes "cncf-graduated"
    ∷ codes "cncf-incubating"
    ∷ codes "cncf-sandbox"
    ∷ codes "established"
    ∷ codes "young"
    ∷ codes "dormant"
    ∷ codes "archived"
    ∷ unknown
    ∷ []

abbrev pub declared_governance : List Text
declared_governance =
    codes "foundation"
    ∷ codes "vendor-backed"
    ∷ codes "community"
    ∷ codes "individual"
    ∷ unknown
    ∷ []

-- The vocabulary has the values that the rules name, and a family of domains that a list of one
-- domain fits.
pub record HasVocabulary (taxonomy : List TaxonomyFamily) : Type 0 where
  pub kinds : AreKnown taxonomy (codes "kind") declared_kinds
  pub runtimes : AreKnown taxonomy (codes "runtime") declared_runtimes
  pub openness : AreKnown taxonomy (codes "openness") declared_openness
  pub maturity : AreKnown taxonomy (codes "maturity") declared_maturity
  pub governance : AreKnown taxonomy (codes "governance") declared_governance
  pub license : is_known taxonomy (codes "license_class") unknown ≡ true
  pub licenses : TaxonomyFamily
  pub licenses_there : family taxonomy (codes "license_class") ≡ some licenses
  pub domains : TaxonomyFamily
  pub domains_there : family taxonomy (codes "domains") ≡ some domains
  pub one_at_least : at_least domains.min_values 1 ≡ true
  pub one_at_most : at_most domains.max_values 1 ≡ true
  pub domain : is_known taxonomy (codes "domains") fallback_domain ≡ true

either : {A : Type 0} (P : A → Type 0) (b : Bool) (x y : A) → P x → P y → P (if b then x else y)
either P true x y p q = p
either P false x y p q = q

pub known_of_included :
    (taxonomy : List TaxonomyFamily) (id : Text) (vs : List Text) (v : Text)
    → AreKnown taxonomy id vs
    → includes vs v ≡ true
    → is_known taxonomy id v ≡ true
unfolding includes
known_of_included taxonomy id [] v h k = cc
known_of_included taxonomy id (w ∷ vs) v h k = elim (Bool-cases (text_eq w v)) [
  | inl same ↦ subst (λ (u : Text). is_known taxonomy id u ≡ true) ((text_eq_iff w v).0 same) h.0
  | inr other ↦ known_of_included taxonomy id vs v h.1 (ground arith)
]

-- The kind of a rule is declared, and its confidence is one.
abbrev pub IsSound : KindRule → Type 0
IsSound r = (includes declared_kinds r.kind ≡ true) × (r.confidence ≤ 100)

pub kind_rules-AreSound : All IsSound kind_rules
unfolding kind_rules includes text_eq
kind_rules-AreSound = ground arith

abbrev pub IsSoundVerdict : Option RuleVerdict → Type 0
IsSoundVerdict none = Unit
IsSoundVerdict (some v) = (includes declared_kinds v.kind ≡ true) × (v.confidence ≤ 100)

pub best-IsSoundVerdict :
    (input : RuleInput) (rs : List KindRule)
    → All IsSound rs
    → IsSoundVerdict (best_of (fired input rs))
unfolding fired
best-IsSoundVerdict input [] h = tt
best-IsSoundVerdict input (r ∷ rs) h = elim (Bool-cases (r.fires input)) [
  | inl fires ↦ rw fires h.0
  | inr silent ↦ rw silent (best-IsSoundVerdict input rs h.1)
]

unfoldable pub IsAmong : List Text → Text → Type 0
IsAmong vs v = includes vs v ≡ true

among : (vs : List Text) (v : Text) → includes vs v ≡ true → IsAmong vs v
unfolding IsAmong
among vs v h = h

pub openness-IsAmong :
    (input : DerivedInput) (license : Text)
    → IsAmong declared_openness (classify_openness input license)
unfolding classify_openness includes text_eq
openness-IsAmong input license =
    either (IsAmong declared_openness) _ _ _ (among _ (codes "source-available") refl) (
      either (IsAmong declared_openness) _ _ _ (among _ unknown refl) (
        either (IsAmong declared_openness) _ _ _ (among _ (codes "open-core") refl)
          (among _ (codes "fully-open") refl)))

age_band-IsAmong :
    (now : ℕ) (pushed created release : Option ℕ)
    → IsAmong declared_maturity (age_band now pushed created release)
unfolding age_band band includes text_eq
age_band-IsAmong now none created release = among _ unknown refl
age_band-IsAmong now (some pushed) none release = among _ unknown refl
age_band-IsAmong now (some pushed) (some created) release =
    either (IsAmong declared_maturity) _ _ _ (among _ unknown refl) (
      either (IsAmong declared_maturity) _ _ _ (among _ (codes "dormant") refl) (
        either (IsAmong declared_maturity) _ _ _ (among _ (codes "young") refl) (
          either (IsAmong declared_maturity) _ _ _ (among _ (codes "established") refl)
            (among _ unknown refl))))

level-IsAmong :
    (level : Option CncfLevel) (age : Text)
    → IsAmong declared_maturity age
    → IsAmong declared_maturity (level_or level age)
unfolding includes text_eq
level-IsAmong none age h = h
level-IsAmong (some graduated) age h = among _ (codes "cncf-graduated") refl
level-IsAmong (some incubating) age h = among _ (codes "cncf-incubating") refl
level-IsAmong (some sandbox) age h = among _ (codes "cncf-sandbox") refl

pub maturity-IsAmong :
    (input : DerivedInput) (now : ℕ) → IsAmong declared_maturity (classify_maturity input now)
unfolding classify_maturity includes text_eq
maturity-IsAmong input now =
    either (IsAmong declared_maturity) input.archived _ _ (among _ (codes "archived") refl) (
      level-IsAmong (level_of input.landscape) _
        (age_band-IsAmong now input.pushed_at input.created_at input.latest_release_at))

org-IsAmong :
    (owner : OwnerType) (org : Option OrgType) → IsAmong declared_governance (by_org owner org)
unfolding includes text_eq
org-IsAmong owner (some foundation) = among _ (codes "foundation") refl
org-IsAmong owner (some vendor) = among _ (codes "vendor-backed") refl
org-IsAmong owner (some community) = among _ (codes "community") refl
org-IsAmong user none = among _ (codes "individual") refl
org-IsAmong organization none = among _ unknown refl

pub governance-IsAmong :
    (lower : Text → Text) (input : DerivedInput)
    → IsAmong declared_governance (classify_governance lower input)
unfolding classify_governance includes text_eq
governance-IsAmong lower input =
    either (IsAmong declared_governance) _ _ _ (among _ (codes "foundation") refl)
      (org-IsAmong input.owner_type (org_of input.landscape))

pub license-known :
    (lower : Text → Text) (taxonomy : List TaxonomyFamily) (spdx : Option Text)
    → HasVocabulary taxonomy
    → (v : Text) × (classify_license_class lower taxonomy spdx ≡ some v)
      × (is_known taxonomy (codes "license_class") v ≡ true)
unfolding classify_license_class
license-known lower taxonomy none h = (unknown, refl, h.license)
license-known lower taxonomy (some spdx) h =
    let aliases =
      get-alias-known lower taxonomy (codes "license_class") h.licenses h.licenses_there in
    elim (Option-cases (get aliases.0 (lower spdx))) [
      | inl absent ↦ (unknown, rw (aliases.1, absent) refl, h.license)
      | inr (v, there) ↦ (v, rw (aliases.1, there) refl, aliases.2 (lower spdx) v there)
    ]
