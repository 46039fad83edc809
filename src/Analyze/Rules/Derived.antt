-- ===== src/Analyze/Rules/Derived.antt =====
-- packages/analyze/src/rules/derived.ts: the four derived families. An instant is a number of
-- milliseconds since 1970, and `none` a text that Date.parse does not read; `lower` stands for
-- toLowerCase.
use keco.Prelude.{
  ℕ, ◌+◌, ◌*◌, Bool, false, ◌||◌, Option, none, some, List, [], ◌∷◌, leb, ltb, if◌then◌else◌, any,
}
use keco.Prelude.Text.{Text, codes, text_eq}
use keco.Prelude.Maps.{get, text_key}
use keco.Core.Taxonomy.{TaxonomyFamily, aliases_for}
use keco.Core.Read.{includes}
use keco.Core.Read.Urls.{◌>>=◌}
use keco.Analyze.Patterns.{begins, contains_any_case}

pub data OwnerType : Type 0 where
  organization user : OwnerType

pub data CncfLevel : Type 0 where
  graduated incubating sandbox : CncfLevel

pub data OrgType : Type 0 where
  foundation vendor community : OrgType

pub record LandscapeEntry : Type 0 where
  pub cncf_level : Option CncfLevel
  pub org_type : Option OrgType

pub record DerivedInput : Type 0 where
  pub owner : Text
  pub owner_type : OwnerType
  pub license_spdx : Option Text
  pub readme : Text
  pub tree : List Text
  pub archived : Bool
  pub created_at : Option ℕ
  pub pushed_at : Option ℕ
  -- `null` and a text that is no date are both `none`.
  pub latest_release_at : Option ℕ
  pub landscape : Option LandscapeEntry

pub record DerivedVerdict : Type 0 where
  pub license_class : Text
  pub openness : Text
  pub maturity : Text
  pub governance : Text

abbrev pub unknown : Text
unknown = codes "unknown"

-- `?? 'unknown'`
abbrev or_unknown : Option Text → Text
or_unknown none = unknown
or_unknown (some t) = t

-- `none` is the throw for a vocabulary without the family.
unfoldable pub classify_license_class :
    (Text → Text) → List TaxonomyFamily → Option Text → Option Text
classify_license_class lower taxonomy none = some unknown
classify_license_class lower taxonomy (some spdx) = do
  aliases ← aliases_for lower taxonomy (codes "license_class")
  some (or_unknown (get aliases (lower spdx)))

unfoldable pub is_enterprise_path : Text → Bool
is_enterprise_path path = begins (codes "ee/") path || begins (codes "enterprise/") path

unfoldable pub is_enterprise_readme : Text → Bool
is_enterprise_readme readme =
    contains_any_case (codes "enterprise edition") readme
    || contains_any_case (codes "enterprise version") readme
    || contains_any_case (codes "commercial license") readme
    || contains_any_case (codes "commercial edition") readme
    || contains_any_case (codes "business edition") readme

unfoldable pub classify_openness : DerivedInput → Text → Text
unfolding is_enterprise_path is_enterprise_readme
classify_openness input license_class =
    if text_eq license_class (codes "source-available")
    then codes "source-available"
    else if text_eq license_class unknown
    then unknown
    else if any is_enterprise_path input.tree || is_enterprise_readme input.readme
    then codes "open-core"
    else codes "fully-open"

abbrev pub day_ms : ℕ
day_ms = 86400000

abbrev pub level_of : Option LandscapeEntry → Option CncfLevel
level_of none = none
level_of (some entry) = entry.cncf_level

abbrev pub level_text : CncfLevel → Text
level_text graduated = codes "cncf-graduated"
level_text incubating = codes "cncf-incubating"
level_text sandbox = codes "cncf-sandbox"

abbrev pub released_recently : ℕ → Option ℕ → Bool
released_recently now none = false
released_recently now (some at) = leb now (at + 365 * day_ms)

-- The bands. An age of more than n days is `at + n days < now`.
unfoldable pub band : ℕ → ℕ → ℕ → Option ℕ → Text
band now pushed created release =
    if ltb now created
    then unknown
    else if ltb (pushed + 365 * day_ms) now
    then codes "dormant"
    else if ltb now (created + 365 * day_ms)
    then codes "young"
    else if released_recently now release || leb now (pushed + 183 * day_ms)
    then codes "established"
    else unknown

unfoldable pub age_band : ℕ → Option ℕ → Option ℕ → Option ℕ → Text
unfolding band
age_band now none created release = unknown
age_band now (some pushed) none release = unknown
age_band now (some pushed) (some created) release = band now pushed created release

abbrev pub level_or : Option CncfLevel → Text → Text
level_or none age = age
level_or (some level) age = level_text level

unfoldable pub classify_maturity : DerivedInput → ℕ → Text
unfolding age_band
classify_maturity input now =
    if input.archived
    then codes "archived"
    else level_or (level_of input.landscape)
        (age_band now input.pushed_at input.created_at input.latest_release_at)

unfoldable pub foundation_owners : List Text
foundation_owners =
    codes "kubernetes" ∷ codes "kubernetes-sigs" ∷ codes "kubernetes-client" ∷ codes "cncf" ∷ []

abbrev pub org_of : Option LandscapeEntry → Option OrgType
org_of none = none
org_of (some entry) = entry.org_type

abbrev pub by_owner_type : OwnerType → Text
by_owner_type user = codes "individual"
by_owner_type organization = unknown

abbrev pub by_org : OwnerType → Option OrgType → Text
by_org owner (some foundation) = codes "foundation"
by_org owner (some vendor) = codes "vendor-backed"
by_org owner (some community) = codes "community"
by_org owner none = by_owner_type owner

unfoldable pub classify_governance : (Text → Text) → DerivedInput → Text
unfolding foundation_owners
classify_governance lower input =
    if includes foundation_owners (lower input.owner)
    then codes "foundation"
    else by_org input.owner_type (org_of input.landscape)

unfoldable pub classify_derived :
    (Text → Text) → List TaxonomyFamily → DerivedInput → ℕ → Option DerivedVerdict
unfolding classify_license_class classify_openness classify_maturity classify_governance
classify_derived lower taxonomy input now = do
  license_class ← classify_license_class lower taxonomy input.license_spdx
  some (record {
    license_class = license_class;
    openness = classify_openness input license_class;
    maturity = classify_maturity input now;
    governance = classify_governance lower input;
  })
