-- ===== src/Core/Read.antt =====
-- packages/core/src/read.ts: the attributes, filters, facets and sorts that a search asks for. The
-- vocabulary is the parameter `taxonomy`; Urls has the parameters of a URL.
pub mod Urls
pub mod Roundtrip
pub mod Vocabulary
pub mod Toggle
use keco.Prelude.{
  ℕ, ◌≡◌, refl, Bool, true, false, not, ◌&&◌, ◌||◌, Option, none, some, List, [], ◌∷◌, ◌++◌, map,
  leb, ◌==◌, if◌then◌else◌, any,
}
use keco.Prelude.Text.{Text, codes, text_eq}
use keco.Prelude.Maps.{Map, get, put, erase, text_key}
use keco.Core.Taxonomy.{TaxonomyFamily, is_value, facetable_families}

abbrev pub tools_index : Text
tools_index = codes "tools"

abbrev pub max_total_hits : ℕ
max_total_hits = 10000

unfoldable pub family_attribute : Text → Text
family_attribute family_id =
    if text_eq family_id (codes "install_methods")
    then codes "install_methods.method"
    else family_id

abbrev pub non_taxonomy_filterable : List Text
non_taxonomy_filterable =
    codes "language"
    ∷ codes "license"
    ∷ codes "archived"
    ∷ codes "stars"
    ∷ codes "has_release"
    ∷ codes "k8s_relevance"
    ∷ codes "has_scorecard"
    ∷ codes "owner"
    ∷ []

unfoldable pub tools_filterable_attributes : List TaxonomyFamily → List Text
unfolding family_attribute
tools_filterable_attributes taxonomy =
    map (λ f. family_attribute f.id) taxonomy ++ non_taxonomy_filterable

abbrev pub tools_sortable_attributes : List Text
tools_sortable_attributes =
    codes "stars" ∷ codes "score.total" ∷ codes "score.momentum" ∷ codes "pushed_at" ∷ []

-- A family's id to the ids of the values that are selected.
abbrev pub FacetSelection : Type 0
FacetSelection = Map Text (List Text)

abbrev pub listed : Option (List Text) → List Text
listed none = []
listed (some vs) = vs

-- `selection[id] ?? []`
unfoldable pub selected : FacetSelection → Text → List Text
selected selection id = listed (get selection id)

abbrev pub is_empty {ℓ} : {A : Type ℓ} → List A → Bool
is_empty [] = true
is_empty (_ ∷ _) = false

-- `min_relevance` is the number as JavaScript writes it.
pub record FilterParams : Type 0 where
  pub filters : Option FacetSelection
  pub language : Option (List Text)
  pub license : Option (List Text)
  pub include_archived : Bool
  pub min_relevance : Option Text

-- `values.map((value) => `"${value}"`).join(', ')`
unfoldable pub quoted : List Text → Text
quoted [] = []
quoted (v ∷ []) = b'"' ∷ v ++ codes "\""
quoted (v ∷ w ∷ vs) = b'"' ∷ v ++ (codes "\", " ++ quoted (w ∷ vs))

unfoldable pub in_clause : Text → List Text → Text
unfolding quoted
in_clause attribute values = attribute ++ (codes " IN [" ++ (quoted values ++ codes "]"))

-- What one list of values adds to the filters.
unfoldable pub clause_of : Text → List Text → List Text
unfolding in_clause
clause_of attribute values = if is_empty values then [] else in_clause attribute values ∷ []

abbrev pub given : Option FacetSelection → FacetSelection
given none = []
given (some selection) = selection

unfoldable pub family_clauses : List TaxonomyFamily → FacetSelection → List Text
unfolding clause_of family_attribute selected
family_clauses [] selection = []
family_clauses (f ∷ fs) selection =
    clause_of (family_attribute f.id) (selected selection f.id) ++ family_clauses fs selection

abbrev pub relevance_or : Option Text → Text
relevance_or none = codes "0.4"
relevance_or (some n) = n

unfoldable pub build_filters : List TaxonomyFamily → FilterParams → List Text
unfolding family_clauses clause_of
build_filters taxonomy params =
    family_clauses taxonomy (given params.filters)
    ++ (clause_of (codes "language") (listed params.language)
        ++ (clause_of (codes "license") (listed params.license)
            ++ ((if params.include_archived then [] else codes "archived = false" ∷ [])
                ++ (codes "k8s_relevance >= " ++ relevance_or params.min_relevance) ∷ [])))

unfoldable pub default_facets : List TaxonomyFamily → List Text
unfolding family_attribute
default_facets taxonomy = map family_attribute (facetable_families taxonomy)

unfoldable pub includes : List Text → Text → Bool
includes vs v = any (λ w. text_eq w v) vs

pub data SortKey : Type 0 where
  relevance stars score momentum recent : SortKey

unfoldable pub sort_spec : Option SortKey → List Text
sort_spec none = []
sort_spec (some relevance) = []
sort_spec (some stars) = codes "stars:desc" ∷ []
sort_spec (some score) = codes "score.total:desc" ∷ []
sort_spec (some momentum) = codes "score.momentum:desc" ∷ []
sort_spec (some recent) = codes "pushed_at:desc" ∷ []

unfoldable pub is_sort_key : Text → Bool
unfolding includes
is_sort_key value =
    includes
      (codes "relevance" ∷ codes "stars" ∷ codes "score" ∷ codes "momentum" ∷ codes "recent" ∷ [])
      value
