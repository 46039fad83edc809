-- ===== src/Core/Taxonomy.antt =====
-- packages/core/src/taxonomy.ts: lookups in the closed vocabulary. The families that parseTaxonomy
-- reads from taxonomy.yaml are a parameter of every lookup; labels and descriptions are kept for
-- the views that show them.
use keco.Prelude.{
  ℕ, ◌≡◌, refl, Bool, false, inl, inr, Option-cases, Option, none, some, List, [], ◌∷◌, arith,
  if◌then◌else◌, any, All,
}
use keco.Prelude.Text.{Text, text_eq, text_eq_iff}
use keco.Prelude.Maps.{Map, get, put, get-put, text_key}

pub record TaxonomyValue : Type 0 where
  pub id : Text
  pub label : Text
  pub description : Text
  pub aliases : List Text
  pub hidden : Bool

-- `one` and `many`
pub data Cardinality : Type 0 where
  single multiple : Cardinality

pub data Source : Type 0 where
  analyzer derived registry : Source

pub record TaxonomyFamily : Type 0 where
  pub id : Text
  pub label : Text
  pub param : Text
  pub description : Text
  pub cardinality : Cardinality
  pub min_values : Option ℕ
  pub max_values : Option ℕ
  pub source : Source
  pub facet : Bool
  pub values : List TaxonomyValue

-- `new Map(TAXONOMY.map((f) => [f.id, f]))`: a later entry of a key replaces the value.
unfoldable pub by_id_from : Map Text TaxonomyFamily → List TaxonomyFamily → Map Text TaxonomyFamily
by_id_from m [] = m
by_id_from m (f ∷ fs) = by_id_from (put m f.id f) fs

unfoldable pub by_param_from :
    Map Text TaxonomyFamily → List TaxonomyFamily → Map Text TaxonomyFamily
by_param_from m [] = m
by_param_from m (f ∷ fs) = by_param_from (put m f.param f) fs

-- `none` is the throw for an unknown id.
unfoldable pub family : List TaxonomyFamily → Text → Option TaxonomyFamily
unfolding by_id_from
family taxonomy id = get (by_id_from [] taxonomy) id

unfoldable pub family_by_param : List TaxonomyFamily → Text → Option TaxonomyFamily
unfolding by_param_from
family_by_param taxonomy param = get (by_param_from [] taxonomy) param

abbrev pub param_of : Option TaxonomyFamily → Option Text
param_of none = none
param_of (some f) = some f.param

-- `paramFor`, and `paramForFamily` of read.ts
unfoldable pub param_for : List TaxonomyFamily → Text → Option Text
unfolding family
param_for taxonomy family_id = param_of (family taxonomy family_id)

unfoldable pub visible : List TaxonomyValue → List TaxonomyValue
visible [] = []
visible (v ∷ vs) = let rest = visible vs in if v.hidden then rest else v ∷ rest

abbrev visible_of : Option TaxonomyFamily → Option (List TaxonomyValue)
visible_of none = none
visible_of (some f) = some (visible f.values)

-- `values`, for the views
unfoldable pub values_for : List TaxonomyFamily → Text → Option (List TaxonomyValue)
unfolding family visible
values_for taxonomy family_id = visible_of (family taxonomy family_id)

unfoldable pub has_value : TaxonomyFamily → Text → Bool
has_value f id = any (λ v. text_eq v.id id) f.values

abbrev is_value_of : Option TaxonomyFamily → Text → Option Bool
is_value_of none id = none
is_value_of (some f) id = some (has_value f id)

unfoldable pub is_value : List TaxonomyFamily → Text → Text → Option Bool
unfolding family has_value
is_value taxonomy family_id id = is_value_of (family taxonomy family_id) id

unfoldable pub add_aliases : (Text → Text) → Map Text Text → List Text → Text → Map Text Text
add_aliases lower m [] id = m
add_aliases lower m (alias ∷ rest) id = add_aliases lower (put m (lower alias) id) rest id

unfoldable pub aliases_from : (Text → Text) → Map Text Text → List TaxonomyValue → Map Text Text
unfolding add_aliases
aliases_from lower m [] = m
aliases_from lower m (v ∷ vs) = aliases_from lower (add_aliases lower m v.aliases v.id) vs

abbrev aliases_of : (Text → Text) → Option TaxonomyFamily → Option (Map Text Text)
aliases_of lower none = none
aliases_of lower (some f) = some (aliases_from lower [] f.values)

-- `lower` stands for `toLowerCase`.
unfoldable pub aliases_for : (Text → Text) → List TaxonomyFamily → Text → Option (Map Text Text)
unfolding family aliases_from
aliases_for lower taxonomy family_id = aliases_of lower (family taxonomy family_id)

unfoldable pub facetable_families : List TaxonomyFamily → List Text
facetable_families [] = []
facetable_families (f ∷ fs) =
    let rest = facetable_families fs in if f.facet then f.id ∷ rest else rest

-- What parseTaxonomy checks: no two families share an id or a parameter.
module _ (key : TaxonomyFamily → Text) where
  unfoldable pub has_by : List TaxonomyFamily → Text → Bool
  has_by fs k = any (λ f. text_eq (key f) k) fs

  -- The first family with a key.
  unfoldable pub find_by : List TaxonomyFamily → Text → Option TaxonomyFamily
  find_by [] k = none
  find_by (f ∷ fs) k = if text_eq (key f) k then some f else find_by fs k

  abbrev pub IsDistinctBy : List TaxonomyFamily → Type 0
  IsDistinctBy [] = Unit
  IsDistinctBy (f ∷ fs) = (has_by fs (key f) ≡ false) × IsDistinctBy fs

  pub find_by-absent :
      (fs : List TaxonomyFamily) (k : Text) → has_by fs k ≡ false → find_by fs k ≡ none
  unfolding find_by has_by
  find_by-absent [] k h = refl
  find_by-absent (f ∷ fs) k h = ground (arith, find_by-absent fs k)

  -- Every family of `gs` is what a lookup of its key in `fs` finds.
  abbrev pub AreFound : List TaxonomyFamily → List TaxonomyFamily → Type 0
  AreFound fs = All (λ g. find_by fs (key g) ≡ some g)

  AreFound-cons :
      (f : TaxonomyFamily) (fs gs : List TaxonomyFamily)
      → has_by gs (key f) ≡ false
      → AreFound fs gs
      → AreFound (f ∷ fs) gs
  unfolding find_by has_by
  AreFound-cons f fs [] h k = tt
  AreFound-cons f fs (g ∷ gs) h k = (
    ground (arith, k.0, text_eq_iff (key f) (key g), text_eq_iff (key g) (key f)),
    AreFound-cons f fs gs (ground arith) k.1,
  )

  pub AreFound-all : (fs : List TaxonomyFamily) → IsDistinctBy fs → AreFound fs fs
  unfolding find_by
  AreFound-all [] h = tt
  AreFound-all (f ∷ fs) h =
      (ground (arith, text_eq_iff (key f) (key f)), AreFound-cons f fs fs h.0 (AreFound-all fs h.1))

abbrev pub id_of : TaxonomyFamily → Text
id_of f = f.id

abbrev pub url_param : TaxonomyFamily → Text
url_param f = f.param

abbrev pub IsDistinct : List TaxonomyFamily → Type 0
IsDistinct fs = IsDistinctBy id_of fs × IsDistinctBy url_param fs

abbrev or_else : Option TaxonomyFamily → Option TaxonomyFamily → Option TaxonomyFamily
or_else none o = o
or_else (some f) o = some f

get-by_id_from :
    (m : Map Text TaxonomyFamily) (fs : List TaxonomyFamily) (id : Text)
    → IsDistinctBy id_of fs
    → get (by_id_from m fs) id ≡ or_else (find_by id_of fs id) (get m id)
unfolding by_id_from find_by
get-by_id_from m [] id h = refl
get-by_id_from m (f ∷ fs) id h = ground (
  arith,
  get-by_id_from (put m f.id f) fs id h.1,
  get-put m f.id id f,
  find_by-absent id_of fs f.id h.0,
  text_eq_iff f.id id,
)

-- In a vocabulary without repeated ids, a lookup finds the first family with the id.
pub family-eq-find_by :
    (fs : List TaxonomyFamily) (id : Text)
    → IsDistinctBy id_of fs
    → family fs id ≡ find_by id_of fs id
unfolding family get
family-eq-find_by fs id h = elim (Option-cases (find_by id_of fs id)) [
  | inl e ↦ ground (arith, get-by_id_from [] fs id h)
  | inr e ↦ ground (arith, get-by_id_from [] fs id h)
]
