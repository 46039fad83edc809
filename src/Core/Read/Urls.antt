-- ===== src/Core/Read/Urls.antt =====
-- packages/core/src/read.ts: the mapping between a selection of facets and the parameters of a URL,
-- and the toggle of one value. The vocabulary is the parameter `taxonomy`.
use keco.Prelude.{
  ℕ, Bool, ◌&&◌, ◌||◌, Option, none, some, List, [], ◌∷◌, ◌++◌, map, leb, ◌==◌, if◌then◌else◌,
}
use keco.Prelude.Text.{Text, codes, text_eq}
use keco.Prelude.Maps.{Map, get, put, erase, text_key}
use keco.Core.Taxonomy.{TaxonomyFamily, is_value}
use keco.Core.Read.{FacetSelection, selected, is_empty, includes}

-- `URLSearchParams`: the pairs in the order of the query string.
abbrev pub UrlParams : Type 0
UrlParams = List (Text × Text)

unfoldable pub get_all : UrlParams → Text → List Text
get_all [] key = []
get_all ((k, v) ∷ u) key = let rest = get_all u key in if text_eq k key then v ∷ rest else rest

unfoldable pub delete : UrlParams → Text → UrlParams
delete [] key = []
delete ((k, v) ∷ u) key = let rest = delete u key in if text_eq k key then rest else (k, v) ∷ rest

-- The values of a plain object; a missing key is `undefined`.
pub data RawValue : Type 0 where
  one : Text → RawValue
  many : List Text → RawValue

pub data Params : Type 0 where
  raw : Map Text RawValue → Params
  url : UrlParams → Params

unfoldable pub read : Params → Text → Option RawValue
unfolding get_all
read (raw m) key = get m key
read (url u) key = some (many (get_all u key))

abbrev pub comma : ℕ
comma = b','

abbrev prepend : ℕ → List Text → List Text
prepend c [] = (c ∷ []) ∷ []
prepend c (t ∷ ts) = (c ∷ t) ∷ ts

-- `.split(',')`
unfoldable pub split_commas : Text → List Text
split_commas [] = [] ∷ []
split_commas (c ∷ cs) =
    let rest = split_commas cs in if c == comma then [] ∷ rest else prepend c rest

unfoldable pub as_list : Option RawValue → List Text
unfolding split_commas
as_list none = []
as_list (some (many vs)) = vs
as_list (some (one v)) = split_commas v

-- The white space and the line ends that `trim` removes.
abbrev pub is_space : ℕ → Bool
is_space c =
    (leb 9 c && leb c 13)
    || c == 32
    || c == 160
    || c == 5760
    || (leb 8192 c && leb c 8202)
    || c == 8232
    || c == 8233
    || c == 8239
    || c == 8287
    || c == 12288
    || c == 65279

unfoldable pub trim_start : Text → Text
trim_start [] = []
trim_start (c ∷ cs) = let rest = trim_start cs in if is_space c then rest else c ∷ cs

unfoldable pub trim_end : Text → Text
trim_end [] = []
trim_end (c ∷ cs) = let rest = trim_end cs in if is_space c && is_empty rest then [] else c ∷ rest

unfoldable pub trim : Text → Text
unfolding trim_start trim_end
trim t = trim_end (trim_start t)

unfoldable pub split_all : List Text → List Text
unfolding split_commas
split_all [] = []
split_all (v ∷ vs) = split_commas v ++ split_all vs

infixl 5 ◌>>=◌
abbrev pub ◌>>=◌ {ℓ κ} : {A : Type ℓ} {B : Type κ} → Option A → (A → Option B) → Option B
none >>= f = none
some a >>= f = f a

-- `.filter((value) => value !== '' && isValue(id, value))`, which throws where `isValue` does.
unfoldable pub kept : List TaxonomyFamily → Text → List Text → Option (List Text)
kept taxonomy id [] = some []
kept taxonomy id (v ∷ vs) =
    let rest = kept taxonomy id vs in
    if is_empty v
    then rest
    else do known ← is_value taxonomy id v; ws ← rest; some (if known then v ∷ ws else ws)

unfoldable pub values_read : List TaxonomyFamily → Params → TaxonomyFamily → Option (List Text)
unfolding kept split_all as_list read trim
values_read taxonomy params f =
    kept taxonomy f.id (map trim (split_all (as_list (read params f.param))))

-- One round of the loop for each family.
unfoldable pub selection_from :
    List TaxonomyFamily → Params → FacetSelection → List TaxonomyFamily → Option FacetSelection
unfolding values_read
selection_from taxonomy params selection [] = some selection
selection_from taxonomy params selection (f ∷ fs) = do
  values ← values_read taxonomy params f
  selection_from taxonomy params (if is_empty values then selection else put selection f.id values)
      fs

unfoldable pub selection_from_params : List TaxonomyFamily → Params → Option FacetSelection
unfolding selection_from
selection_from_params taxonomy params = selection_from taxonomy params [] taxonomy

abbrev pub base_or : Option UrlParams → UrlParams
base_or none = []
base_or (some base) = base

unfoldable pub cleared : List TaxonomyFamily → UrlParams → UrlParams
unfolding delete
cleared [] u = u
cleared (f ∷ fs) u = cleared fs (delete u f.param)

-- `next.append(param, value)` for each value
unfoldable pub append_values : UrlParams → Text → List Text → UrlParams
append_values u key [] = u
append_values u key (v ∷ vs) = append_values (u ++ (key, v) ∷ []) key vs

unfoldable pub written : List TaxonomyFamily → FacetSelection → UrlParams → UrlParams
unfolding append_values selected
written [] selection u = u
written (f ∷ fs) selection u =
    written fs selection (append_values u f.param (selected selection f.id))

abbrev pub page_param : Text
page_param = codes "page"

unfoldable pub params_from_selection :
    List TaxonomyFamily → FacetSelection → Option UrlParams → UrlParams
unfolding cleared written delete
params_from_selection taxonomy selection base =
    written taxonomy selection (delete (cleared taxonomy (base_or base)) page_param)

-- `.filter((entry) => entry !== value)`
unfoldable pub others : List Text → Text → List Text
others [] v = []
others (w ∷ ws) v = let rest = others ws v in if text_eq w v then rest else w ∷ rest

unfoldable pub toggled : List Text → Text → List Text
unfolding includes others
toggled current v = if includes current v then others current v else current ++ v ∷ []

unfoldable pub toggle_facet_value : FacetSelection → Text → Text → FacetSelection
unfolding toggled selected
toggle_facet_value selection family_id v =
    let next = toggled (selected selection family_id) v in
    if is_empty next then erase selection family_id else put selection family_id next
