-- ===== src/Core/Read/Roundtrip.antt =====
-- paramsFromSelection of packages/core/src/read.ts: what it writes is read back, and what else
-- stands in the URL stays.
use keco.Prelude.{
  ◌≡◌, refl, sym, ◌∙◌, inl, inr, true, false, ◌||◌, Bool-cases, Option, none, some, List, [], ◌∷◌,
  ◌++◌, map, append-nil, append_assoc, arith, ◌==◌, if◌then◌else◌, All, any,
}
use mathlib.Core.Path.{subst}
use keco.Prelude.Text.{Text, text_eq, text_eq_iff}
use keco.Prelude.Maps.{get, text_key}
use keco.Core.Taxonomy.{
  TaxonomyFamily, TaxonomyValue, has_value, has_by, find_by, find_by-absent, id_of, url_param,
  IsDistinct, IsDistinctBy, AreFound, AreFound-all,
}
use keco.Core.Read.{FacetSelection, selected, is_empty}
use keco.Core.Read.Urls.{
  UrlParams, url, read, as_list, get_all, delete, split_commas, split_all, comma, is_space, trim,
  trim_start, trim_end, cleared, append_values, written, page_param, base_or, params_from_selection,
  selection_from_params,
}
use keco.Core.Read.Vocabulary.{
  wanted, wanted_of, texts_read, nonempty, selection_from_params-wanted,
}

get_all-delete :
    (u : UrlParams) (k j : Text)
    → get_all (delete u k) j ≡ (if text_eq k j then [] else get_all u j)
unfolding get_all delete
get_all-delete [] k j = ground arith
get_all-delete ((i, v) ∷ u) k j =
    ground (arith, get_all-delete u k j, text_eq_iff i k, text_eq_iff i j, text_eq_iff k j)

get_all-cleared :
    (fs : List TaxonomyFamily) (u : UrlParams) (j : Text)
    → get_all (cleared fs u) j ≡ (if has_by url_param fs j then [] else get_all u j)
unfolding cleared has_by
get_all-cleared [] u j = refl
get_all-cleared (f ∷ fs) u j =
    ground (arith, get_all-cleared fs (delete u f.param) j, get_all-delete u f.param j)

get_all-snoc :
    (u : UrlParams) (k v j : Text)
    → get_all (u ++ (k, v) ∷ []) j ≡ get_all u j ++ (if text_eq k j then v ∷ [] else [])
unfolding get_all
get_all-snoc [] k v j = ground arith
get_all-snoc ((i, w) ∷ u) k v j = ground (arith, get_all-snoc u k v j)

get_all-append_values :
    (u : UrlParams) (k : Text) (vs : List Text) (j : Text)
    → get_all (append_values u k vs) j ≡ get_all u j ++ (if text_eq k j then vs else [])
unfolding append_values
get_all-append_values u k [] j = ground (arith, append-nil (get_all u j))
get_all-append_values u k (v ∷ vs) j = ground (
  arith,
  get_all-append_values (u ++ (k, v) ∷ []) k vs j,
  get_all-snoc u k v j,
  append_assoc (get_all u j) (v ∷ []) vs,
  append-nil (get_all u j),
)

-- What the loop over some families appends under a parameter.
abbrev pub selected_of : FacetSelection → Option TaxonomyFamily → List Text
selected_of s none = []
selected_of s (some f) = selected s f.id

get_all-written :
    (fs : List TaxonomyFamily) (s : FacetSelection) (u : UrlParams) (j : Text)
    → IsDistinctBy url_param fs
    → get_all (written fs s u) j ≡ get_all u j ++ selected_of s (find_by url_param fs j)
unfolding written find_by
get_all-written [] s u j h = sym (append-nil _)
get_all-written (f ∷ fs) s u j h = ground (
  arith,
  get_all-written fs s (append_values u f.param (selected s f.id)) j h.1,
  get_all-append_values u f.param (selected s f.id) j,
  text_eq_iff f.param j,
  find_by-absent url_param fs f.param h.0,
  append-nil (get_all u j),
  append-nil (get_all u j ++ selected s f.id),
)

-- Every parameter after a selection is written: of a family its values, `page` none, and of any
-- other what stood there.
pub get_all-params_from_selection :
    (taxonomy : List TaxonomyFamily) (s : FacetSelection) (base : Option UrlParams) (j : Text)
    → IsDistinctBy url_param taxonomy
    → get_all (params_from_selection taxonomy s base) j
      ≡ (if has_by url_param taxonomy j || text_eq page_param j
          then []
          else get_all (base_or base) j)
        ++ selected_of s (find_by url_param taxonomy j)
unfolding params_from_selection
get_all-params_from_selection taxonomy s base j h = ground (
  arith,
  get_all-written taxonomy s (delete (cleared taxonomy (base_or base)) page_param) j h,
  get_all-delete (cleared taxonomy (base_or base)) page_param j,
  get_all-cleared taxonomy (base_or base) j,
)

-- What the schema's pattern of value ids gives: they are not empty, and hold no comma and no space.
abbrev pub IsPlain : Text → Type 0
IsPlain v = (is_empty v ≡ false) × All (λ c. ((c == comma) ≡ false) × (is_space c ≡ false)) v

abbrev pub HasPlainIds : List TaxonomyFamily → Type 0
HasPlainIds = All (λ f. All (λ (v : TaxonomyValue). IsPlain v.id) f.values)

-- Every value that is selected in a family is one of its values.
abbrev pub IsSelection : List TaxonomyFamily → FacetSelection → Type 0
IsSelection fs s = All (λ f. All (λ v. has_value f v ≡ true) (selected s f.id)) fs

abbrev Chars : Text → Type 0
Chars = All (λ c. ((c == comma) ≡ false) × (is_space c ≡ false))

split_commas-plain : (v : Text) → Chars v → split_commas v ≡ v ∷ []
unfolding split_commas
split_commas-plain [] h = refl
split_commas-plain (c ∷ cs) h = ground (arith, h.0.0, split_commas-plain cs h.1)

trim_end-plain : (v : Text) → Chars v → trim_end v ≡ v
unfolding trim_end
trim_end-plain [] h = refl
trim_end-plain (c ∷ cs) h = ground (arith, h.0.1, trim_end-plain cs h.1)

trim-plain : (v : Text) → Chars v → trim v ≡ v
unfolding trim trim_start
trim-plain [] h = trim_end-plain [] h
trim-plain (c ∷ cs) h = ground (arith, h.0.1, trim_end-plain (c ∷ cs) h)

ids-IsPlain :
    (vs : List TaxonomyValue) (v : Text)
    → All (λ (w : TaxonomyValue). IsPlain w.id) vs
    → any (λ (w : TaxonomyValue). text_eq w.id v) vs ≡ true
    → IsPlain v
ids-IsPlain [] v h k = cc
ids-IsPlain (w ∷ ws) v h k = elim (Bool-cases (text_eq w.id v)) [
  | inl same ↦ subst IsPlain ((text_eq_iff w.id v).0 same) h.0
  | inr other ↦ ids-IsPlain ws v h.1 (ground arith)
]

-- Values of a family are read as they are written.
wanted-values :
    (f : TaxonomyFamily) (vs : List Text)
    → All (λ (w : TaxonomyValue). IsPlain w.id) f.values
    → All (λ v. has_value f v ≡ true) vs
    → wanted f (map trim (split_all vs)) ≡ vs
unfolding wanted split_all has_value
wanted-values f [] h k = refl
wanted-values f (v ∷ vs) h k =
    let plain = ids-IsPlain f.values v h k.0 in
    ground (
      arith,
      split_commas-plain v plain.1,
      trim-plain v plain.1,
      plain.0,
      k.0,
      wanted-values f vs h k.1,
    )

module _ (taxonomy : List TaxonomyFamily) (s : FacetSelection) (base : Option UrlParams) where
  get_all-found :
      (f : TaxonomyFamily)
      → IsDistinctBy url_param taxonomy
      → find_by url_param taxonomy f.param ≡ some f
      → get_all (params_from_selection taxonomy s base) f.param ≡ selected s f.id
  get_all-found f h e = ground (
    arith,
    get_all-params_from_selection taxonomy s base f.param h,
    find_by-absent url_param taxonomy f.param,
  )

  abbrev IsReadBack : TaxonomyFamily → Type 0
  IsReadBack f =
      wanted f (texts_read (url (params_from_selection taxonomy s base)) f) ≡ selected s f.id

  all-IsReadBack :
      (fs : List TaxonomyFamily)
      → IsDistinctBy url_param taxonomy
      → AreFound url_param taxonomy fs
      → HasPlainIds fs
      → IsSelection fs s
      → All IsReadBack fs
  unfolding texts_read as_list read
  all-IsReadBack [] h k p v = tt
  all-IsReadBack (f ∷ fs) h k p v = (
    rw (get_all-found f h k.0) (wanted-values f (selected s f.id) p.0 v.0),
    all-IsReadBack fs h k.1 p.1 v.1,
  )

  read_back_of :
      (fs : List TaxonomyFamily) (k : Text)
      → All IsReadBack fs
      → nonempty (wanted_of (url (params_from_selection taxonomy s base)) (find_by id_of fs k))
        ≡ (if has_by id_of fs k then nonempty (selected s k) else none)
  unfolding find_by has_by
  read_back_of [] k h = refl
  read_back_of (f ∷ fs) k h = elim (Bool-cases (text_eq f.id k)) [
    | inl same ↦ let here = (text_eq_iff f.id k).0 same in ground (arith, same, here, h.0)
    | inr other ↦ ground (arith, other, read_back_of fs k h.1)
  ]

-- In a vocabulary without repeated ids or parameters, whose value ids hold no comma and no space,
-- the parameters that are written for a selection of its values, on any URL, are read back as that
-- selection: each family has the values it had, in order, a family without values has no entry,
-- and no other key has one.
pub selection_from_params-params_from_selection :
    (taxonomy : List TaxonomyFamily) (s : FacetSelection) (base : Option UrlParams)
    → IsDistinct taxonomy
    → HasPlainIds taxonomy
    → IsSelection taxonomy s
    → (back : FacetSelection) × (selection_from_params taxonomy
          (url (params_from_selection taxonomy s base))
        ≡ some back)
      × ((k : Text)
          → get back k ≡ (if has_by id_of taxonomy k then nonempty (selected s k) else none))
selection_from_params-params_from_selection taxonomy s base h p v =
    let done =
      selection_from_params-wanted taxonomy (url (params_from_selection taxonomy s base)) h in
    let all =
      all-IsReadBack taxonomy s base taxonomy h.1 (AreFound-all url_param taxonomy h.1) p v in
    (done.0, done.1, λ k. done.2 k ∙ read_back_of taxonomy s base taxonomy k all)
