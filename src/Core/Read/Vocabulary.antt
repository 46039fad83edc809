-- ===== src/Core/Read/Vocabulary.antt =====
-- What selectionFromParams of packages/core/src/read.ts reads: for each family the values of its
-- parameter that its vocabulary holds.
use keco.Prelude.{
  ◌≡◌, refl, ◌∙◌, inl, inr, false, not, ◌&&◌, Bool-cases, Option, none, some, List, [], ◌∷◌, map,
  arith, if◌then◌else◌, All,
}
use keco.Prelude.Text.{Text, text_eq, text_eq_iff}
use keco.Prelude.Maps.{get, put, get-put, text_key}
use keco.Core.Taxonomy.{
  TaxonomyFamily, family, is_value, has_value, has_by, find_by, find_by-absent, id_of, IsDistinct,
  IsDistinctBy, AreFound, AreFound-all, family-eq-find_by,
}
use keco.Core.Read.{FacetSelection, is_empty}
use keco.Core.Read.Urls.{
  Params, read, as_list, split_all, trim, kept, values_read, selection_from, selection_from_params,
}

-- The values of a family among some texts.
unfoldable pub wanted : TaxonomyFamily → List Text → List Text
wanted f [] = []
wanted f (v ∷ vs) =
    let rest = wanted f vs in if not (is_empty v) && has_value f v then v ∷ rest else rest

unfoldable pub texts_read : Params → TaxonomyFamily → List Text
texts_read params f = map trim (split_all (as_list (read params f.param)))

abbrev pub wanted_of : Params → Option TaxonomyFamily → List Text
wanted_of params none = []
wanted_of params (some f) = wanted f (texts_read params f)

abbrev pub nonempty : List Text → Option (List Text)
nonempty [] = none
nonempty (v ∷ vs) = some (v ∷ vs)

abbrev or_else : Option (List Text) → Option (List Text) → Option (List Text)
or_else none o = o
or_else (some vs) o = some vs

or_else-none : (o : Option (List Text)) → or_else o none ≡ o
or_else-none none = refl
or_else-none (some vs) = refl

is_value-of_found :
    (taxonomy : List TaxonomyFamily) (f : TaxonomyFamily) (v : Text)
    → family taxonomy f.id ≡ some f
    → is_value taxonomy f.id v ≡ some (has_value f v)
unfolding is_value
is_value-of_found taxonomy f v e = rw e refl

kept-wanted :
    (taxonomy : List TaxonomyFamily) (f : TaxonomyFamily) (vs : List Text)
    → family taxonomy f.id ≡ some f
    → kept taxonomy f.id vs ≡ some (wanted f vs)
unfolding kept wanted
kept-wanted taxonomy f [] e = refl
kept-wanted taxonomy f (v ∷ vs) e =
    ground (arith, kept-wanted taxonomy f vs e, is_value-of_found taxonomy f v e)

values_read-wanted :
    (taxonomy : List TaxonomyFamily) (params : Params) (f : TaxonomyFamily)
    → family taxonomy f.id ≡ some f
    → values_read taxonomy params f ≡ some (wanted f (texts_read params f))
unfolding values_read texts_read
values_read-wanted taxonomy params f e = kept-wanted taxonomy f _ e

abbrev AreFamilies : List TaxonomyFamily → List TaxonomyFamily → Type 0
AreFamilies taxonomy = All (λ f. family taxonomy f.id ≡ some f)

-- What the loop over some families leaves.
abbrev IsRead : Params → List TaxonomyFamily → FacetSelection → FacetSelection → Type 0
IsRead params fs before after =
    (k : Text)
    → get after k ≡ or_else (nonempty (wanted_of params (find_by id_of fs k))) (get before k)

get-next :
    (before : FacetSelection) (id k : Text) (vs : List Text)
    → get (if is_empty vs then before else put before id vs) k
      ≡ (if text_eq id k then or_else (nonempty vs) (get before k) else get before k)
get-next before id k [] = ground arith
get-next before id k (v ∷ vs) = get-put before id k (v ∷ vs)

-- The families after the first have other ids, so that they leave its values.
IsRead-cons :
    (params : Params) (f : TaxonomyFamily) (fs : List TaxonomyFamily)
    (before next after : FacetSelection) (k : Text)
    → has_by id_of fs f.id ≡ false
    → get next k ≡ (
        if text_eq f.id k
        then or_else (nonempty (wanted f (texts_read params f))) (get before k)
        else get before k)
    → get after k ≡ or_else (nonempty (wanted_of params (find_by id_of fs k))) (get next k)
    → get after k ≡ or_else (nonempty (wanted_of params (find_by id_of (f ∷ fs) k))) (get before k)
unfolding find_by
IsRead-cons params f fs before next after k h e g = elim (Bool-cases (text_eq f.id k)) [
  | inl same ↦
      let here = (text_eq_iff f.id k).0 same in
      let gone = find_by-absent id_of fs f.id h in ground (arith, same, here, gone, e, g)
  | inr other ↦ ground (arith, other, e, g)
]

selection_from-IsRead :
    (taxonomy : List TaxonomyFamily) (params : Params) (before : FacetSelection)
    (fs : List TaxonomyFamily)
    → IsDistinctBy id_of fs
    → AreFamilies taxonomy fs
    → (after : FacetSelection) × (selection_from taxonomy params before fs ≡ some after)
      × IsRead params fs before after
unfolding selection_from find_by
selection_from-IsRead taxonomy params before [] h k = (before, refl, λ j. refl)
selection_from-IsRead taxonomy params before (f ∷ fs) h k =
    let vs = wanted f (texts_read params f) in
    let next : FacetSelection = if is_empty vs then before else put before f.id vs in
    let ih = selection_from-IsRead taxonomy params next fs h.1 k.1 in
    (
      ih.0,
      rw (values_read-wanted taxonomy params f k.0) (ih.1),
      λ j. IsRead-cons params f fs before next ih.0 j h.0 (get-next before f.id j vs) (ih.2 j),
    )

AreFamilies-of_AreFound :
    (taxonomy fs : List TaxonomyFamily)
    → IsDistinctBy id_of taxonomy
    → AreFound id_of taxonomy fs
    → AreFamilies taxonomy fs
AreFamilies-of_AreFound taxonomy [] h k = tt
AreFamilies-of_AreFound taxonomy (f ∷ fs) h k =
    (family-eq-find_by taxonomy f.id h ∙ k.0, AreFamilies-of_AreFound taxonomy fs h k.1)

-- In a vocabulary without repeated ids, reading the parameters never throws. A family's entry is
-- the list of the texts of its parameter, in their order, split at commas and trimmed, that are
-- not empty and are ids of its values; a family for which no text is left, and a key that is no
-- family's id, has no entry.
pub selection_from_params-wanted :
    (taxonomy : List TaxonomyFamily) (params : Params)
    → IsDistinct taxonomy
    → (selection : FacetSelection) × (selection_from_params taxonomy params ≡ some selection)
      × ((k : Text) → get selection k ≡ nonempty (wanted_of params (find_by id_of taxonomy k)))
unfolding selection_from_params get
selection_from_params-wanted taxonomy params h =
    let all = AreFamilies-of_AreFound taxonomy taxonomy h.0 (AreFound-all id_of taxonomy h.0) in
    let done = selection_from-IsRead taxonomy params [] taxonomy h.0 all in
    (done.0, done.1, λ k. done.2 k ∙ or_else-none _)
