-- ===== src/Core/Examples.antt =====
-- Runs of packages/core/src/read.ts on two families, and the conditions of its theorems at them.
use keco.Prelude.{
  All, ◌≡◌, ◌≢◌, refl, true, false, not, ◌&&◌, none, some, List, [], ◌∷◌, arith, if◌then◌else◌,
}
use keco.Prelude.Text.{Text, codes, text_eq}
use keco.Prelude.Maps.{get, put, text_key}
use keco.Core.Taxonomy.{
  multiple, analyzer, TaxonomyFamily, TaxonomyValue, has_by, find_by, has_value, id_of, IsDistinct,
  by_id_from, family, is_value,
}
use keco.Core.Read.{
  FacetSelection, selected, includes, build_filters, in_clause, quoted, family_clauses, clause_of,
  family_attribute,
}
use keco.Core.Schema.{
  TaxonomyFile, parse_taxonomy, is_file_shape, are_family_shapes, is_family_shape, are_value_shapes,
  is_value_shape, is_segments, check_families, check_values, check_aliases,
}
use keco.Core.Schema.Sound.{IsHonest, parse_taxonomy_sound}
use keco.Core.Read.Urls.{
  UrlParams, url, get_all, read, as_list, split_all, split_commas, trim, trim_start, trim_end, kept,
  values_read, selection_from, params_from_selection, selection_from_params, toggle_facet_value,
}
use keco.Core.Read.Vocabulary.{wanted_of, nonempty, selection_from_params-wanted}
use keco.Core.Read.Roundtrip.{HasPlainIds, IsSelection, selection_from_params-params_from_selection}
use keco.Core.Read.Toggle.{toggle_facet_value_lem}

abbrev value : Text → TaxonomyValue
value id = record { id = id; label = id; description = id; aliases = []; hidden = false }

abbrev kinds : TaxonomyFamily
kinds = record {
  id = codes "kind";
  label = codes "Kind";
  param = codes "kind";
  description = codes "What it is";
  cardinality = multiple;
  min_values = none;
  max_values = none;
  source = analyzer;
  facet = true;
  values = value (codes "cli") ∷ value (codes "operator") ∷ [];
}

abbrev domains : TaxonomyFamily
domains = record {
  id = codes "domains";
  label = codes "Domains";
  param = codes "domain";
  description = codes "What it solves";
  cardinality = multiple;
  min_values = none;
  max_values = none;
  source = analyzer;
  facet = true;
  values = value (codes "policy") ∷ [];
}

abbrev taxonomy : List TaxonomyFamily
taxonomy = kinds ∷ domains ∷ []

abbrev two_kinds : FacetSelection
two_kinds = (codes "kind", codes "operator" ∷ codes "cli" ∷ []) ∷ []

abbrev base : UrlParams
base = (codes "q", codes "mesh") ∷ (codes "page", codes "4") ∷ []

taxonomy-IsDistinct : IsDistinct taxonomy
unfolding has_by text_eq
taxonomy-IsDistinct = ((refl, (refl, tt)), (refl, (refl, tt)))

taxonomy-HasPlainIds : HasPlainIds taxonomy
taxonomy-HasPlainIds = ground arith

two_kinds-IsSelection : IsSelection taxonomy two_kinds
unfolding selected get has_value text_eq
two_kinds-IsSelection = ((refl, (refl, tt)), (tt, tt))

-- A comma and an unknown value in a hand-edited URL.
hand_edited :
    selection_from_params taxonomy (url ((codes "kind", codes "cli, x ,operator") ∷ []))
    ≡ some ((codes "kind", codes "cli" ∷ codes "operator" ∷ []) ∷ [])
unfolding selection_from_params selection_from values_read kept read get_all as_list split_all
    split_commas trim trim_start trim_end is_value family by_id_from has_value text_eq get put
hand_edited = refl

filters_of_two :
    build_filters taxonomy (record {
      filters = some two_kinds;
      language = none;
      license = none;
      include_archived = false;
      min_relevance = none;
    })
    ≡ codes "kind IN [\"operator\", \"cli\"]"
      ∷ codes "archived = false"
      ∷ codes "k8s_relevance >= 0.4"
      ∷ []
unfolding build_filters family_clauses clause_of in_clause quoted family_attribute selected text_eq
    get
filters_of_two = refl

selection_from_params-wanted_example :
    (selection : FacetSelection) × (selection_from_params taxonomy (url base) ≡ some selection)
    × ((k : Text) → get selection k ≡ nonempty (wanted_of (url base) (find_by id_of taxonomy k)))
selection_from_params-wanted_example =
    selection_from_params-wanted taxonomy (url base) taxonomy-IsDistinct

selection_from_params-params_from_selection_example :
    (back : FacetSelection) × (selection_from_params taxonomy
        (url (params_from_selection taxonomy two_kinds (some base)))
      ≡ some back)
    × ((k : Text)
        → get back k ≡ (if has_by id_of taxonomy k then nonempty (selected two_kinds k) else none))
selection_from_params-params_from_selection_example =
    selection_from_params-params_from_selection taxonomy two_kinds (some base) taxonomy-IsDistinct
      taxonomy-HasPlainIds two_kinds-IsSelection

toggle_facet_value_lem_example :
    ((k w : Text)
      → includes (selected (toggle_facet_value two_kinds (codes "kind") (codes "cli")) k) w ≡ (
          if text_eq (codes "kind") k && text_eq (codes "cli") w
          then not (includes (selected two_kinds (codes "kind")) (codes "cli"))
          else includes (selected two_kinds k) w))
    × (get (toggle_facet_value two_kinds (codes "kind") (codes "cli")) (codes "kind") ≢ some [])
    × ((k w : Text)
        → includes
            (selected
              (toggle_facet_value
                (toggle_facet_value two_kinds (codes "kind") (codes "cli"))
                (codes "kind")
                (codes "cli"))
              k)
            w
          ≡ includes (selected two_kinds k) w)
toggle_facet_value_lem_example = toggle_facet_value_lem two_kinds (codes "kind") (codes "cli")

abbrev file : TaxonomyFile
file = record { version = 1; families = taxonomy }

parse_taxonomy_sound_example :
    (some file ≡ some file)
    × IsDistinct file.families
    × HasPlainIds file.families
    × All IsHonest file.families
unfolding parse_taxonomy is_file_shape are_family_shapes is_family_shape are_value_shapes
    is_value_shape is_segments check_families check_values check_aliases includes text_eq
parse_taxonomy_sound_example = parse_taxonomy_sound (λ (t : Text). t) (some file) file refl
