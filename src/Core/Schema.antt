-- ===== src/Core/Schema.antt =====
-- packages/core/src/taxonomy-schema.ts: what taxonomy.yaml must hold. `file` is what the YAML parser
-- and zod's types give, `none` a text that they refuse; the patterns and the invariants are here.
pub mod Sound
use keco.Prelude.{
  ℕ, Bool, true, false, not, ◌&&◌, ◌||◌, Option, none, some, List, [], ◌∷◌, ◌++◌, leb, ltb, ◌==◌,
  if◌then◌else◌,
}
use keco.Prelude.Text.{Text, codes, text_eq}
use keco.Core.Taxonomy.{
  TaxonomyFamily, TaxonomyValue, Cardinality, single, multiple, Source, analyzer, derived, registry,
  has_value,
}
use keco.Core.Read.{is_empty, includes}

pub record TaxonomyFile : Type 0 where
  pub version : ℕ
  pub families : List TaxonomyFamily

pub data TaxonomyError : Type 0 where
  invalid_yaml bad_shape duplicate_family duplicate_param cannot_declare min_greater duplicate_value
        visible_unknown duplicate_alias no_unknown :
      TaxonomyError

-- `ok` with what a loop has gathered, or the throw of `fail`.
pub data Checked {ℓ} (A : Type ℓ) : Type ℓ where
  ok : A → Checked A
  fail : TaxonomyError → Checked A

infixl 5 ◌>>=◌
abbrev pub ◌>>=◌ {a b} : {X : Type a} {Y : Type b} → Checked X → (X → Checked Y) → Checked Y
fail e >>= next = fail e
ok x >>= next = next x

abbrev pub require : Bool → TaxonomyError → Checked (Unit {0})
require true e = ok tt
require false e = fail e

abbrev pub is_alphanumeric : ℕ → Bool
is_alphanumeric c = (leb b'a' c && leb c b'z') || (leb b'0' c && leb c b'9')

-- `/^[a-z0-9]+(<separator>[a-z0-9]+)*$/`; the flag says that the character before was no separator.
unfoldable pub is_segments : ℕ → Bool → Text → Bool
is_segments separator started [] = started
is_segments separator started (c ∷ cs) =
    let inside = is_segments separator true cs in
    let after = is_segments separator false cs in
    if is_alphanumeric c then inside else c == separator && started && after

unfoldable pub is_value_shape : TaxonomyValue → Bool
unfolding is_segments
is_value_shape v =
    is_segments b'-' false v.id && not (is_empty v.label) && not (is_empty v.description)

abbrev max_is_fine : Option ℕ → Bool
max_is_fine none = true
max_is_fine (some n) = leb 1 n

unfoldable pub are_value_shapes : List TaxonomyValue → Bool
are_value_shapes [] = true
are_value_shapes (v ∷ vs) = is_value_shape v && are_value_shapes vs

unfoldable pub is_family_shape : TaxonomyFamily → Bool
unfolding is_segments are_value_shapes
is_family_shape f =
    is_segments b'_' false f.id
    && not (is_empty f.label)
    && is_segments b'_' false f.param
    && not (is_empty f.description)
    && max_is_fine f.max_values
    && not (is_empty f.values)
    && are_value_shapes f.values

unfoldable pub are_family_shapes : List TaxonomyFamily → Bool
are_family_shapes [] = true
are_family_shapes (f ∷ fs) = is_family_shape f && are_family_shapes fs

unfoldable pub is_file_shape : TaxonomyFile → Bool
unfolding are_family_shapes
is_file_shape file =
    file.version == 1 && not (is_empty file.families) && are_family_shapes file.families

-- The loop over the aliases of a value.
unfoldable pub check_aliases : (Text → Text) → List Text → List Text → Checked (List Text)
check_aliases lower seen [] = ok seen
check_aliases lower seen (alias ∷ rest) = do
  fresh ← require (not (includes seen (lower alias))) duplicate_alias
  check_aliases lower (lower alias ∷ seen) rest

abbrev pub unknown : Text
unknown = codes "unknown"

-- The loop over the values of a family.
unfoldable pub check_values :
    (Text → Text) → List Text → List Text → List TaxonomyValue → Checked (List Text)
unfolding check_aliases
check_values lower ids aliases [] = ok ids
check_values lower ids aliases (v ∷ vs) = do
  fresh ← require (not (includes ids v.id)) duplicate_value
  hidden ← require (not (text_eq v.id unknown && not v.hidden)) visible_unknown
  more ← check_aliases lower aliases v.aliases
  check_values lower (v.id ∷ ids) more vs

abbrev pub is_given : Option ℕ → Bool
is_given none = false
is_given (some n) = true

abbrev pub is_single : Cardinality → Bool
is_single single = true
is_single multiple = false

abbrev pub is_greater : Option ℕ → Option ℕ → Bool
is_greater none b = false
is_greater (some n) none = false
is_greater (some n) (some m) = ltb m n

abbrev pub is_derived : Source → Bool
is_derived analyzer = false
is_derived derived = true
is_derived registry = false

-- The loop over the families.
unfoldable pub check_families :
    (Text → Text) → List Text → List Text → List TaxonomyFamily → Checked (Unit {0})
unfolding check_values
check_families lower ids params [] = ok tt
check_families lower ids params (f ∷ fs) = do
  fresh ← require (not (includes ids f.id)) duplicate_family
  unused ← require (not (includes params f.param)) duplicate_param
  bare ←
      require (not (is_single f.cardinality && (is_given f.min_values || is_given f.max_values)))
        cannot_declare
  ordered ← require (not (is_greater f.min_values f.max_values)) min_greater
  values ← check_values lower [] [] f.values
  honest ← require (not (is_derived f.source && not (includes values unknown))) no_unknown
  check_families lower (f.id ∷ ids) (f.param ∷ params) fs

abbrev parsed_yaml : Option TaxonomyFile → Checked TaxonomyFile
parsed_yaml none = fail invalid_yaml
parsed_yaml (some file) = ok file

unfoldable pub parse_taxonomy : (Text → Text) → Option TaxonomyFile → Checked TaxonomyFile
unfolding is_file_shape check_families
parse_taxonomy lower yaml = do
  file ← parsed_yaml yaml
  shaped ← require (is_file_shape file) bad_shape
  checked ← check_families lower [] [] file.families
  ok file
