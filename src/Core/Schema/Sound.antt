-- ===== src/Core/Schema/Sound.antt =====
-- What parseTaxonomy of packages/core/src/taxonomy-schema.ts gives to the readers of the vocabulary.
use keco.Prelude.{
  ℕ, ◌≡◌, refl, sym, ap, inl, inr, Bool, true, false, not, ◌&&◌, ◌||◌, Bool-cases, Option, none,
  some, List, [], ◌∷◌, arith, ◌==◌, All, any,
}
use mathlib.Core.Path.{subst}
use keco.Prelude.Text.{Text, text_eq, text_eq_iff}
use keco.Core.Taxonomy.{
  TaxonomyFamily, TaxonomyValue, has_value, has_by, id_of, url_param, IsDistinct,
}
use keco.Core.Read.{is_empty, includes}
use keco.Core.Read.Urls.{comma, is_space}
use keco.Core.Read.Roundtrip.{IsPlain, HasPlainIds}
use keco.Core.Schema.{
  TaxonomyFile, TaxonomyError, Checked, ok, fail, ◌>>=◌, require, is_alphanumeric, is_segments,
  is_value_shape, are_value_shapes, is_family_shape, are_family_shapes, is_file_shape,
  check_aliases, check_values, check_families, parse_taxonomy, unknown, is_derived, is_given,
  is_single, is_greater,
}

-- Where a chain of checks passes, its first check passed.
first_ok {a b} :
    {X : Type a} {Y : Type b} (call : Checked X) (next : X → Checked Y) {y : Y}
    → (call >>= next) ≡ ok y
    → (x : X) × (call ≡ ok x) × (next x ≡ ok y)
first_ok (fail e) next h = cc
first_ok (ok x) next h = (x, refl, h)

required :
    {Y : Type 0} (b : Bool) (e : TaxonomyError) (next : Unit {0} → Checked Y) {y : Y}
    → (require b e >>= next) ≡ ok y
    → (b ≡ true) × (next tt ≡ ok y)
required true e next h = (refl, h)
required false e next h = cc

ok-injective {ℓ} : {A : Type ℓ} {a b : A} → ok a ≡ ok b → a ≡ b
ok-injective {A} {a} e = ap (λ (r : Checked A). elim r [ ok x ↦ x | fail _ ↦ a ]) e

alphanumeric-plain :
    (c : ℕ) → is_alphanumeric c ≡ true → ((c == comma) ≡ false) × (is_space c ≡ false)
alphanumeric-plain c h = (ground arith, ground arith)

dash-plain : (c : ℕ) → (c == b'-') ≡ true → ((c == comma) ≡ false) × (is_space c ≡ false)
dash-plain c h = (ground arith, ground arith)

is_segments-Chars :
    (b : Bool) (cs : Text)
    → is_segments b'-' b cs ≡ true
    → All (λ c. ((c == comma) ≡ false) × (is_space c ≡ false)) cs
unfolding is_segments
is_segments-Chars b [] h = tt
is_segments-Chars b (c ∷ cs) h = elim (Bool-cases (is_alphanumeric c)) [
  | inl letter ↦ (alphanumeric-plain c letter, is_segments-Chars true cs (rw letter at h))
  | inr other ↦
      let both : ((c == b'-') && b && is_segments b'-' false cs) ≡ true = rw other at h in
      (dash-plain c (ground arith), is_segments-Chars false cs (ground arith))
]

is_value_shape-IsPlain : (v : TaxonomyValue) → is_value_shape v ≡ true → IsPlain v.id
unfolding is_value_shape
is_value_shape-IsPlain v h =
    let shaped : is_segments b'-' false v.id ≡ true = ground arith in
    (filled v.id shaped, is_segments-Chars false v.id shaped)
  where
    filled : (t : Text) → is_segments b'-' false t ≡ true → is_empty t ≡ false
    filled [] e = unfold is_segments in cc
    filled (c ∷ t) e = refl

are_value_shapes-IsPlain :
    (vs : List TaxonomyValue)
    → are_value_shapes vs ≡ true
    → All (λ (v : TaxonomyValue). IsPlain v.id) vs
unfolding are_value_shapes
are_value_shapes-IsPlain [] h = tt
are_value_shapes-IsPlain (v ∷ vs) h =
    (is_value_shape-IsPlain v (ground arith), are_value_shapes-IsPlain vs (ground arith))

are_family_shapes-HasPlainIds :
    (fs : List TaxonomyFamily) → are_family_shapes fs ≡ true → HasPlainIds fs
unfolding are_family_shapes is_family_shape
are_family_shapes-HasPlainIds [] h = tt
are_family_shapes-HasPlainIds (f ∷ fs) h = (
  are_value_shapes-IsPlain f.values (ground arith),
  are_family_shapes-HasPlainIds fs (ground arith),
)

abbrev AreNew : (TaxonomyFamily → Text) → List Text → List TaxonomyFamily → Type 0
AreNew key seen = All (λ f. includes seen (key f) ≡ false)

AreNew-cons :
    (key : TaxonomyFamily → Text) (k : Text) (seen : List Text) (fs : List TaxonomyFamily)
    → AreNew key (k ∷ seen) fs
    → (has_by key fs k ≡ false) × AreNew key seen fs
unfolding has_by includes
AreNew-cons key k seen [] h = (refl, tt)
AreNew-cons key k seen (f ∷ fs) h =
    let more = AreNew-cons key k seen fs h.1 in
    (
      ground (arith, h.0, more.0, text_eq_iff k (key f), text_eq_iff (key f) k),
      (ground (arith, h.0), more.1),
    )

-- The value `unknown` of a family is hidden, and a derived family has one.
abbrev pub IsHonest : TaxonomyFamily → Type 0
IsHonest f =
    All (λ (v : TaxonomyValue). (text_eq v.id unknown && not v.hidden) ≡ false) f.values
    × ((is_derived f.source && not (has_value f unknown)) ≡ false)

check_values-Honest :
    (lower : Text → Text) (ids aliases : List Text) (vs : List TaxonomyValue) (all : List Text)
    → check_values lower ids aliases vs ≡ ok all
    → All (λ (v : TaxonomyValue). (text_eq v.id unknown && not v.hidden) ≡ false) vs
      × ((k : Text)
          → includes all k ≡ (any (λ (v : TaxonomyValue). text_eq v.id k) vs || includes ids k))
unfolding check_values includes
check_values-Honest lower ids aliases [] all h =
    (tt, λ k. ap (λ (l : List Text). includes l k) (sym (ok-injective h)))
check_values-Honest lower ids aliases (v ∷ vs) all h =
    let one = required (not (includes ids v.id)) _ _ h in
    let two = required (not (text_eq v.id unknown && not v.hidden)) _ _ one.1 in
    let three = first_ok (check_aliases lower aliases v.aliases) _ two.1 in
    let more = check_values-Honest lower (v.id ∷ ids) three.0 vs all three.2 in
    ((ground (arith, two.0), more.0), λ k. ground (arith, more.1 k))

check_families-lem :
    (lower : Text → Text) (ids params : List Text) (fs : List TaxonomyFamily)
    → check_families lower ids params fs ≡ ok tt
    → IsDistinct fs × All IsHonest fs × AreNew id_of ids fs × AreNew url_param params fs
unfolding check_families has_value
check_families-lem lower ids params [] h = ((tt, tt), tt, tt, tt)
check_families-lem lower ids params (f ∷ fs) h =
    let one = required (not (includes ids f.id)) _ _ h in
    let two = required (not (includes params f.param)) _ _ one.1 in
    let three =
      required (not (is_single f.cardinality && (is_given f.min_values || is_given f.max_values))) _
        _ two.1 in
    let four = required (not (is_greater f.min_values f.max_values)) _ _ three.1 in
    let five = first_ok (check_values lower [] [] f.values) _ four.1 in
    let six = required (not (is_derived f.source && not (includes five.0 unknown))) _ _ five.2 in
    let honest = check_values-Honest lower [] [] f.values five.0 five.1 in
    let more = check_families-lem lower (f.id ∷ ids) (f.param ∷ params) fs six.1 in
    let fresh : not (includes ids f.id) ≡ true = one.0 in
    let unused : not (includes params f.param) ≡ true = two.0 in
    let told : not (is_derived f.source && not (includes five.0 unknown)) ≡ true = six.0 in
    let new_ids = AreNew-cons id_of f.id ids fs more.2 in
    let new_params = AreNew-cons url_param f.param params fs more.3 in
    (
      ((new_ids.0, more.0.0), (new_params.0, more.0.1)),
      ((honest.0, unfold includes in ground (arith, told, honest.1 unknown)), more.1),
      (ground (arith, fresh), new_ids.1),
      (ground (arith, unused), new_params.1),
    )

-- A vocabulary that is parsed is the one of the file: no two of its families share an id or a
-- parameter, its value ids are not empty and hold no comma and no space, a value `unknown` is
-- hidden, and a derived family has one.
pub parse_taxonomy_sound :
    (lower : Text → Text) (yaml : Option TaxonomyFile) (file : TaxonomyFile)
    → parse_taxonomy lower yaml ≡ ok file
    → (yaml ≡ some file)
      × IsDistinct file.families
      × HasPlainIds file.families
      × All IsHonest file.families
unfolding parse_taxonomy is_file_shape
parse_taxonomy_sound lower none file h = cc
parse_taxonomy_sound lower (some read) file h =
    let one = required (is_file_shape read) _ _ h in
    let two = first_ok (check_families lower [] [] read.families) _ one.1 in
    let same : read ≡ file = ok-injective two.2 in
    let sound = check_families-lem lower [] [] read.families two.1 in
    let plain = are_family_shapes-HasPlainIds read.families (ground (arith, one.0)) in
    (
      ap some same,
      subst (λ (t : TaxonomyFile). IsDistinct t.families) same sound.0,
      subst (λ (t : TaxonomyFile). HasPlainIds t.families) same plain,
      subst (λ (t : TaxonomyFile). All IsHonest t.families) same sound.1,
    )
