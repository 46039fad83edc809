-- ===== src/DataStore/Port.antt =====
-- apps/workers/src/lib/data-store.ts: the port's types and the predicates that every
-- implementation shares. What throws returns a `Result`.
use Prim.Native.Nat.{Ordering}
use keco.Prelude.{
  ℕ, String, Bool, true, false, ◌&&◌, ◌||◌, Option, none, some, List, [], ◌∷◌, leb, ltb, ◌==◌,
  if◌then◌else◌, length,
}
use keco.Prelude.Text.{Text, codes, text_eq}
use keco.Prelude.Maps.{put, string_key, text_key}
use keco.DataStore.Values.{Value, null, text, Document, field, strict_eq, value_lt}

pub data StoreError : Type 0 where
  unknown_collection empty_filter missing_key key_too_long bad_key : StoreError

pub data Result {ℓ} (A : Type ℓ) : Type ℓ where
  ok : A → Result A
  err : StoreError → Result A

-- What follows a call that may throw.
infixl 5 ◌>>=◌
abbrev pub ◌>>=◌ {a b} : {X : Type a} {Y : Type b} → Result X → (X → Result Y) → Result Y
err thrown >>= next = err thrown
ok x >>= next = next x

abbrev pub Where : Type 0
Where = List (String × Value)

pub data Direction : Type 0 where
  ascending descending : Direction

abbrev pub Sort : Type 0
Sort = List (String × Direction)

pub record CollectionSpec : Type 0 where
  pub name : String
  pub primary_key : String
  pub filterable : List String
  pub sortable : List String
  pub searchable : List String

pub record ListQuery : Type 0 where
  pub filter : Option Where
  pub fields : Option (List String)
  pub sort : Option Sort
  pub limit : Option ℕ

unfoldable pub assert_non_empty_where : Where → Result (Unit {0})
assert_non_empty_where [] = err empty_filter
assert_non_empty_where (_ ∷ _) = ok tt

-- `document[field] === value`; an absent field is not equal to any value.
abbrev pub holds : Option Value → Value → Bool
holds none v = false
holds (some u) v = strict_eq u v

unfoldable pub matches_all : Document → Where → Bool
matches_all d [] = true
matches_all d ((name, v) ∷ w) =
    let rest = matches_all d w in if holds (field d name) v then rest else false

unfoldable pub matches_where : Document → Option Where → Bool
unfolding matches_all
matches_where d none = true
matches_where d (some w) = matches_all d w

project_into : Document → Document → List String → Document
project_into d out [] = out
project_into d out (name ∷ names) =
    project_into d (elim (field d name) [ none ↦ out | some v ↦ put out name v ]) names

unfoldable pub project_fields : Document → Option (List String) → Document
unfolding project_into
project_fields d none = d
project_fields d (some names) = project_into d [] names

-- `null` and `undefined` are one class.
abbrev pub present : Option Value → Option Value
present none = none
present (some null) = none
present (some v) = some v

-- The body of the loop of `compareBySort`; `none` is `continue`.
compare_values : Option Value → Option Value → Direction → Option Ordering
compare_values none none dir = none
compare_values none (some b) dir = some Ordering.gt
compare_values (some a) none dir = some Ordering.lt
compare_values (some a) (some b) ascending =
    if strict_eq a b then none else if value_lt a b then some Ordering.lt else some Ordering.gt
compare_values (some a) (some b) descending =
    if strict_eq a b then none else if value_lt a b then some Ordering.gt else some Ordering.lt

unfoldable pub compare_by_sort : Sort → Document → Document → Ordering
unfolding compare_values
compare_by_sort [] a b = Ordering.eq
compare_by_sort ((name, dir) ∷ sort) a b =
    let rest = compare_by_sort sort a b in
    elim (compare_values (present (field a name)) (present (field b name)) dir) [
      | none ↦ rest
      | some order ↦ order
    ]

abbrev pub max_document_id_length : ℕ
max_document_id_length = 250

-- The class `[A-Za-z0-9_-]`.
abbrev pub is_id_char : ℕ → Bool
is_id_char c =
    (leb b'A' c && leb c b'Z')
    || ((leb b'a' c && leb c b'z') || ((leb b'0' c && leb c b'9') || (c == b'_' || c == b'-')))

unfoldable pub all_id_chars : Text → Bool
all_id_chars [] = true
all_id_chars (c ∷ cs) = is_id_char c && all_id_chars cs

-- `DOCUMENT_ID_PATTERN` asks for one character at least.
abbrev pub is_document_id : Text → Bool
is_document_id [] = false
is_document_id (c ∷ cs) = is_id_char c && all_id_chars cs

unfoldable pub check_document_id : Text → Result Text
unfolding all_id_chars text_eq
check_document_id id =
    if text_eq id [] || (text_eq id (codes "undefined") || text_eq id (codes "null"))
    then err missing_key
    else if ltb max_document_id_length (length id)
    then err key_too_long
    else if is_document_id id
    then ok id
    else err bad_key

unfoldable pub assert_document_id : Option Value → Result Text
unfolding check_document_id
assert_document_id (some (text id)) = check_document_id id
assert_document_id _ = err missing_key
