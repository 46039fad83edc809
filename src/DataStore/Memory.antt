-- ===== src/DataStore/Memory.antt =====
-- apps/workers/src/lib/data-store.memory.ts. The store is passed and returned; `jsonClone` is the
-- identity on JSON values, and a value that is passed on is never shared.
pub mod Laws
pub mod Keys
pub mod Reachable
pub mod Ensuring
use Prim.Native.Nat.{Ordering}
use keco.Prelude.{
  ℕ, zero, suc, ◌+◌, String, Bool, true, false, Option, none, some, List, [], ◌∷◌, map, indicator,
  take, if◌then◌else◌,
}
use keco.Prelude.Text.{Text}
use keco.Prelude.Maps.{Map, get, has, put, string_key, text_key}
use keco.DataStore.Values.{Document, field}
use keco.DataStore.Port.{
  StoreError, unknown_collection, Result, ok, err, ◌>>=◌, Where, Sort, CollectionSpec, ListQuery,
  assert_non_empty_where, matches_where, project_fields, compare_by_sort, assert_document_id,
}

abbrev pub Collection : Type 0
Collection = Map Text Document

pub record Store : Type 0 where
  pub specs : Map String CollectionSpec
  pub collections : Map String Collection

abbrev pub empty : Store
empty = record { specs = []; collections = [] }

unfoldable pub ensure_one : Store → CollectionSpec → Store
ensure_one s spec = record {
  specs = put s.specs spec.name spec;
  collections =
      if has s.collections spec.name then s.collections else put s.collections spec.name [];
}

unfoldable pub ensure : Store → List CollectionSpec → Store
unfolding ensure_one
ensure s [] = s
ensure s (spec ∷ specs) = ensure (ensure_one s spec) specs

abbrev pub found {ℓ} : {A : Type ℓ} → Option A → Result A
found none = err unknown_collection
found (some a) = ok a

unfoldable pub collection_of : Store → String → Result Collection
collection_of s name = found (get s.collections name)

unfoldable pub primary_key_of : Store → String → Result String
primary_key_of s name = do spec ← found (get s.specs name); ok spec.primary_key

-- The validating pass of `put`.
unfoldable pub keyed : String → List Document → Result (List (Text × Document))
keyed key [] = ok []
keyed key (d ∷ ds) = do
  id ← assert_document_id (field d key)
  rest ← keyed key ds
  ok ((id, d) ∷ rest)

unfoldable pub set_all : Collection → List (Text × Document) → Collection
set_all c [] = c
set_all c ((id, d) ∷ rest) = set_all (put c id d) rest

unfoldable pub store_put : Store → String → List Document → Result Store
unfolding primary_key_of collection_of
store_put s name documents = do
  key ← primary_key_of s name
  copies ← keyed key documents
  target ← collection_of s name
  ok (record s { collections = put s.collections name (set_all target copies) })

unfoldable pub store_get : Store → String → Text → Result (Option Document)
unfolding collection_of
store_get s name id = do c ← collection_of s name; ok (get c id)

unfoldable pub count_matching : Collection → Option Where → ℕ
count_matching [] w = 0
count_matching ((id, d) ∷ c) w = indicator (matches_where d w) + count_matching c w

unfoldable pub store_count : Store → String → Option Where → Result ℕ
unfolding collection_of
store_count s name w = do c ← collection_of s name; ok (count_matching c w)

unfoldable pub matching : Collection → Option Where → List Document
matching [] w = []
matching ((id, d) ∷ c) w = let rest = matching c w in if matches_where d w then d ∷ rest else rest

abbrev is_after : Ordering → Bool
is_after Ordering.gt = true
is_after _ = false

-- `Array.prototype.sort` is stable: an item goes before the first one that it is not after.
unfoldable pub insert_sorted : Sort → Document → List Document → List Document
insert_sorted sort d [] = d ∷ []
insert_sorted sort d (x ∷ xs) =
    let rest = insert_sorted sort d xs in
    if is_after (compare_by_sort sort d x) then x ∷ rest else d ∷ x ∷ xs

unfoldable pub sort_rows : Sort → List Document → List Document
sort_rows sort [] = []
sort_rows sort (d ∷ ds) = insert_sorted sort d (sort_rows sort ds)

abbrev sorted_by : Option Sort → List Document → List Document
sorted_by none rows = rows
sorted_by (some sort) rows = sort_rows sort rows

abbrev pub limited : Option ℕ → List Document → List Document
limited none rows = rows
limited (some n) rows = take n rows

unfoldable pub store_list : Store → String → ListQuery → Result (List Document)
unfolding collection_of
store_list s name query = do
  c ← collection_of s name
  ok (
      map (λ d. project_fields d query.fields)
        (limited query.limit (sorted_by query.sort (matching c query.filter))))

unfoldable pub without : Collection → Where → Collection
without [] w = []
without ((id, d) ∷ c) w =
    let rest = without c w in if matches_where d (some w) then rest else (id, d) ∷ rest

unfoldable pub store_remove : Store → String → Where → Result Store
unfolding collection_of
store_remove s name w = do
  allowed ← assert_non_empty_where w
  target ← collection_of s name
  ok (record s { collections = put s.collections name (without target w) })
