-- ===== src/DataStore/Files.antt =====
-- apps/workers/src/lib/data-store.fs.ts over the storage port of packages/cache/src/storage.ts. The
-- files are a map from keys to bodies; `parse` and `stringify` stand for JSON.parse, `none` for its
-- throw, and JSON.stringify. The options of `put` change nothing.
pub mod Keys
pub mod Refinement
pub mod Writing
pub mod Removing
pub mod Answers
mod Examples
use keco.Prelude.{
  ℕ, suc, ◌+◌, String, Bool, true, false, not, ◌&&◌, ◌||◌, Option, none, some, List, [], ◌∷◌, ◌++◌,
  map, indicator, ltb, leb, ◌==◌, length, if◌then◌else◌,
}
use keco.Prelude.Text.{Text, codes, text_eq}
use keco.Prelude.Maps.{Map, get, has, put, erase, string_key, text_key}
use keco.DataStore.Values.{Document, field, text_lt}
use keco.DataStore.Port.{
  StoreError, unknown_collection, Result, ok, err, ◌>>=◌, Where, Sort, CollectionSpec, ListQuery,
  assert_non_empty_where, matches_where, project_fields, max_document_id_length, is_document_id,
  all_id_chars,
}
use keco.DataStore.Memory.{keyed, sort_rows, limited, found}

abbrev pub slash : ℕ
slash = b'/'

unfoldable pub document_key : String → Text → Text
document_key collection id = codes "data/" ++ (codes collection ++ slash ∷ (id ++ codes ".json"))

unfoldable pub collection_prefix : String → Text
collection_prefix collection = codes "data/" ++ (codes collection ++ slash ∷ [])

pub record FsStore : Type 0 where
  pub specs : Map String CollectionSpec
  pub files : Map Text Text

unfoldable pub fs_primary_key_of : FsStore → String → Result String
fs_primary_key_of s name = do spec ← found (get s.specs name); ok spec.primary_key

unfoldable pub fs_ensure : FsStore → List CollectionSpec → FsStore
fs_ensure s [] = s
fs_ensure s (spec ∷ specs) = fs_ensure (record s { specs = put s.specs spec.name spec }) specs

-- The test of `get`.
unfoldable pub is_stored_id : Text → Bool
unfolding all_id_chars
is_stored_id id = not (ltb max_document_id_length (length id) || not (is_document_id id))

unfoldable pub starts_with : Text → Text → Bool
starts_with [] t = true
starts_with (c ∷ cs) [] = false
starts_with (c ∷ cs) (d ∷ t) = c == d && starts_with cs t

unfoldable pub insert_key : Text → List Text → List Text
insert_key k [] = k ∷ []
insert_key k (j ∷ js) = let rest = insert_key k js in if text_lt j k then j ∷ rest else k ∷ j ∷ js

-- `Storage.list`: the keys under a prefix, in lexicographic order.
unfoldable pub list_keys : Map Text Text → Text → List Text
unfolding starts_with insert_key
list_keys [] prefix = []
list_keys ((k, body) ∷ files) prefix =
    let rest = list_keys files prefix in if starts_with prefix k then insert_key k rest else rest

module _ (stringify : Document → Text) where
  unfoldable pub write_all : Map Text Text → String → List (Text × Document) → Map Text Text
  unfolding document_key
  write_all files name [] = files
  write_all files name ((id, d) ∷ rest) =
      write_all (put files (document_key name id) (stringify d)) name rest

  unfoldable pub fs_put : FsStore → String → List Document → Result FsStore
  unfolding fs_primary_key_of write_all
  fs_put s name documents = do
    key ← fs_primary_key_of s name
    writes ← keyed key documents
    ok (record s { files = write_all s.files name writes })

unfoldable pub count_rows : List (Text × Document) → Option Where → ℕ
count_rows [] w = 0
count_rows ((k, d) ∷ rows) w = indicator (matches_where d w) + count_rows rows w

abbrev is_last : Option ℕ → ℕ → Bool
is_last none yielded = false
is_last (some limit) yielded = leb limit yielded

-- The loop of an unsorted listing.
unfoldable pub streamed : ListQuery → ℕ → List (Text × Document) → List Document
streamed query yielded [] = []
streamed query yielded ((k, d) ∷ rows) =
    let skipped = streamed query yielded rows in
    let more = streamed query (suc yielded) rows in
    if matches_where d query.filter
    then project_fields d query.fields ∷ (if is_last query.limit (suc yielded) then [] else more)
    else skipped

unfoldable pub matching_rows : List (Text × Document) → Option Where → List Document
matching_rows [] w = []
matching_rows ((k, d) ∷ rows) w =
    let rest = matching_rows rows w in if matches_where d w then d ∷ rest else rest

unfoldable pub listed_rows : ListQuery → Option Sort → List (Text × Document) → List Document
unfolding streamed matching_rows
listed_rows query none rows = streamed query 0 rows
listed_rows query (some sort) rows =
    map (λ d. project_fields d query.fields)
      (limited query.limit (sort_rows sort (matching_rows rows query.filter)))

unfoldable pub doomed : List (Text × Document) → Where → List Text
doomed [] w = []
doomed ((k, d) ∷ rows) w =
    let rest = doomed rows w in if matches_where d (some w) then k ∷ rest else rest

unfoldable pub delete_all : Map Text Text → List Text → Map Text Text
delete_all files [] = files
delete_all files (k ∷ ks) = delete_all (erase files k) ks

module _ (parse : Text → Option Document) where
  abbrev pub parsed : Option Text → Option Document
  parsed none = none
  parsed (some body) = parse body

  unfoldable pub fs_get : FsStore → String → Text → Result (Option Document)
  unfolding fs_primary_key_of is_stored_id document_key
  fs_get s name id = do
    key ← fs_primary_key_of s name
    ok (if is_stored_id id then parsed (get s.files (document_key name id)) else none)

  -- The loop of `readAll`.
  unfoldable pub read_files : Map Text Text → List Text → List (Text × Document)
  read_files files [] = []
  read_files files (k ∷ ks) =
      let rest = read_files files ks in
      elim (parsed (get files k)) [ none ↦ rest | some d ↦ (k, d) ∷ rest ]

  unfoldable pub read_all : FsStore → String → Result (List (Text × Document))
  unfolding fs_primary_key_of read_files list_keys collection_prefix
  read_all s name = do
    key ← fs_primary_key_of s name
    ok (read_files s.files (list_keys s.files (collection_prefix name)))

  unfoldable pub fs_count : FsStore → String → Option Where → Result ℕ
  unfolding read_all count_rows
  fs_count s name w = do rows ← read_all s name; ok (count_rows rows w)

  unfoldable pub fs_list : FsStore → String → ListQuery → Result (List Document)
  unfolding read_all listed_rows
  fs_list s name query = do rows ← read_all s name; ok (listed_rows query query.sort rows)

  unfoldable pub fs_remove : FsStore → String → Where → Result FsStore
  unfolding read_all doomed delete_all
  fs_remove s name w = do
    allowed ← assert_non_empty_where w
    rows ← read_all s name
    ok (record s { files = delete_all s.files (doomed rows w) })
