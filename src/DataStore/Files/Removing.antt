-- ===== src/DataStore/Files/Removing.antt =====
-- `remove` of the file-system store, apps/workers/src/lib/data-store.fs.ts: which keys it deletes, and
-- that the in-memory store removes the same documents.
use keco.Prelude.{
  ◌≡◌, refl, sym, ap, ◌∙◌, inl, inr, Bool, false, ◌&&◌, ◌||◌, Bool-cases, Option-cases, String,
  Option, none, some, List, [], ◌∷◌, arith, if◌then◌else◌, str_eq, eq_iff, any,
}
use mathlib.Core.Path.{subst}
use keco.Prelude.Text.{Text, text_eq, text_eq_iff}
use keco.Prelude.Maps.{Map, get, has, erase, get-erase, has-get, string_key, text_key}
use keco.DataStore.Values.{Document}
use keco.DataStore.Port.{Where, matches_where, assert_non_empty_where}
use keco.DataStore.Memory.{Collection, Store, collection_of, without, store_remove}
use keco.DataStore.Memory.Keys.{IsValid, kept, get-without}
use keco.DataStore.Memory.Ensuring.{Result-cases}
use keco.DataStore.Files.{
  FsStore, fs_primary_key_of, document_key, collection_prefix, starts_with, insert_key, list_keys,
  parsed, read_files, read_all, doomed, delete_all, fs_remove,
}
use keco.DataStore.Files.Keys.{IsFolder, starts_with-document_key}
use keco.DataStore.Files.Refinement.{Agrees, documents_of, document_at, collection_cases}
use keco.DataStore.Files.Writing.{SameOutcome, replaced-Agrees}

abbrev among : List Text → Text → Bool
among ks k = any (λ j. text_eq j k) ks

among-insert_key :
    (j : Text) (ks : List Text) (k : Text) → among (insert_key j ks) k ≡ (text_eq j k || among ks k)
unfolding insert_key
among-insert_key j [] k = refl
among-insert_key j (i ∷ ks) k = ground (arith, among-insert_key j ks k)

among-list_keys :
    (files : Map Text Text) (prefix k : Text)
    → among (list_keys files prefix) k ≡ (starts_with prefix k && has files k)
unfolding list_keys has
among-list_keys [] prefix k = ground arith
among-list_keys ((j, body) ∷ files) prefix k = ground (
  arith,
  among-list_keys files prefix k,
  among-insert_key j (list_keys files prefix) k,
  text_eq_iff j k,
)

abbrev matches : Where → Option Document → Bool
matches w none = false
matches w (some d) = matches_where d (some w)

module _ (parse : Text → Option Document) where
  among-doomed :
      (files : Map Text Text) (ks : List Text) (w : Where) (k : Text)
      → among (doomed (read_files parse files ks) w) k
        ≡ (among ks k && matches w (parsed parse (get files k)))
  unfolding doomed read_files
  among-doomed files [] w k = refl
  among-doomed files (j ∷ ks) w k = elim (Bool-cases (text_eq j k)) [
    | inl same ↦
        let here : j ≡ k = (text_eq_iff j k).0 same in
        elim (Option-cases (parsed parse (get files j))) [
          | inl unread ↦ ground (arith, unread, here, among-doomed files ks w k)
          | inr (d, read) ↦ ground (arith, read, here, same, among-doomed files ks w k)
        ]
    | inr other ↦ elim (Option-cases (parsed parse (get files j))) [
      | inl unread ↦ ground (arith, unread, other, among-doomed files ks w k)
      | inr (d, read) ↦ ground (arith, read, other, among-doomed files ks w k)
    ]
  ]

  get-delete_all :
      (files : Map Text Text) (ks : List Text) (k : Text)
      → get (delete_all files ks) k ≡ (if among ks k then none else get files k)
  unfolding delete_all
  get-delete_all files [] k = refl
  get-delete_all files (j ∷ ks) k =
      ground (arith, get-delete_all (erase files j) ks k, get-erase files j k)

  abbrev left_after : Map Text Text → String → Where → Map Text Text
  left_after files name w =
      delete_all files
        (doomed (read_files parse files (list_keys files (collection_prefix name))) w)

  -- The files that are deleted are those of the documents of the collection that match.
  document_at-left_after :
      (files : Map Text Text) (name other : String) (w : Where) (id : Text)
      → IsFolder name
      → IsFolder other
      → document_at parse (left_after files name w) other id ≡ (
          if str_eq name other
          then kept w (document_at parse files other id)
          else document_at parse files other id)
  unfolding document_at
  document_at-left_after files name other w id h k =
      let key = document_key other id in
      let keys = list_keys files (collection_prefix name) in
      let found_keys = among-list_keys files (collection_prefix name) key in
      let folder = starts_with-document_key name other id h k in
      let dead = among-doomed files keys w key in
      let gone = get-delete_all files (doomed (read_files parse files keys) w) key in
      elim (Option-cases (get files key)) [
        | inl absent ↦ ground (arith, absent, found_keys, folder, dead, gone, has-get files key)
        | inr (body, there) ↦ elim (Option-cases (parse body)) [
          | inl unread ↦
              ground (arith, there, unread, found_keys, folder, dead, gone, has-get files key)
          | inr (d, read) ↦
              ground (arith, there, read, found_keys, folder, dead, gone, has-get files key)
        ]
      ]

  left_held :
      (fs : FsStore) (memory : Store) (name : String) (w : Where) (c : Collection) (other : String)
      (id : Text)
      → IsFolder name
      → IsFolder other
      → IsValid memory
      → Agrees parse fs memory
      → get memory.collections name ≡ some c
      → document_at parse (left_after fs.files name w) other id
        ≡ (if str_eq name other then get (without c w) id else document_at parse fs.files other id)
  unfolding collection_of
  left_held fs memory name w c other id k l v h here =
      document_at-left_after fs.files name other w id k l ∙ (elim (Bool-cases (str_eq name other)) [
        | inl same ↦
            let there : get memory.collections other ≡ some c =
              subst (λ (n : String). get memory.collections n ≡ some c) ((eq_iff name other).0 same)
                here in
            let before : document_at parse fs.files other id ≡ get c id =
              h.held other id l ∙ ap (λ (o : Option Collection). get (documents_of o) id) there in
            rw same (ap (kept w) before ∙ sym (get-without c w id (v name c (rw here refl))))
        | inr different ↦ rw different refl
      ])

  pub fs_remove-SameOutcome :
      (fs : FsStore) (memory : Store) (name : String) (w : Where)
      → IsFolder name
      → IsValid memory
      → Agrees parse fs memory
      → SameOutcome parse (fs_remove parse fs name w) (store_remove memory name w)
  unfolding fs_remove read_all fs_primary_key_of store_remove collection_of
  fs_remove-SameOutcome fs memory name w k v h = elim (Result-cases (assert_non_empty_where w)) [
    | inl (allowed, fine) ↦ rw fine (elim (collection_cases parse fs memory name h) [
      | inl (missing, absent) ↦ rw (missing, absent) refl
      | inr (spec, c, known, here) ↦
          rw (known, here)
            (replaced-Agrees parse fs memory name (left_after fs.files name w) c (without c w) h
              here (λ other id l. left_held fs memory name w c other id k l v h here))
    ])
    | inr (e, bad) ↦ rw bad refl
  ]
