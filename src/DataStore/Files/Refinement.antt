-- ===== src/DataStore/Files/Refinement.antt =====
-- The file-system store of apps/workers/src/lib/data-store.fs.ts answers as the in-memory store of
-- apps/workers/src/lib/data-store.memory.ts does.
use keco.Prelude.{
  ◌≡◌, refl, ◌∙◌, ◌⊎◌, inl, inr, true, ◌&&◌, Bool-cases, Option-cases, String, Option, none, some,
  List, [], ◌∷◌, arith, All, if◌then◌else◌, str_eq,
}
use mathlib.Core.Path.{subst}
use keco.Prelude.Text.{Text, text_eq, text_eq_iff}
use keco.Prelude.Maps.{Map, get, has, put, get-put, has-get, string_key, text_key}
use keco.DataStore.Values.{Value, text, Document, field}
use keco.DataStore.Port.{ok, ◌>>=◌, CollectionSpec, assert_document_id, check_document_id}
use keco.DataStore.Memory.{Collection, Store, found, collection_of, keyed, store_get}
use keco.DataStore.Memory.Laws.{last_of, first_ok, ok-injective}
use keco.DataStore.Files.{
  FsStore, document_key, is_stored_id, fs_primary_key_of, write_all, fs_get, parsed,
}
use keco.DataStore.Files.Keys.{IsFolder, document_key-eq}

check_document_id-stored : (x id : Text) → check_document_id x ≡ ok id → is_stored_id id ≡ true
unfolding check_document_id is_stored_id
check_document_id-stored x id e = ground arith

-- Ids that `put` accepts are ids that `get` looks up.
assert_document_id-stored :
    (v : Option Value) (id : Text) → assert_document_id v ≡ ok id → is_stored_id id ≡ true
unfolding assert_document_id
assert_document_id-stored (some (text x)) id e = check_document_id-stored x id e
assert_document_id-stored _ id e = cc

module _ (parse : Text → Option Document) (stringify : Document → Text) where
  -- The document's text is read back as the document.
  abbrev pub IsWritten : Document → Type 0
  IsWritten d = parse (stringify d) ≡ some d

  -- The ids and the documents of a batch that was checked.
  abbrev pub AreStored : List (Text × Document) → Type 0
  AreStored = All (λ (e : Text × Document). (is_stored_id e.0 ≡ true) × IsWritten e.1)

  pub keyed-AreStored :
      (key : String) (ds : List Document) (batch : List (Text × Document))
      → All IsWritten ds
      → keyed key ds ≡ ok batch
      → AreStored batch
  unfolding keyed
  keyed-AreStored key [] batch w e = subst AreStored (ok-injective e) tt
  keyed-AreStored key (d ∷ ds) batch w e =
      let (j, checked, e1) = first_ok (assert_document_id (field d key)) _ e in
      let (rest, more, e2) = first_ok (keyed key ds) _ e1 in
      subst AreStored (ok-injective e2) (
        (assert_document_id-stored (field d key) j checked, w.0),
        keyed-AreStored key ds rest w.1 more,
      )

abbrev pub documents_of : Option Collection → Collection
documents_of none = []
documents_of (some c) = c

module _ (parse : Text → Option Document) where
  -- The document of a file.
  unfoldable pub document_at : Map Text Text → String → Text → Option Document
  document_at files name id =
      if is_stored_id id then parsed parse (get files (document_key name id)) else none

  -- The same collections, and the same documents in them.
  pub record Agrees (fs : FsStore) (memory : Store) : Type 0 where
    pub specs : fs.specs ≡ memory.specs
    pub named : (name : String) → has fs.specs name ≡ has memory.collections name
    pub held :
        (name : String) (id : Text)
        → IsFolder name
        → document_at fs.files name id ≡ get (documents_of (get memory.collections name)) id

  fs_get-document_at :
      (fs : FsStore) (name : String) (id : Text)
      → fs_get parse fs name id ≡ (
          found (get fs.specs name) >>= λ (spec : CollectionSpec).
          ok (document_at fs.files name id))
  unfolding fs_get fs_primary_key_of document_at
  fs_get-document_at fs name id = elim (Option-cases (get fs.specs name)) [
    | inl missing ↦ rw missing refl
    | inr (spec, here) ↦ rw here refl
  ]

  -- A collection has a specification exactly when it is there.
  pub collection_cases :
      (fs : FsStore) (memory : Store) (name : String)
      → Agrees fs memory
      → ((get fs.specs name ≡ none) × (get memory.collections name ≡ none))
        ⊎ ((spec : CollectionSpec) × (c : Collection) × (get fs.specs name ≡ some spec)
            × (get memory.collections name ≡ some c))
  collection_cases fs memory name h = elim (Option-cases (get fs.specs name)) [
    | inl missing ↦ elim (Option-cases (get memory.collections name)) [
      | inl absent ↦ inl (missing, absent)
      | inr (c, here) ↦
          absurd
            (ground (arith, h.named name, has-get fs.specs name, has-get memory.collections name))
    ]
    | inr (spec, known) ↦ elim (Option-cases (get memory.collections name)) [
      | inl absent ↦
          absurd
            (ground (arith, h.named name, has-get fs.specs name, has-get memory.collections name))
      | inr (c, here) ↦ inr (spec, c, known, here)
    ]
  ]

  -- Stores that agree answer every `get` alike, also for a collection that is not there and for an
  -- id that is none.
  pub fs_get-Agrees :
      (fs : FsStore) (memory : Store) (name : String) (id : Text)
      → Agrees fs memory
      → IsFolder name
      → fs_get parse fs name id ≡ store_get memory name id
  unfolding store_get collection_of
  fs_get-Agrees fs memory name id h k =
      fs_get-document_at fs name id ∙ (elim (collection_cases fs memory name h) [
        | inl (missing, absent) ↦ rw (missing, absent) refl
        | inr (spec, c, known, here) ↦ rw (known, h.held name id k, here) refl
      ])

  document_at-put :
      (files : Map Text Text) (name other : String) (j id body : Text)
      → IsFolder name
      → IsFolder other
      → is_stored_id j ≡ true
      → document_at (put files (document_key name j) body) other id
        ≡ (if str_eq name other && text_eq j id then parse body else document_at files other id)
  unfolding document_at
  document_at-put files name other j id body h k s = elim (Bool-cases (is_stored_id id)) [
    | inl stored ↦
        let key = document_key-eq name other j id h k s stored in
        let found_there = get-put files (document_key name j) (document_key other id) body in
        ground (arith, stored, key, found_there)
    | inr refused ↦ ground (arith, refused, s, text_eq_iff j id)
  ]

  pub document_at-write_all :
      (stringify : Document → Text) (files : Map Text Text) (name other : String)
      (batch : List (Text × Document)) (id : Text)
      → IsFolder name
      → IsFolder other
      → AreStored parse stringify batch
      → document_at (write_all stringify files name batch) other id ≡ (
          if str_eq name other
          then last_of id batch (document_at files other id)
          else document_at files other id)
  unfolding write_all
  document_at-write_all stringify files name other [] id h k s = ground arith
  document_at-write_all stringify files name other ((j, d) ∷ rest) id h k s =
      let once = put files (document_key name j) (stringify d) in
      let one = document_at-put files name other j id (stringify d) h k s.0.0 in
      let more = document_at-write_all stringify once name other rest id h k s.1 in
      more ∙ (elim (Bool-cases (str_eq name other)) [
        | inl same ↦ rw (one, same, s.0.1) refl
        | inr different ↦ rw (one, different) refl
      ])
