-- ===== src/DataStore/Memory/Ensuring.antt =====
-- What `ensure` and a `put` of one document leave in the in-memory store of
-- apps/workers/src/lib/data-store.memory.ts.
use keco.Prelude.{
  ◌≡◌, refl, ◌∙◌, ◌⊎◌, inl, inr, some, String, List, [], ◌∷◌, arith, eq_refl, eq_iff, Option-cases,
  Bool-cases,
}
use keco.Prelude.Text.{Text, text_eq_iff}
use keco.Prelude.Maps.{get, has, get-put, has-get, string_key, text_key}
use keco.DataStore.Values.{text, Document, field, strict_eq}
use keco.DataStore.Port.{StoreError, Result, ok, err, CollectionSpec}
use keco.DataStore.Memory.{
  ensure, ensure_one, store_put, store_get, store_list, primary_key_of, collection_of, keyed,
}
use keco.DataStore.Memory
use keco.DataStore.Memory.Laws.{first_ok, ok-injective, store_get-store_put}

pub Result-cases :
    {A : Type 0} (r : Result A) → ((a : A) × (r ≡ ok a)) ⊎ ((e : StoreError) × (r ≡ err e))
Result-cases (ok a) = inl (a, refl)
Result-cases (err e) = inr (e, refl)

ensure_one-keeps :
    (spec : CollectionSpec) (m : Memory.Store) (name : String) (c : Memory.Collection)
    → get m.collections name ≡ some c
    → get (ensure_one m spec).collections name ≡ some c
unfolding ensure_one
ensure_one-keeps spec m name c e = elim (Bool-cases (has m.collections spec.name)) [
  | inl there ↦ rw there e
  | inr absent ↦
      rw (absent, get-put m.collections spec.name name [])
        (ground (arith, eq_iff spec.name name, e, (has-get m.collections spec.name).1))
]

-- `ensure` keeps every collection that is there.
pub ensure-keeps :
    (specs : List CollectionSpec) (m : Memory.Store) (name : String) (c : Memory.Collection)
    → get m.collections name ≡ some c
    → get (ensure m specs).collections name ≡ some c
unfolding ensure ensure_one
ensure-keeps [] m name c e = e
ensure-keeps (spec ∷ specs) m name c e =
    ensure-keeps specs (ensure_one m spec) name c (ensure_one-keeps spec m name c e)

pub store_put-specs :
    (m t : Memory.Store) (name : String) (documents : List Document)
    → store_put m name documents ≡ ok t
    → t.specs ≡ m.specs
unfolding store_put
store_put-specs m t name documents e =
    let (key, keys, e1) = first_ok (primary_key_of m name) _ e in
    let (batch, keyed_by, e2) = first_ok (keyed key documents) _ e1 in
    let (target, targets, e3) = first_ok (collection_of m name) _ e2 in rw (← ok-injective e3) refl

-- `ensure` makes a collection that is not there, and keeps what `loadState` reads.
ensure_one-there :
    (spec : CollectionSpec) (m : Memory.Store)
    → (c : Memory.Collection) × (get (ensure_one m spec).collections spec.name ≡ some c)
unfolding ensure_one
ensure_one-there spec m = elim (Option-cases (get m.collections spec.name)) [
  | inl missing ↦ elim (Bool-cases (has m.collections spec.name)) [
    | inl there ↦ absurd ((has-get m.collections spec.name).0 there missing)
    | inr absent ↦
        ([], rw (absent, get-put m.collections spec.name spec.name [], eq_refl spec.name) refl)
  ]
  | inr (c, there) ↦ (c, ensure_one-keeps spec m spec.name c there)
]

pub ensure-there :
    (spec : CollectionSpec) (specs : List CollectionSpec) (m : Memory.Store)
    → (c : Memory.Collection) × (collection_of (ensure m (spec ∷ specs)) spec.name ≡ ok c)
unfolding collection_of ensure
ensure-there spec specs m =
    let (c, there) = ensure_one-there spec m in
    (c, rw (ensure-keeps specs (ensure_one m spec) spec.name c there) refl)

-- One document, put under its key, is what is read there.
pub store_get-put_one :
    (m t : Memory.Store) (name key : String) (d : Document) (id : Text)
    → primary_key_of m name ≡ ok key
    → field d key ≡ some (text id)
    → store_put m name (d ∷ []) ≡ ok t
    → store_get t name id ≡ ok (some d)
unfolding store_put store_get strict_eq
store_get-put_one m t name key d id known keyed_by e =
    let (key', keys, e1) = first_ok (primary_key_of m name) _ e in
    let (batch, checked, e2) = first_ok (keyed key' (d ∷ [])) _ e1 in
    let (target, targets, e3) = first_ok (collection_of m name) _ e2 in
    let before : store_get m name id ≡ ok (get target id) = unfold store_get in rw targets in
    store_get-store_put m t name name key (d ∷ []) id known e
    ∙ rw (eq_refl name, before, keyed_by) (rw ((text_eq_iff id id).1 refl) refl)
