-- ===== src/DataStore/Memory/Laws.antt =====
-- What the in-memory store of apps/workers/src/lib/data-store.memory.ts promises to its clients.
use keco.Prelude.{
  String, ◌≡◌, refl, ap, sym, ◌∙◌, inl, inr, Option, some, List, [], ◌∷◌, arith, length, Bool-cases,
  if◌then◌else◌, str_eq,
}
use keco.Prelude.Text.{Text, text_eq}
use keco.Prelude.Maps.{get, put, get-put, string_key, text_key}
use keco.DataStore.Values.{Value, text, Document, field, strict_eq}
use keco.DataStore.Port.{
  Result, ok, err, ◌>>=◌, Where, holds, assert_document_id, check_document_id,
}
use keco.DataStore.Memory.{
  Collection, Store, collection_of, primary_key_of, keyed, set_all, store_put, store_get,
  count_matching, matching,
}

-- The document that a batch leaves under an id: the last one that carries it.
abbrev pub last_of : Text → List (Text × Document) → Option Document → Option Document
last_of id [] old = old
last_of id ((j, d) ∷ rest) old = last_of id rest (if text_eq j id then some d else old)

pub get-set_all :
    (c : Collection) (batch : List (Text × Document)) (id : Text)
    → get (set_all c batch) id ≡ last_of id batch (get c id)
unfolding set_all
get-set_all c [] id = refl
get-set_all c ((j, d) ∷ rest) id = rw (get-set_all (put c j d) rest id, get-put c j id d)

-- Where a chain of calls throws nothing, its first call threw nothing.
pub first_ok {a b} :
    {X : Type a} {Y : Type b} (call : Result X) (next : X → Result Y) {y : Y}
    → (call >>= next) ≡ ok y
    → (x : X) × (call ≡ ok x) × (next x ≡ ok y)
first_ok (err thrown) next e = cc
first_ok (ok x) next e = (x, refl, e)

-- The document that a batch of documents leaves under an id: the last one whose key field is the
-- id, or else the one that was there.
abbrev pub latest : String → Text → List Document → Option Document → Option Document
latest key id [] old = old
latest key id (d ∷ ds) old =
    latest key id ds (if holds (field d key) (text id) then some d else old)

check_document_id-eq : (x id : Text) → check_document_id x ≡ ok id → x ≡ id
unfolding check_document_id
check_document_id-eq x id e = ground arith

-- A document id that passes the check is the text of the key field.
assert_document_id-holds :
    (v : Option Value) (id j : Text)
    → assert_document_id v ≡ ok id
    → holds v (text j) ≡ text_eq id j
unfolding assert_document_id strict_eq
assert_document_id-holds (some (text x)) id j e = rw (check_document_id-eq x id e)
assert_document_id-holds _ id j e = cc

pub ok-injective {ℓ} : {A : Type ℓ} {a b : A} → ok a ≡ ok b → a ≡ b
ok-injective {A} {a} e = ap (λ (r : Result A). elim r [ ok x ↦ x | err _ ↦ a ]) e

last_of-keyed :
    (key : String) (ds : List Document) (batch : List (Text × Document)) (id : Text)
    (old : Option Document)
    → keyed key ds ≡ ok batch
    → last_of id batch old ≡ latest key id ds old
unfolding keyed
last_of-keyed key [] batch id old e = rw (← ok-injective e)
last_of-keyed key (d ∷ ds) batch id old e =
    let (j, checked, e1) = first_ok (assert_document_id (field d key)) _ e in
    let (rest, more, e2) = first_ok (keyed key ds) _ e1 in
    rw (← ok-injective e2, assert_document_id-holds (field d key) j id checked)
      (last_of-keyed key ds rest id (if text_eq j id then some d else old) more)

get_of_written :
    (s : Store) (name other : String) (batch : List (Text × Document)) (target : Collection)
    (id : Text)
    → collection_of s name ≡ ok target
    → store_get (record s { collections = put s.collections name (set_all target batch) }) other id
      ≡ (if str_eq name other then ok (last_of id batch (get target id)) else store_get s other id)
unfolding store_get collection_of
get_of_written s name other batch target id e = rw get-put (elim (Bool-cases (str_eq name other)) [
  | inl same ↦ rw same (ap ok (get-set_all target batch id))
  | inr different ↦ rw different refl
])

-- After a `put` that succeeds, an id of that collection holds the last document of the batch that
-- carries it, or what it held before; every other collection is as it was.
pub store_get-store_put :
    (s t : Store) (name other key : String) (documents : List Document) (id : Text)
    → primary_key_of s name ≡ ok key
    → store_put s name documents ≡ ok t
    → store_get t other id ≡ (
        if str_eq name other
        then (do old ← store_get s name id; ok (latest key id documents old))
        else store_get s other id)
unfolding store_put
store_get-store_put s t name other key documents id known e =
    let (key', keys, e1) = first_ok (primary_key_of s name) _ e in
    let (batch, keyed_by, e2) = first_ok (keyed key' documents) _ e1 in
    let (target, targets, e3) = first_ok (collection_of s name) _ e2 in
    let same_key : key' ≡ key = ok-injective (sym keys ∙ known) in
    let before : store_get s name id ≡ ok (get target id) = unfold store_get in rw targets in
    rw (← ok-injective e3, get_of_written s name other batch target id targets, before)
      (ap (λ (o : Option Document). if str_eq name other then ok o else store_get s other id)
        (last_of-keyed key documents batch id (get target id) (rw same_key at keyed_by)))

length-matching : (c : Collection) (w : Option Where) → length (matching c w) ≡ count_matching c w
unfolding matching count_matching
length-matching [] w = refl
length-matching ((id, d) ∷ c) w = ground (arith, length-matching c w)
