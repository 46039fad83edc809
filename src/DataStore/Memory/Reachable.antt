-- ===== src/DataStore/Memory/Reachable.antt =====
-- The states that the in-memory store can come to, by any order of calls that succeed.
use keco.Prelude.{◌≡◌, refl, String, List}
use keco.Prelude.Maps.{HasUniqueKeys, text_key}
use keco.DataStore.Values.{Document}
use keco.DataStore.Port.{Result, ok, err, Where, CollectionSpec}
use keco.DataStore.Memory.{Collection, Store, empty, collection_of, ensure, store_put, store_remove}
use keco.DataStore.Memory.Keys.{
  IsValid, empty-IsValid, ensure-IsValid, store_put-IsValid, store_remove-IsValid,
}

pub data Reachable : Store → Type 0 where
  fresh : Reachable empty
  ensured : (s : Store) (specs : List CollectionSpec) → Reachable s → Reachable (ensure s specs)
  written :
      (s t : Store) (name : String) (documents : List Document)
      → store_put s name documents ≡ ok t
      → Reachable s
      → Reachable t
  removed :
      (s t : Store) (name : String) (w : Where)
      → store_remove s name w ≡ ok t
      → Reachable s
      → Reachable t

pub Reachable-IsValid : (s : Store) → Reachable s → IsValid s
Reachable-IsValid s fresh = empty-IsValid
Reachable-IsValid s (ensured t specs r) = ensure-IsValid t specs (Reachable-IsValid t r)
Reachable-IsValid s (written t _ name documents e r) =
    store_put-IsValid t s name documents (Reachable-IsValid t r) e
Reachable-IsValid s (removed t _ name w e r) =
    store_remove-IsValid t s name w (Reachable-IsValid t r) e

abbrev pub IsKeyed : Result Collection → Type 0
IsKeyed (ok c) = HasUniqueKeys c
IsKeyed (err e) = Unit

IsKeyed-found :
    (m : Result Collection) → ((c : Collection) → m ≡ ok c → HasUniqueKeys c) → IsKeyed m
IsKeyed-found (ok c) h = h c refl
IsKeyed-found (err e) h = tt

-- In every state that calls of `ensure`, `put` and `remove` lead to, no document id stands twice in
-- any collection.
pub Reachable-IsKeyed : (s : Store) (name : String) → Reachable s → IsKeyed (collection_of s name)
Reachable-IsKeyed s name r = IsKeyed-found (collection_of s name) (Reachable-IsValid s r name)
