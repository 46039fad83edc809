-- ===== src/DataStore/Memory/Keys.antt =====
-- The invariant of the in-memory store: no document id stands twice in a collection; and what it
-- gives for `remove`.
use keco.Prelude.{
  String, ◌≡◌, refl, ap, inl, inr, false, Option, none, some, List, [], ◌∷◌, arith, Bool-cases,
  if◌then◌else◌, str_eq, eq_refl,
}
use mathlib.Core.Path.{subst}
use keco.Prelude.Text.{Text, text_eq_iff}
use keco.Prelude.Maps.{
  get, has, put, get-put, get_of_not_has, HasUniqueKeys, put-HasUniqueKeys, string_key, text_key,
}
use keco.DataStore.Values.{Document}
use keco.DataStore.Port.{ok, ◌>>=◌, Where, CollectionSpec, matches_where, assert_non_empty_where}
use keco.DataStore.Memory.{
  Collection, Store, empty, ensure, ensure_one, collection_of, primary_key_of, keyed, set_all,
  store_put, store_get, store_count, count_matching, without, store_remove,
}
use keco.DataStore.Memory.Laws.{first_ok, ok-injective}

abbrev pub IsValid : Store → Type 0
IsValid s = (name : String) (c : Collection) → collection_of s name ≡ ok c → HasUniqueKeys c

pub empty-IsValid : IsValid empty
unfolding collection_of get
empty-IsValid name c e = cc

-- Replacing one collection by a valid one.
pub replaced-IsValid :
    (s : Store) (name : String) (c : Collection)
    → IsValid s
    → HasUniqueKeys c
    → IsValid (record s { collections = put s.collections name c })
unfolding collection_of
replaced-IsValid s name c v h other d e = elim (Bool-cases (str_eq name other)) [
  | inl same ↦ rw (← ok-injective (rw (get-put, same) at e)) h
  | inr different ↦ v other d (rw (get-put, different) at e)
]

set_all-HasUniqueKeys :
    (c : Collection) (batch : List (Text × Document))
    → HasUniqueKeys c
    → HasUniqueKeys (set_all c batch)
unfolding set_all
set_all-HasUniqueKeys c [] h = h
set_all-HasUniqueKeys c ((id, d) ∷ rest) h =
    set_all-HasUniqueKeys (put c id d) rest (put-HasUniqueKeys c id d h)

pub store_put-IsValid :
    (s t : Store) (name : String) (documents : List Document)
    → IsValid s
    → store_put s name documents ≡ ok t
    → IsValid t
unfolding store_put
store_put-IsValid s t name documents v e =
    let (key, keys, e1) = first_ok (primary_key_of s name) _ e in
    let (batch, keyed_by, e2) = first_ok (keyed key documents) _ e1 in
    let (target, targets, e3) = first_ok (collection_of s name) _ e2 in
    subst IsValid (ok-injective e3) (
      replaced-IsValid s name (set_all target batch) v
        (set_all-HasUniqueKeys target batch (v name target targets)))

has-without :
    (c : Collection) (w : Where) (id : Text) → has c id ≡ false → has (without c w) id ≡ false
unfolding has without
has-without [] w id h = refl
has-without ((j, d) ∷ c) w id h = ground (arith, has-without c w id)

without-HasUniqueKeys : (c : Collection) (w : Where) → HasUniqueKeys c → HasUniqueKeys (without c w)
unfolding without
without-HasUniqueKeys [] w h = tt
without-HasUniqueKeys ((j, d) ∷ c) w h =
    ground (arith, has-without c w j, without-HasUniqueKeys c w)

pub store_remove-IsValid :
    (s t : Store) (name : String) (w : Where) → IsValid s → store_remove s name w ≡ ok t → IsValid t
unfolding store_remove
store_remove-IsValid s t name w v e =
    let (_, given, e1) = first_ok (assert_non_empty_where w) _ e in
    let (target, targets, e2) = first_ok (collection_of s name) _ e1 in
    subst IsValid (ok-injective e2) (
      replaced-IsValid s name (without target w) v
        (without-HasUniqueKeys target w (v name target targets)))

ensure_one-IsValid : (s : Store) (spec : CollectionSpec) → IsValid s → IsValid (ensure_one s spec)
unfolding ensure_one collection_of
ensure_one-IsValid s spec v name c e = elim (Bool-cases (has s.collections spec.name)) [
  | inl known ↦ v name c (rw known at e)
  | inr new ↦ replaced-IsValid s spec.name [] v tt name c (rw new at e)
]

pub ensure-IsValid :
    (s : Store) (specs : List CollectionSpec) → IsValid s → IsValid (ensure s specs)
unfolding ensure
ensure-IsValid s [] v = v
ensure-IsValid s (spec ∷ specs) v =
    ensure-IsValid (ensure_one s spec) specs (ensure_one-IsValid s spec v)

-- What `remove` leaves under an id.
abbrev pub kept : Where → Option Document → Option Document
kept w none = none
kept w (some d) = if matches_where d (some w) then none else some d

pub get-without :
    (c : Collection) (w : Where) (id : Text)
    → HasUniqueKeys c
    → get (without c w) id ≡ kept w (get c id)
unfolding get without
get-without [] w id h = refl
get-without ((j, d) ∷ c) w id h =
    ground (arith, get-without c w id, text_eq_iff j id, get_of_not_has c j)

count-without : (c : Collection) (w : Where) → count_matching (without c w) (some w) ≡ 0
unfolding count_matching without
count-without [] w = refl
count-without ((j, d) ∷ c) w = ground (arith, count-without c w)

get_of_replaced :
    (s : Store) (name other : String) (c : Collection) (id : Text)
    → store_get (record s { collections = put s.collections name c }) other id
      ≡ (if str_eq name other then ok (get c id) else store_get s other id)
unfolding store_get collection_of
get_of_replaced s name other c id =
    rw get-put
      (elim (Bool-cases (str_eq name other)) [ inl same ↦ rw same | inr different ↦ rw different ])

-- After a `remove` that succeeds no document of the collection matches; those that did not match
-- are as they were, and so is every other collection.
pub store_remove_lem :
    (s t : Store) (name : String) (w : Where)
    → IsValid s
    → store_remove s name w ≡ ok t
    → (store_count t name (some w) ≡ ok 0)
      × ((other : String) (id : Text)
          → store_get t other id ≡ (
              if str_eq name other
              then (do old ← store_get s name id; ok (kept w old))
              else store_get s other id))
unfolding store_remove
store_remove_lem s t name w v e =
    let (_, given, e1) = first_ok (assert_non_empty_where w) _ e in
    let (target, targets, e2) = first_ok (collection_of s name) _ e1 in
    rw (← ok-injective e2) (
      unfold store_count collection_of in
          rw (get-put, eq_refl name) (ap ok (count-without target w)),
      λ other id.
          let before : store_get s name id ≡ ok (get target id) = unfold store_get in rw targets in
          rw (
            get_of_replaced s name other (without target w) id,
            before,
            get-without target w id (v name target targets),
          ),
    )
