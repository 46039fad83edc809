-- ===== src/Discovery/Store/Schemas.antt =====
-- apps/workers/src/discovery/store/schemas.ts: what is read back out of a store. A parser returns none
-- where the schema's `safeParse` fails. The numbers are the model's, so no count is negative.
pub mod Roundtrip
use keco.Prelude.{
  ℕ, String, Bool, true, false, Option, none, some, List, [], ◌∷◌, str_eq, if◌then◌else◌,
}
use keco.Prelude.Text.{Text, codes, text_eq}
use keco.DataStore.Values.{
  Value, null, num, text, arr, obj, Items, nil, cons, Fields, end, entry, Document, field,
}
use keco.Discovery.Windows.{Created, years, year, quarter, month, day, Window}
use keco.Discovery.Collections.{FailedWindow}

-- What follows a parser that may fail.
infixl 5 ◌>>=◌
abbrev pub ◌>>=◌ {a b} : {X : Type a} {Y : Type b} → Option X → (X → Option Y) → Option Y
none >>= next = none
some x >>= next = next x

-- The fields of an object, and whether a field is there.
abbrev pub in_fields : Fields → String → Option Value
in_fields end name = none
in_fields (entry other v rest) name = if str_eq other name then some v else in_fields rest name

-- `z.string()`
unfoldable pub as_string : Option Value → Option Text
as_string (some (text t)) = some t
as_string _ = none

-- `z.number()`
unfoldable pub as_number : Option Value → Option ℕ
as_number (some (num n)) = some n
as_number _ = none

-- `.default(…)` stands in for a field that is not there, and for no other.
unfoldable pub string_or : Text → Option Value → Option Text
unfolding as_string
string_or fallback none = some fallback
string_or fallback (some v) = as_string (some v)

unfoldable pub number_or : ℕ → Option Value → Option ℕ
unfolding as_number
number_or fallback none = some fallback
number_or fallback (some v) = as_number (some v)

-- `z.array(…)`: every item passes.
module _ {ℓ} {A : Type ℓ} (parse : Value → Option A) where
  unfoldable pub parse_items : Items → Option (List A)
  parse_items nil = some []
  parse_items (cons v rest) = do x ← parse v; xs ← parse_items rest; some (x ∷ xs)

  unfoldable pub as_array : Option Value → Option (List A)
  unfolding parse_items
  as_array (some (arr items)) = parse_items items
  as_array _ = none

unfoldable pub created_of_kind : Text → Fields → Option Created
unfolding as_string as_number text_eq
created_of_kind kind fields =
    if text_eq kind (codes "years")
    then (do
      from ← as_number (in_fields fields "from")
      to ← as_number (in_fields fields "to")
      some (years from to))
    else if text_eq kind (codes "year")
    then (do y ← as_number (in_fields fields "year"); some (year y))
    else if text_eq kind (codes "quarter")
    then (do
      y ← as_number (in_fields fields "year")
      q ← as_number (in_fields fields "quarter")
      some (quarter y q))
    else if text_eq kind (codes "month")
    then (do
      y ← as_number (in_fields fields "year")
      m ← as_number (in_fields fields "month")
      some (month y m))
    else if text_eq kind (codes "day")
    then (do date ← as_string (in_fields fields "date"); some (day date))
    else none

unfoldable pub parse_created : Value → Option Created
unfolding created_of_kind as_string
parse_created (obj fields) = do
  kind ← as_string (in_fields fields "kind")
  created_of_kind kind fields
parse_created _ = none

-- `.nullable()`: the field is there.
unfoldable pub nullable_created : Option Value → Option (Option Created)
unfolding parse_created
nullable_created none = none
nullable_created (some null) = some none
nullable_created (some v) = do c ← parse_created v; some (some c)

unfoldable pub parse_window : Value → Option Window
unfolding as_string nullable_created
parse_window (obj fields) = do
  base ← as_string (in_fields fields "base")
  stars ← as_string (in_fields fields "stars")
  created ← nullable_created (in_fields fields "created")
  some (record { base = base; stars = stars; created = created })
parse_window _ = none

unfoldable pub parse_failed_window : Value → Option FailedWindow
unfolding as_string
parse_failed_window (obj fields) = do
  window ← as_string (in_fields fields "window")
  error ← as_string (in_fields fields "error")
  some (record { window = window; error = error })
parse_failed_window _ = none

unfoldable pub parse_text : Value → Option Text
unfolding as_string
parse_text v = as_string (some v)

pub record StateDocument : Type 0 where
  pub query_slug : Text
  pub query : Text
  pub started_at : Text
  pub updated_at : Text
  pub current_run_id : Text
  pub pending_windows : List Window
  pub completed_windows : List Text
  pub failed_windows : List FailedWindow
  pub repos_seen : ℕ
  pub pages_fetched : ℕ
  pub dropped : ℕ

unfoldable pub parse_state : Document → Option StateDocument
unfolding as_string as_number string_or number_or as_array parse_window parse_failed_window
    parse_text
parse_state d = do
  query_slug ← as_string (field d "query_slug")
  query ← as_string (field d "query")
  started_at ← as_string (field d "started_at")
  updated_at ← string_or [] (field d "updated_at")
  current_run_id ← string_or [] (field d "current_run_id")
  pending_windows ← as_array parse_window (field d "pending_windows")
  completed_windows ← as_array parse_text (field d "completed_windows")
  failed_windows ← as_array parse_failed_window (field d "failed_windows")
  repos_seen ← as_number (field d "repos_seen")
  pages_fetched ← as_number (field d "pages_fetched")
  dropped ← number_or 0 (field d "dropped")
  some (record {
    query_slug = query_slug;
    query = query;
    started_at = started_at;
    updated_at = updated_at;
    current_run_id = current_run_id;
    pending_windows = pending_windows;
    completed_windows = completed_windows;
    failed_windows = failed_windows;
    repos_seen = repos_seen;
    pages_fetched = pages_fetched;
    dropped = dropped;
  })

-- A `KnownRepo` of this file, beside the one of store.ts, which goes without the id.
pub record KnownRow : Type 0 where
  pub repo_id : ℕ
  pub payload_hash : Text
  pub first_seen_run_id : Text

unfoldable pub parse_known : Document → Option KnownRow
unfolding as_string as_number string_or
parse_known d = do
  repo_id ← as_number (field d "repo_id")
  payload_hash ← as_string (field d "payload_hash")
  first_seen_run_id ← string_or [] (field d "first_seen_run_id")
  some (record {
    repo_id = repo_id;
    payload_hash = payload_hash;
    first_seen_run_id = first_seen_run_id;
  })
