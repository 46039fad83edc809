-- ===== src/Discovery/Store/Opening.antt =====
-- `DiscoveryStore.open` and `loadState` of apps/workers/src/discovery/store/store.ts over the in-memory
-- store. `toLowerCase`, the hash and the text of an error are parameters.
pub mod Resuming
mod Examples
use keco.Prelude.{ℕ, Bool, true, false, Option, none, some, List, [], ◌∷◌, if◌then◌else◌}
use keco.Prelude.Text.{Text}
use keco.Prelude.Maps.{Map, put, nat_key}
use keco.DataStore.Values.{text, Document}
use keco.DataStore.Port.{StoreError, Result, ok, err, ◌>>=◌}
use keco.DataStore.Memory.{ensure, store_put, store_get, store_list, store_remove}
use keco.DataStore.Memory
use keco.Discovery.Collections.{repos, state, discovery_collections, Content, DiscoveryState}
use keco.Discovery.Collections.Slug.{slugify_query}
use keco.Discovery.Store.{Backend, KnownRepo, Store, open_with, write_run}
use keco.Discovery.Store.Schemas.{StateDocument, parse_state, parse_known}

pub record OpenOptions : Type 0 where
  pub fresh : Bool
  pub now : ℕ
  pub run_id : Text
  pub limit : Option ℕ

unfoldable pub state_of : StateDocument → DiscoveryState
state_of d = record {
  query = d.query;
  started_at = d.started_at;
  pending_windows = d.pending_windows;
  completed_windows = d.completed_windows;
  failed_windows = d.failed_windows;
  repos_seen = d.repos_seen;
  pages_fetched = d.pages_fetched;
  dropped = d.dropped;
}

unfoldable pub validated : Option Document → Option DiscoveryState
unfolding state_of
validated none = none
validated (some raw) = elim (parse_state raw) [ none ↦ none | some d ↦ some (state_of d) ]

unfoldable pub load_state : Memory.Store → Text → Result (Option DiscoveryState)
unfolding validated
load_state m query_slug = do raw ← store_get m state query_slug; ok (validated raw)

-- The loop over the corpus: a row that does not parse is dropped.
unfoldable pub take_known : Map ℕ KnownRepo → List Document → Map ℕ KnownRepo
take_known known [] = known
take_known known (row ∷ rows) = elim (parse_known row) [
  | none ↦ take_known known rows
  | some d ↦
      take_known
        (put known d.repo_id
          (record { payload_hash = d.payload_hash; first_seen_run_id = d.first_seen_run_id }))
        rows
]

unfoldable pub load_known : Memory.Store → Text → Result (Map ℕ KnownRepo)
unfolding take_known
load_known m query_slug = do
  rows ← store_list m repos (record {
    filter = some (("query_slug", text query_slug) ∷ []);
    fields = some ("repo_id" ∷ "payload_hash" ∷ "first_seen_run_id" ∷ []);
    sort = none;
    limit = none;
  })
  ok (take_known [] rows)

-- Both removals of `--fresh`.
unfoldable pub clear : Memory.Store → Text → Result Memory.Store
clear m query_slug = do
  cleared ← store_remove m repos (("query_slug", text query_slug) ∷ [])
  store_remove cleared state (("query_slug", text query_slug) ∷ [])

abbrev known_of : Option DiscoveryState → Memory.Store → Text → Result (Map ℕ KnownRepo)
known_of none m query_slug = ok []
known_of (some _) m query_slug = load_known m query_slug

module _ (hash : Content → Text) (message : StoreError → Text) where
  -- The in-memory store as what a `DiscoveryStore` is given.
  unfoldable pub memory_backend : Backend Memory.Store
  memory_backend = record {
    write = λ m name documents durable. elim (store_put m name documents) [
      | ok written ↦ (written, none)
      | err e ↦ (m, some (message e))
    ];
    hash = hash;
  }

module _ (lower : Text → Text) (hash : Content → Text) (message : StoreError → Text) where
  -- `open` once the query has its slug.
  unfoldable pub open_slug :
      Memory.Store → Text → Text → OpenOptions → Result (Store Memory.Store × Option Text)
  unfolding load_state load_known clear memory_backend
  open_slug m query query_slug options = do
    let ensured = ensure m discovery_collections
    begun ← (if options.fresh then clear ensured query_slug else ok ensured)
    stored ← (if options.fresh then ok none else load_state begun query_slug)
    known ← known_of stored begun query_slug
    ok (
        open_with (memory_backend hash message) begun query query_slug options.run_id options.now
          options.fresh options.limit stored known)

  -- `none` is the throw of `slugifyQuery`.
  unfoldable pub open_store :
      Memory.Store → Text → OpenOptions → Option (Result (Store Memory.Store × Option Text))
  unfolding open_slug
  open_store m query options = elim (slugify_query lower query) [
    | none ↦ none
    | some query_slug ↦ some (open_slug m query query_slug options)
  ]
