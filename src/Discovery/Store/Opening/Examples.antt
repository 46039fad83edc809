-- ===== src/Discovery/Store/Opening/Examples.antt =====
-- A flush over the in-memory store, and the run that resumes it.
use keco.Prelude.{◌≡◌, refl, false, none, some, [], ◌∷◌}
use keco.Prelude.Text.{codes, text_eq}
use keco.Prelude.Maps.{get, put, has, string_key, text_key}
use keco.DataStore.Port.{ok, assert_document_id, check_document_id, all_id_chars}
use keco.DataStore.Memory.{
  ensure, ensure_one, empty, store_put, primary_key_of, collection_of, keyed, set_all,
}
use keco.DataStore.Memory
use keco.Discovery.Clock.{to_iso_string}
use keco.Discovery.Windows.{quarter}
use keco.Discovery.Collections.{DiscoveryState, to_state_document, state, discovery_collections}
use keco.Discovery.Store.{Store, flush, write_state, write_batches}
use keco.Discovery.Store.Schemas.{parse_state}
use keco.Discovery.Store.Schemas.Roundtrip.{parse_state-to_state_document}
use keco.Discovery.Store.Opening.{OpenOptions, memory_backend, open_slug}
use keco.Discovery.Store.Opening.Resuming.{open_slug-flush}

abbrev half : DiscoveryState
half = record {
  query = codes "q";
  started_at = codes "t";
  pending_windows =
      record { base = codes "q"; stars = codes ">5000"; created = some (quarter 2024 1) } ∷ [];
  completed_windows = codes "w" ∷ [];
  failed_windows = record { window = codes "v"; error = codes "boom" } ∷ [];
  repos_seen = 0;
  pages_fetched = 7;
  dropped = 1;
}

abbrev provisioned : Memory.Store
provisioned = ensure empty discovery_collections

abbrev running_store : Store Memory.Store
running_store = record {
  backend = provisioned;
  query = codes "q";
  query_slug = codes "q";
  known = [];
  state = half;
  run_id = codes "r";
  started_at = 0;
  fresh = false;
  limit = none;
  seen_this_run = [];
  pending_repos = [];
  windows_since_flush = 1;
  last_flush_at = 0;
  run_counts = record { new = 0; changed = 0; unchanged = 0 };
  opened_with = record {
    pages_fetched = 0;
    dropped = 0;
    windows_completed = 0;
    windows_failed = 0;
  };
}

abbrev again : OpenOptions
again = record { fresh = false; now = 5; run_id = codes "s"; limit = none }

known_key : primary_key_of provisioned state ≡ ok "query_slug"
unfolding primary_key_of ensure ensure_one has put get
known_key = refl

flushed : (flush (memory_backend (λ c. []) (λ e. [])) running_store 5).1 ≡ none
unfolding flush write_state write_batches memory_backend store_put primary_key_of collection_of
    keyed set_all ensure ensure_one has put get assert_document_id check_document_id all_id_chars
    text_eq to_state_document
flushed = refl

parse_state-to_state_document_example :
    parse_state (to_state_document half (codes "q") (codes "r") 5)
    ≡ some (record {
      query_slug = codes "q";
      query = codes "q";
      started_at = codes "t";
      updated_at = to_iso_string 5;
      current_run_id = codes "r";
      pending_windows =
          record { base = codes "q"; stars = codes ">5000"; created = some (quarter 2024 1) } ∷ [];
      completed_windows = codes "w" ∷ [];
      failed_windows = record { window = codes "v"; error = codes "boom" } ∷ [];
      repos_seen = 0;
      pages_fetched = 7;
      dropped = 1;
    })
parse_state-to_state_document_example = parse_state-to_state_document half (codes "q") (codes "r") 5

again_id : check_document_id again.run_id ≡ ok again.run_id
unfolding check_document_id all_id_chars text_eq
again_id = refl

open_slug-flush_example :
    let result = flush (memory_backend (λ c. []) (λ e. [])) running_store 5 in
    (opened : Store Memory.Store) × (open_slug
        (λ t. t)
        (λ c. [])
        (λ e. [])
        result.0.backend
        (codes "q")
        (codes "q")
        again
      ≡ ok (opened, none))
    × (opened.state ≡ result.0.state)
open_slug-flush_example =
    open_slug-flush (λ c. []) (λ e. []) (λ t. t) running_store 5 (codes "q") again known_key refl
      again_id flushed
