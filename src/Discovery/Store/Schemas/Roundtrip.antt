-- ===== src/Discovery/Store/Schemas/Roundtrip.antt =====
-- The state document that discovery writes, read by the schema of
-- apps/workers/src/discovery/store/schemas.ts.
use keco.Prelude.{ℕ, ◌≡◌, refl, Option, none, some, List, [], ◌∷◌}
use keco.Prelude.Text.{Text, text_eq}
use keco.Prelude.Maps.{get, string_key, text_key}
use keco.Discovery.Clock.{to_iso_string}
use keco.Discovery.Windows.{Created, years, year, quarter, month, day, Window}
use keco.Discovery.Collections.{
  state, repos, Content, FailedWindow, DiscoveryState, to_state_document, discovery_collections,
  window_items, text_items, failed_items, window_value, created_value,
}
use keco.Discovery.Collections
use keco.Discovery.Store.Schemas.{
  parse_state, parse_created, parse_window, parse_failed_window, parse_text, parse_items, as_array,
  as_string, as_number, string_or, number_or, nullable_created, created_of_kind,
}

parse_created-value : (c : Created) → parse_created (created_value c) ≡ some c
unfolding parse_created created_of_kind as_string as_number text_eq
parse_created-value (years from to) = refl
parse_created-value (year y) = refl
parse_created-value (quarter y q) = refl
parse_created-value (month y m) = refl
parse_created-value (day date) = refl

nullable_created-value :
    (c : Option Created) → nullable_created (some (Collections.nullable_created c)) ≡ some c
unfolding nullable_created
nullable_created-value none = refl
nullable_created-value (some (years from to)) = rw (parse_created-value (years from to)) refl
nullable_created-value (some (year y)) = rw (parse_created-value (year y)) refl
nullable_created-value (some (quarter y q)) = rw (parse_created-value (quarter y q)) refl
nullable_created-value (some (month y m)) = rw (parse_created-value (month y m)) refl
nullable_created-value (some (day date)) = rw (parse_created-value (day date)) refl

parse_window-value : (w : Window) → parse_window (window_value w) ≡ some w
unfolding parse_window as_string
parse_window-value w = rw (nullable_created-value w.created) refl

parse_items-windows : (ws : List Window) → parse_items parse_window (window_items ws) ≡ some ws
unfolding parse_items
parse_items-windows [] = refl
parse_items-windows (w ∷ ws) = rw (parse_window-value w, parse_items-windows ws) refl

parse_items-texts : (ts : List Text) → parse_items parse_text (text_items ts) ≡ some ts
unfolding parse_items parse_text as_string
parse_items-texts [] = refl
parse_items-texts (t ∷ ts) = rw (parse_items-texts ts) refl

parse_items-failed :
    (fs : List FailedWindow) → parse_items parse_failed_window (failed_items fs) ≡ some fs
unfolding parse_items parse_failed_window as_string
parse_items-failed [] = refl
parse_items-failed (f ∷ fs) = rw (parse_items-failed fs) refl

-- The document that a flush writes parses, whatever the state, and gives back every field of it.
pub parse_state-to_state_document :
    (s : DiscoveryState) (query_slug run_id : Text) (now : ℕ)
    → parse_state (to_state_document s query_slug run_id now)
      ≡ some (record {
        query_slug = query_slug;
        query = s.query;
        started_at = s.started_at;
        updated_at = to_iso_string now;
        current_run_id = run_id;
        pending_windows = s.pending_windows;
        completed_windows = s.completed_windows;
        failed_windows = s.failed_windows;
        repos_seen = s.repos_seen;
        pages_fetched = s.pages_fetched;
        dropped = s.dropped;
      })
unfolding parse_state to_state_document get as_array string_or number_or as_string as_number
parse_state-to_state_document s query_slug run_id now =
    rw
      (
        parse_items-windows s.pending_windows,
        parse_items-texts s.completed_windows,
        parse_items-failed s.failed_windows,
      )
      refl
