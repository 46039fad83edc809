-- ===== src/Crawler/History.antt =====
-- `CrawlHistoryStore` of apps/workers/src/crawler/store/store.ts over the in-memory store, and the
-- document of apps/workers/src/crawler/store/collections.ts. Instants are milliseconds since 1970.
pub mod Ending
use keco.Prelude.{ℕ, String, Bool, true, false, Option, none, some, List, [], ◌∷◌, if◌then◌else◌}
use keco.Prelude.Text.{Text, codes}
use keco.Prelude.Int.{ℤ, pos, negsuc, sub_ℕ}
use keco.DataStore.Values.{Value, null, num, neg, text, Document}
use keco.DataStore.Port.{StoreError, Result, ok, err, CollectionSpec}
use keco.DataStore.Memory.{ensure, store_put}
use keco.DataStore.Memory
use keco.Discovery.Clock.{to_iso_string}

abbrev pub crawl_history : String
crawl_history = "crawl_history"

abbrev pub crawl_collections : List CollectionSpec
crawl_collections =
    record {
      name = crawl_history;
      primary_key = "run_id";
      searchable = [];
      filterable = "outcome" ∷ [];
      sortable = "started_at" ∷ "duration_ms" ∷ "repos_fetched" ∷ "requests" ∷ [];
    }
    ∷ []

pub data CrawlOutcome : Type 0 where
  running complete failed interrupted : CrawlOutcome

pub record CrawlCounters : Type 0 where
  pub repos_seen : ℕ
  pub repos_fetched : ℕ
  pub repos_unchanged : ℕ
  pub repos_skipped : ℕ
  pub repos_failed : ℕ
  pub icons_updated : ℕ
  pub requests : ℕ
  pub points_spent : ℕ
  pub rate_limited : ℕ

abbrev pub empty_counters : CrawlCounters
empty_counters = record {
  repos_seen = 0;
  repos_fetched = 0;
  repos_unchanged = 0;
  repos_skipped = 0;
  repos_failed = 0;
  icons_updated = 0;
  requests = 0;
  points_spent = 0;
  rate_limited = 0;
}

pub record OpenOptions : Type 0 where
  pub run_id : Text
  pub started_at : ℕ
  pub limit : Option ℕ
  pub repo : Option Text
  pub shard_count : ℕ
  pub shard_index : ℕ

pub record CrawlRunInput : Type 0 where
  pub options : OpenOptions
  pub open options use *
  pub outcome : CrawlOutcome
  pub ended_at : Option ℕ
  pub counters : Option CrawlCounters

abbrev outcome_text : CrawlOutcome → Text
outcome_text running = codes "running"
outcome_text complete = codes "complete"
outcome_text failed = codes "failed"
outcome_text interrupted = codes "interrupted"

abbrev number : ℤ → Value
number (pos n) = num n
number (negsuc n) = neg n

abbrev counted : Option CrawlCounters → CrawlCounters
counted none = empty_counters
counted (some c) = c

unfoldable pub to_crawl_run_document : CrawlRunInput → Document
to_crawl_run_document r =
    let c = counted r.counters in
    ("run_id", text r.run_id)
    ∷ ("started_at", text (to_iso_string r.started_at))
    ∷ ("finished_at", elim r.ended_at [ none ↦ null | some t ↦ text (to_iso_string t) ])
    ∷ ("duration_ms", elim r.ended_at [ none ↦ null | some t ↦ number (sub_ℕ t r.started_at) ])
    ∷ ("outcome", text (outcome_text r.outcome))
    ∷ ("limit", elim r.limit [ none ↦ null | some n ↦ num n ])
    ∷ ("repo", elim r.repo [ none ↦ null | some name ↦ text name ])
    ∷ ("shard_count", num r.shard_count)
    ∷ ("shard_index", num r.shard_index)
    ∷ ("repos_seen", num c.repos_seen)
    ∷ ("repos_fetched", num c.repos_fetched)
    ∷ ("repos_unchanged", num c.repos_unchanged)
    ∷ ("repos_skipped", num c.repos_skipped)
    ∷ ("repos_failed", num c.repos_failed)
    ∷ ("icons_updated", num c.icons_updated)
    ∷ ("requests", num c.requests)
    ∷ ("points_spent", num c.points_spent)
    ∷ ("rate_limited", num c.rate_limited)
    ∷ []

pub record HistoryStore : Type 0 where
  pub data_store : Memory.Store
  pub options : OpenOptions
  pub counters : CrawlCounters
  pub finished : Bool

abbrev pub run_input : HistoryStore → CrawlOutcome → Option ℕ → CrawlRunInput
run_input s outcome ended_at = record {
  options = s.options;
  outcome = outcome;
  ended_at = ended_at;
  counters = some s.counters;
}

-- What a method leaves, with what it throws.
unfoldable pub write_row : HistoryStore → CrawlOutcome → Option ℕ → HistoryStore × Option StoreError
unfolding to_crawl_run_document
write_row s outcome ended_at =
    elim (store_put s.data_store crawl_history
      (to_crawl_run_document (run_input s outcome ended_at) ∷ [])) [
        | ok written ↦ (record s { data_store = written }, none)
        | err e ↦ (s, some e)
      ]

unfoldable pub open_history : Memory.Store → OpenOptions → HistoryStore × Option StoreError
unfolding write_row
open_history m options =
    write_row
      (record {
        data_store = ensure m crawl_collections;
        options = options;
        counters = empty_counters;
        finished = false;
      })
      running none

unfoldable pub finish_run : HistoryStore → CrawlOutcome → ℕ → HistoryStore × Option StoreError
unfolding write_row
finish_run s outcome now =
    let ended = write_row (record s { finished = true }) outcome (some now) in
    if s.finished then (s, none) else ended
