-- ===== src/Crawler/Run.antt =====
-- `runCrawler` of apps/workers/src/crawler/index.ts over the in-memory store. What `crawl` comes to for a work
-- list is a parameter: its counters, and the results that `onItemResult` was given, in their order.
pub mod Ending
use keco.Prelude.{
  ℕ, ◌≡◌, refl, ◌⊎◌, inl, inr, Bool, true, false, not, ◌&&◌, Option, none, some, List, [], ◌∷◌,
  if◌then◌else◌, Option-cases, Bool-cases, ap, sym, ◌∙◌, ◌++◌,
}
use mathlib.Core.Option.{some-injective}
use keco.Prelude.Text.{Text, codes, text_eq, text_eq_iff}
use keco.DataStore.Port.{StoreError, ok, err}
use keco.DataStore.Memory.{ensure}
use keco.DataStore.Memory
use keco.DataStore.Memory.Ensuring.{Result-cases}
use keco.Discovery.Collections.{discovery_collections}
use keco.Crawler.Worklist.{WorkItem, WorklistOptions, Names, is_org_ref, build_worklist}
use keco.Crawler.History.{
  CrawlCounters, OpenOptions, HistoryStore, open_history, finish_run, complete, failed,
}
use keco.Crawler.History.Ending.{finish_run-finished}
use keco.Crawler.Queue.{FetchResult, skipped, fetched, thrown}

-- The exit code of the process, or what the call throws.
pub data Exit : Type 0 where
  exits : ℕ → Exit
  throws : StoreError → Exit

abbrev pub is_empty : List WorkItem → Bool
is_empty [] = true
is_empty (_ ∷ _) = false

-- `buildWorklist` provisions discovery's collections where it reads them.
abbrev pub provisioned : Option Text → Memory.Store → Memory.Store
provisioned none m = ensure m discovery_collections
provisioned (some repo) m = if is_org_ref repo then ensure m discovery_collections else m

abbrev pub is_org : Option Text → Bool
is_org none = false
is_org (some repo) = is_org_ref repo

abbrev pub is_single : Option Text → Bool
is_single none = false
is_single (some repo) = not (is_org_ref repo)

-- The last result is the one in `namedRepoResult`.
unfoldable pub not_found : List FetchResult → Bool
not_found [] = false
not_found (skipped reason requests points ∷ []) = text_eq reason (codes "not-found")
not_found (fetched hash changed icon requests points ∷ []) = false
not_found (thrown message ∷ []) = false
not_found (r ∷ s ∷ rs) = not_found (s ∷ rs)

abbrev pub first_error : StoreError → Option StoreError → StoreError
first_error e none = e
first_error e (some later) = later

-- The catch: what `finishRun` throws there is thrown instead.
unfoldable pub fail_run : HistoryStore → StoreError → ℕ → HistoryStore × Exit
fail_run s error now =
    let (ended, again) = finish_run s failed now in (ended, throws (first_error error again))

module _ (names : Names) (options : WorklistOptions)
    (crawl : List WorkItem → CrawlCounters × List FetchResult) where
  unfoldable pub exit_code : List WorkItem → List FetchResult → ℕ
  unfolding not_found
  exit_code items results =
      if is_single options.repo && not_found results
      then 1
      else if is_org options.repo && is_empty items
      then 1
      else 0

  unfoldable pub crawl_items : HistoryStore → List WorkItem → ℕ → HistoryStore × Exit
  unfolding exit_code fail_run
  crawl_items s items now =
      let (counters, results) = crawl items in
      let (ended, error) = finish_run (record s { counters = counters }) complete now in
      elim error [ none ↦ (ended, exits (exit_code items results)) | some e ↦ fail_run ended e now ]

  unfoldable pub after_open : HistoryStore → ℕ → HistoryStore × Exit
  unfolding crawl_items fail_run
  after_open s now =
      let listed = record s { data_store = provisioned options.repo s.data_store } in
      elim (build_worklist names options s.data_store) [
        | ok items ↦ crawl_items listed items now
        | err e ↦ fail_run listed e now
      ]

  -- `none` where no run was opened.
  unfoldable pub run_crawler : Text → Memory.Store → OpenOptions → ℕ → Option HistoryStore × Exit
  unfolding after_open
  run_crawler token m run now =
      let (opened, error) = open_history m run in
      let (ended, exit) = after_open opened now in
      if text_eq token []
      then (none, exits 1)
      else elim error [ none ↦ (some ended, exit) | some e ↦ (none, throws e) ]
