-- ===== src/Crawler/Queue.antt =====
-- `crawl` of apps/workers/src/crawler/index.ts: its tasks on a queue of bounded concurrency. The queue is
-- a library's; what the code relies on is that it starts the tasks in order and holds at most
-- `concurrency` of them at once. A step is what a task does between two of its awaits.
pub mod Counting
pub mod Draining
mod Examples
use keco.Prelude.{ℕ, ◌+◌, ◌<◌, ◌≡◌, Bool, true, false, List, [], ◌∷◌, ◌++◌, if◌then◌else◌, length}
use keco.Prelude.Text.{Text}
use keco.Crawler.Worklist.{WorkItem}
use keco.Crawler.History.{CrawlCounters, empty_counters}

-- What `fetchRepo` comes to: a result, or a throw.
pub data FetchResult : Type 0 where
  skipped : Text → ℕ → ℕ → FetchResult
  fetched : Text → Bool → Bool → ℕ → ℕ → FetchResult
  thrown : Text → FetchResult

-- The tasks that wait, those that are in `fetchRepo`, and those that are in `onFailure`.
pub record Crawl : Type 0 where
  pub counters : CrawlCounters
  pub stopped : Bool
  pub waiting : List WorkItem
  pub fetching : List WorkItem
  pub reporting : List WorkItem

unfoldable pub begin : List WorkItem → Crawl
begin items = record {
  counters = empty_counters;
  stopped = false;
  waiting = items;
  fetching = [];
  reporting = [];
}

-- A task up to its call of `fetchRepo`; `exhausted` is what `quotaExhausted` answers.
unfoldable pub start_task : Crawl → WorkItem → List WorkItem → Bool → Crawl
start_task s item rest exhausted =
    let c = s.counters in
    if s.stopped
    then record s { waiting = rest }
    else if exhausted
    then record s {
      waiting = rest;
      stopped = true;
      counters = record c { rate_limited = c.rate_limited + 1 };
    }
    else record s {
      waiting = rest;
      fetching = item ∷ s.fetching;
      counters = record c { repos_seen = c.repos_seen + 1 };
    }

abbrev spend : CrawlCounters → ℕ → ℕ → CrawlCounters
spend c requests points = record c {
  requests = c.requests + requests;
  points_spent = c.points_spent + points;
}

-- What the task does to the counters once `fetchRepo` is back.
unfoldable pub settle : CrawlCounters → FetchResult → CrawlCounters
settle c (skipped reason requests points) =
    let spent = spend c requests points in record spent { repos_skipped = spent.repos_skipped + 1 }
settle c (fetched hash true true requests points) =
    let spent = spend c requests points in
    record spent {
      repos_fetched = spent.repos_fetched + 1;
      icons_updated = spent.icons_updated + 1;
    }
settle c (fetched hash true false requests points) =
    let spent = spend c requests points in record spent { repos_fetched = spent.repos_fetched + 1 }
settle c (fetched hash false icon requests points) =
    let spent = spend c requests points in
    record spent { repos_unchanged = spent.repos_unchanged + 1 }
settle c (thrown message) = record c { repos_failed = c.repos_failed + 1 }

abbrev pub to_report : FetchResult → WorkItem → List WorkItem → List WorkItem
to_report (thrown message) item reporting = item ∷ reporting
to_report _ item reporting = reporting

-- A task from `fetchRepo` to its end, or to `onFailure`.
unfoldable pub end_fetch : Crawl → WorkItem → List WorkItem → FetchResult → Crawl
unfolding settle
end_fetch s item others result = record s {
  counters = settle s.counters result;
  fetching = others;
  reporting = to_report result item s.reporting;
}

pub data Step (concurrency : ℕ) : Crawl → Crawl → Type 0 where
  started :
      (s : Crawl) (item : WorkItem) (rest : List WorkItem) (exhausted : Bool)
      → s.waiting ≡ item ∷ rest
      → length s.fetching + length s.reporting < concurrency
      → Step concurrency s (start_task s item rest exhausted)
  ended :
      (s : Crawl) (item : WorkItem) (before after : List WorkItem) (result : FetchResult)
      → s.fetching ≡ before ++ item ∷ after
      → Step concurrency s (end_fetch s item (before ++ after) result)
  reported :
      (s : Crawl) (item : WorkItem) (before after : List WorkItem)
      → s.reporting ≡ before ++ item ∷ after
      → Step concurrency s (record s { reporting = before ++ after })

-- The states that the tasks lead to, in any order of their steps, with the number of steps.
pub data Reaches (concurrency : ℕ) (items : List WorkItem) : ℕ → Crawl → Type 0 where
  queued : Reaches concurrency items 0 (begin items)
  stepped :
      (n : ℕ) (s t : Crawl)
      → Reaches concurrency items n s
      → Step concurrency s t
      → Reaches concurrency items (n + 1) t
