-- ===== src/Discovery/Examples.antt =====
-- Runs of apps/workers/src/discovery on concrete inputs.
use keco.Prelude.{
  ℕ, ◌≡◌, ◌≢◌, refl, ◌∙◌, map, false, Option, none, some, List, [], ◌∷◌, arith, count_if, indicator,
  ◌&&◌, ◌||◌, leb,
}
use keco.Prelude.Text.{Text, codes, text_eq}
use keco.Github.Item.{SearchItem}
use keco.Discovery.Dates.{Date, IsDate, month_length, days_in_month}
use keco.Discovery.Windows.{
  month, Window, star_bands, split_created, day_windows, initial_windows, query_of,
}
use keco.Discovery.Windows.Bands.{star_bands-cover}
use keco.Discovery.Windows.Bounds.{covers}
use keco.Discovery.Windows.Partition.{split-covers, first_split-covers}
use keco.Discovery.Windows.Identity.{query_of_injective}
use keco.Discovery.Collections.{DiscoveryState, complete}
use keco.Discovery.Store.{Backend, Store, flush, open_with, run_input}
use keco.DataStore.Values.{text}
use keco.Prelude.Int.{negsuc}
use keco.Prelude.Maps.{nat_key}
use keco.Prelude.Text.{Lacks}
use keco.DataStore.Port.{err, missing_key, check_document_id}
use keco.Discovery.Collections.Slug.{IsSlug, slugify_query, slugify_query-IsSlug}
use keco.Discovery.Collections.Slug.Ids.{slug-accepted}
use keco.Discovery.Store.Flushing.{Log, logged, IsFlushed, flush-IsFlushed}
use keco.Discovery.Sweep.{begin_sweep}
use keco.Discovery.Plan.{plan_window, plan_window-IsSound}
use keco.Discovery.Plan
use keco.Discovery.Run.{World, found, refused, Run, tail_of, run_discovery, begin}
use keco.Discovery.Run.Coverage.{Ledger, wanting-initial}
use keco.Discovery.Run.Report.{begin-pages}
use keco.Discovery.Run.Complete.{run_discovery-total}

-- A leap day.
abbrev leap_day : Date
leap_day = record { year = 2024; month = 2; day = 29 }

leap_day-IsDate : IsDate leap_day
unfolding month_length
leap_day-IsDate = record {
  month_pos = omega arith;
  month_le = omega arith;
  day_pos = omega arith;
  day_le = omega arith;
}

some_parts : split_created (some (month 2024 2)) 2026 ≢ []
unfolding split_created days_in_month day_windows month_length
some_parts = ground arith

split-covers_example :
    count_if (λ part. covers part leap_day) (split_created (some (month 2024 2)) 2026)
    ≡ indicator (covers (month 2024 2) leap_day)
split-covers_example =
    split-covers leap_day leap_day-IsDate (month 2024 2) 2026 (omega arith) some_parts

-- A search that finds nothing, a clock that stands still and a store that takes every write.
abbrev empty_world : World
empty_world = record {
  page = λ n q page.
      found (record { total_count = 0; incomplete_results = false; items = []; dropped = 0 });
  clock = λ n. 0;
}

abbrev sink : Backend (Unit {0})
sink = record { write = λ s name docs durable. (s, none); hash = λ content. [] }

abbrev fresh_state : DiscoveryState
fresh_state = record {
  query = codes "kind:library";
  started_at = [];
  pending_windows = [];
  completed_windows = [];
  failed_windows = [];
  repos_seen = 0;
  pages_fetched = 0;
  dropped = 0;
}

abbrev fresh_store : Store (Unit {0})
fresh_store = record {
  backend = tt;
  query = codes "kind:library";
  query_slug = codes "kind-library";
  known = [];
  state = fresh_state;
  run_id = codes "run";
  started_at = 0;
  fresh = false;
  limit = none;
  seen_this_run = [];
  pending_repos = [];
  windows_since_flush = 0;
  last_flush_at = 0;
  run_counts = record { new = 0; changed = 0; unchanged = 0 };
  opened_with = record {
    pages_fetched = 0;
    dropped = 0;
    windows_completed = 0;
    windows_failed = 0;
  };
}

abbrev kind_library : Text
kind_library = codes "kind:library"

abbrev first_window : Window
first_window = record { base = kind_library; stars = codes ">5000"; created = none }

abbrev other_windows : List Window
other_windows =
    tail_of
      (map (λ stars. record { base = kind_library; stars = stars; created = none }) star_bands)

-- A sweep that was interrupted at its first window, with the others done.
abbrev resumed_state : DiscoveryState
resumed_state = record fresh_state {
  pending_windows = first_window ∷ [];
  completed_windows = map query_of other_windows;
}

abbrev resumed_store : Store (Unit {0})
resumed_store = record fresh_store { state = resumed_state }

resumed-Ledger : Ledger 2026 resumed_state
unfolding initial_windows query_of text_eq
resumed-Ledger = record {
  settled = other_windows;
  accounted = (
    refl,
    (refl, (refl, (refl, (refl, (refl, (refl, (refl, (refl, (refl, (refl, (refl, tt))))))))))),
  );
  ranges = (tt, tt);
  covered = λ r. wanting-initial r.target kind_library star_bands ∙ star_bands-cover r.target.stars;
}

abbrev resumed_run : Option (Run (Unit {0}) × Option Text × ℕ)
resumed_run = run_discovery sink empty_world 2026 2 resumed_store kind_library 0 none

abbrev run_of : Option (Run (Unit {0}) × Option Text × ℕ) → Run (Unit {0})
run_of none = begin sink empty_world 2026 fresh_store [] 0
run_of (some (r, error, code)) = r

-- A world in which every query has 1500 results.
abbrev crowded_world : World
crowded_world = record {
  page = λ n q page.
      found (record { total_count = 1500; incomplete_results = false; items = []; dropped = 0 });
  clock = λ n. 0;
}

abbrev fresh_run : Run Unit
fresh_run = begin sink crowded_world 2026 fresh_store kind_library 0

run_discovery-total_example :
    run_discovery sink empty_world 2026 12000 resumed_store kind_library 0 none ≢ none
unfolding begin_sweep
run_discovery-total_example =
    run_discovery-total sink empty_world 2026 12000 resumed_store kind_library 0 none (omega arith)

first_split-covers_example :
    count_if (λ part. covers part leap_day) (split_created none 2026)
    ≡ indicator (leb 2008 leap_day.year && (leb leap_day.year 2013 || leb leap_day.year 2026))
first_split-covers_example = first_split-covers leap_day leap_day-IsDate 2026

abbrev january : Window
january = record { base = kind_library; stars = codes "1000..5000"; created = some (month 2024 1) }

star_band-Lacks : Lacks 32 (codes "1000..5000")
star_band-Lacks = omega arith

query_of_injective_example : january ≡ january
unfolding query_of
query_of_injective_example =
    query_of_injective january january refl star_band-Lacks star_band-Lacks (omega arith)
      (omega arith) refl

plan_window-IsSound_example : Plan.IsSound january 2500 100 (plan_window january 2500 2026 100)
plan_window-IsSound_example =
    plan_window-IsSound january 2500 2026 100 (omega arith) (omega arith) (omega arith)

-- A search that refuses every page.
abbrev refusing_world : World
refusing_world = record { page = λ n q page. refused (codes "HTTP 422"); clock = λ n. 0 }

abbrev refused_run : Run (Unit {0})
refused_run = begin sink refusing_world 2026 fresh_store kind_library 0

abbrev library_item : SearchItem
library_item = record {
  id = 10270250;
  full_name = codes "facebook/react";
  name = codes "react";
  owner = some (record { login = codes "facebook" });
  description = none;
  homepage = none;
  stargazers_count = 230000;
  forks_count = 47000;
  open_issues_count = 900;
  language = some (codes "JavaScript");
  license = some (record { spdx_id = some (codes "MIT") });
  topics = codes "ui" ∷ codes "library" ∷ [];
  archived = false;
  fork = false;
  default_branch = codes "main";
  created_at = codes "2013-05-24T16:15:54Z";
  updated_at = codes "2026-01-01T00:00:00Z";
  pushed_at = none;
}

abbrev logged_store : Store Log
logged_store = record {
  backend = record { budget = 1; entries = [] };
  query = kind_library;
  query_slug = codes "kind-library";
  known = [];
  state = fresh_state;
  run_id = codes "run";
  started_at = 0;
  fresh = false;
  limit = none;
  seen_this_run = [];
  pending_repos = (("id", text (codes "kind-library_1")) ∷ []) ∷ [];
  windows_since_flush = 0;
  last_flush_at = 0;
  run_counts = record { new = 1; changed = 0; unchanged = 0 };
  opened_with = record {
    pages_fetched = 0;
    dropped = 0;
    windows_completed = 0;
    windows_failed = 0;
  };
}

flush-IsFlushed_example :
    IsFlushed logged_store 0 (flush logged logged_store 0).0 (flush logged logged_store 0).1
flush-IsFlushed_example = flush-IsFlushed logged_store 0

begin-pages_example :
    let opened =
      (open_with sink tt kind_library
        (codes "kind-library")
        (codes "run")
        0
        false
        none
        (some (record fresh_state { pages_fetched = 40 }))
        []).0 in
    let row =
      run_input sink
        (begin sink empty_world 2026 opened kind_library 0).store
        complete
        none
        false in
    row.pages_fetched ≡ negsuc 39
begin-pages_example =
    begin-pages sink empty_world 2026 tt kind_library (codes "kind-library") (codes "run") 0 false
      none (record fresh_state { pages_fetched = 40 }) [] complete none

abbrev sample_slug : Text
sample_slug = codes "kind-library"

sample_slug-IsSlug : IsSlug sample_slug
unfolding slugify_query
sample_slug-IsSlug = slugify_query-IsSlug (λ t. t) kind_library sample_slug refl

abbrev null_slug : Text
null_slug = codes "null"

null_slug-IsSlug : IsSlug null_slug
unfolding slugify_query
null_slug-IsSlug = slugify_query-IsSlug (λ t. t) (codes "null") (codes "null") refl

slug-accepted_example : check_document_id (codes "null") ≡ err missing_key
unfolding text_eq
slug-accepted_example = slug-accepted null_slug null_slug-IsSlug
