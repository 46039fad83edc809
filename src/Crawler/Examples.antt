-- ===== src/Crawler/Examples.antt =====
-- The crawler's choice on concrete repositories.
use keco.Prelude.{some, false}
use keco.DataStore.Port.{assert_document_id, check_document_id, all_id_chars}
use keco.DataStore.Memory.{
  empty, ensure_one, store_put, primary_key_of, collection_of, keyed, set_all,
}
use keco.Crawler.History.{
  CrawlCounters, empty_counters, HistoryStore, crawl_collections, finish_run, write_row,
  to_crawl_run_document,
}
use keco.Crawler.Queue.{FetchResult, skipped}
use keco.Crawler.Run.{exits, not_found, exit_code, crawl_items, after_open}
use keco.Crawler.Run.Ending.{after_open-ends, EndsAs}
use keco.Prelude.{◌≤◌, ◌≡◌, refl, true, false, none, List, [], ◌∷◌, length}
use keco.Prelude.Text.{codes, text_eq}
use keco.Prelude.Maps.{get, put, has, string_key, text_key}
use keco.DataStore.Values.{text, num, strict_eq, value_lt}
use keco.DataStore.Port.{project_fields, matches_where, compare_by_sort}
use keco.DataStore.Memory.{Store, store_list, ensure, matching, insert_sorted, sort_rows}
use keco.Github.Shard.{owns_shard}
use keco.Crawler.Worklist.{WorkItem, WorklistOptions, Names, build_worklist}
use keco.Crawler.Worklist.Laws.{IsList, build_worklist-IsList}

abbrev names : Names
names = record { lower = λ t. t; is_repo_ref = λ t. true }

abbrev batch : WorklistOptions
batch = record { repo = none; limit = 5; shard_count = 1; shard_index = 0 }

abbrev corpus : Store
corpus = record {
  specs = [];
  collections =
      (
        "discovery_repos",
        (codes "q_1", ("full_name", text (codes "a/b")) ∷ ("stars", num 3) ∷ [])
            ∷ (codes "q_2", ("full_name", text (codes "a/b")) ∷ ("stars", num 2) ∷ [])
            ∷ [],
      )
      ∷ [];
}

abbrev listed : List WorkItem
listed = record { repo = codes "a/b"; source = codes "discovery" } ∷ []

build_worklist-IsList_example : (length listed ≤ 5) × IsList names batch listed
unfolding build_worklist store_list get ensure has put sort_rows matching matches_where
    insert_sorted compare_by_sort strict_eq value_lt project_fields owns_shard text_eq
build_worklist-IsList_example = build_worklist-IsList names batch corpus listed refl refl

-- A run for one named repository, which is not found.
abbrev named : WorklistOptions
named = record batch { repo = some (codes "a/b") }

abbrev nothing_found : List WorkItem → CrawlCounters × List FetchResult
nothing_found items = (
  record empty_counters { repos_seen = 1; repos_skipped = 1; requests = 1; points_spent = 1 },
  skipped (codes "not-found") 1 1 ∷ [],
)

abbrev opened : HistoryStore
opened = record {
  data_store = ensure empty crawl_collections;
  options = record {
    run_id = codes "r";
    started_at = 0;
    limit = some 5;
    repo = some (codes "a/b");
    shard_count = 1;
    shard_index = 0;
  };
  counters = empty_counters;
  finished = false;
}

-- It exits with 1, and its row says that it is complete.
named_missing : (after_open names named nothing_found opened 7).1 ≡ exits 1
unfolding after_open build_worklist crawl_items exit_code not_found finish_run write_row store_put
    primary_key_of collection_of keyed set_all ensure ensure_one has put get assert_document_id
    check_document_id all_id_chars text_eq to_crawl_run_document
named_missing = refl

after_open-ends_example :
    ((after_open names named nothing_found opened 7).0.finished ≡ true)
    × EndsAs names named nothing_found opened 7 (after_open names named nothing_found opened 7).1
after_open-ends_example = after_open-ends names named nothing_found opened 7
