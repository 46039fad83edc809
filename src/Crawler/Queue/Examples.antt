-- ===== src/Crawler/Queue/Examples.antt =====
-- A crawl of two repositories by one task at a time, and the row of its run.
use keco.Prelude.{◌≤◌, ◌*◌, ◌≡◌, ◌⊎◌, refl, false, true, none, some, List, [], ◌∷◌, arith, length}
use keco.Prelude.Text.{codes, text_eq}
use keco.Prelude.Maps.{get, put, has, string_key, text_key}
use keco.DataStore.Port.{StoreError, ok, assert_document_id, check_document_id, all_id_chars}
use keco.DataStore.Memory.{
  empty, ensure, ensure_one, store_put, store_get, primary_key_of, collection_of, keyed, set_all,
}
use keco.Crawler.Worklist.{WorkItem}
use keco.Crawler.History.{
  crawl_history, crawl_collections, empty_counters, OpenOptions, HistoryStore, complete,
  interrupted, to_crawl_run_document, run_input, write_row, finish_run,
}
use keco.Crawler.History.Ending.{finish_all, finish_all-first}
use keco.Crawler.Queue.{
  Crawl, begin, fetched, start_task, end_fetch, settle, Step, started, ended, Reaches, queued,
  stepped,
}
use keco.Crawler.Queue.Counting.{IsCounted, Reaches-IsCounted}
use keco.Crawler.Queue.Draining.{IsIdle, Reaches-drains}

abbrev first : WorkItem
first = record { repo = codes "a/b"; source = codes "cli" }

abbrev second : WorkItem
second = record { repo = codes "c/d"; source = codes "cli" }

abbrev two : List WorkItem
two = first ∷ second ∷ []

abbrev first_running : Crawl
first_running = record (begin two) {
  waiting = second ∷ [];
  fetching = first ∷ [];
  counters = record empty_counters { repos_seen = 1 };
}

abbrev first_done : Crawl
first_done = record (begin two) {
  waiting = second ∷ [];
  counters = record empty_counters {
    repos_seen = 1;
    repos_fetched = 1;
    requests = 4;
    points_spent = 3;
  };
}

first_running-Reaches : Reaches 1 two 1 first_running
unfolding begin start_task
first_running-Reaches =
    stepped 0 (begin two) first_running queued
      (started (begin two) first (second ∷ []) false refl (omega arith))

first_done-Reaches : Reaches 1 two 2 first_done
unfolding begin end_fetch settle
first_done-Reaches =
    stepped 1 first_running first_done first_running-Reaches
      (ended first_running first [] [] (fetched (codes "hash") true false 4 3) refl)

Reaches-IsCounted_example : IsCounted 1 two first_done
Reaches-IsCounted_example = Reaches-IsCounted 1 two 2 first_done first_done-Reaches

Reaches-drains_example :
    (2 ≤ 3 * length two) × (IsIdle first_done ⊎ ((t : Crawl) × Step 1 first_done t))
Reaches-drains_example = Reaches-drains 1 two 2 first_done (omega arith) first_done-Reaches

abbrev run : OpenOptions
run = record {
  run_id = codes "r";
  started_at = 0;
  limit = some 2;
  repo = none;
  shard_count = 1;
  shard_index = 0;
}

abbrev opened : HistoryStore
opened = record {
  data_store = ensure empty crawl_collections;
  options = run;
  counters = empty_counters;
  finished = false;
}

known_key : primary_key_of opened.data_store crawl_history ≡ ok "run_id"
unfolding primary_key_of ensure ensure_one has put get
known_key = refl

interrupted_written : (finish_run opened interrupted 5).1 ≡ none
unfolding finish_run write_row store_put primary_key_of collection_of keyed set_all ensure
    ensure_one has put get assert_document_id check_document_id all_id_chars text_eq
    to_crawl_run_document
interrupted_written = refl

finish_all-first_example :
    (finish_all opened ((interrupted, 5) ∷ (complete, 9) ∷ [])
      ≡ (finish_run opened interrupted 5).0)
    × (((error : StoreError) × ((finish_run opened interrupted 5).1 ≡ some error))
        ⊎ (store_get (finish_run opened interrupted 5).0.data_store crawl_history (codes "r")
            ≡ ok (some (to_crawl_run_document (run_input opened interrupted (some 5))))))
finish_all-first_example = finish_all-first opened interrupted 5 ((complete, 9) ∷ []) refl known_key
