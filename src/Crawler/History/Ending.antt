-- ===== src/Crawler/History/Ending.antt =====
-- How a run of apps/workers/src/crawler ends in its history: `finishRun` of store/store.ts.
use keco.Prelude.{
  ℕ, ◌≡◌, refl, ◌⊎◌, inl, inr, true, false, Option, none, some, List, [], ◌∷◌, Bool-cases,
  Option-cases,
}
use keco.Prelude.Maps.{get, string_key}
use keco.DataStore.Port.{StoreError, ok}
use keco.DataStore.Memory.{store_put, store_get, primary_key_of}
use keco.DataStore.Memory.Ensuring.{Result-cases, store_get-put_one}
use keco.Crawler.History.{
  crawl_history, CrawlOutcome, HistoryStore, to_crawl_run_document, run_input, write_row,
  finish_run,
}

-- The endings that a run is given, in order: the loop's, and the shutdown handler's.
abbrev pub finish_all : HistoryStore → List (CrawlOutcome × ℕ) → HistoryStore
finish_all s [] = s
finish_all s ((outcome, now) ∷ endings) = finish_all (finish_run s outcome now).0 endings

write_row-finished :
    (s : HistoryStore) (outcome : CrawlOutcome) (ended_at : Option ℕ)
    → (write_row s outcome ended_at).0.finished ≡ s.finished
unfolding write_row
write_row-finished s outcome ended_at =
    elim (Result-cases (
      store_put s.data_store crawl_history
        (to_crawl_run_document (run_input s outcome ended_at) ∷ []))) [
          | inl (m, fine) ↦ rw (write_row, fine) refl
          | inr (x, broken) ↦ rw (write_row, broken) refl
        ]

write_row-reads :
    (s : HistoryStore) (outcome : CrawlOutcome) (ended_at : Option ℕ)
    → primary_key_of s.data_store crawl_history ≡ ok "run_id"
    → let written = write_row s outcome ended_at in
      written.1 ≡ none
      → store_get written.0.data_store crawl_history s.options.run_id
        ≡ ok (some (to_crawl_run_document (run_input s outcome ended_at)))
unfolding write_row
write_row-reads s outcome ended_at known =
    let document = to_crawl_run_document (run_input s outcome ended_at) in
    elim (Result-cases (store_put s.data_store crawl_history (document ∷ []))) [
      | inl (m, fine) ↦
          rw (write_row, fine)
            (λ e.
              store_get-put_one s.data_store m crawl_history "run_id" document s.options.run_id
                known (unfold to_crawl_run_document get in refl) fine)
      | inr (x, broken) ↦ rw (write_row, broken) (λ e. cc)
    ]

failed_or_read :
    (s : HistoryStore) (outcome : CrawlOutcome) (ended_at : Option ℕ)
    → primary_key_of s.data_store crawl_history ≡ ok "run_id"
    → let written = write_row s outcome ended_at in
      ((error : StoreError) × (written.1 ≡ some error))
      ⊎ (store_get written.0.data_store crawl_history s.options.run_id
          ≡ ok (some (to_crawl_run_document (run_input s outcome ended_at))))
failed_or_read s outcome ended_at known = elim (Option-cases (write_row s outcome ended_at).1) [
  | inl fine ↦ inr (write_row-reads s outcome ended_at known fine)
  | inr broken ↦ inl broken
]

pub finish_run-finished :
    (s : HistoryStore) (outcome : CrawlOutcome) (now : ℕ)
    → (finish_run s outcome now).0.finished ≡ true
unfolding finish_run
finish_run-finished s outcome now = elim (Bool-cases s.finished) [
  | inl over ↦ simp (finish_run, over) refl
  | inr going ↦
      simp (finish_run, going)
        (write_row-finished (record s { finished = true }) outcome (some now))
]

finish_all-finished :
    (s : HistoryStore) (endings : List (CrawlOutcome × ℕ))
    → s.finished ≡ true
    → finish_all s endings ≡ s
unfolding finish_run
finish_all-finished s [] over = refl
finish_all-finished s ((outcome, now) ∷ endings) over =
    simp (finish_run, over) (finish_all-finished s endings over)

-- The first ending of a run is its only one: whatever endings follow, by the loop or by the shutdown
-- handler, nothing changes, also where the first one's own write failed; where it did not, the row of the
-- run is the one of the first ending.
pub finish_all-first :
    (s : HistoryStore) (outcome : CrawlOutcome) (now : ℕ) (endings : List (CrawlOutcome × ℕ))
    → s.finished ≡ false
    → primary_key_of s.data_store crawl_history ≡ ok "run_id"
    → let first = finish_run s outcome now in
      (finish_all s ((outcome, now) ∷ endings) ≡ first.0)
      × (((error : StoreError) × (first.1 ≡ some error))
          ⊎ (store_get first.0.data_store crawl_history s.options.run_id
              ≡ ok (some (to_crawl_run_document (run_input s outcome (some now))))))
unfolding finish_run
finish_all-first s outcome now endings going known = (
  finish_all-finished (finish_run s outcome now).0 endings (finish_run-finished s outcome now),
  simp (finish_run, going) (failed_or_read (record s { finished = true }) outcome (some now) known),
)
