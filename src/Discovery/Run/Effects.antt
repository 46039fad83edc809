-- ===== src/Discovery/Run/Effects.antt =====
-- What each part of `runDiscovery`, apps/workers/src/discovery/index.ts, does to the sweep's state.
use keco.Prelude.{
  ℕ, zero, suc, ◌+◌, ◌-◌, ◌≡◌, ◌⊎◌, inl, inr, refl, ap, ◌∙◌, Option, none, some, List, [], ◌∷◌,
  ◌++◌, arith,
}
use keco.Prelude.Text.{Text}
use keco.Github.Item.{SearchItem, SearchPage}
use keco.Discovery.Windows.{Window, query_of}
use keco.Discovery.Plan.{plan_window, per_page_cap}
use keco.Discovery.Collections.{DiscoveryState}
use keco.Discovery.Store.{Backend, Store, record_item, flush, window_completed}
use keco.Discovery.Run.{
  World, Run, record_one, record_all, Response-cases, asked, ask, take_page, fetch_pages,
  fail_window, settle, search_window,
}

-- The queue and the two lists of windows.
pub record SameQueue (s s' : DiscoveryState) : Type 0 where
  pub pending : s'.pending_windows ≡ s.pending_windows
  pub completed : s'.completed_windows ≡ s.completed_windows
  pub failed : s'.failed_windows ≡ s.failed_windows

pub SameQueue-refl : (s : DiscoveryState) → SameQueue s s
SameQueue-refl s = record { pending = refl; completed = refl; failed = refl }

pub SameQueue-trans : {s t u : DiscoveryState} → SameQueue s t → SameQueue t u → SameQueue s u
SameQueue-trans a b = record {
  pending = b.pending ∙ a.pending;
  completed = b.completed ∙ a.completed;
  failed = b.failed ∙ a.failed;
}

module _ {S : Type 0} (b : Backend S) where
  record_item-state :
      (s : Store S) (item : SearchItem) (via : Text) (now : ℕ)
      → (record_item b s item via now).0.state ≡ s.state
  unfolding record_item
  record_item-state s item via now = ground arith

  pub flush-SameQueue : (s : Store S) (now : ℕ) → SameQueue s.state (flush b s now).0.state
  unfolding flush
  flush-SameQueue s now = ground arith

  pub window_completed-SameQueue :
      (s : Store S) (now : ℕ) → SameQueue s.state (window_completed b s now).0.state
  unfolding window_completed
  window_completed-SameQueue s now =
      ground
        (arith, flush-SameQueue (record s { windows_since_flush = s.windows_since_flush + 1 }) now)

module _ {S : Type 0} (b : Backend S) (world : World) (k : ℕ) where
  pub record_all-state :
      (r : Run S) (items : List SearchItem) (via : Text)
      → (record_all b world k r items via).store.state ≡ r.store.state
  unfolding record_all
  record_all-state r [] via = refl
  record_all-state r (item ∷ items) via =
      record_all-state (record_one b world k r item via) items via
      ∙ record_item-state b r.store item via (world.clock r.readings)

  record_all-completed :
      (r : Run S) (items : List SearchItem) (via : Text)
      → (record_all b world k r items via).completed ≡ r.completed
  unfolding record_all
  record_all-completed r [] via = refl
  record_all-completed r (item ∷ items) via =
      record_all-completed (record_one b world k r item via) items via

  take_page-SameQueue :
      (r : Run S) (page : SearchPage) (q : Text)
      → SameQueue r.store.state (take_page b world k r page q).store.state
  unfolding take_page
  take_page-SameQueue r page q =
      rw (record_all-state _ page.items q)
        (record { pending = refl; completed = refl; failed = refl })

  pub asked-SameQueue : (r : Run S) → SameQueue r.store.state (asked b world k r).store.state
  asked-SameQueue r = record { pending = refl; completed = refl; failed = refl }

  take_page-completed :
      (r : Run S) (page : SearchPage) (q : Text)
      → (take_page b world k r page q).completed ≡ r.completed
  unfolding take_page
  take_page-completed r page q = record_all-completed _ page.items q

  -- What a run has not yet decided is untouched while a window's pages come.
  pub record Undecided (r r' : Run S) : Type 0 where
    pub queue : SameQueue r.store.state r'.store.state
    pub completed : r'.completed ≡ r.completed

  pub Undecided-trans : {r s t : Run S} → Undecided r s → Undecided s t → Undecided r t
  Undecided-trans u v = record {
    queue = SameQueue-trans u.queue v.queue;
    completed = v.completed ∙ u.completed;
  }

  pub page-Undecided :
      (r : Run S) (page : SearchPage) (q : Text)
      → Undecided r (take_page b world k (asked b world k r) page q)
  page-Undecided r page q = record {
    queue = SameQueue-trans (asked-SameQueue r) (take_page-SameQueue (asked b world k r) page q);
    completed = take_page-completed (asked b world k r) page q;
  }

  pub fetch_pages-Undecided :
      (left : ℕ) (r : Run S) (q : Text) (page : ℕ)
      → Undecided r (fetch_pages b world k left r q page).0
  unfolding fetch_pages
  fetch_pages-Undecided zero r q page = record { queue = SameQueue-refl _; completed = refl }
  fetch_pages-Undecided (suc left) r q page = elim (Response-cases (ask b world k r q page)) [
    | inr (error, e) ↦ rw (e, fetch_pages) (record { queue = asked-SameQueue r; completed = refl })
    | inl (answer, e) ↦
        rw (e, fetch_pages)
          (Undecided-trans (page-Undecided r answer q) (
            fetch_pages-Undecided left (take_page b world k (asked b world k r) answer q) q
              (page + 1)))
  ]

  -- The two ways in which a window that was searched is decided.
  pub record Failed (r r' : Run S) (w : Window) : Type 0 where
    pub error : Text
    pub pending : r'.store.state.pending_windows ≡ r.store.state.pending_windows
    pub completed : r'.store.state.completed_windows ≡ r.store.state.completed_windows
    pub failed :
        r'.store.state.failed_windows
        ≡ r.store.state.failed_windows ++ record { window = query_of w; error = error } ∷ []
    pub done : r'.completed ≡ r.completed

  pub record Completed (r r' : Run S) (w : Window) : Type 0 where
    pub total : ℕ
    pub pending :
        r'.store.state.pending_windows
        ≡ r.store.state.pending_windows ++ (plan_window w total k per_page_cap).children
    pub completed :
        r'.store.state.completed_windows ≡ r.store.state.completed_windows ++ query_of w ∷ []
    pub failed : r'.store.state.failed_windows ≡ r.store.state.failed_windows
    pub done : r'.completed ≡ query_of w ∷ r.completed

  fail-Failed :
      (r r' : Run S) (w : Window) (error : Text)
      → Undecided r r'
      → Failed r (fail_window b world k r' (query_of w) error) w
  fail-Failed r r' w error u = record {
    error = error;
    pending = u.queue.pending;
    completed = u.queue.completed;
    failed = ap (λ fs. fs ++ record { window = query_of w; error = error } ∷ []) u.queue.failed;
    done = u.completed;
  }

  settle-decided :
      (r r' : Run S) (w : Window) (total : ℕ) (error : Option Text)
      → Undecided r r'
      → let r'' =
          settle b world k (r', error) (plan_window w total k per_page_cap).children (query_of w) in
        Failed r r'' w ⊎ Completed r r'' w
  settle-decided r r' w total (some error) u = inl (fail-Failed r r' w error u)
  settle-decided r r' w total none u = inr (record {
    total = total;
    pending = ap (λ ws. ws ++ (plan_window w total k per_page_cap).children) u.queue.pending;
    completed = ap (λ qs. qs ++ query_of w ∷ []) u.queue.completed;
    failed = u.queue.failed;
    done = ap (λ qs. query_of w ∷ qs) u.completed;
  })

  -- Every search of a window ends by the window failed, or by the window completed and the parts
  -- of its plan queued.
  pub search_window-decided :
      (r : Run S) (w : Window)
      → Failed r (search_window b world k r w) w ⊎ Completed r (search_window b world k r w) w
  unfolding search_window
  search_window-decided r w = elim (Response-cases (ask b world k r (query_of w) 1)) [
    | inr (error, e) ↦
        rw (e, search_window)
          (inl (
            fail-Failed r (asked b world k r) w error
              (record { queue = asked-SameQueue r; completed = refl })))
    | inl (probe, e) ↦
        let plan = plan_window w probe.total_count k per_page_cap in
        let probed = take_page b world k (asked b world k r) probe (query_of w) in
        let fetched = fetch_pages b world k (plan.last_page - 1) probed (query_of w) 2 in
        rw (e, search_window)
          (settle-decided r fetched.0 w probe.total_count fetched.1 (
            Undecided-trans (page-Undecided r probe (query_of w))
              (fetch_pages-Undecided (plan.last_page - 1) probed (query_of w) 2)))
  ]
