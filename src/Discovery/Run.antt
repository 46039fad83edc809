-- ===== src/Discovery/Run.antt =====
-- `runDiscovery` of apps/workers/src/discovery/index.ts. GitHub Search and the clock are what a
-- `World` says; the queue is `pending_windows` of the state itself, as it is there by aliasing.
-- `record` does not throw on a parsed item, so the `catch` of `recordAll` is never entered.
-- Logging and the progress line are left out.
pub mod Coverage
pub mod Effects
pub mod Progress
pub mod Ending
pub mod Complete
pub mod Covered
pub mod Report
pub mod Answers
pub mod Visiting
use keco.Prelude.{
  ◌≡◌, ◌⊎◌, inl, inr, refl, ℕ, zero, suc, ◌+◌, ◌-◌, ◌*◌, String, Bool, true, false, ◌&&◌, ◌||◌, not,
  Option, none, some, List, [], ◌∷◌, ◌++◌, leb, ltb, ◌==◌, if◌then◌else◌, length, any,
}
use keco.Prelude.Text.{Text, text_eq}
use keco.Prelude.Maps.{Map}
use keco.Github.Item.{SearchItem, SearchPage}
use keco.Discovery.Windows.{Window, query_of}
use keco.Discovery.Plan.{WindowPlan, plan_window, per_page_cap}
use keco.Discovery.Collections.{
  FailedWindow, DiscoveryState, RunOutcome, complete, failed, interrupted,
}
use keco.Discovery.Store.{
  Backend, Store, KnownRepo, record_item, flush, window_completed, finish_run, size,
}
use keco.Discovery.Sweep.{begin_sweep}

pub data Response : Type 0 where
  found : SearchPage → Response
  refused : Text → Response

-- What the n-th page request (as `pages_fetched` counts them) answers for a query and a page, and
-- what the n-th reading of the clock gives.
pub record World : Type 0 where
  pub page : ℕ → Text → ℕ → Response
  pub clock : ℕ → ℕ

pub Response-cases :
    (a : Response)
    → ((page : SearchPage) × (a ≡ found page)) ⊎ ((error : Text) × (a ≡ refused error))
Response-cases (found page) = inl (page, refl)
Response-cases (refused error) = inr (error, refl)

pub record Run (S : Type 0) : Type 0 where
  pub store : Store S
  pub completed : List Text
  pub readings : ℕ
  pub stopped : Bool

abbrev pub has_text : Text → List Text → Bool
has_text q = any (λ other. text_eq q other)

abbrev pub with_state : {S : Type 0} → Run S → (DiscoveryState → DiscoveryState) → Run S
with_state r f = record r { store = record r.store { state = f r.store.state } }

abbrev pub tail_of : List Window → List Window
tail_of [] = []
tail_of (w ∷ ws) = ws

module _ {S : Type 0} (b : Backend S) (world : World) (current_year : ℕ) where
  abbrev pub record_one : Run S → SearchItem → Text → Run S
  record_one r item via = record r {
    store = (record_item b r.store item via (world.clock r.readings)).0;
    readings = r.readings + 1;
  }

  unfoldable pub record_all : Run S → List SearchItem → Text → Run S
  record_all r [] via = r
  record_all r (item ∷ items) via = record_all (record_one r item via) items via

  -- `pages_fetched += 1` and the request.
  abbrev pub asked : Run S → Run S
  asked r = with_state r (λ s. record s { pages_fetched = s.pages_fetched + 1 })

  abbrev pub ask : Run S → Text → ℕ → Response
  ask r q page = world.page (asked r).store.state.pages_fetched q page

  -- A page that came: its dropped items and its items.
  unfoldable pub take_page : Run S → SearchPage → Text → Run S
  unfolding record_all
  take_page r answer q =
      record_all (with_state r (λ s. record s { dropped = s.dropped + answer.dropped }))
        answer.items q

  -- The pages from `page` on, by the pages that are left; an error ends them.
  unfoldable pub fetch_pages : ℕ → Run S → Text → ℕ → Run S × Option Text
  unfolding take_page
  fetch_pages zero r q page = (r, none)
  fetch_pages (suc left) r q page = elim (ask r q page) [
    | refused error ↦ (asked r, some error)
    | found answer ↦ fetch_pages left (take_page (asked r) answer q) q (page + 1)
  ]

  -- The end of the `try` block.
  abbrev pub finish_window : Run S → List Window → Text → Run S
  finish_window r children q =
      let queued = with_state r (λ s. record s {
        pending_windows = s.pending_windows ++ children;
        completed_windows = s.completed_windows ++ q ∷ [];
      }) in
      record queued { completed = q ∷ r.completed }

  abbrev pub fail_window : Run S → Text → Text → Run S
  fail_window r q error = with_state r (λ s. record s {
    failed_windows = s.failed_windows ++ record { window = q; error = error } ∷ [];
  })

  -- What the pages after the probe came to.
  abbrev pub settle : Run S × Option Text → List Window → Text → Run S
  settle (r, none) children q = finish_window r children q
  settle (r, some error) children q = fail_window r q error

  -- The `try` block and its `catch`.
  unfoldable pub search_window : Run S → Window → Run S
  unfolding take_page fetch_pages
  search_window r window =
      let q = query_of window in
      elim (ask r q 1) [
        | refused error ↦ fail_window (asked r) q error
        | found probe ↦
            let plan = plan_window window probe.total_count current_year per_page_cap in
            let probed = take_page (asked r) probe q in
            settle (fetch_pages (plan.last_page - 1) probed q 2) plan.children q
      ]

  -- `queue.shift()`
  abbrev pub shifted : Run S → Run S
  shifted r = with_state r (λ s. record s { pending_windows = tail_of s.pending_windows })

  -- `limit !== null && store.size >= limit`
  abbrev at_limit : Option ℕ → ℕ → Bool
  at_limit none n = false
  at_limit (some limit) n = leb limit n

  -- `windowCompleted` and the test of the limit.
  unfoldable pub close_window : Run S → Option ℕ → Run S × Option Text
  close_window r limit =
      let (store, error, _) = window_completed b r.store (world.clock r.readings) in
      let closed = record r { store = store; readings = r.readings + 1 } in
      elim error [
        | some e ↦ (closed, some e)
        | none ↦ (record closed { stopped = r.stopped || at_limit limit (size store) }, none)
      ]

  -- One round of the loop, on a window that stands at the head of the queue.
  unfoldable pub visit : Run S → Window → Option ℕ → Run S × Option Text
  unfolding search_window close_window
  visit r window limit =
      let searched = search_window r window in
      close_window (shifted (if has_text (query_of window) r.completed then r else searched)) limit

  -- The loop: `none` is for fuel that ran out.
  unfoldable pub loop : ℕ → Run S → Option ℕ → Option (Run S × Option Text)
  unfolding visit
  loop zero r limit = none
  loop (suc fuel) r limit = elim r.store.state.pending_windows [
    | [] ↦ some (r, none)
    | w ∷ ws ↦
        let (next, error) = visit r w limit in
        let rest = loop fuel next limit in
        if r.stopped
        then some (r, none)
        else elim error [ some e ↦ some (next, some e) | none ↦ rest ]
  ]

  -- The `finally` block: its own error takes the place of the loop's.
  unfoldable pub finally_flush : Run S × Option Text → Run S × Option Text
  finally_flush (r, error) =
      let (store, flushed) = flush b r.store (world.clock r.readings) in
      (
        record r { store = store; readings = r.readings + 1 },
        elim flushed [ some e ↦ some e | none ↦ error ],
      )

  abbrev ending : List FailedWindow → RunOutcome
  ending [] = complete
  ending (_ ∷ _) = failed

  -- The end of `runDiscovery`: the exit code is 1 if a window failed. An error of the loop or of a
  -- write is thrown on.
  unfoldable pub conclude : Run S × Option Text → Run S × Option Text × ℕ
  conclude (r, some error) = (r, some error, 1)
  conclude (r, none) =
      let outcome = ending r.store.state.failed_windows in
      let (store, error) = finish_run b r.store outcome (world.clock r.readings) r.stopped in
      (
        record r { store = store; readings = r.readings + 1 },
        error,
        elim r.store.state.failed_windows [ [] ↦ 0 | f ∷ fs ↦ 1 ],
      )

  unfoldable pub begin : Store S → Text → ℕ → Run S
  begin store query now =
      let (state, _) = begin_sweep store.state query now in
      record {
        store = record store { state = state };
        completed = state.completed_windows;
        readings = 0;
        stopped = false;
      }

  -- From an open store to the end.
  unfoldable pub run_discovery :
      ℕ → Store S → Text → ℕ → Option ℕ → Option (Run S × Option Text × ℕ)
  unfolding begin loop finally_flush conclude
  run_discovery fuel store query now limit = elim (loop fuel (begin store query now) limit) [
    | none ↦ none
    | some ended ↦ some (conclude (finally_flush ended))
  ]

  -- What the shutdown handler flushes and records, at whatever point it comes.
  unfoldable pub interrupt : Run S → Run S × Option Text
  interrupt r =
      let (flushed, error) = flush b r.store (world.clock r.readings) in
      let (finished, last) =
        finish_run b flushed interrupted (world.clock (r.readings + 1)) false in
      elim error [
        | some e ↦ (record r { store = flushed; readings = r.readings + 1 }, some e)
        | none ↦ (record r { store = finished; readings = r.readings + 2 }, last)
      ]
