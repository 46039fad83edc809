-- ===== src/Discovery/Run/Covered.antt =====
-- What the exit code 0 of `runDiscovery`, apps/workers/src/discovery/index.ts, says of the windows that
-- are pending or listed as failed, and what its shutdown handler does to the queue.
use keco.Prelude.{ℕ, ◌+◌, inl, inr, false, Option-cases}
use keco.Prelude.Text.{Text}
use keco.Discovery.Collections.{DiscoveryState, interrupted}
use keco.Discovery.Store.{Backend, Store, flush}
use keco.Discovery.Run.{World, Run, interrupt, fetch_pages}
use keco.Discovery.Run.Coverage.{Ledger, same-Ledger}
use keco.Discovery.Run.Effects.{SameQueue, flush-SameQueue, fetch_pages-Undecided}
use keco.Discovery.Run.Progress.{IsSound, Grew-refl}
use keco.Discovery.Run.Complete.{finish_run-state}

module _ {S : Type 0} (b : Backend S) (world : World) (k : ℕ) where
  -- The shutdown handler, whether or not its writes fail.
  interrupt-keeps :
      (r : Run S) → Ledger k r.store.state → Ledger k (interrupt b world k r).0.store.state
  unfolding interrupt
  interrupt-keeps r l =
      let (flushed, error) = flush b r.store (world.clock r.readings) in
      let finished =
        finish_run-state b world k flushed interrupted (world.clock (r.readings + 1)) false in
      let ledger = kept flushed.state (flush-SameQueue b r.store (world.clock r.readings)) in
      elim (Option-cases error) [
        | inl fine ↦ simp (interrupt, fine) (rw finished ledger)
        | inr (x, broken) ↦ simp (interrupt, broken) ledger
      ]
    where
      kept : (s : DiscoveryState) → SameQueue r.store.state s → Ledger k s
      kept s same = same-Ledger k r.store.state s l same.pending (Grew-refl r.store.state s same)

  -- A sound run that is interrupted while it fetches the pages of a window, after any number of
  -- them and whether or not the writes of the shutdown handler fail, keeps the ledger: the window is still owed.
  pub interrupt-Ledger :
      (r : Run S) (pages : ℕ) (q : Text) (first : ℕ)
      → IsSound k r
      → Ledger k (interrupt b world k (fetch_pages b world k pages r q first).0).0.store.state
  interrupt-Ledger r pages q first v =
      let partial = (fetch_pages b world k pages r q first).0 in
      let same = (fetch_pages-Undecided b world k pages r q first).queue in
      interrupt-keeps partial (
        same-Ledger k r.store.state partial.store.state v.ledger same.pending
          (Grew-refl r.store.state partial.store.state same))
