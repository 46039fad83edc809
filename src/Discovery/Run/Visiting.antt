-- ===== src/Discovery/Run/Visiting.antt =====
-- One round of the loop of `runDiscovery`, apps/workers/src/discovery/index.ts, by what the search answers.
use keco.Prelude.{
  ℕ, suc, ◌+◌, ◌*◌, ◌≤◌, ◌<◌, ◌≡◌, ◌⊎◌, Bool, true, false, Option, List, [], ◌∷◌, ◌++◌, indicator,
}
use keco.Prelude.Text.{Text}
use keco.Github.Item.{SearchPage}
use keco.Discovery.Windows.{Window, query_of}
use keco.Discovery.Windows.Identity.{IsRange}
use keco.Discovery.Plan.{WindowPlan, plan_window, per_page_cap, is_day}
use keco.Discovery.Collections.{DiscoveryState, FailedWindow}
use keco.Discovery.Store.{Backend}
use keco.Discovery.Run.{World, Run, found, refused, settle, shifted, close_window}
use keco.Discovery.Run.Coverage.{Repository, wants, wanting}
use keco.Discovery.Run.Effects.{Undecided}
use keco.Discovery.Run.Answers.{AreFound, IsRefused}

-- The head of the queue is taken off, its parts join the end, and the two lists grow.
pub record Moves (s s' : DiscoveryState) (ws parts : List Window) (done : List Text)
    (lost : List FailedWindow) : Type 0 where
  pub pending : s'.pending_windows ≡ ws ++ parts
  pub completed : s'.completed_windows ≡ s.completed_windows ++ done
  pub failed : s'.failed_windows ≡ s.failed_windows ++ lost

module _ (world : World) (k : ℕ) (s s' : DiscoveryState) (w : Window) (ws : List Window) where
  -- The window is listed as failed: its first page was refused, or one of those after it.
  pub record IsFailedVisit : Type 0 where
    pub error : Text
    pub refusal :
        (world.page (s.pages_fetched + 1) (query_of w) 1 ≡ refused error)
        ⊎ ((probe : SearchPage) × (left : ℕ) × (world.page (s.pages_fetched + 1) (query_of w) 1
              ≡ found probe)
            × IsRefused world (query_of w) left (s.pages_fetched + 2) 2 error)
    pub moves : Moves s s' ws [] [] (record { window = query_of w; error = error } ∷ [])

  -- The window is listed as completed, and all its pages came: they hold all its results, unless it is a
  -- single day of more than 1000, of which the first 1000 are read.
  pub record IsReadVisit : Type 0 where
    pub probe : SearchPage
    pub more : ℕ
    pub probed : world.page (s.pages_fetched + 1) (query_of w) 1 ≡ found probe
    pub pages : AreFound world (query_of w) more (s.pages_fetched + 2) 2
    pub reach :
        (probe.total_count ≤ suc more * 100)
        ⊎ ((is_day w.created ≡ true) × (1000 < probe.total_count) × (1000 ≤ suc more * 100))
    pub moves : Moves s s' ws [] (query_of w ∷ []) []

  -- The window is listed as completed, and since it has more than 1000 results its parts join the queue,
  -- of which exactly one asks for a repository that the window asks for, and none for another.
  pub record IsSplitVisit : Type 0 where
    pub probe : SearchPage
    pub probed : world.page (s.pages_fetched + 1) (query_of w) 1 ≡ found probe
    pub over : 1000 < probe.total_count
    pub parts : List Window
    pub wanted : (t : Repository k) → wanting t.target parts ≡ indicator (wants t.target w)
    pub moves : Moves s s' ws parts (query_of w ∷ []) []

  abbrev pub IsVisit : Bool → Type 0
  IsVisit true = Moves s s' ws [] [] []
  IsVisit false = IsFailedVisit ⊎ IsReadVisit ⊎ IsSplitVisit

module _ {S : Type 0} (b : Backend S) (world : World) (k : ℕ) where
  module _ (r x : Run S) (limit : Option ℕ) (w : Window) (ws : List Window) (probe : SearchPage)
      (front : r.store.state.pending_windows ≡ w ∷ ws) (range : IsRange w.created)
      (u : Undecided b world k r x)
      (probed : world.page (r.store.state.pages_fetched + 1) (query_of w) 1 ≡ found probe) where
    abbrev plan : WindowPlan
    plan = plan_window w probe.total_count k per_page_cap

    abbrev ended : Option Text → DiscoveryState
    ended o =
        (close_window b world k
          (shifted b world k (settle b world k (x, o) plan.children (query_of w)))
          limit).0.store.state
