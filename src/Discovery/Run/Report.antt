-- ===== src/Discovery/Run/Report.antt =====
-- What the row of a run in `discovery_runs` counts: `openedWith` and `writeRun` of
-- apps/workers/src/discovery/store/store.ts, with `beginSweep` of apps/workers/src/discovery/sweep.ts.
use keco.Prelude.{ℕ, ◌≡◌, inl, inr, refl, Bool, false, Option, some, [], ◌∷◌, List-cases, arith}
use keco.Prelude.Text.{Text}
use keco.Prelude.Int.{pos, sub_ℕ}
use keco.Prelude.Maps.{Map}
use keco.Discovery.Collections.{DiscoveryState, RunOutcome}
use keco.Discovery.Store.{Backend, KnownRepo, open_with, opened_store, run_input, write_run}
use keco.Discovery.Sweep.{begin_sweep}
use keco.Discovery.Run.{World, begin}

pub sub_ℕ-self : (n : ℕ) → sub_ℕ n n ≡ pos 0
sub_ℕ-self n = ground arith

-- The pages that the run's row counts before the run has asked for any: zero for a resumed
-- sweep, but minus the pages of the sweep before where a finished one is begun anew.
pub begin-pages :
    {S : Type 0} (b : Backend S) (world : World) (k : ℕ) (backend : S) (query slug run_id : Text)
    (now : ℕ) (fresh : Bool) (limit : Option ℕ) (s : DiscoveryState) (known : Map ℕ KnownRepo)
    (outcome : RunOutcome) (ended : Option ℕ)
    → let opened = (open_with b backend query slug run_id now fresh limit (some s) known).0 in
      let row = run_input b (begin b world k opened query now).store outcome ended false in
      row.pages_fetched ≡ elim s.pending_windows [ w ∷ ws ↦ pos 0 | [] ↦ sub_ℕ 0 s.pages_fetched ]
unfolding open_with opened_store write_run begin begin_sweep
begin-pages b world k backend query slug run_id now fresh limit s known outcome ended =
    elim (List-cases s.pending_windows) [
      | inl drained ↦ simp (begin_sweep, drained) refl
      | inr (w, ws, front) ↦ simp (begin_sweep, front) (sub_ℕ-self s.pages_fetched)
    ]
