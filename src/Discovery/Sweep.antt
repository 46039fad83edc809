-- ===== src/Discovery/Sweep.antt =====
-- apps/workers/src/discovery/sweep.ts: resume the interrupted sweep, or start a new one.
use keco.Prelude.{ℕ, Bool, true, false, [], ◌∷◌}
use keco.Prelude.Text.{Text}
use keco.Discovery.Clock.{to_iso_string}
use keco.Discovery.Windows.{initial_windows}
use keco.Discovery.Collections.{DiscoveryState}

-- The state, written in place there, and whether it is a resume.
unfoldable pub begin_sweep : DiscoveryState → Text → ℕ → DiscoveryState × Bool
begin_sweep s query now = elim s.pending_windows [
  | w ∷ ws ↦ (s, true)
  | [] ↦ (
    record s {
      pending_windows = initial_windows query;
      completed_windows = [];
      failed_windows = [];
      started_at = to_iso_string now;
      pages_fetched = 0;
      dropped = 0;
    },
    false,
  )
]
