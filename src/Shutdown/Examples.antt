-- ===== src/Shutdown/Examples.antt =====
-- A Ctrl-C that a process manager echoes, and a second one.
use keco.Prelude.{◌≡◌, none, [], ◌∷◌}
use keco.Shutdown.{sigint, sigterm, flush_then_exit, exit, exit_code, handle_all, shutdown_grace_ms}
use keco.Shutdown.Echoes.{from_instant, handle_all_lem}

handle_all_lem_example :
    handle_all shutdown_grace_ms none ((sigint, 0) ∷ (sigterm, 20) ∷ (sigint, 1000) ∷ [])
    ≡ flush_then_exit 130 ∷ exit 130 ∷ []
unfolding exit_code from_instant
handle_all_lem_example =
    handle_all_lem shutdown_grace_ms sigint 0 ((sigterm, 20) ∷ (sigint, 1000) ∷ [])
