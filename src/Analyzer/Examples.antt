-- ===== src/Analyzer/Examples.antt =====
-- A batch of two events that is cut off in the work for the second.
use keco.Prelude.{true, some, List, [], ◌∷◌, take}
use keco.Prelude.Text.{Text, codes}
use keco.Core.Events.{Event, repo_fetched, repo_skipped}
use keco.Analyzer.{Outcome, analyzed, analyze_batch}
use keco.Analyzer.Batch.{IsCut, analyze_batch-IsCut}

abbrev sure : Text → Text → Text → Outcome
sure id repo hash = analyzed (record { content_hash = hash; confidence = 90; partial_signals = [] })

abbrev events : List Event
events =
    record { id = codes "1"; ts = []; body = repo_skipped (codes "a/b") (codes "fork") }
    ∷ record { id = codes "2"; ts = []; body = repo_fetched (codes "c/d") (codes "h") true }
    ∷ []

analyze_batch-IsCut_example :
    IsCut sure events (some (codes "0")) (take 2 (analyze_batch sure events))
analyze_batch-IsCut_example = analyze_batch-IsCut sure events (some (codes "0")) 2
