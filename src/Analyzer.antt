-- ===== src/Analyzer.antt =====
-- The journal loop of apps/workers/src/analyzer/index.ts. What `analyzeOne` comes to for a repository, by
-- `loadArtifacts` and `analyzeRepo`, is a parameter, by the id of the event. The effects of a batch are kept in order.
pub mod Batch
mod Examples
use keco.Prelude.{ℕ, Bool, true, false, not, Option, none, some, List, [], ◌∷◌, ◌++◌, ltb, length}
use keco.Prelude.Text.{Text, codes}
use keco.Core.Events.{
  NewEvent, repo_discovered, repo_fetched, repo_analyzed, repo_skipped, repo_failed, analyze, Event,
}

-- The parts of an analysis that the loop reads; a confidence is in hundredths.
pub record Analysis : Type 0 where
  pub content_hash : Text
  pub confidence : ℕ
  pub partial_signals : List Text

pub data Outcome : Type 0 where
  not_crawled : Outcome
  analyzed : Analysis → Outcome
  thrown : Text → Outcome

pub data Effect : Type 0 where
  put_analysis : Text → Analysis → Effect
  append_event : NewEvent → Effect
  advance_to : Text → Effect

abbrev pub is_partial : List Text → Bool
is_partial [] = false
is_partial (_ ∷ _) = true

-- `recordSuccess`
unfoldable pub record_success : Text → Analysis → NewEvent
record_success repo a =
    repo_analyzed repo a.content_hash a.confidence (is_partial a.partial_signals)

-- `recordFailure`
unfoldable pub record_failure : Text → Text → NewEvent
record_failure repo message = repo_failed repo analyze message

-- `perItem` around `analyzeOne`, with what follows it.
unfoldable pub analyze_item : Text → Outcome → List Effect
unfolding record_success record_failure
analyze_item repo not_crawled = append_event (repo_skipped repo (codes "not-crawled")) ∷ []
analyze_item repo (analyzed a) = put_analysis repo a ∷ append_event (record_success repo a) ∷ []
analyze_item repo (thrown message) = append_event (record_failure repo message) ∷ []

module _ (work : Text → Text → Text → Outcome) where
  -- What is done for an event before the checkpoint advances past it.
  unfoldable pub handle : Text → NewEvent → List Effect
  unfolding analyze_item
  handle id (repo_fetched repo hash true) = analyze_item repo (work id repo hash)
  handle id _ = []

  -- The loop over the events that were read.
  unfoldable pub analyze_batch : List Event → List Effect
  unfolding handle
  analyze_batch [] = []
  analyze_batch (e ∷ es) = handle e.id e.body ++ (advance_to e.id ∷ analyze_batch es)
