-- ===== src/Discovery/Store.antt =====
-- `DiscoveryStore` of apps/workers/src/discovery/store/store.ts. The object is passed and returned;
-- a call that may throw returns the error beside it. Calls do not overlap here, as the chain on
-- `flushing` makes them not overlap there, so `flush` is `writeAll`.
pub mod Recording
pub mod Flushing
pub mod Schemas
pub mod Opening
use keco.Prelude.{
  ℕ, zero, suc, ◌+◌, ◌-◌, String, Bool, true, false, ◌||◌, Option, none, some, List, [], ◌∷◌, ◌++◌,
  leb, ◌==◌, if◌then◌else◌, length, take, drop, any,
}
use keco.Prelude.Text.{Text, codes, text_eq}
use keco.Prelude.Int.{sub_ℕ}
use keco.Prelude.Maps.{Map, get, put, nat_key}
use keco.DataStore.Values.{Document}
use keco.Github.Item.{SearchItem, SearchPage}
use keco.Discovery.Clock.{to_iso_string}
use keco.Discovery.Windows.{Window}
use keco.Discovery.Collections.{
  repos, runs, state, Content, DetailDoc, to_detail, RepoDocumentContext, to_repo_document,
  FailedWindow, DiscoveryState, to_state_document, RunOutcome, running, RunCounts, RunDocumentInput,
  to_run_document,
}

-- What the store is given: the `put` of a `DataStore` whose own state is an `S`, with its `durable`
-- option, and the hash of a payload.
pub record Backend (S : Type 0) : Type 0 where
  pub write : S → String → List Document → Bool → S × Option Text
  pub hash : Content → Text

pub data RecordOutcome : Type 0 where
  new changed unchanged : RecordOutcome

pub record KnownRepo : Type 0 where
  pub payload_hash : Text
  pub first_seen_run_id : Text

pub record OpenedWith : Type 0 where
  pub pages_fetched : ℕ
  pub dropped : ℕ
  pub windows_completed : ℕ
  pub windows_failed : ℕ

pub record Store (S : Type 0) : Type 0 where
  pub backend : S
  pub query : Text
  pub query_slug : Text
  pub known : Map ℕ KnownRepo
  pub state : DiscoveryState
  pub run_id : Text
  pub started_at : ℕ
  pub fresh : Bool
  pub limit : Option ℕ
  pub seen_this_run : List ℕ
  pub pending_repos : List Document
  pub windows_since_flush : ℕ
  pub last_flush_at : ℕ
  pub run_counts : RunCounts
  pub opened_with : OpenedWith

abbrev pub flush_window_count : ℕ
flush_window_count = 25

abbrev pub flush_interval_ms : ℕ
flush_interval_ms = 30000

abbrev pub write_batch : ℕ
write_batch = 1000

unfoldable pub size : {S : Type 0} → Store S → ℕ
size s = length s.known

abbrev pub contains : ℕ → List ℕ → Bool
contains id = any (λ other. id == other)

abbrev count : RecordOutcome → RunCounts → RunCounts
count new c = record c { new = c.new + 1 }
count changed c = record c { changed = c.changed + 1 }
count unchanged c = record c { unchanged = c.unchanged + 1 }

abbrev first_seen : Option KnownRepo → Text → Text
first_seen none run_id = run_id
first_seen (some known) run_id =
    if text_eq known.first_seen_run_id [] then run_id else known.first_seen_run_id

abbrev same_payload : Option KnownRepo → Text → Bool
same_payload none hash = false
same_payload (some known) hash = text_eq known.payload_hash hash

abbrev outcome_of : Option KnownRepo → RecordOutcome
outcome_of none = new
outcome_of (some _) = changed

module _ {S : Type 0} (b : Backend S) where
  -- The rest of `record`, for a repository that this process has not recorded yet.
  unfoldable pub record_detail : Store S → DetailDoc → Store S × RecordOutcome
  record_detail s detail =
      let known = get s.known detail.repo_id in
      let seen = detail.repo_id ∷ s.seen_this_run in
      let first = first_seen known s.run_id in
      let document = to_repo_document detail (record {
        query = s.query;
        query_slug = s.query_slug;
        run_id = s.run_id;
        first_seen_run_id = first;
      }) in
      if same_payload known detail.payload_hash
      then (record s { seen_this_run = seen; run_counts = count unchanged s.run_counts }, unchanged)
      else (
        record s {
          pending_repos = s.pending_repos ++ document ∷ [];
          known =
              put s.known detail.repo_id
                (record { payload_hash = detail.payload_hash; first_seen_run_id = first });
          seen_this_run = seen;
          run_counts = count (outcome_of known) s.run_counts;
        },
        outcome_of known,
      )

  unfoldable pub record_item : Store S → SearchItem → Text → ℕ → Store S × RecordOutcome
  unfolding record_detail to_detail
  record_item s item via now =
      if contains item.id s.seen_this_run
      then (record s { run_counts = count unchanged s.run_counts }, unchanged)
      else record_detail s (to_detail b.hash item via (to_iso_string now))

  -- The loop of `writeAll`, a batch to a round; as many rounds as documents are enough.
  unfoldable pub write_batches : ℕ → S → List Document → S × Option Text
  write_batches zero backend docs = (backend, none)
  write_batches (suc fuel) backend [] = (backend, none)
  write_batches (suc fuel) backend (d ∷ docs) =
      let (backend', error) = b.write backend repos (take write_batch (d ∷ docs)) false in
      let rest = write_batches fuel backend' (drop write_batch (d ∷ docs)) in
      elim error [ none ↦ rest | some e ↦ (backend', some e) ]

  -- The state put and what follows it.
  unfoldable pub write_state : Store S → ℕ → Store S × Option Text
  write_state s now =
      let document = to_state_document s.state s.query_slug s.run_id now in
      let (backend', error) = b.write s.backend state (document ∷ []) true in
      elim error [
        | some e ↦ (record s { backend = backend' }, some e)
        | none ↦
            (record s { backend = backend'; windows_since_flush = 0; last_flush_at = now }, none)
      ]

  unfoldable pub flush : Store S → ℕ → Store S × Option Text
  unfolding write_state
  flush s now =
      let snapshot = record s { state = record s.state { repos_seen = size s } } in
      let (backend', error) = write_batches (length s.pending_repos) s.backend s.pending_repos in
      elim error [
        | some e ↦ (record snapshot { backend = backend' }, some e)
        | none ↦ write_state (record snapshot { backend = backend'; pending_repos = [] }) now
      ]

  -- The flag says whether a flush ran.
  unfoldable pub window_completed : Store S → ℕ → Store S × Option Text × Bool
  window_completed s now =
      let counted = record s { windows_since_flush = s.windows_since_flush + 1 } in
      let due =
        leb flush_window_count counted.windows_since_flush
        || leb (s.last_flush_at + flush_interval_ms) now in
      let (flushed, error) = flush counted now in
      if due then (flushed, error, true) else (counted, none, false)

  abbrev pub run_input : Store S → RunOutcome → Option ℕ → Bool → RunDocumentInput
  run_input s outcome ended_at stopped_at_limit = record {
    run_id = s.run_id;
    query = s.query;
    query_slug = s.query_slug;
    started_at = s.started_at;
    fresh = s.fresh;
    limit = s.limit;
    outcome = outcome;
    ended_at = ended_at;
    counts = s.run_counts;
    pages_fetched = sub_ℕ s.state.pages_fetched s.opened_with.pages_fetched;
    dropped = sub_ℕ s.state.dropped s.opened_with.dropped;
    windows_completed = sub_ℕ (length s.state.completed_windows) s.opened_with.windows_completed;
    windows_failed = sub_ℕ (length s.state.failed_windows) s.opened_with.windows_failed;
    sweep_repos_total = size s;
    sweep_windows_pending = length s.state.pending_windows;
    stopped_at_limit = stopped_at_limit;
    failed_windows = s.state.failed_windows;
  }

  unfoldable pub write_run : Store S → RunOutcome → Option ℕ → Bool → Store S × Option Text
  write_run s outcome ended_at stopped_at_limit =
      let document = to_run_document (run_input s outcome ended_at stopped_at_limit) in
      let (backend', error) = b.write s.backend runs (document ∷ []) true in
      (record s { backend = backend' }, error)

  unfoldable pub finish_run : Store S → RunOutcome → ℕ → Bool → Store S × Option Text
  finish_run s outcome now stopped_at_limit = write_run s outcome (some now) stopped_at_limit

  abbrev initial_state : Text → ℕ → DiscoveryState
  initial_state query now = record {
    query = query;
    started_at = to_iso_string now;
    pending_windows = [];
    completed_windows = [];
    failed_windows = [];
    repos_seen = 0;
    pages_fetched = 0;
    dropped = 0;
  }

  -- The constructor, on the state that was loaded or an empty one, and the repositories known.
  unfoldable pub opened_store :
      S
      → Text
      → Text
      → Text
      → ℕ
      → Bool
      → Option ℕ
      → Option DiscoveryState
      → Map ℕ KnownRepo
      → Store S
  opened_store backend query query_slug run_id now fresh limit stored known =
      let begun : DiscoveryState = elim stored [ none ↦ initial_state query now | some s ↦ s ] in
      record {
        backend = backend;
        query = query;
        query_slug = query_slug;
        known = known;
        state = begun;
        run_id = run_id;
        started_at = now;
        fresh = fresh;
        limit = limit;
        seen_this_run = [];
        pending_repos = [];
        windows_since_flush = 0;
        last_flush_at = now;
        run_counts = record { new = 0; changed = 0; unchanged = 0 };
        opened_with = record {
          pages_fetched = begun.pages_fetched;
          dropped = begun.dropped;
          windows_completed = length begun.completed_windows;
          windows_failed = length begun.failed_windows;
        };
      }

  -- The end of `open`: the store, and the run's row.
  unfoldable pub open_with :
      S
      → Text
      → Text
      → Text
      → ℕ
      → Bool
      → Option ℕ
      → Option DiscoveryState
      → Map ℕ KnownRepo
      → Store S × Option Text
  unfolding opened_store
  open_with backend query query_slug run_id now fresh limit stored known =
      write_run (opened_store backend query query_slug run_id now fresh limit stored known) running
        none false
