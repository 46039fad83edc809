-- ===== src/Discovery/Run/Complete.antt =====
-- What `runDiscovery`, apps/workers/src/discovery/index.ts, promises from an open store to its end.
use mathlib.Core.Path.{subst}
use keco.Prelude.{
  ℕ, ◌<◌, ◌≡◌, ◌≢◌, ◌⊎◌, inl, inr, refl, sym, ap, ◌∙◌, Bool, Option, none, some, List, [], ◌∷◌,
  arith, Option-cases, List-cases,
}
use keco.Prelude.Text.{Text}
use keco.Discovery.Windows.{Window}
use keco.Discovery.Windows.Measure.{total_weight}
use keco.Discovery.Collections.{DiscoveryState, RunOutcome}
use keco.Discovery.Store.{Backend, Store, flush, finish_run, write_run}
use keco.Discovery.Sweep.{begin_sweep}
use keco.Discovery.Run.{World, Run, loop, finally_flush, conclude, begin, run_discovery}
use keco.Discovery.Run.Coverage.{Ledger, initial-Ledger}
use keco.Discovery.Run.Effects.{SameQueue, flush-SameQueue}
use keco.Discovery.Run.Progress.{IsSound, SameQueue-IsSound}
use keco.Discovery.Run.Ending.{loop-IsSound, loop-total}

-- A stored state that a sweep can start from: nothing is pending, or the ledger holds.
abbrev CanStart : ℕ → DiscoveryState → Type 0
CanStart k s = (s.pending_windows ≡ []) ⊎ Ledger k s

-- A sweep that begins or resumes owes what the ledger says.
begin_sweep-Ledger :
    (k : ℕ) (s : DiscoveryState) (query : Text) (now : ℕ)
    → CanStart k s
    → Ledger k (begin_sweep s query now).0
unfolding begin_sweep
begin_sweep-Ledger k s query now h = elim (List-cases s.pending_windows) [
  | inl drained ↦ simp (begin_sweep, drained) (initial-Ledger k query _ refl)
  | inr (w, ws, front) ↦ simp (begin_sweep, front) (resumed w ws front h)
]
  where
    resumed :
        (w : Window) (ws : List Window) → s.pending_windows ≡ w ∷ ws → CanStart k s → Ledger k s
    resumed w ws front (inr l) = l
    resumed w ws front (inl e) = ground (arith, sym front ∙ e)

module _ {S : Type 0} (b : Backend S) (world : World) (k : ℕ) where
  begin-IsSound :
      (store : Store S) (query : Text) (now : ℕ)
      → CanStart k store.state
      → IsSound k (begin b world k store query now)
  unfolding begin
  begin-IsSound store query now h = record {
    ledger = begin_sweep-Ledger k store.state query now h;
    synced = λ q e. e;
  }

  pub finish_run-state :
      (s : Store S) (outcome : RunOutcome) (now : ℕ) (stopped : Bool)
      → (finish_run b s outcome now stopped).0.state ≡ s.state
  unfolding finish_run write_run
  finish_run-state s outcome now stopped = refl

  pub finally_flush-SameQueue :
      (r : Run S) (error : Option Text)
      → SameQueue r.store.state (finally_flush b world k (r, error)).0.store.state
  unfolding finally_flush
  finally_flush-SameQueue r error = flush-SameQueue b r.store (world.clock r.readings)

  abbrev value_of :
      Run S × Option Text × ℕ → Option (Run S × Option Text × ℕ) → Run S × Option Text × ℕ
  value_of a none = a
  value_of a (some x) = x

  finally_flush-completed :
      (r : Run S) (error : Option Text)
      → (finally_flush b world k (r, error)).0.completed ≡ r.completed
  unfolding finally_flush
  finally_flush-completed r error = refl

  pub finally_flush-stopped :
      (r : Run S) (error : Option Text) → (finally_flush b world k (r, error)).0.stopped ≡ r.stopped
  unfolding finally_flush
  finally_flush-stopped r error = refl

  -- A run that ends: what the loop came to, flushed and concluded.
  pub run-ended :
      (fuel : ℕ) (store : Store S) (query : Text) (now : ℕ) (limit : Option ℕ) (r : Run S)
      (error : Option Text) (code : ℕ)
      → run_discovery b world k fuel store query now limit ≡ some (r, error, code)
      → (ended : Run S) × (thrown : Option Text) × (loop b world k fuel
            (begin b world k store query now)
            limit
          ≡ some (ended, thrown))
        × (conclude b world k (finally_flush b world k (ended, thrown)) ≡ (r, error, code))
  unfolding run_discovery
  run-ended fuel store query now limit r error code e =
      elim (Option-cases (loop b world k fuel (begin b world k store query now) limit)) [
        | inl out ↦
            let impossible : none ≡ some (r, error, code) = simp (run_discovery, out) at e in
            ground arith
        | inr ((ended, thrown), l) ↦
            (ended, thrown, l, ap (value_of (r, error, code)) (simp (run_discovery, l) at e))
      ]

  pub run_discovery-total :
      (fuel : ℕ) (store : Store S) (query : Text) (now : ℕ) (limit : Option ℕ)
      → total_weight (begin_sweep store.state query now).0.pending_windows k < fuel
      → run_discovery b world k fuel store query now limit ≢ none
  unfolding run_discovery begin
  run_discovery-total fuel store query now limit enough =
      elim (Option-cases (loop b world k fuel (begin b world k store query now) limit)) [
        | inl out ↦
            ground
              (arith, loop-total b world k fuel (begin b world k store query now) limit enough out)
        | inr (ended, l) ↦ simp (run_discovery, l) (ground arith)
      ]

  -- The state that a run leaves is the one that its last flush left.
  pub conclude-state :
      (r : Run S) (thrown : Option Text)
      → (conclude b world k (r, thrown)).0.store.state ≡ r.store.state
  unfolding conclude
  conclude-state r none = finish_run-state r.store _ (world.clock r.readings) r.stopped
  conclude-state r (some e) = refl

  pub conclude-stopped :
      (r : Run S) (thrown : Option Text) → (conclude b world k (r, thrown)).0.stopped ≡ r.stopped
  unfolding conclude
  conclude-stopped r none = refl
  conclude-stopped r (some e) = refl

  -- The exit code 0 says that nothing was thrown and that no window failed.
  pub conclude-zero :
      (r : Run S) (thrown : Option Text)
      → (conclude b world k (r, thrown)).2 ≡ 0
      → (thrown ≡ none) × (r.store.state.failed_windows ≡ [])
  unfolding conclude
  conclude-zero r (some e) h = ground arith
  conclude-zero r none h = elim (List-cases r.store.state.failed_windows) [
    | inl none_failed ↦ (refl, none_failed)
    | inr (f, fs, some_failed) ↦ let one : 1 ≡ 0 = simp (conclude, some_failed) at h in ground arith
  ]

  pub finally_flush-none :
      (r : Run S) (thrown : Option Text)
      → (finally_flush b world k (r, thrown)).1 ≡ none
      → thrown ≡ none
  unfolding finally_flush
  finally_flush-none r thrown e = elim (Option-cases (flush b r.store (world.clock r.readings)).1) [
    | inl fine ↦ simp (finally_flush, fine) at e
    | inr (x, broken) ↦ let bad : some x ≡ none = simp (finally_flush, broken) at e in ground arith
  ]

  -- What a run that ends leaves, whatever was thrown and whatever its code: the ledger.
  run_discovery-Ledger :
      (fuel : ℕ) (store : Store S) (query : Text) (now : ℕ) (limit : Option ℕ) (r : Run S)
      (error : Option Text) (code : ℕ)
      → CanStart k store.state
      → run_discovery b world k fuel store query now limit ≡ some (r, error, code)
      → Ledger k r.store.state
  run_discovery-Ledger fuel store query now limit r error code start e =
      let (ended, thrown, l, last) = run-ended fuel store query now limit r error code e in
      subst (λ x. Ledger k x.0.store.state) last
        (ledger_of ended thrown (
          loop-IsSound b world k fuel _ limit ended thrown l (begin-IsSound store query now start)))
    where
      ledger_of :
          (ended : Run S) (thrown : Option Text)
          → IsSound k ended
          → Ledger k (conclude b world k (finally_flush b world k (ended, thrown))).0.store.state
      ledger_of ended thrown v =
          let flushed = finally_flush b world k (ended, thrown) in
          rw (conclude-state flushed.0 flushed.1)
            (SameQueue-IsSound k ended flushed.0 v (finally_flush-SameQueue ended thrown)
              (finally_flush-completed ended thrown)).ledger
