-- ===== src/Discovery/Run/Progress.antt =====
-- The loop of `runDiscovery`, apps/workers/src/discovery/index.ts, keeps the ledger and ends.
use keco.Prelude.{
  ℕ, ◌≡◌, inl, inr, refl, sym, ap, ◌∙◌, true, ◌||◌, Option, List, [], ◌∷◌, ◌++◌, arith,
  if◌then◌else◌, Bool-cases, append-nil,
}
use keco.Prelude.Text.{Text, text_eq, text_eq_iff}
use keco.Discovery.Windows.{Window, query_of, split, split_created}
use keco.Discovery.Plan.{plan_window, plan_window-children, per_page_cap}
use keco.Discovery.Collections.{DiscoveryState}
use keco.Discovery.Store.{Backend}
use keco.Discovery.Run.{World, Run, has_text, search_window, tail_of, shifted, close_window, visit}
use keco.Discovery.Run.Coverage.{
  Ledger, Grew, has_text-append, failed_texts-append, settle-Ledger, split-Ledger, same-Ledger,
}
use keco.Discovery.Run.Effects.{
  SameQueue, Failed, Completed, search_window-decided, window_completed-SameQueue,
}

-- The ledger, and every text of the run's own set of completed windows stands in the state.
pub record IsSound {S : Type 0} (k : ℕ) (r : Run S) : Type 0 where
  pub ledger : Ledger k r.store.state
  pub synced :
      (q : Text) → has_text q r.completed ≡ true → has_text q r.store.state.completed_windows ≡ true

has_text_last : (q : Text) (qs : List Text) → has_text q (qs ++ q ∷ []) ≡ true
has_text_last q qs = rw has_text-append (ground (arith, text_eq_iff q q))

has_text_grew : (q : Text) (qs rs : List Text) → has_text q qs ≡ true → has_text q (qs ++ rs) ≡ true
has_text_grew q qs rs h = rw (has_text-append, h) refl

pub split-empty : (w : Window) (k : ℕ) → split_created w.created k ≡ [] → split w k ≡ []
unfolding split
split-empty w k e = rw e refl

pub Grew-refl : (s s' : DiscoveryState) → SameQueue s s' → Grew s s'
Grew-refl s s' q = record {
  more_completed = [];
  more_failed = [];
  completed_grew = q.completed ∙ sym (append-nil _);
  failed_grew = q.failed ∙ sym (append-nil _);
}

pub SameQueue-IsSound :
    {S : Type 0} (k : ℕ) (r r' : Run S)
    → IsSound k r
    → SameQueue r.store.state r'.store.state
    → r'.completed ≡ r.completed
    → IsSound k r'
SameQueue-IsSound k r r' v same done = record {
  ledger =
      same-Ledger k r.store.state r'.store.state v.ledger same.pending
        (Grew-refl r.store.state r'.store.state same);
  synced = λ q h. rw same.completed (v.synced q (rw done at h));
}

module _ {S : Type 0} (b : Backend S) (world : World) (k : ℕ) where
  module _ (r : Run S) (w : Window) (ws : List Window)
      (front : r.store.state.pending_windows ≡ w ∷ ws) (v : IsSound k r) where
    skipped-IsSound : has_text (query_of w) r.completed ≡ true → IsSound k (shifted b world k r)
    skipped-IsSound h = record {
      ledger =
          settle-Ledger k r.store.state (shifted b world k r).store.state w ws v.ledger front
            (ap tail_of front)
            (record {
              more_completed = [];
              more_failed = [];
              completed_grew = sym (append-nil _);
              failed_grew = sym (append-nil _);
            })
            (rw (v.synced (query_of w) h) refl);
      synced = v.synced;
    }

    Failed-IsSound : (x : Run S) → Failed b world k r x w → IsSound k (shifted b world k x)
    Failed-IsSound x f = record {
      ledger =
          settle-Ledger k r.store.state (shifted b world k x).store.state w ws v.ledger front
            (ap tail_of (f.pending ∙ front))
            (record {
              more_completed = [];
              more_failed = record { window = query_of w; error = f.error } ∷ [];
              completed_grew = f.completed ∙ sym (append-nil _);
              failed_grew = f.failed;
            })
            (rw (f.failed, failed_texts-append, has_text_last) (ground arith));
      synced = λ q h. rw f.completed (v.synced q (rw f.done at h));
    }

    completed-synced :
        (x : Run S)
        → Completed b world k r x w
        → (q : Text) → has_text q x.completed ≡ true
        → has_text q x.store.state.completed_windows ≡ true
    completed-synced x c q h =
        rw (c.completed, has_text-append q r.store.state.completed_windows (query_of w ∷ []))
          (go (rw c.done at h))
      where
        go :
            text_eq q (query_of w) || has_text q r.completed ≡ true
            → has_text q r.store.state.completed_windows || has_text q (query_of w ∷ []) ≡ true
        go e = ground (arith, v.synced q)

    Completed-Grew :
        (x : Run S)
        → Completed b world k r x w
        → Grew r.store.state (shifted b world k x).store.state
    Completed-Grew x c = record {
      more_completed = query_of w ∷ [];
      more_failed = [];
      completed_grew = c.completed;
      failed_grew = c.failed ∙ sym (append-nil _);
    }

    queued :
        (x : Run S) (parts : List Window) (c : Completed b world k r x w)
        → (plan_window w c.total k per_page_cap).children ≡ parts
        → (shifted b world k x).store.state.pending_windows ≡ ws ++ parts
    queued x parts c e = ap tail_of (
        c.pending ∙ ap (λ ps. r.store.state.pending_windows ++ ps) e ∙ ap (λ qs. qs ++ parts) front)

    Completed-IsSound : (x : Run S) → Completed b world k r x w → IsSound k (shifted b world k x)
    Completed-IsSound x c = elim (plan_window-children w c.total k per_page_cap) [
      | inl leaf ↦ record {
        ledger =
            settle-Ledger k r.store.state (shifted b world k x).store.state w ws v.ledger front
              (queued x [] c leaf ∙ append-nil ws) (Completed-Grew x c)
              (rw (c.completed, has_text_last) refl);
        synced = completed-synced x c;
      }
      | inr (parts, some_parts) ↦ record {
        ledger =
            split-Ledger k r.store.state (shifted b world k x).store.state w ws v.ledger front
              (queued x (split w k) c parts) (Completed-Grew x c)
              (λ e. some_parts (split-empty w k e));
        synced = completed-synced x c;
      }
    ]

    shifted-IsSound : IsSound k (
        shifted b world k
          (if has_text (query_of w) r.completed then r else search_window b world k r w))
    shifted-IsSound = elim (Bool-cases (has_text (query_of w) r.completed)) [
      | inl known ↦ rw known (skipped-IsSound known)
      | inr fresh ↦ rw fresh (elim (search_window-decided b world k r w) [
        | inl f ↦ Failed-IsSound _ f
        | inr c ↦ Completed-IsSound _ c
      ])
    ]

  pub close_window-same :
      (r : Run S) (limit : Option ℕ)
      → SameQueue r.store.state (close_window b world k r limit).0.store.state
        × ((close_window b world k r limit).0.completed ≡ r.completed)
  unfolding close_window
  close_window-same r limit =
      ground (arith, window_completed-SameQueue b r.store (world.clock r.readings))

  pub visit-IsSound :
      (r : Run S) (w : Window) (ws : List Window) (limit : Option ℕ)
      → r.store.state.pending_windows ≡ w ∷ ws
      → IsSound k r
      → IsSound k (visit b world k r w limit).0
  unfolding visit
  visit-IsSound r w ws limit front v =
      let closed =
        close_window-same
          (shifted b world k
            (if has_text (query_of w) r.completed then r else search_window b world k r w))
          limit in
      SameQueue-IsSound k _ _ (shifted-IsSound r w ws front v) closed.0 closed.1
