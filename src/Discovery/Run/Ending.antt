-- ===== src/Discovery/Run/Ending.antt =====
-- How the loop of `runDiscovery`, apps/workers/src/discovery/index.ts, ends, and what a run that
-- ends leaves behind.
use mathlib.Core.Path.{subst}
use keco.Prelude.{
  ℕ, zero, suc, ◌<◌, ◌≡◌, ◌≢◌, ◌⊎◌, inl, inr, sym, ap, ◌∙◌, true, Option, none, some, List, [], ◌∷◌,
  ◌++◌, arith, if◌then◌else◌, Bool-cases, Option-cases, List-cases, append-nil,
}
use keco.Prelude.Text.{Text}
use keco.Discovery.Windows.{Created, years, Window, query_of}
use keco.Discovery.Windows.Measure.{weight, total_weight, total_weight-append, split-weight}
use keco.Discovery.Plan.{plan_window, plan_window-children, per_page_cap}
use keco.Discovery.Store.{Backend}
use keco.Discovery.Run.{World, Run, has_text, search_window, shifted, visit, loop, tail_of}
use keco.Discovery.Run.Effects.{search_window-decided}
use keco.Discovery.Run.Progress.{IsSound, visit-IsSound, close_window-same}

module _ {S : Type 0} (b : Backend S) (world : World) (k : ℕ) where
  tail-weight :
      (ws parts queue : List Window) (w : Window)
      → queue ≡ (w ∷ ws) ++ parts
      → total_weight parts k < weight w.created k
      → total_weight (tail_of queue) k < total_weight (w ∷ ws) k
  tail-weight ws parts queue w e less = rw e (omega (arith, total_weight-append ws parts k))

  weight-positive : (c : Option Created) → 0 < weight c k
  weight-positive none = omega arith
  weight-positive (some (years f t)) = omega arith
  weight-positive (some _) = omega arith

  children-weight :
      (w : Window) (total : ℕ)
      → total_weight (plan_window w total k per_page_cap).children k < weight w.created k
  children-weight w total = elim (plan_window-children w total k per_page_cap) [
    | inl leaf ↦ rw leaf (weight-positive w.created)
    | inr (parts, _) ↦ rw parts (split-weight w k)
  ]

  module _ (r : Run S) (w : Window) (ws : List Window)
      (front : r.store.state.pending_windows ≡ w ∷ ws) where
    searched-weight :
        total_weight (tail_of (search_window b world k r w).store.state.pending_windows) k
        < total_weight (w ∷ ws) k
    searched-weight = elim (search_window-decided b world k r w) [
      | inl f ↦
          tail-weight ws [] _ w (f.pending ∙ front ∙ sym (append-nil (w ∷ ws)))
            (weight-positive w.created)
      | inr c ↦
          tail-weight ws (plan_window w c.total k per_page_cap).children _ w
            (c.pending ∙ ap (λ qs. qs ++ (plan_window w c.total k per_page_cap).children) front)
            (children-weight w c.total)
    ]

    shifted-weight :
        total_weight
          (shifted b world k (
            if has_text (query_of w) r.completed
            then r
            else search_window b world k r w)).store.state.pending_windows
          k
        < total_weight (w ∷ ws) k
    shifted-weight = elim (Bool-cases (has_text (query_of w) r.completed)) [
      | inl known ↦
          rw known
            (tail-weight ws [] _ w (front ∙ sym (append-nil (w ∷ ws))) (weight-positive w.created))
      | inr fresh ↦ rw fresh searched-weight
    ]

    -- A round of the loop leaves less work than it found.
    visit-weight :
        (limit : Option ℕ)
        → total_weight (visit b world k r w limit).0.store.state.pending_windows k
          < total_weight (w ∷ ws) k
    unfolding visit
    visit-weight limit =
        let closed =
          close_window-same b world k
            (shifted b world k
              (if has_text (query_of w) r.completed then r else search_window b world k r w))
            limit in
        rw closed.0.pending shifted-weight

  abbrev reached : Run S → Option (Run S × Option Text) → Run S
  reached r none = r
  reached r (some (r', error)) = r'

  abbrev thrown_by : Option (Run S × Option Text) → Option Text
  thrown_by none = none
  thrown_by (some (r', error)) = error

  -- How a loop that has come to its end got there: here, or after a round.
  loop-step :
      (fuel : ℕ) (r : Run S) (limit : Option ℕ) (r' : Run S) (error : Option Text)
      → loop b world k (suc fuel) r limit ≡ some (r', error)
      → ((r ≡ r') × ((r.store.state.pending_windows ≡ []) ⊎ (r.stopped ≡ true)))
        ⊎ ((w : Window) × (ws : List Window) × (r.store.state.pending_windows ≡ w ∷ ws)
            × ((((visit b world k r w limit).0 ≡ r') × ((x : Text) × (error ≡ some x)))
                ⊎ (loop b world k fuel (visit b world k r w limit).0 limit ≡ some (r', error))))
  unfolding loop
  loop-step fuel r limit r' error e = elim (List-cases r.store.state.pending_windows) [
    | inl drained ↦ inl (ap (reached r) (simp (loop, drained) at e), inl drained)
    | inr (w, ws, front) ↦ elim (Bool-cases r.stopped) [
      | inl stopped ↦ inl (ap (reached r) (simp (loop, front, stopped) at e), inr stopped)
      | inr on ↦ elim (Option-cases (visit b world k r w limit).1) [
        | inl fine ↦ inr (w, ws, front, inr (simp (loop, front, on, fine) at e))
        | inr (x, thrown) ↦
            let here : some ((visit b world k r w limit).0, some x) ≡ some (r', error) =
              simp (loop, front, on, thrown) at e in
            inr (w, ws, front, inl (ap (reached r) here, (x, sym (ap thrown_by here))))
      ]
    ]
  ]

  -- What every round keeps, the loop keeps.
  loop-keeps :
      (P : Run S → Type 0)
      → ((r : Run S) (w : Window) (ws : List Window) (limit : Option ℕ)
          → r.store.state.pending_windows ≡ w ∷ ws
          → P r
          → P (visit b world k r w limit).0)
      → (fuel : ℕ) (r : Run S) (limit : Option ℕ) (r' : Run S) (error : Option Text)
      → loop b world k fuel r limit ≡ some (r', error)
      → P r
      → P r'
  unfolding loop
  loop-keeps P step zero r limit r' error e v = ground arith
  loop-keeps P step (suc fuel) r limit r' error e v = elim (loop-step fuel r limit r' error e) [
    | inl (here, _) ↦ subst P here v
    | inr (w, ws, front, inl (last, _)) ↦ subst P last (step r w ws limit front v)
    | inr (w, ws, front, inr rest) ↦
        loop-keeps P step fuel (visit b world k r w limit).0 limit r' error rest
          (step r w ws limit front v)
  ]

  -- A loop that throws nothing ends when nothing is pending, or when the limit stops it.
  pub loop-ends :
      (fuel : ℕ) (r : Run S) (limit : Option ℕ) (r' : Run S)
      → loop b world k fuel r limit ≡ some (r', none)
      → (r'.store.state.pending_windows ≡ []) ⊎ (r'.stopped ≡ true)
  unfolding loop
  loop-ends zero r limit r' e = ground arith
  loop-ends (suc fuel) r limit r' e = elim (loop-step fuel r limit r' none e) [
    | inl (here, end) ↦
        subst (λ x. (x.store.state.pending_windows ≡ []) ⊎ (x.stopped ≡ true)) here end
    | inr (w, ws, front, inl (_, (x, thrown))) ↦ ground arith
    | inr (w, ws, front, inr rest) ↦ loop-ends fuel (visit b world k r w limit).0 limit r' rest
  ]

  pub loop-IsSound :
      (fuel : ℕ) (r : Run S) (limit : Option ℕ) (r' : Run S) (error : Option Text)
      → loop b world k fuel r limit ≡ some (r', error)
      → IsSound k r
      → IsSound k r'
  loop-IsSound = loop-keeps (IsSound k) (visit-IsSound b world k)

  -- The loop ends within as many rounds as its queue weighs.
  pub loop-total :
      (fuel : ℕ) (r : Run S) (limit : Option ℕ)
      → total_weight r.store.state.pending_windows k < fuel
      → loop b world k fuel r limit ≢ none
  unfolding loop
  loop-total zero r limit enough = λ _. omega arith
  loop-total (suc fuel) r limit enough = elim (List-cases r.store.state.pending_windows) [
    | inl drained ↦ simp (loop, drained) (ground arith)
    | inr (w, ws, front) ↦ elim (Bool-cases r.stopped) [
      | inl stopped ↦ simp (loop, front, stopped) (ground arith)
      | inr on ↦ elim (Option-cases (visit b world k r w limit).1) [
        | inl fine ↦
            let less : total_weight (w ∷ ws) k < suc fuel = simp front at enough in
            let lighter = visit-weight r w ws front limit in
            simp (loop, front, on, fine)
              (loop-total fuel (visit b world k r w limit).0 limit (omega (arith, less, lighter)))
        | inr (x, thrown) ↦ simp (loop, front, on, thrown) (ground arith)
      ]
    ]
  ]
