-- ===== src/Discovery/Run/Coverage.antt =====
-- The ledger of a sweep, apps/workers/src/discovery/index.ts: whatever the search answers, no
-- repository falls between the windows.
use keco.Prelude.{
  ℕ, ◌≤◌, ◌≡◌, ◌≢◌, refl, ap, Bool, true, ◌&&◌, ◌||◌, Option, none, some, List, [], ◌∷◌, ◌++◌, map,
  arith, if◌then◌else◌, indicator, count_if, count_if-append, All, All-append, append-nil,
}
use keco.Prelude.Text.{Text}
use keco.Discovery.Dates.{Date, IsDate}
use keco.Discovery.Windows.{
  Created, Window, initial_windows, star_bands, query_of, split, split_created,
}
use keco.Discovery.Windows.Bounds.{covers, IsWellFormed}
use keco.Discovery.Windows.Partition.{split-covers, first_split-covers}
use keco.Discovery.Windows.Bands.{band_matches, star_bands-cover}
use keco.Discovery.Windows.Measure.{split_created-IsWellFormed}
use keco.Discovery.Windows.Identity.{IsRange}
use keco.Discovery.Collections.{DiscoveryState, FailedWindow}
use keco.Discovery.Run.{has_text}

-- A repository that the search can tell: its stars and its day of creation.
pub record Target : Type 0 where
  pub stars : ℕ
  pub day : Date
  pub valid : IsDate day

-- One that GitHub can hold in a current year.
pub record Repository (current_year : ℕ) : Type 0 where
  pub target : Target
  pub since_2008 : 2008 ≤ target.day.year
  pub until_now : target.day.year ≤ current_year

abbrev pub in_range : Option Created → Date → Bool
in_range none d = true
in_range (some c) d = covers c d

-- Whether the query of a window asks for a repository.
abbrev pub wants : Target → Window → Bool
wants t w = band_matches w.stars t.stars && in_range w.created t.day

abbrev pub wanting : Target → List Window → ℕ
wanting t = count_if (wants t)

abbrev pub failed_texts : List FailedWindow → List Text
failed_texts = map (λ f. f.window)

-- The window's text stands among the completed ones or the failed ones.
abbrev pub IsSettled : DiscoveryState → Window → Type 0
IsSettled s w =
    (has_text (query_of w) s.completed_windows
      || has_text (query_of w) (failed_texts s.failed_windows))
    ≡ true

abbrev pub HasRange : Window → Type 0
HasRange w = IsRange w.created

-- What a sweep owes: the windows still pending and those settled, each completed or failed,
-- together ask for every repository of the years from 2008 to the current one exactly once.
pub record Ledger (current_year : ℕ) (s : DiscoveryState) : Type 0 where
  pub settled : List Window
  pub accounted : All (IsSettled s) settled
  pub ranges : All HasRange s.pending_windows
  pub covered : (r : Repository current_year) → wanting r.target (s.pending_windows ++ settled) ≡ 1

-- The parts of a window that is split want what the window wants.
wanting-parts :
    (t : Target) (w : Window) (cs : List Created)
    → wanting t (map (λ c. record w { created = some c }) cs)
      ≡ (if band_matches w.stars t.stars then count_if (λ c. covers c t.day) cs else 0)
wanting-parts t w [] = ground arith
wanting-parts t w (c ∷ cs) = ground (arith, wanting-parts t w cs)

pub wanting-split :
    (t : Target) (w : Window) (k : ℕ)
    → IsRange w.created
    → 2008 ≤ t.day.year
    → t.day.year ≤ k
    → split_created w.created k ≢ []
    → wanting t (split w k) ≡ indicator (wants t w)
unfolding split
wanting-split t w k r lo hi some_parts =
    rw (wanting-parts t w (split_created w.created k)) (go w.created r some_parts)
  where
    go :
        (c : Option Created)
        → IsRange c
        → split_created c k ≢ []
        → (if band_matches w.stars t.stars
            then count_if (λ c. covers c t.day) (split_created c k)
            else 0)
          ≡ indicator (band_matches w.stars t.stars && in_range c t.day)
    go none _ _ = ground (arith, first_split-covers t.day t.valid k)
    go (some c) r parts = ground (arith, split-covers t.day t.valid c k r parts)

pub wanting-initial :
    (t : Target) (query : Text) (bands : List Text)
    → wanting t (map (λ stars. record { base = query; stars = stars; created = none }) bands)
      ≡ count_if (λ band. band_matches band t.stars) bands
wanting-initial t query [] = refl
wanting-initial t query (band ∷ bands) = ground (arith, wanting-initial t query bands)

ranges-initial :
    (query : Text) (bands : List Text)
    → All HasRange (map (λ stars. record { base = query; stars = stars; created = none }) bands)
ranges-initial query [] = tt
ranges-initial query (band ∷ bands) = (tt, ranges-initial query bands)

-- A sweep that begins owes everything to its pending windows.
pub initial-Ledger :
    (k : ℕ) (query : Text) (s : DiscoveryState)
    → s.pending_windows ≡ initial_windows query
    → Ledger k s
unfolding initial_windows
initial-Ledger k query s e = record {
  settled = [];
  accounted = tt;
  ranges = rw e (ranges-initial query star_bands);
  covered = λ t.
      rw (append-nil, e, wanting-initial t.target query star_bands)
        (star_bands-cover t.target.stars);
}

pub has_text-append :
    (q : Text) (ps rs : List Text) → has_text q (ps ++ rs) ≡ (has_text q ps || has_text q rs)
has_text-append q [] rs = refl
has_text-append q (p ∷ ps) rs = ground (arith, has_text-append q ps rs)

pub failed_texts-append :
    (fs gs : List FailedWindow) → failed_texts (fs ++ gs) ≡ failed_texts fs ++ failed_texts gs
failed_texts-append [] gs = refl
failed_texts-append (f ∷ fs) gs = ap (λ r. f.window ∷ r) (failed_texts-append fs gs)

-- The lists of a state only grew.
pub record Grew (s s' : DiscoveryState) : Type 0 where
  pub more_completed : List Text
  pub more_failed : List FailedWindow
  pub completed_grew : s'.completed_windows ≡ s.completed_windows ++ more_completed
  pub failed_grew : s'.failed_windows ≡ s.failed_windows ++ more_failed

IsSettled-Grew : (s s' : DiscoveryState) (w : Window) → Grew s s' → IsSettled s w → IsSettled s' w
IsSettled-Grew s s' w g h =
    rw
      (
        g.completed_grew,
        g.failed_grew,
        has_text-append (query_of w) s.completed_windows g.more_completed,
        failed_texts-append s.failed_windows g.more_failed,
        has_text-append (query_of w) (failed_texts s.failed_windows) (failed_texts g.more_failed),
      )
      (ground arith)

All-IsSettled-Grew :
    (s s' : DiscoveryState) (ws : List Window)
    → Grew s s'
    → All (IsSettled s) ws
    → All (IsSettled s') ws
All-IsSettled-Grew s s' [] g h = tt
All-IsSettled-Grew s s' (w ∷ ws) g h =
    (IsSettled-Grew s s' w g h.0, All-IsSettled-Grew s s' ws g h.1)

wanting-move :
    (t : Target) (w : Window) (ws settled : List Window)
    → wanting t (ws ++ w ∷ settled) ≡ wanting t (w ∷ ws ++ settled)
wanting-move t w ws settled =
    omega (arith, count_if-append (wants t) ws (w ∷ settled), count_if-append (wants t) ws settled)

-- The head of the queue is settled.
pub settle-Ledger :
    (k : ℕ) (s s' : DiscoveryState) (w : Window) (ws : List Window)
    → Ledger k s
    → s.pending_windows ≡ w ∷ ws
    → s'.pending_windows ≡ ws
    → Grew s s'
    → IsSettled s' w
    → Ledger k s'
settle-Ledger k s s' w ws l before after g done = record {
  settled = w ∷ l.settled;
  accounted = (done, All-IsSettled-Grew s s' l.settled g l.accounted);
  ranges = rw after (ranges-tail (rw before at l.ranges));
  covered = λ t. rw (after, wanting-move t.target w ws l.settled) (rw before at l.covered t);
}
  where
    ranges-tail : All HasRange (w ∷ ws) → All HasRange ws
    ranges-tail h = h.1

wanting-replace :
    (t : Target) (w : Window) (parts ws settled : List Window)
    → wanting t parts ≡ indicator (wants t w)
    → wanting t ((ws ++ parts) ++ settled) ≡ wanting t (w ∷ ws ++ settled)
wanting-replace t w parts ws settled e = omega (
  arith,
  count_if-append (wants t) (ws ++ parts) settled,
  count_if-append (wants t) ws parts,
  count_if-append (wants t) ws settled,
)

ranges-parts :
    (w : Window) (cs : List Created)
    → All IsWellFormed cs
    → All HasRange (map (λ c. record w { created = some c }) cs)
ranges-parts w [] h = tt
ranges-parts w (c ∷ cs) h = (h.0, ranges-parts w cs h.1)

-- The head of the queue is split, and its parts join the end of the queue.
pub split-Ledger :
    (k : ℕ) (s s' : DiscoveryState) (w : Window) (ws : List Window)
    → Ledger k s
    → s.pending_windows ≡ w ∷ ws
    → s'.pending_windows ≡ ws ++ split w k
    → Grew s s'
    → split_created w.created k ≢ []
    → Ledger k s'
unfolding split
split-Ledger k s s' w ws l before after g parts =
    let held : All HasRange (w ∷ ws) = rw before at l.ranges in
    record {
      settled = l.settled;
      accounted = All-IsSettled-Grew s s' l.settled g l.accounted;
      ranges = rw after (
          All-append HasRange ws (split w k) held.1 (
            ranges-parts w (split_created w.created k)
              (split_created-IsWellFormed w.created k held.0)));
      covered = λ t.
          rw
            (
              after,
              wanting-replace t.target w (split w k) ws l.settled
                  (wanting-split t.target w k held.0 t.since_2008 t.until_now parts),
            )
            (rw before at l.covered t);
    }

-- The ledger reads the queue and the two lists, and nothing else of a state.
pub same-Ledger :
    (k : ℕ) (s s' : DiscoveryState)
    → Ledger k s
    → s'.pending_windows ≡ s.pending_windows
    → Grew s s'
    → Ledger k s'
same-Ledger k s s' l same g = record {
  settled = l.settled;
  accounted = All-IsSettled-Grew s s' l.settled g l.accounted;
  ranges = rw same l.ranges;
  covered = λ t. rw same (l.covered t);
}
