-- ===== src/Discovery/Windows/Measure.antt =====
-- Splitting, in apps/workers/src/discovery/windows.ts, ends: how many windows a window can become.
use keco.Prelude.{
  ℕ, zero, suc, ◌+◌, ◌-◌, ◌*◌, ◌≤◌, ◌<◌, ◌≡◌, refl, Option, none, some, List, [], ◌∷◌, ◌++◌, map,
  arith, All,
}
use keco.Discovery.Dates.{days_in_month, days_in_month_le}
use keco.Discovery.Windows.{
  Created, years, year, quarter, month, day, Window, year_windows, day_windows, split_created,
  split,
}
use keco.Discovery.Windows.Bounds.{date, IsWellFormed}
use keco.Discovery.Windows.Identity.{IsRange}

-- At most so many windows come of a range, itself counted.
abbrev pub weight : Option Created → ℕ → ℕ
weight none k = 2 + 6 * 389 + (k + 1 - 2014) * 389
weight (some (years from to)) k = 1 + (to + 1 - from) * 389
weight (some (year y)) k = 389
weight (some (quarter y q)) k = 97
weight (some (month y m)) k = 32
weight (some (day text)) k = 1

abbrev pub created_weight : List Created → ℕ → ℕ
created_weight [] k = 0
created_weight (c ∷ cs) k = weight (some c) k + created_weight cs k

weight-year_windows : (n first k : ℕ) → created_weight (year_windows n first) k ≡ n * 389
unfolding year_windows
weight-year_windows zero first k = refl
weight-year_windows (suc n) first k = omega (arith, weight-year_windows n (first + 1) k)

weight-day_windows : (y m n first k : ℕ) → created_weight (day_windows y m n first) k ≡ n
unfolding day_windows
weight-day_windows y m zero first k = refl
weight-day_windows y m (suc n) first k = omega (arith, weight-day_windows y m n (first + 1) k)

-- The parts of a window weigh less than the window.
pub split_created-weight :
    (c : Option Created) (k : ℕ) → created_weight (split_created c k) k < weight c k
unfolding split_created
split_created-weight none k = omega (arith, weight-year_windows (k + 1 - 2014) 2014 k)
split_created-weight (some (years f t)) k = omega (arith, weight-year_windows (t + 1 - f) f k)
split_created-weight (some (month y m)) k =
    omega (arith, weight-day_windows y m (days_in_month y m) 1 k, days_in_month_le y m)
split_created-weight (some _) k = omega arith

abbrev pub total_weight : List Window → ℕ → ℕ
total_weight [] k = 0
total_weight (w ∷ ws) k = weight w.created k + total_weight ws k

pub total_weight-append :
    (vs ws : List Window) (k : ℕ)
    → total_weight (vs ++ ws) k ≡ total_weight vs k + total_weight ws k
total_weight-append [] ws k = omega arith
total_weight-append (v ∷ vs) ws k = omega (arith, total_weight-append vs ws k)

total_weight-map :
    (w : Window) (cs : List Created) (k : ℕ)
    → total_weight (map (λ c. record w { created = some c }) cs) k ≡ created_weight cs k
total_weight-map w [] k = refl
total_weight-map w (c ∷ cs) k = omega (arith, total_weight-map w cs k)

-- The windows that `split` returns weigh less, together, than the window that it splits.
pub split-weight : (w : Window) (k : ℕ) → total_weight (split w k) k < weight w.created k
unfolding split
split-weight w k =
    rw (total_weight-map w (split_created w.created k) k) (split_created-weight w.created k)

year_windows-IsWellFormed : (n first : ℕ) → 100 ≤ first → All IsWellFormed (year_windows n first)
unfolding year_windows
year_windows-IsWellFormed zero first h = tt
year_windows-IsWellFormed (suc n) first h =
    (h, year_windows-IsWellFormed n (first + 1) (omega arith))

day_windows-IsWellFormed : (y m n first : ℕ) → All IsWellFormed (day_windows y m n first)
unfolding day_windows
day_windows-IsWellFormed y m zero first = tt
day_windows-IsWellFormed y m (suc n) first =
    ((date y m first, refl), day_windows-IsWellFormed y m n (first + 1))

-- The parts of a well-formed range are well formed.
pub split_created-IsWellFormed :
    (c : Option Created) (k : ℕ) → IsRange c → All IsWellFormed (split_created c k)
unfolding split_created
split_created-IsWellFormed none k h =
    ((omega arith, omega arith), year_windows-IsWellFormed (k + 1 - 2014) 2014 (omega arith))
split_created-IsWellFormed (some (years f t)) k h = year_windows-IsWellFormed (t + 1 - f) f h.0
split_created-IsWellFormed (some (month y m)) k h =
    day_windows-IsWellFormed y m (days_in_month y m) 1
split_created-IsWellFormed (some (day text)) k h = tt
split_created-IsWellFormed (some _) k h = omega arith
