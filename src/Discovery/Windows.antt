-- ===== src/Discovery/Windows.antt =====
-- apps/workers/src/discovery/windows.ts: the search windows of a sweep. `null` is `none`.
pub mod Bounds
pub mod Partition
pub mod Identity
pub mod Bands
pub mod Measure
use keco.Prelude.{ℕ, zero, suc, ◌+◌, ◌-◌, ◌*◌, Option, none, some, List, [], ◌∷◌, ◌++◌, map}
use keco.Prelude.Text.{Text, codes, show}
use keco.Discovery.Dates.{days_in_month, iso}

abbrev pub github_epoch_year : ℕ
github_epoch_year = 2008

abbrev pub early_years_end : ℕ
early_years_end = 2013

abbrev pub star_bands : List Text
star_bands =
    codes ">5000"
    ∷ codes "1000..5000"
    ∷ codes "500..999"
    ∷ codes "200..499"
    ∷ codes "100..199"
    ∷ codes "50..99"
    ∷ codes "20..49"
    ∷ codes "10..19"
    ∷ codes "5..9"
    ∷ codes "3..4"
    ∷ codes "2"
    ∷ codes "1"
    ∷ codes "0"
    ∷ []

-- `years from to`, `quarter year quarter` and `month year month`, as the fields stand.
pub data Created : Type 0 where
  years : ℕ → ℕ → Created
  year : ℕ → Created
  quarter : ℕ → ℕ → Created
  month : ℕ → ℕ → Created
  day : Text → Created

pub record Window : Type 0 where
  pub base : Text
  pub stars : Text
  pub created : Option Created

unfoldable pub initial_windows : Text → List Window
initial_windows base =
    map (λ stars. record { base = base; stars = stars; created = none }) star_bands

-- `for (let year = first; …; year += 1)`, by the rounds that are left.
unfoldable pub year_windows : ℕ → ℕ → List Created
year_windows zero first = []
year_windows (suc rounds) first = year first ∷ year_windows rounds (first + 1)

unfoldable pub day_windows : ℕ → ℕ → ℕ → ℕ → List Created
day_windows y m zero first = []
day_windows y m (suc rounds) first = day (iso y m first) ∷ day_windows y m rounds (first + 1)

abbrev pub first_month : ℕ → ℕ
first_month q = (q - 1) * 3 + 1

unfoldable pub split_created : Option Created → ℕ → List Created
split_created none current_year =
    years github_epoch_year early_years_end
    ∷ year_windows (current_year + 1 - (early_years_end + 1)) (early_years_end + 1)
split_created (some (years from to)) _ = year_windows (to + 1 - from) from
split_created (some (year y)) _ = quarter y 1 ∷ quarter y 2 ∷ quarter y 3 ∷ quarter y 4 ∷ []
split_created (some (quarter y q)) _ =
    month y (first_month q) ∷ month y (first_month q + 1) ∷ month y (first_month q + 2) ∷ []
split_created (some (month y m)) _ = day_windows y m (days_in_month y m) 1
split_created (some (day _)) _ = []

-- `now` enters through its UTC year alone.
unfoldable pub split : Window → ℕ → List Window
unfolding split_created
split w current_year =
    map (λ c. record w { created = some c }) (split_created w.created current_year)

abbrev pub between : Text → Text → Text
between lo hi = lo ++ (codes ".." ++ hi)

unfoldable pub range_of : Created → Text
range_of (years from to) = (show from ++ codes "-01-01..") ++ (show to ++ codes "-12-31")
range_of (year y) = (show y ++ codes "-01-01..") ++ (show y ++ codes "-12-31")
range_of (quarter y q) =
    between (iso y (first_month q) 1)
      (iso y (first_month q + 2) (days_in_month y (first_month q + 2)))
range_of (month y m) = between (iso y m 1) (iso y m (days_in_month y m))
range_of (day date) = date

unfoldable pub created_range : Option Created → Option Text
created_range none = none
created_range (some c) = some (range_of c)

-- `parts.join(' ')`: two parts, or three where there is a range.
unfoldable pub query_of : Window → Text
unfolding created_range
query_of w =
    let parts = w.base ++ 32 ∷ (codes "stars:" ++ w.stars) in
    elim (created_range w.created) [
      | none ↦ parts
      | some range ↦ parts ++ 32 ∷ (codes "created:" ++ range)
    ]
