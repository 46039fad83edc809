-- ===== src/Discovery/Windows/Bounds.antt =====
-- What a creation range of apps/workers/src/discovery/windows.ts means to GitHub Search:
-- `created:a..b` matches the days from `a` to `b`, both included, and `created:d` the day `d`.
use keco.Prelude.{
  ℕ, ◌+◌, ◌≤◌, ◌<◌, ◌≡◌, refl, Bool, ◌&&◌, Option, none, some, ◌++◌, append_assoc, arith, leb, ◌==◌,
}
use mathlib.Core.Path.{subst}
use keco.Prelude.Text.{codes, show, pad, text_eq}
use keco.Discovery.Dates.{
  Date, IsDate, iso, iso_date, date_le, month_length, days_in_month, days_in_month-eq, text_eq-iso,
  month_length_bounds,
}
use keco.Discovery.Windows.{
  Created, years, year, quarter, month, day, first_month, between, range_of,
}

abbrev pub date : ℕ → ℕ → ℕ → Date
date y m d = record { year = y; month = m; day = d }

-- The two ends of a range; a single day has none.
abbrev pub span : Created → Option (Date × Date)
span (years from to) = some (date from 1 1, date to 12 31)
span (year y) = some (date y 1 1, date y 12 31)
span (quarter y q) =
    some
      (date y (first_month q) 1, date y (first_month q + 2) (days_in_month y (first_month q + 2)))
span (month y m) = some (date y m 1, date y m (days_in_month y m))
span (day _) = none

abbrev Spells : Created → Option (Date × Date) → Type 0
Spells c none = Unit
Spells c (some (lo, hi)) = range_of c ≡ between (iso_date lo) (iso_date hi)

iso-new_year : (y : ℕ) → iso y 1 1 ≡ show y ++ codes "-01-01"
unfolding iso pad show
iso-new_year y = refl

iso-year_end : (y : ℕ) → iso y 12 31 ≡ show y ++ codes "-12-31"
unfolding iso pad show
iso-year_end y = refl

year_bounds :
    (from to : ℕ)
    → (show from ++ codes "-01-01..") ++ (show to ++ codes "-12-31")
      ≡ between (iso from 1 1) (iso to 12 31)
year_bounds from to = simp (iso-new_year, iso-year_end, append_assoc)

-- The query text of a range spells its two ends.
pub range_of-span :
    (c : Created) (lo hi : Date)
    → span c ≡ some (lo, hi)
    → range_of c ≡ between (iso_date lo) (iso_date hi)
unfolding range_of
range_of-span (years from to) lo hi e = subst (Spells (years from to)) e (year_bounds from to)
range_of-span (year y) lo hi e = subst (Spells (year y)) e (year_bounds y y)
range_of-span (quarter y q) lo hi e = subst (Spells (quarter y q)) e refl
range_of-span (month y m) lo hi e = subst (Spells (month y m)) e refl
range_of-span (day text) lo hi e = cc

abbrev pub covers : Created → Date → Bool
covers (day text) d = text_eq text (iso_date d)
covers (years from to) d = date_le (date from 1 1) d && date_le d (date to 12 31)
covers (year y) d = date_le (date y 1 1) d && date_le d (date y 12 31)
covers (quarter y q) d =
    date_le (date y (first_month q) 1) d
    && date_le d (date y (first_month q + 2) (days_in_month y (first_month q + 2)))
covers (month y m) d = date_le (date y m 1) d && date_le d (date y m (days_in_month y m))

-- What every window of a sweep satisfies.
abbrev pub IsWellFormed : Created → Type 0
IsWellFormed (years from to) = (100 ≤ from) × (from < to)
IsWellFormed (year y) = 100 ≤ y
IsWellFormed (quarter y q) = (100 ≤ y) × (1 ≤ q) × (q ≤ 4)
IsWellFormed (month y m) = (100 ≤ y) × (1 ≤ m) × (m ≤ 12)
IsWellFormed (day text) = (d : Date) × (text ≡ iso_date d)

module _ (d : Date) (v : IsDate d) where
  pub covers-years : (from to : ℕ) → covers (years from to) d ≡ (leb from d.year && leb d.year to)
  covers-years from to = ground (arith, month_length_bounds d.year d.month)

  pub covers-year : (y : ℕ) → covers (year y) d ≡ (y == d.year)
  covers-year y = ground (arith, month_length_bounds d.year d.month)

  pub longest : (y m : ℕ) → y ≡ d.year → m ≡ d.month → d.day ≤ month_length y m
  longest y m p q = rw (p, q) v.day_le

  pub covers-month :
      (y m : ℕ) → 100 ≤ y → 1 ≤ m → m ≤ 12 → covers (month y m) d ≡ (y == d.year && m == d.month)
  covers-month y m h lo hi = rw (days_in_month-eq y m h lo hi) (ground (arith, longest y m))

  pub covers-quarter :
      (y q : ℕ)
      → 100 ≤ y
      → 1 ≤ q
      → q ≤ 4
      → covers (quarter y q) d
        ≡ (y == d.year && (leb (first_month q) d.month && leb d.month (first_month q + 2)))
  covers-quarter y q h lo hi =
      rw (days_in_month-eq y (first_month q + 2) h (omega arith) (omega arith))
        (ground (arith, longest y (first_month q + 2)))

  pub covers-day :
      (y m k : ℕ) → covers (day (iso y m k)) d ≡ (y == d.year && (m == d.month && k == d.day))
  covers-day y m k = text_eq-iso y m k d
