-- ===== src/Discovery/Windows/Partition.antt =====
-- `split` of apps/workers/src/discovery/windows.ts loses no day and counts none twice.
use keco.Prelude.{
  ℕ, zero, suc, ◌+◌, ◌-◌, ◌≤◌, ◌≡◌, ◌≢◌, refl, ◌&&◌, ◌||◌, none, some, [], arith, leb, ltb, ◌==◌,
  indicator, count_if,
}
use keco.Discovery.Dates.{Date, IsDate, days_in_month, days_in_month-eq}
use keco.Discovery.Windows.{
  Created, years, year, quarter, month, day, first_month, year_windows, day_windows, split_created,
}
use keco.Discovery.Windows.Bounds.{
  covers, IsWellFormed, covers-years, covers-year, covers-month, covers-quarter, covers-day,
  longest,
}

module _ (d : Date) (v : IsDate d) where
  count-year_windows :
      (rounds first : ℕ)
      → count_if (λ c. covers c d) (year_windows rounds first)
        ≡ indicator (leb first d.year && ltb d.year (first + rounds))
  unfolding year_windows
  count-year_windows zero first = ground arith
  count-year_windows (suc rounds) first =
      rw (covers-year d v first, count-year_windows rounds (first + 1)) (ground arith)

  count-day_windows :
      (y m rounds first : ℕ)
      → count_if (λ c. covers c d) (day_windows y m rounds first)
        ≡ indicator
            (y == d.year && (m == d.month && (leb first d.day && ltb d.day (first + rounds))))
  unfolding day_windows
  count-day_windows y m zero first = ground arith
  count-day_windows y m (suc rounds) first =
      rw (covers-day d v y m first, count-day_windows y m rounds (first + 1)) (ground arith)

  count-quarters :
      (y : ℕ)
      → 100 ≤ y
      → count_if (λ c. covers c d) (split_created (some (year y)) 0) ≡ indicator (covers (year y) d)
  unfolding split_created
  count-quarters y h =
      simp
        (
          covers-year d v y,
          covers-quarter d v y 1 h (omega arith) (omega arith),
          covers-quarter d v y 2 h (omega arith) (omega arith),
          covers-quarter d v y 3 h (omega arith) (omega arith),
          covers-quarter d v y 4 h (omega arith) (omega arith),
        )
        (ground arith)

  -- A day of a window that can be split lies in exactly one part of it, and a part holds no day
  -- that the window does not: the parts that hold a day are one or none, as the window holds it or not.
  pub split-covers :
      (c : Created) (current_year : ℕ)
      → IsWellFormed c
      → split_created (some c) current_year ≢ []
      → count_if (λ part. covers part d) (split_created (some c) current_year)
        ≡ indicator (covers c d)
  unfolding split_created
  split-covers (years from to) k (h, lt) _ =
      rw (count-year_windows (to + 1 - from) from, covers-years d v from to) (ground arith)
  split-covers (year y) k h _ = count-quarters y h
  split-covers (quarter y q) k (h, lo, hi) _ =
      simp
        (
          covers-quarter d v y q h lo hi,
          covers-month d v y (first_month q) h (omega arith) (omega arith),
          covers-month d v y (first_month q + 1) h (omega arith) (omega arith),
          covers-month d v y (first_month q + 2) h (omega arith) (omega arith),
        )
        (ground arith)
  split-covers (month y m) k (h, lo, hi) _ =
      rw
        (
          count-day_windows y m (days_in_month y m) 1,
          covers-month d v y m h lo hi,
          days_in_month-eq y m h lo hi,
        )
        (ground (arith, v.day_pos, longest d v y m))
  split-covers (day text) k h some_parts = absurd (some_parts refl)

  -- The first split reaches every day from 2008 to the end of the current year, or of 2013 if
  -- that is later, once, and no other day.
  pub first_split-covers :
      (current_year : ℕ)
      → count_if (λ part. covers part d) (split_created none current_year)
        ≡ indicator (leb 2008 d.year && (leb d.year 2013 || leb d.year current_year))
  unfolding split_created
  first_split-covers k =
      rw (covers-years d v 2008 2013, count-year_windows (k + 1 - 2014) 2014) (ground arith)
