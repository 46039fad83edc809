-- ===== src/Discovery/Clock.antt =====
-- JavaScript's `Date.prototype.toISOString` for an instant in milliseconds since 1970 and before
-- the year 10000.
use keco.Prelude.{ℕ, zero, suc, ◌+◌, ◌-◌, ◌/◌, ◌%◌, ◌≡◌, refl, ◌∷◌, ◌++◌, ltb, if◌then◌else◌}
use keco.Prelude.Text.{Text, codes, show, pad}
use keco.Discovery.Dates.{Date, month_length, iso, iso_date}

-- The day of the year, counted from 0, in a month that is found by counting.
month_from : ℕ → ℕ → ℕ → ℕ → Date
month_from zero year month day = record { year = year; month = month; day = day + 1 }
month_from (suc fuel) year month day =
    let rest = month_from fuel year (month + 1) (day - month_length year month) in
    if ltb day (month_length year month)
    then record { year = year; month = month; day = day + 1 }
    else rest

abbrev year_length : ℕ → ℕ
year_length year = 337 + month_length year 2

-- The calendar day that is `day` days after the first of January of `year`.
day_from : ℕ → ℕ → ℕ → Date
day_from zero year day = month_from 12 year 1 day
day_from (suc fuel) year day =
    let rest = day_from fuel (year + 1) (day - year_length year) in
    if ltb day (year_length year) then month_from 12 year 1 day else rest

-- At most one year to a day: the fuel is enough.
unfoldable pub date_of : ℕ → Date
unfolding day_from month_from
date_of ms = let days : ℕ = ms / 86400000 in day_from days 1970 days

pad3 : ℕ → Text
pad3 n = if ltb n 100 then b'0' ∷ pad n else show n

unfoldable pub to_iso_string : ℕ → Text
unfolding date_of pad3
to_iso_string ms =
    iso_date (date_of ms)
    ++ (codes "T"
        ++ (pad (ms / 3600000 % 24)
            ++ (codes ":"
                ++ (pad (ms / 60000 % 60)
                    ++ (codes ":"
                        ++ (pad (ms / 1000 % 60)
                            ++ (codes "." ++ (pad3 (ms % 1000) ++ codes "Z"))))))))

some_instant : to_iso_string 1709208000123 ≡ codes "2024-02-29T12:00:00.123Z"
unfolding to_iso_string month_length iso pad show
some_instant = refl
