-- ===== src/Discovery/Dates.antt =====
-- The calendar helpers at the end of apps/workers/src/discovery/windows.ts, over whole numbers.
use keco.Prelude.{
  ℕ, ◌+◌, ◌-◌, ◌/◌, ◌%◌, ◌≤◌, ◌<◌, ◌≡◌, refl, ◌≢◌, Bool, ◌&&◌, ◌||◌, ◌∷◌, ◌++◌, arith, ltb, leb,
  ◌==◌, if◌then◌else◌,
}
use keco.Prelude.Text.{
  Text, show, pad, text_eq, text_eq_iff, show_injective, pad_injective, show-IsDigit, pad-IsDigit,
  Lacks, Lacks-append, Lacks-of_IsDigit, cut_unique,
}

pub record Date : Type 0 where
  pub year : ℕ
  pub month : ℕ
  pub day : ℕ

is_leap : ℕ → Bool
is_leap year = year % 4 == 0 && (year % 400 == 0 || ltb 0 (year % 100))

-- The Gregorian calendar: the length of a month from 1 to 12.
unfoldable pub month_length : ℕ → ℕ → ℕ
unfolding is_leap
month_length year month =
    if month == 2
    then (if is_leap year then 29 else 28)
    else if month == 4 || month == 6 || month == 9 || month == 11
    then 30
    else 31

-- `Date.UTC` reads a year below 100 as 19xx.
abbrev utc_year : ℕ → ℕ
utc_year year = if ltb year 100 then 1900 + year else year

-- `new Date(Date.UTC(year, month, 0)).getUTCDate()`: the day before the first of the month with
-- index `month` from 0, so the last day of month `month` counted from 1; an index past the year
-- carries into the year.
unfoldable pub days_in_month : ℕ → ℕ → ℕ
days_in_month year month =
    month_length (utc_year year + (month + 11) / 12 - 1) ((month + 11) % 12 + 1)

abbrev pub dash : ℕ
dash = b'-'

unfoldable pub iso : ℕ → ℕ → ℕ → Text
iso year month day = show year ++ dash ∷ (pad month ++ dash ∷ pad day)

abbrev pub iso_date : Date → Text
iso_date d = iso d.year d.month d.day

-- A day that the calendar has.
pub record IsDate (d : Date) : Type 0 where
  pub month_pos : 1 ≤ d.month
  pub month_le : d.month ≤ 12
  pub day_pos : 1 ≤ d.day
  pub day_le : d.day ≤ month_length d.year d.month

-- The order of days, which is that of their ISO texts for years of four digits.
abbrev pub date_le : Date → Date → Bool
date_le a b =
    ltb a.year b.year
    || (a.year == b.year && (ltb a.month b.month || (a.month == b.month && leb a.day b.day)))

pub month_length_bounds : (y m : ℕ) → (28 ≤ month_length y m) × (month_length y m ≤ 31)
unfolding month_length
month_length_bounds y m = ground arith

pub days_in_month_le : (y m : ℕ) → days_in_month y m ≤ 31
unfolding days_in_month
days_in_month_le y m = (month_length_bounds _ _).1

pub days_in_month_pos : (y m : ℕ) → 28 ≤ days_in_month y m
unfolding days_in_month
days_in_month_pos y m = (month_length_bounds _ _).0

pub days_in_month-eq : (y m : ℕ) → 100 ≤ y → 1 ≤ m → m ≤ 12 → days_in_month y m ≡ month_length y m
unfolding days_in_month
days_in_month-eq y m h lo hi =
    let carry : (m + 11) / 12 ≡ 1 = omega arith in
    let index : (m + 11) % 12 + 1 ≡ m = omega arith in
    let late : ltb y 100 ≡ Bool.false = ground arith in
    let same : y + 1 - 1 ≡ y = omega arith in rw (late, carry, index, same)

Lacks-show : (n : ℕ) → Lacks dash (show n)
Lacks-show n = Lacks-of_IsDigit dash (show n) (omega arith) (show-IsDigit n)

Lacks-pad : (n : ℕ) → Lacks dash (pad n)
Lacks-pad n = Lacks-of_IsDigit dash (pad n) (omega arith) (pad-IsDigit n)

pub iso_injective : (y m d y' m' d' : ℕ) → iso y m d ≡ iso y' m' d' → (y ≡ y') × (m ≡ m') × (d ≡ d')
unfolding iso
iso_injective y m d y' m' d' e =
    let first = cut_unique dash (show y) (show y') (Lacks-show y) (Lacks-show y') e in
    let second = cut_unique dash (pad m) (pad m') (Lacks-pad m) (Lacks-pad m') first.1 in
    (show_injective y y' first.0, pad_injective m m' second.0, pad_injective d d' second.1)

-- No dot stands in an ISO date, so `..` cuts a range at one place.
pub Lacks-iso : (c y m d : ℕ) → c < 48 → c ≢ dash → Lacks c (iso y m d)
unfolding iso
Lacks-iso c y m d h k =
    let in_year = Lacks-of_IsDigit c (show y) h (show-IsDigit y) in
    let in_month = Lacks-of_IsDigit c (pad m) h (pad-IsDigit m) in
    let in_day = Lacks-of_IsDigit c (pad d) h (pad-IsDigit d) in
    Lacks-append c (show y) _ in_year
      (omega arith, Lacks-append c (pad m) _ in_month (omega arith, in_day))

pub text_eq-iso :
    (y m d : ℕ) (t : Date)
    → text_eq (iso y m d) (iso_date t) ≡ (y == t.year && (m == t.month && d == t.day))
text_eq-iso y m d t =
    ground (arith, text_eq_iff (iso y m d) (iso_date t), iso_injective y m d t.year t.month t.day)

lengths : (days_in_month 2024 2 ≡ 29) × (days_in_month 2100 2 ≡ 28) × (days_in_month 2023 12 ≡ 31)
unfolding days_in_month month_length
lengths = (refl, refl, refl)
