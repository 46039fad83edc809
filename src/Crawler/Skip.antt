-- ===== src/Crawler/Skip.antt =====
-- `decideSkip` of apps/workers/src/crawler/sources/github/skip.ts. What `new Date` reads in a text is a
-- parameter: milliseconds since 1970, or none for an invalid date.
use keco.Prelude.{
  ℕ, ◌+◌, ◌-◌, ◌/◌, ◌%◌, ◌≡◌, inl, inr, refl, Bool, true, ◌&&◌, Option, none, some, arith, leb, ltb,
  if◌then◌else◌, Bool-cases,
}
use keco.Prelude.Text.{Text}
use keco.Discovery.Dates.{Date, date_le, month_length}
use keco.Discovery.Clock.{date_of}

abbrev pub fork_star_floor : ℕ
fork_star_floor = 200

abbrev pub archived_star_floor : ℕ
archived_star_floor = 1000

-- 24 months.
abbrev pub stale_years : ℕ
stale_years = 2

pub record SkipInput : Type 0 where
  pub fork : Bool
  pub archived : Bool
  pub stars : ℕ
  pub pushed_at : Option Text

pub data SkipReason : Type 0 where
  is_fork archived_stale : SkipReason

-- `setUTCMonth(getUTCMonth() - 24)`: a day that the month does not have runs into the next one.
unfoldable pub cutoff : Date → Date
unfolding month_length
cutoff d =
    let year = d.year - stale_years in
    let last = month_length year d.month in
    if leb d.day last
    then record d { year = year }
    else record { year = year; month = d.month + 1; day = d.day - last }

-- `pushed < cutoff`, by the day and then by the time of the day.
unfoldable pub is_before_cutoff : ℕ → ℕ → Bool
unfolding cutoff date_of
is_before_cutoff pushed now =
    let limit = cutoff (date_of (now / 86400000)) in
    let day = date_of (pushed / 86400000) in
    if date_le limit day
    then date_le day limit && ltb (pushed % 86400000) (now % 86400000)
    else true

unfoldable pub is_stale : (Text → Option ℕ) → Option Text → ℕ → Bool
unfolding is_before_cutoff
is_stale parse none now = true
is_stale parse (some text) now = elim (parse text) [
  | none ↦ true
  | some pushed ↦ is_before_cutoff pushed now
]

unfoldable pub decide_skip : (Text → Option ℕ) → SkipInput → ℕ → Option SkipReason
unfolding is_stale
decide_skip parse input now =
    if input.fork && leb input.stars fork_star_floor
    then some is_fork
    else if input.archived
        && (leb input.stars archived_star_floor && is_stale parse input.pushed_at now)
    then some archived_stale
    else none

-- A repository that is fetched is fetched at every higher number of stars, all else as it is.
decide_skip-stars :
    (parse : Text → Option ℕ) (input : SkipInput) (more now : ℕ)
    → decide_skip parse input now ≡ none
    → decide_skip parse (record input { stars = input.stars + more }) now ≡ none
unfolding decide_skip
decide_skip-stars parse input more now h = elim (Bool-cases (is_stale parse input.pushed_at now)) [
  | inl stale ↦ ground (arith, stale)
  | inr active ↦ ground (arith, active)
]

leap_cutoff :
    cutoff (record { year = 2024; month = 2; day = 29 })
    ≡ record { year = 2022; month = 3; day = 1 }
unfolding cutoff
leap_cutoff = refl
