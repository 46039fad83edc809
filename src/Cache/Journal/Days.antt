-- ===== src/Cache/Journal/Days.antt =====
-- The days of packages/cache/src/journal.ts, and a walk over all of them.
use keco.Prelude.{
  ℕ, ◌≤◌, ◌<◌, ◌≡◌, refl, ap, inl, inr, true, false, none, List, [], ◌∷◌, ◌++◌, map, arith, ltb,
  ◌==◌, ==_iff, All, Bool-cases,
}
use keco.Prelude.Maps.{Map, put, has, nat_key, text_key}
use keco.Core.Events.{Event}
use keco.Cache.Journal.{Bucket, day_number, later_events, read_days, days_of, insert_day}
use keco.Cache.Journal.Buckets.{Logged, IsLog, keyed_by_day, Represents}
use keco.Cache.Journal.Reading.{
  sort_entries-IsSorted, keyed_by_day-IsSorted, none_of_day, later_than,
}

-- The days of the buckets ascend, and every entry's day is one of them.
abbrev pub AllDays : (ℕ → Type 0) → Map ℕ Bucket → Type 0
AllDays P [] = Unit
AllDays P ((day, b) ∷ m) = P day × AllDays P m

abbrev pub IsAscending : Map ℕ Bucket → Type 0
IsAscending [] = Unit
IsAscending ((day, b) ∷ m) = AllDays (λ d. day < d) m × IsAscending m

pub put-AllDays :
    (P : ℕ → Type 0) (m : Map ℕ Bucket) (k : ℕ) (b : Bucket)
    → P k
    → AllDays P m
    → AllDays P (put m k b)
unfolding put
put-AllDays P [] k b p h = (p, tt)
put-AllDays P ((j, c) ∷ m) k b p h = elim (Bool-cases (j == k)) [
  | inl same ↦ rw (put, same) h
  | inr other ↦ rw (put, other) (h.0, put-AllDays P m k b p h.1)
]

pub put-IsAscending :
    (m : Map ℕ Bucket) (k : ℕ) (b : Bucket)
    → AllDays (λ d. d ≤ k) m
    → IsAscending m
    → IsAscending (put m k b)
unfolding put
put-IsAscending [] k b h a = (tt, tt)
put-IsAscending ((j, c) ∷ m) k b h a = elim (Bool-cases (j == k)) [
  | inl same ↦ rw (put, same) a
  | inr other ↦
      let below : j < k = ground (arith, h.0) in
      rw (put, other) (put-AllDays (λ d. j < d) m k b below a.0, put-IsAscending m k b h.1 a.1)
]

insert_first_day :
    (day : ℕ) (m : Map ℕ Bucket)
    → AllDays (λ d. day < d) m
    → days_of m ≡ map (λ e. e.0) m
    → insert_day day (days_of m) ≡ day ∷ map (λ e. e.0) m
unfolding insert_day
insert_first_day day [] h e = rw e refl
insert_first_day day ((j, b) ∷ m) h e =
    let early : ltb j day ≡ false = ground (arith, h.0) in rw (e, insert_day, early) refl

pub days_of-IsAscending : (m : Map ℕ Bucket) → IsAscending m → days_of m ≡ map (λ e. e.0) m
unfolding days_of
days_of-IsAscending [] h = refl
days_of-IsAscending ((day, b) ∷ m) h = insert_first_day day m h.0 (days_of-IsAscending m h.1)

-- All events of the days of a map.
abbrev pub walk_days : Map ℕ Bucket → List Logged → List Event
walk_days [] log = []
walk_days ((day, b) ∷ m) log = later_events none (keyed_by_day day log) ++ walk_days m log

pub read_days-walk_days :
    (buckets m : Map ℕ Bucket) (log : List Logged) (last : ℕ)
    → Represents buckets log
    → IsLog log
    → AllDays (λ d. d ≤ last) m
    → read_days buckets none last (map (λ e. e.0) m) ≡ walk_days m log
unfolding read_days
read_days-walk_days buckets [] log last r h u = refl
read_days-walk_days buckets ((day, b) ∷ m) log last r h u =
    let early : ltb last day ≡ false = ground (arith, u.0) in
    rw
      (early, r day, sort_entries-IsSorted (keyed_by_day day log) (keyed_by_day-IsSorted day log h))
      (ap (λ es. later_events none (keyed_by_day day log) ++ es)
        (read_days-walk_days buckets m log last r h u.1))

walk_days-past :
    (m : Map ℕ Bucket) (x : Logged) (log : List Logged)
    → AllDays (λ d. day_number x.at < d) m
    → walk_days m (x ∷ log) ≡ walk_days m log
walk_days-past [] x log h = refl
walk_days-past ((day, b) ∷ m) x log h =
    let other : (day_number x.at == day) ≡ false = ground (arith, h.0) in
    rw other
      (ap (λ es. later_events none (keyed_by_day day log) ++ es) (walk_days-past m x log h.1))

absent_day : (m : Map ℕ Bucket) (day : ℕ) → AllDays (λ d. day < d) m → has m day ≡ false
unfolding has
absent_day [] day h = refl
absent_day ((j, b) ∷ m) day h =
    let other : (j == day) ≡ false = ground (arith, h.0) in rw other (absent_day m day h.1)

empty_walk : (m : Map ℕ Bucket) → walk_days m [] ≡ []
unfolding later_events
empty_walk [] = refl
empty_walk ((day, b) ∷ m) = empty_walk m

AllDays-le : (n k : ℕ) (m : Map ℕ Bucket) → n ≤ k → AllDays (λ d. k < d) m → AllDays (λ d. n < d) m
AllDays-le n k [] h a = tt
AllDays-le n k ((day, b) ∷ m) h a = (omega (arith, h, a.0), AllDays-le n k m h a.1)

-- A day that is there and is not the first comes after it.
not_yet :
    (day : ℕ) (b : Bucket) (m : Map ℕ Bucket) (n : ℕ)
    → AllDays (λ d. day < d) m
    → (n == day) ≡ false
    → has ((day, b) ∷ m) n ≡ true
    → day < n
unfolding has
not_yet day b m n a other h = elim (Bool-cases (ltb n day)) [
  | inl early ↦
      let absent = absent_day m n (AllDays-le n day m (ground arith) a) in ground (arith, absent)
  | inr late ↦ ground arith
]

has_tail :
    (day : ℕ) (b : Bucket) (m : Map ℕ Bucket) (log : List Logged)
    → All (λ e. day < day_number e.at) log
    → All (λ e. has ((day, b) ∷ m) (day_number e.at) ≡ true) log
    → All (λ e. has m (day_number e.at) ≡ true) log
unfolding has
has_tail day b m [] h k = tt
has_tail day b m (x ∷ xs) h k =
    let other : (day == day_number x.at) ≡ false = ground (arith, h.0) in
    (rw other at k.0, has_tail day b m xs h.1 k.1)

-- Where every entry's day is there, the walk gives out every entry, in order.
pub walk_days-all :
    (m : Map ℕ Bucket) (log : List Logged)
    → IsAscending m
    → IsLog log
    → All (λ e. has m (day_number e.at) ≡ true) log
    → walk_days m log ≡ map (λ e. e.event) log
unfolding later_events has
walk_days-all m [] a h k = empty_walk m
walk_days-all [] (x ∷ xs) a h k = cc (k.0)
walk_days-all ((day, b) ∷ m) (x ∷ xs) a h k = elim (Bool-cases (day_number x.at == day)) [
  | inl this ↦
      let today : day_number x.at ≡ day = (==_iff (day_number x.at) day).0 this in
      let past = AllDays-le (day_number x.at) day m (omega (arith, today)) a.0 in
      rw (this, walk_days-past m x xs past)
        (ap (λ es. x.event ∷ es) (walk_days-all ((day, b) ∷ m) xs a h.1 k.1))
  | inr that ↦
      let tomorrow = not_yet day b m (day_number x.at) a.0 that k.0 in
      let all = later_than [] day x xs tomorrow h.0 in
      rw (that, none_of_day [] day xs all)
        (walk_days-all m (x ∷ xs) a.1 h (has_tail day b m (x ∷ xs) (tomorrow, all) k))
]
