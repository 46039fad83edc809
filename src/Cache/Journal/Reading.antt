-- ===== src/Cache/Journal/Reading.antt =====
-- `Journal.read` of packages/cache/src/journal.ts, from an id on, over the buckets that a log left.
use keco.Prelude.{
  ℕ, zero, suc, ◌+◌, ◌-◌, ◌≤◌, ◌<◌, ◌≡◌, refl, ap, ap₂, ◌∙◌, inl, inr, true, false, some, List, [],
  ◌∷◌, ◌++◌, map, arith, ltb, ◌==◌, All, ==_iff, Bool-cases,
}
use keco.Prelude.Text.{Text}
use keco.Prelude.Maps.{Map}
use keco.DataStore.Values.{text_lt}
use keco.Core.Events.{Event}
use keco.Cache.Journal.{
  Bucket, day_number, insert_entry, sort_entries, later_events, read_days, days_from,
}
use keco.Cache.Journal.Order.{text_lt_asym}
use keco.Cache.Journal.Buckets.{Logged, Precedes, IsLog, keyed_by_day, Represents, before_next}

-- A bucket's entries stand in the order of their ids already.
abbrev IsAfter : Text → Bucket → Type 0
IsAfter id = All (λ f. text_lt id f.0 ≡ true)

abbrev IsSorted : Bucket → Type 0
IsSorted [] = Unit
IsSorted (e ∷ es) = IsAfter e.0 es × IsSorted es

keyed_by_day-IsAfter :
    (day : ℕ) (e : Logged) (log : List Logged)
    → All (Precedes e) log
    → IsAfter e.event.id (keyed_by_day day log)
keyed_by_day-IsAfter day e [] h = tt
keyed_by_day-IsAfter day e (x ∷ xs) h = elim (Bool-cases (day_number x.at == day)) [
  | inl this ↦ rw this (h.0.1, keyed_by_day-IsAfter day e xs h.1)
  | inr that ↦ rw that (keyed_by_day-IsAfter day e xs h.1)
]

pub keyed_by_day-IsSorted :
    (day : ℕ) (log : List Logged) → IsLog log → IsSorted (keyed_by_day day log)
keyed_by_day-IsSorted day [] h = tt
keyed_by_day-IsSorted day (x ∷ xs) h = elim (Bool-cases (day_number x.at == day)) [
  | inl this ↦ rw this (keyed_by_day-IsAfter day x xs h.0, keyed_by_day-IsSorted day xs h.1)
  | inr that ↦ rw that (keyed_by_day-IsSorted day xs h.1)
]

insert_first : (e : Text × Event) (es : Bucket) → IsAfter e.0 es → insert_entry e es ≡ e ∷ es
unfolding insert_entry
insert_first e [] h = refl
insert_first e (f ∷ fs) h = rw (insert_entry, text_lt_asym e.0 f.0 h.0) refl

pub sort_entries-IsSorted : (es : Bucket) → IsSorted es → sort_entries es ≡ es
unfolding sort_entries
sort_entries-IsSorted [] h = refl
sort_entries-IsSorted (e ∷ es) h = rw (sort_entries-IsSorted es h.1) (insert_first e es h.0)

module _ (after : Text) where
  -- The days from `day` on, as `read` goes through them.
  abbrev pub walk : ℕ → ℕ → List Logged → List Event
  walk zero day log = []
  walk (suc rounds) day log =
      later_events (some after) (keyed_by_day day log) ++ walk rounds (day + 1) log

  pub read_days-walk :
      (buckets : Map ℕ Bucket) (log : List Logged) (last rounds day : ℕ)
      → Represents buckets log
      → IsLog log
      → day + rounds ≤ last + 1
      → read_days buckets (some after) last (days_from rounds day) ≡ walk rounds day log
  unfolding read_days days_from
  read_days-walk buckets log last zero day r h near = refl
  read_days-walk buckets log last (suc rounds) day r h near =
      let early : ltb last day ≡ false = ground arith in
      rw
        (
          early,
          r day,
          sort_entries-IsSorted (keyed_by_day day log) (keyed_by_day-IsSorted day log h),
        )
        (ap (λ es. later_events (some after) (keyed_by_day day log) ++ es)
          (read_days-walk buckets log last rounds (day + 1) r h (omega arith)))

  later_events-skip :
      (day : ℕ) (e : Logged) (log : List Logged)
      → text_lt after e.event.id ≡ false
      → later_events (some after) (keyed_by_day day (e ∷ log))
        ≡ later_events (some after) (keyed_by_day day log)
  unfolding later_events
  later_events-skip day e log old = elim (Bool-cases (day_number e.at == day)) [
    | inl this ↦ rw (this, later_events, old) refl
    | inr that ↦ rw that refl
  ]

  -- An entry that is not after the id is not given out, wherever it stands.
  pub walk-skip :
      (rounds day : ℕ) (e : Logged) (log : List Logged)
      → text_lt after e.event.id ≡ false
      → walk rounds day (e ∷ log) ≡ walk rounds day log
  walk-skip zero day e log old = refl
  walk-skip (suc rounds) day e log old =
      ap₂ (λ es fs. es ++ fs) (later_events-skip day e log old)
        (walk-skip rounds (day + 1) e log old)

  -- An entry of an earlier day is not given out either.
  walk-past :
      (rounds day : ℕ) (e : Logged) (log : List Logged)
      → day_number e.at < day
      → walk rounds day (e ∷ log) ≡ walk rounds day log
  walk-past zero day e log past = refl
  walk-past (suc rounds) day e log past =
      let other : (day_number e.at == day) ≡ false = ground arith in
      rw other (
        ap (λ es. later_events (some after) (keyed_by_day day log) ++ es)
          (walk-past rounds (day + 1) e log (omega arith)))

  abbrev pub IsWithin : ℕ → ℕ → Logged → Type 0
  IsWithin day rounds e =
      (day ≤ day_number e.at) × (day_number e.at < day + rounds) × (text_lt after e.event.id ≡ true)

  pub none_of_day :
      (day : ℕ) (log : List Logged)
      → All (λ e. day < day_number e.at) log
      → keyed_by_day day log ≡ []
  none_of_day day [] h = refl
  none_of_day day (x ∷ xs) h =
      let other : (day_number x.at == day) ≡ false = ground arith in
      rw other (none_of_day day xs h.1)

  pub later_than :
      (day : ℕ) (x : Logged) (xs : List Logged)
      → day < day_number x.at
      → All (Precedes x) xs
      → All (λ e. day < day_number e.at) xs
  later_than day x [] h k = tt
  later_than day x (y ∷ ys) h k = (omega (arith, h, k.0.0), later_than day x ys h k.1)

  IsWithin-next :
      (day rounds : ℕ) (log : List Logged)
      → All (λ e. day < day_number e.at) log
      → All (IsWithin day (suc rounds)) log
      → All (IsWithin (day + 1) rounds) log
  IsWithin-next day rounds [] h k = tt
  IsWithin-next day rounds (x ∷ xs) h k =
      ((omega (arith, h.0), omega (arith, k.0), k.0.2), IsWithin-next day rounds xs h.1 k.1)

  -- Entries of the days that are gone through, all after the id, are given out in their order.
  pub walk-all :
      (rounds : ℕ) (log : List Logged) (day : ℕ)
      → IsLog log
      → All (IsWithin day rounds) log
      → walk rounds day log ≡ map (λ e. e.event) log
  unfolding later_events
  walk-all zero [] day h k = refl
  walk-all zero (x ∷ xs) day h k = absurd (omega (arith, k.0))
  walk-all (suc rounds) [] day h k = walk-all rounds [] (day + 1) tt tt
  walk-all (suc rounds) (x ∷ xs) day h k = elim (Bool-cases (day_number x.at == day)) [
    | inl this ↦
        let today : day_number x.at ≡ day = (==_iff (day_number x.at) day).0 this in
        rw (this, later_events, k.0.2, walk-past rounds (day + 1) x xs (omega (arith, today)))
          (ap (λ es. x.event ∷ es) (walk-all (suc rounds) xs day h.1 k.1))
    | inr that ↦
        let tomorrow : day < day_number x.at = ground (arith, k.0) in
        let all = later_than day x xs tomorrow h.0 in
        rw (that, none_of_day day xs all)
          (walk-all rounds (x ∷ xs) (day + 1) h
            (IsWithin-next day rounds (x ∷ xs) (tomorrow, all) k))
  ]

  pub walk-skip_all :
      (rounds day : ℕ) (before log : List Logged)
      → All (λ e. text_lt after e.event.id ≡ false) before
      → walk rounds day (before ++ log) ≡ walk rounds day log
  walk-skip_all rounds day [] log h = refl
  walk-skip_all rounds day (x ∷ xs) log h =
      walk-skip rounds day x (xs ++ log) h.0 ∙ walk-skip_all rounds day xs log h.1

-- The entries up to one, and those after it.
pub old_before :
    (before : List Logged) (k : Logged) (rest : List Logged)
    → IsLog (before ++ k ∷ rest)
    → All (λ e. text_lt k.event.id e.event.id ≡ false) before
old_before [] k rest h = tt
old_before (x ∷ xs) k rest h = (
  text_lt_asym x.event.id k.event.id (before_next (x ∷ xs) k rest h).0.1,
  old_before xs k rest h.1,
)

pub IsLog-after :
    (before : List Logged) (k : Logged) (rest : List Logged)
    → IsLog (before ++ k ∷ rest)
    → IsLog (k ∷ rest)
IsLog-after [] k rest h = h
IsLog-after (x ∷ xs) k rest h = IsLog-after xs k rest h.1

pub Precedes-IsWithin :
    (k : Logged) (until : ℕ) (rest : List Logged)
    → All (Precedes k) rest
    → All (λ e. e.at ≤ until) rest
    → All (IsWithin k.event.id (day_number k.at) (suc (day_number until - day_number k.at))) rest
Precedes-IsWithin k until [] h u = tt
Precedes-IsWithin k until (x ∷ xs) h u =
    ((omega (arith, h.0.0), omega (arith, h.0.0, u.0), h.0.1), Precedes-IsWithin k until xs h.1 u.1)
