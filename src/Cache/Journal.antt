-- ===== src/Cache/Journal.antt =====
-- `Journal` of packages/cache/src/journal.ts. `monotonicFactory` of ulid is a parameter. A day's bucket is a
-- map of its own, and goes by the number of the day since 1970, in place of the ISO text of the day,
-- which orders the same way; a listing names what was put. The object is passed and returned.
pub mod Order
pub mod Buckets
pub mod Reading
pub mod Resuming
pub mod Days
pub mod Replay
mod Examples
use keco.Prelude.{
  ℕ, zero, suc, ◌+◌, ◌-◌, ◌*◌, ◌/◌, max, Bool, true, false, not, ◌||◌, Option, none, some, List, [],
  ◌∷◌, ◌++◌, map, leb, ltb, ◌==◌, if◌then◌else◌, take,
}
use keco.Prelude.Text.{Text, codes}
use keco.Prelude.Maps.{Map, get, put, nat_key, text_key}
use keco.DataStore.Values.{text_lt}
use keco.Discovery.Clock.{to_iso_string}
use keco.Core.Events.{NewEvent, Event, Checkpoint, is_event}

abbrev pub Bucket : Type 0
Bucket = Map Text Event

pub record Journal (U : Type 0) : Type 0 where
  pub buckets : Map ℕ Bucket
  pub checkpoints : Map Text Checkpoint
  pub factory : U

abbrev pub day_number : ℕ → ℕ
day_number time = time / 86400000

unfoldable pub bucket_of : Map ℕ Bucket → ℕ → Bucket
bucket_of buckets day = elim (get buckets day) [ none ↦ [] | some b ↦ b ]

unfoldable pub write_event : Map ℕ Bucket → ℕ → Event → Map ℕ Bucket
unfolding bucket_of
write_event buckets now event =
    put buckets (day_number now) (put (bucket_of buckets (day_number now)) event.id event)

-- `CROCKFORD.indexOf(char)` of an upper-case character, with -1 read as 0: no id has such a character.
abbrev crockford : Text
crockford = codes "0123456789ABCDEFGHJKMNPQRSTVWXYZ"

index_from : ℕ → Text → ℕ → ℕ
index_from i [] c = 0
index_from i (d ∷ ds) c = let rest = index_from (i + 1) ds c in if d == c then i else rest

abbrev upper : ℕ → ℕ
upper c = if leb b'a' c then if leb c b'z' then c - 32 else c else c

decode_from : ℕ → Text → ℕ
unfolding index_from
decode_from time [] = time
decode_from time (c ∷ cs) = decode_from (time * 32 + index_from 0 crockford (upper c)) cs

unfoldable pub decode_ulid_time : Text → ℕ
unfolding decode_from
decode_ulid_time id = decode_from 0 (take 10 id)

-- `[…].sort()` of keys that differ in their ids alone.
unfoldable pub insert_entry : Text × Event → Bucket → Bucket
insert_entry e [] = e ∷ []
insert_entry e (f ∷ fs) =
    let rest = insert_entry e fs in if text_lt f.0 e.0 then f ∷ rest else e ∷ f ∷ fs

unfoldable pub sort_entries : Bucket → Bucket
unfolding insert_entry
sort_entries [] = []
sort_entries (e ∷ es) = insert_entry e (sort_entries es)

-- The events of a listing that come after an id; `id <= afterId` is `not (afterId < id)`.
unfoldable pub later_events : Option Text → Bucket → List Event
later_events after [] = []
later_events none ((id, e) ∷ es) = e ∷ later_events none es
later_events (some after) ((id, e) ∷ es) =
    let rest = later_events (some after) es in if text_lt after id then e ∷ rest else rest

-- The loop over the days.
unfoldable pub read_days : Map ℕ Bucket → Option Text → ℕ → List ℕ → List Event
unfolding sort_entries later_events bucket_of
read_days buckets after last [] = []
read_days buckets after last (day ∷ days) =
    let rest = read_days buckets after last days in
    if ltb last day then [] else later_events after (sort_entries (bucket_of buckets day)) ++ rest

-- `daysBetween`, by the rounds that are left: the first day is there also where it is past the last.
unfoldable pub days_from : ℕ → ℕ → List ℕ
days_from zero day = []
days_from (suc rounds) day = day ∷ days_from rounds (day + 1)

unfoldable pub days_between : ℕ → ℕ → List ℕ
unfolding days_from
days_between from until = days_from (suc (day_number until - day_number from)) (day_number from)

unfoldable pub insert_day : ℕ → List ℕ → List ℕ
insert_day d [] = d ∷ []
insert_day d (e ∷ es) = let rest = insert_day d es in if ltb e d then e ∷ rest else d ∷ e ∷ es

-- `days`: the buckets that exist, ascending.
unfoldable pub days_of : Map ℕ Bucket → List ℕ
unfolding insert_day
days_of [] = []
days_of ((day, b) ∷ buckets) = insert_day day (days_of buckets)

pub record ReadOptions : Type 0 where
  pub after_id : Option Text
  pub from : Option ℕ
  pub until : ℕ
  pub limit : Option ℕ

-- The limit is tested after an event is given out.
abbrev limited : Option ℕ → List Event → List Event
limited none events = events
limited (some n) events = take (max 1 n) events

-- `start`; an empty id counts as none there, and as an id in the comparison.
abbrev start_of : Option ℕ → Option Text → Option ℕ
start_of (some from) after = some from
start_of none none = none
start_of none (some []) = none
start_of none (some (c ∷ id)) = some (decode_ulid_time (c ∷ id))

-- All that the generator gives out.
unfoldable pub read : {U : Type 0} → Journal U → ReadOptions → List Event
unfolding read_days days_between days_of
read j options =
    let days : List ℕ = elim (start_of options.from options.after_id) [
      | none ↦ days_of j.buckets
      | some start ↦ days_between start options.until
    ] in
    limited options.limit (read_days j.buckets options.after_id (day_number options.until) days)

unfoldable pub checkpoint : {U : Type 0} → Journal U → Text → ℕ → Checkpoint
checkpoint j consumer now = elim (get j.checkpoints consumer) [
  | some stored ↦ stored
  | none ↦ record { consumer = consumer; last_event_id = none; updated_at = to_iso_string now }
]

abbrev pub save : {U : Type 0} → Journal U → Text → Option Text → ℕ → Journal U
save j consumer last now = record j {
  checkpoints =
      put j.checkpoints consumer
        (record { consumer = consumer; last_event_id = last; updated_at = to_iso_string now });
}

unfoldable pub advance : {U : Type 0} → Journal U → Text → Text → ℕ → Journal U
advance j consumer last now = save j consumer (some last) now

unfoldable pub reset : {U : Type 0} → Journal U → Text → ℕ → Journal U
reset j consumer now = save j consumer none now

module _ {U : Type 0} (next_id : U → ℕ → Text × U) where
  -- `none` is the throw of `Event.parse`, after the id is drawn.
  unfoldable pub append : Journal U → NewEvent → ℕ → Journal U × Option Event
  unfolding write_event
  append j body now =
      let (id, factory) = next_id j.factory now in
      let event : Event = record { id = id; ts = to_iso_string now; body = body } in
      if is_event body
      then (record j { factory = factory; buckets = write_event j.buckets now event }, some event)
      else (record j { factory = factory }, none)

  -- A throw leaves the events before it.
  unfoldable pub append_all : Journal U → List NewEvent → ℕ → Journal U × Option (List Event)
  unfolding append
  append_all j [] now = (j, some [])
  append_all j (body ∷ bodies) now =
      let (next, written) = append j body now in
      let rest = append_all next bodies now in
      elim written [
        | none ↦ (next, none)
        | some e ↦ elim rest.1 [ none ↦ (rest.0, none) | some es ↦ (rest.0, some (e ∷ es)) ]
      ]
