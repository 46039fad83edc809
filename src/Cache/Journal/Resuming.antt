-- ===== src/Cache/Journal/Resuming.antt =====
-- A consumer of packages/cache/src/journal.ts that goes on from its checkpoint.
use keco.Prelude.{
  ℕ, suc, ◌-◌, ◌≤◌, ◌≡◌, ◌≢◌, refl, ◌∙◌, none, some, List, [], ◌∷◌, ◌++◌, map, arith, All,
}
use mathlib.Core.Path.{subst}
use keco.Prelude.Text.{Text, text_eq_iff}
use keco.Prelude.Maps.{get, get-put, text_key}
use keco.Core.Events.{NewEvent, Event}
use keco.Cache.Journal.{
  Journal, day_number, bucket_of, read, read_days, days_between, decode_ulid_time, checkpoint,
  advance,
}
use keco.Cache.Journal.Order.{text_lt-irreflexive}
use keco.Cache.Journal.Buckets.{Logged, IsLog, Represents, append_each, append_each-Represents}
use keco.Cache.Journal.Reading.{
  read_days-walk, walk-all, walk-skip, walk-skip_all, old_before, IsLog-after, Precedes-IsWithin,
}

-- What a worker reads: the events after its checkpoint, as `runAnalyzer` asks for them.
abbrev pub resume : {U : Type 0} → Journal U → Text → ℕ → List Event
resume j consumer now = read j (record {
  after_id = (checkpoint j consumer now).last_event_id;
  from = none;
  until = now;
  limit = none;
})

abbrev pub new_journal : {U : Type 0} → U → Journal U
new_journal factory = record { buckets = []; checkpoints = []; factory = factory }

read_start :
    {U : Type 0} (j : Journal U) (id : Text) (until : ℕ)
    → id ≢ []
    → read j (record { after_id = some id; from = none; until = until; limit = none })
      ≡ read_days j.buckets (some id) (day_number until) (days_between (decode_ulid_time id) until)
unfolding read
read_start j [] until filled = absurd (filled refl)
read_start j (c ∷ id) until filled = refl

read_after :
    {U : Type 0} (j : Journal U) (before : List Logged) (k : Logged) (rest : List Logged)
    (until : ℕ)
    → Represents j.buckets (before ++ k ∷ rest)
    → IsLog (before ++ k ∷ rest)
    → k.event.id ≢ []
    → decode_ulid_time k.event.id ≡ k.at
    → k.at ≤ until
    → All (λ e. e.at ≤ until) rest
    → read j (record { after_id = some k.event.id; from = none; until = until; limit = none })
      ≡ map (λ e. e.event) rest
unfolding days_between
read_after j before k rest until r h filled decoded past u =
    let rounds = suc (day_number until - day_number k.at) in
    let tail = IsLog-after before k rest h in
    let days =
      read_days-walk k.event.id j.buckets (before ++ k ∷ rest) (day_number until) rounds
        (day_number k.at) r h (omega arith) in
    let skipped =
      walk-skip_all k.event.id rounds (day_number k.at) before (k ∷ rest)
        (old_before before k rest h)
      ∙ walk-skip k.event.id rounds (day_number k.at) k rest (text_lt-irreflexive k.event.id) in
    let given =
      walk-all k.event.id rounds rest (day_number k.at) tail.1
        (Precedes-IsWithin k until rest tail.0 u) in
    read_start j k.event.id until filled ∙ rw decoded days ∙ skipped ∙ given

-- The journal is a list to its consumers: after any appends, with ids that increase and a clock that does
-- not go back, a consumer that has advanced past an event reads the events written after it, all of
-- them, in the order in which they were written, and no other.
pub resume-advance :
    {U : Type 0} (next_id : U → ℕ → Text × U) (factory : U) (calls : List (NewEvent × ℕ))
    (before : List Logged) (k : Logged) (rest : List Logged) (consumer : Text) (at now : ℕ)
    → let written = append_each next_id (new_journal factory) calls in
      written.1 ≡ before ++ k ∷ rest
      → IsLog written.1
      → k.event.id ≢ []
      → decode_ulid_time k.event.id ≡ k.at
      → k.at ≤ now
      → All (λ e. e.at ≤ now) rest
      → resume (advance written.0 consumer k.event.id at) consumer now ≡ map (λ e. e.event) rest
unfolding advance checkpoint
resume-advance next_id factory calls before k rest consumer at now same h filled decoded past u =
    let written = append_each next_id (new_journal factory) calls in
    let stored =
      append_each-Represents next_id (new_journal factory) [] calls h
        (λ day. unfold bucket_of get in refl) in
    let log : Represents written.0.buckets (before ++ k ∷ rest) =
      subst (Represents written.0.buckets) same stored in
    rw
      (
        checkpoint,
        get-put written.0.checkpoints consumer consumer _,
        (text_eq_iff consumer consumer).1 refl,
      )
      (read_after (advance written.0 consumer k.event.id at) before k rest now log
        (subst IsLog same h) filled decoded past u)
