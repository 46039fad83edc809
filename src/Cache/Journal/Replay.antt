-- ===== src/Cache/Journal/Replay.antt =====
-- A consumer of packages/cache/src/journal.ts that starts from nothing, as after `reset`.
use keco.Prelude.{ℕ, ◌≤◌, ◌≡◌, refl, ◌∙◌, true, List, [], ◌∷◌, ◌++◌, map, arith, All, All-append}
use keco.Prelude.Text.{Text, text_eq_iff}
use keco.Prelude.Maps.{Map, get, put, has, has-put, get-put, nat_key, text_key}
use keco.Core.Events.{NewEvent}
use keco.Cache.Journal.{Bucket, day_number, bucket_of, write_event, read, checkpoint, reset}
use keco.Cache.Journal.Buckets.{
  Logged, Precedes, IsLog, append_each, append_each-keeps, append_each-Represents,
}
use keco.Cache.Journal.Days.{
  AllDays, IsAscending, put-AllDays, put-IsAscending, days_of-IsAscending, read_days-walk_days,
  walk_days-all,
}
use keco.Cache.Journal.Resuming.{resume, new_journal}

abbrev Has : Map ℕ Bucket → Logged → Type 0
Has buckets e = has buckets (day_number e.at) ≡ true

-- The days of the buckets ascend, are those of the log, and none is past the log's last.
record IsKept (buckets : Map ℕ Bucket) (log : List Logged) : Type 0 where
  ascending : IsAscending buckets
  there : All (Has buckets) log
  bounded : (n : ℕ) → All (λ e. e.at ≤ n) log → AllDays (λ d. d ≤ day_number n) buckets

Has-put :
    (buckets : Map ℕ Bucket) (k : ℕ) (b : Bucket) (log : List Logged)
    → All (Has buckets) log
    → All (Has (put buckets k b)) log
Has-put buckets k b [] h = tt
Has-put buckets k b (x ∷ xs) h =
    (ground (arith, has-put buckets k (day_number x.at) b, h.0), Has-put buckets k b xs h.1)

Has-new :
    (buckets : Map ℕ Bucket) (e : Logged) (b : Bucket) → Has (put buckets (day_number e.at) b) e
Has-new buckets e b = ground (arith, has-put buckets (day_number e.at) (day_number e.at) b)

ats_of : (log : List Logged) (e : Logged) → All (λ x. Precedes x e) log → All (λ x. x.at ≤ e.at) log
ats_of [] e h = tt
ats_of (x ∷ xs) e h = (h.0.0, ats_of xs e h.1)

last_at :
    (n : ℕ) (log : List Logged) (e : Logged)
    → All (λ x. x.at ≤ n) (log ++ e ∷ [])
    → All (λ x. x.at ≤ n) log × (e.at ≤ n)
last_at n [] e h = (tt, h.0)
last_at n (x ∷ xs) e h = let (rest, last) = last_at n xs e h.1 in ((h.0, rest), last)

write_event-IsKept :
    (buckets : Map ℕ Bucket) (log : List Logged) (e : Logged)
    → All (λ x. Precedes x e) log
    → IsKept buckets log
    → IsKept (write_event buckets e.at e.event) (log ++ e ∷ [])
unfolding write_event
write_event-IsKept buckets log e later h = record {
  ascending =
      put-IsAscending buckets (day_number e.at) _ (h.bounded e.at (ats_of log e later)) h.ascending;
  there =
      All-append (Has _) log (e ∷ []) (Has-put buckets (day_number e.at) _ log h.there)
        (Has-new buckets e _, tt);
  bounded = λ n u.
      let (before, last) = last_at n log e u in
      put-AllDays (λ d. d ≤ day_number n) buckets (day_number e.at) _ (omega (arith, last))
        (h.bounded n before);
}

-- After any appends, with ids that increase and a clock that does not go back, a consumer whose checkpoint
-- is reset reads every event of the journal, in the order in which they were written.
pub resume-reset :
    {U : Type 0} (next_id : U → ℕ → Text × U) (factory : U) (calls : List (NewEvent × ℕ))
    (consumer : Text) (at now : ℕ)
    → let written = append_each next_id (new_journal factory) calls in
      IsLog written.1
      → All (λ e. e.at ≤ now) written.1
      → resume (reset written.0 consumer at) consumer now ≡ map (λ e. e.event) written.1
unfolding reset checkpoint read
resume-reset next_id factory calls consumer at now h u =
    let written = append_each next_id (new_journal factory) calls in
    let stored =
      append_each-Represents next_id (new_journal factory) [] calls h
        (λ day. unfold bucket_of get in refl) in
    let kept =
      append_each-keeps next_id IsKept write_event-IsKept (new_journal factory) [] calls h
        (record { ascending = tt; there = tt; bounded = λ n v. tt }) in
    let buckets = written.0.buckets in
    rw
      (
        checkpoint,
        get-put written.0.checkpoints consumer consumer _,
        (text_eq_iff consumer consumer).1 refl,
      )
      (rw (days_of-IsAscending buckets kept.ascending) (
        read_days-walk_days buckets buckets written.1 (day_number now) stored h (kept.bounded now u)
        ∙ walk_days-all buckets written.1 kept.ascending h kept.there))
