-- ===== src/Cache/Journal/Examples.antt =====
-- A journal of two events, and one whose clock goes back over midnight.
use keco.Prelude.{ℕ, ◌≡◌, refl, true, none, some, List, [], ◌∷◌, ◌++◌, map, arith}
use keco.Prelude.Text.{Text, codes, text_eq}
use keco.Prelude.Maps.{get, put, nat_key, text_key}
use keco.DataStore.Values.{text_lt}
use keco.Core.Events.{NewEvent, repo_fetched, is_event, is_repo_ref}
use keco.Discovery.Clock.{to_iso_string}
use keco.Cache.Journal.{
  bucket_of, write_event, append, read, read_days, days_from, days_between, later_events,
  sort_entries, insert_entry, decode_ulid_time, advance,
}
use keco.Cache.Journal.Buckets.{Logged, append_each}
use keco.Cache.Journal.{reset}
use keco.Cache.Journal.Replay.{resume-reset}
use keco.Cache.Journal.Resuming.{resume, new_journal, resume-advance}

-- Ids from a list, in the place of a factory.
abbrev from_list : List Text → ℕ → Text × List Text
from_list [] now = ([], [])
from_list (id ∷ ids) now = (id, ids)

abbrev first_id : Text
first_id = codes "00000000010000000000000000"

abbrev second_id : Text
second_id = codes "00000000020000000000000000"

abbrev fetched_tool : NewEvent
fetched_tool = repo_fetched (codes "a/b") (codes "h") true

abbrev calls : List (NewEvent × ℕ)
calls = (fetched_tool, 1) ∷ (fetched_tool, 2) ∷ []

abbrev logged : Text → ℕ → Logged
logged id at = record {
  at = at;
  event = record { id = id; ts = to_iso_string at; body = fetched_tool };
}

two_logged :
    (append_each from_list (new_journal (first_id ∷ second_id ∷ [])) calls).1
    ≡ [] ++ logged first_id 1 ∷ logged second_id 2 ∷ []
unfolding append is_event is_repo_ref
two_logged = refl

resume-advance_example :
    resume
      (advance
        (append_each from_list (new_journal (first_id ∷ second_id ∷ [])) calls).0
        (codes "analyzer")
        first_id
        3)
      (codes "analyzer")
      4
    ≡ map (λ e. e.event) (logged second_id 2 ∷ [])
unfolding append is_event is_repo_ref text_lt decode_ulid_time
resume-advance_example =
    resume-advance from_list (first_id ∷ second_id ∷ []) calls [] (logged first_id 1)
      (logged second_id 2 ∷ []) (codes "analyzer") 3 4 two_logged
      (((omega arith, refl), tt), (tt, tt)) (λ e. cc) refl (omega arith) (omega arith, tt)

resume-reset_example :
    resume
      (reset
        (append_each from_list (new_journal (first_id ∷ second_id ∷ [])) calls).0
        (codes "analyzer")
        3)
      (codes "analyzer")
      4
    ≡ map (λ e. e.event) (append_each from_list (new_journal (first_id ∷ second_id ∷ [])) calls).1
unfolding append is_event is_repo_ref text_lt
resume-reset_example =
    resume-reset from_list (first_id ∷ second_id ∷ []) calls (codes "analyzer") 3 4
      (((omega arith, refl), tt), (tt, tt)) (omega arith, (omega arith, tt))

abbrev next_day_id : Text
next_day_id = codes "00002JCQ000000000000000000"

abbrev same_time_id : Text
same_time_id = codes "00002JCQ000000000000000001"

-- The second event is of the day before, since the clock went back, under an id of the later day.
abbrev went_back : List (NewEvent × ℕ)
went_back = (fetched_tool, 86400000) ∷ (fetched_tool, 86399999) ∷ []

never_read :
    read
      (append_each from_list (new_journal (next_day_id ∷ same_time_id ∷ [])) went_back).0
      (record { after_id = some next_day_id; from = none; until = 86400001; limit = none })
    ≡ []
unfolding append is_event is_repo_ref text_lt text_eq decode_ulid_time read read_days days_between
    days_from bucket_of write_event later_events sort_entries insert_entry get put
never_read = refl
