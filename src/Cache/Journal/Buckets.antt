-- ===== src/Cache/Journal/Buckets.antt =====
-- What the buckets of packages/cache/src/journal.ts hold after a series of appends.
use mathlib.Core.Path.{subst}
use keco.Prelude.{
  ℕ, ◌≤◌, ◌≡◌, refl, ap, sym, ◌∙◌, inl, inr, true, false, none, some, List, [], ◌∷◌, ◌++◌, ◌==◌,
  if◌then◌else◌, All, append_assoc, append-nil, ==_iff, Bool-cases,
}
use keco.Prelude.Text.{Text}
use keco.Prelude.Maps.{Map, put, get-put, nat_key, text_key}
use keco.DataStore.Values.{text_lt}
use keco.Discovery.Clock.{to_iso_string}
use keco.Core.Events.{NewEvent, Event, is_event}
use keco.Cache.Journal.{Bucket, Journal, day_number, bucket_of, write_event, append}
use keco.Cache.Journal.Order.{text_lt-text_eq}

pub record Logged : Type 0 where
  pub at : ℕ
  pub event : Event

-- The clock did not go back, and the ids increase, as those of `monotonicFactory` do.
abbrev pub Precedes : Logged → Logged → Type 0
Precedes e f = (e.at ≤ f.at) × (text_lt e.event.id f.event.id ≡ true)

abbrev pub IsLog : List Logged → Type 0
IsLog [] = Unit
IsLog (e ∷ es) = All (Precedes e) es × IsLog es

-- The entries of a day.
abbrev pub keyed_by_day : ℕ → List Logged → Bucket
keyed_by_day day [] = []
keyed_by_day day (e ∷ es) =
    let rest = keyed_by_day day es in
    if day_number e.at == day then (e.event.id, e.event) ∷ rest else rest

abbrev pub Represents : Map ℕ Bucket → List Logged → Type 0
Represents buckets log = (day : ℕ) → bucket_of buckets day ≡ keyed_by_day day log

keyed_by_day-snoc :
    (day : ℕ) (log : List Logged) (e : Logged)
    → keyed_by_day day (log ++ e ∷ []) ≡ (
        if day_number e.at == day
        then keyed_by_day day log ++ (e.event.id, e.event) ∷ []
        else keyed_by_day day log)
keyed_by_day-snoc day [] e = refl
keyed_by_day-snoc day (x ∷ xs) e =
    rw (keyed_by_day-snoc day xs e) (elim (Bool-cases (day_number x.at == day)) [
      | inl this ↦ elim (Bool-cases (day_number e.at == day)) [
        | inl same ↦ rw (this, same) refl
        | inr other ↦ rw (this, other) refl
      ]
      | inr that ↦ rw that refl
    ])

put_new :
    (day : ℕ) (log : List Logged) (e : Logged)
    → All (λ x. Precedes x e) log
    → put (keyed_by_day day log) e.event.id e.event
      ≡ keyed_by_day day log ++ (e.event.id, e.event) ∷ []
unfolding put
put_new day [] e h = refl
put_new day (x ∷ xs) e h = elim (Bool-cases (day_number x.at == day)) [
  | inl this ↦
      rw (this, put, text_lt-text_eq x.event.id e.event.id h.0.1)
        (ap (λ b. (x.event.id, x.event) ∷ b) (put_new day xs e h.1))
  | inr that ↦ rw that (put_new day xs e h.1)
]

bucket_of-put :
    (buckets : Map ℕ Bucket) (k day : ℕ) (b : Bucket)
    → bucket_of (put buckets k b) day ≡ (if k == day then b else bucket_of buckets day)
unfolding bucket_of
bucket_of-put buckets k day b =
    rw (bucket_of, get-put buckets k day b)
      (elim (Bool-cases (k == day)) [ inl same ↦ rw same refl | inr other ↦ rw other refl ])

write_event-Represents :
    (buckets : Map ℕ Bucket) (log : List Logged) (e : Logged)
    → All (λ x. Precedes x e) log
    → Represents buckets log
    → Represents (write_event buckets e.at e.event) (log ++ e ∷ [])
unfolding write_event
write_event-Represents buckets log e later h day =
    bucket_of-put buckets (day_number e.at) day _
    ∙ rw
        (
          h (day_number e.at),
          put_new (day_number e.at) log e later,
          h day,
          keyed_by_day-snoc day log e,
        )
        (elim (Bool-cases (day_number e.at == day)) [
          | inl same ↦ rw (same, (==_iff (day_number e.at) day).0 same) refl
          | inr other ↦ rw other refl
        ])

pub before_next :
    (log : List Logged) (e : Logged) (rest : List Logged)
    → IsLog (log ++ e ∷ rest)
    → All (λ x. Precedes x e) log
before_next [] e rest h = tt
before_next (x ∷ log) e rest h = (first_of log h.0, before_next log e rest h.1)
  where
    first_of : (log' : List Logged) → All (Precedes x) (log' ++ e ∷ rest) → Precedes x e
    first_of [] k = k.0
    first_of (y ∷ ys) k = first_of ys k.1

module _ {U : Type 0} (next_id : U → ℕ → Text × U) where
  -- A series of appends, and the events that were written.
  abbrev pub append_each : Journal U → List (NewEvent × ℕ) → Journal U × List Logged
  append_each j [] = (j, [])
  append_each j ((body, now) ∷ calls) =
      let (next, written) = append next_id j body now in
      let rest = append_each next calls in
      elim written [
        | none ↦ rest
        | some event ↦ (rest.0, record { at = now; event = event } ∷ rest.1)
      ]

  append_each-refused :
      (j : Journal U) (body : NewEvent) (now : ℕ) (calls : List (NewEvent × ℕ))
      → is_event body ≡ false
      → append_each j ((body, now) ∷ calls)
        ≡ append_each (record j { factory = (next_id j.factory now).1 }) calls
  unfolding append
  append_each-refused j body now calls refused =
      rw (append_each, append, refused) (rw (append, refused) refl)

  abbrev drawn : Journal U → NewEvent → ℕ → Event
  drawn j body now = record { id = (next_id j.factory now).0; ts = to_iso_string now; body = body }

  abbrev written : Journal U → NewEvent → ℕ → Journal U
  written j body now = record j {
    factory = (next_id j.factory now).1;
    buckets = write_event j.buckets now (drawn j body now);
  }

  append_each-fine :
      (j : Journal U) (body : NewEvent) (now : ℕ) (calls : List (NewEvent × ℕ))
      → is_event body ≡ true
      → let rest = append_each (written j body now) calls in
        append_each j ((body, now) ∷ calls)
        ≡ (rest.0, record { at = now; event = drawn j body now } ∷ rest.1)
  unfolding append
  append_each-fine j body now calls fine = rw (append_each, append, fine) (rw (append, fine) refl)

  -- What holds of buckets and their log, and is kept by every write, holds after the appends.
  pub append_each-keeps {ℓ} :
      (P : Map ℕ Bucket → List Logged → Type ℓ)
      (step : (buckets : Map ℕ Bucket) (log : List Logged) (e : Logged)
        → All (λ x. Precedes x e) log
        → P buckets log
        → P (write_event buckets e.at e.event) (log ++ e ∷ []))
      (j : Journal U) (log : List Logged) (calls : List (NewEvent × ℕ))
      → IsLog (log ++ (append_each j calls).1)
      → P j.buckets log
      → P (append_each j calls).0.buckets (log ++ (append_each j calls).1)
  append_each-keeps P step j log [] h r = subst (P j.buckets) (sym (append-nil log)) r
  append_each-keeps P step j log ((body, now) ∷ calls) h r = elim (Bool-cases (is_event body)) [
    | inr refused ↦
        let same = append_each-refused j body now calls refused in
        subst (λ p. P p.0.buckets (log ++ p.1)) (sym same)
          (append_each-keeps P step (record j { factory = (next_id j.factory now).1 }) log calls
            (subst (λ p. IsLog (log ++ p.1)) same h) r)
    | inl fine ↦
        let same = append_each-fine j body now calls fine in
        let e : Logged = record { at = now; event = drawn j body now } in
        let rest = append_each (written j body now) calls in
        let h' : IsLog (log ++ e ∷ rest.1) = subst (λ p. IsLog (log ++ p.1)) same h in
        let moved = append_assoc log (e ∷ []) rest.1 in
        subst (λ p. P p.0.buckets (log ++ p.1)) (sym same)
          (subst (P rest.0.buckets) moved (
            append_each-keeps P step (written j body now) (log ++ e ∷ []) calls
              (subst IsLog (sym moved) h') (step j.buckets log e (before_next log e rest.1 h') r)))
  ]

  pub append_each-Represents :
      (j : Journal U) (log : List Logged) (calls : List (NewEvent × ℕ))
      → IsLog (log ++ (append_each j calls).1)
      → Represents j.buckets log
      → Represents (append_each j calls).0.buckets (log ++ (append_each j calls).1)
  append_each-Represents = append_each-keeps Represents write_event-Represents
