-- ===== src/Signals/Again.antt =====
-- A signal that is fetched again: the cache of provider.ts within the time to live.
use keco.Prelude.{
  ℕ, ◌+◌, ◌*◌, ◌<◌, ◌≡◌, refl, Bool, true, false, Option, none, some, arith, inl, inr, Bool-cases,
}
use keco.Prelude.Text.{Text, text_eq_iff}
use keco.Prelude.Maps.{Map, get, put, get-put, text_key}
use keco.Cache.Keys.{external_key}
use keco.Signals.{
  ExternalEnvelope, ProviderDefinition, Answer, responded, failed, perform, store, from_cache,
  refetch, fetch, is_fresh, answered,
}

perform-dated :
    {T : Type 0} (d : ProviderDefinition T) (key : Text) (now : ℕ) (a : Answer T)
    → ((perform d key now a).fetched_at ≡ now) × ((perform d key now a).ttl_seconds ≡ d.ttl_seconds)
unfolding perform
perform-dated d key now failed = (refl, refl)
perform-dated d key now (responded status body) = (refl, refl)

module _ {T : Type 0} (encode : Text → Text) (d : ProviderDefinition T)
    (cache : Map Text (ExternalEnvelope T)) (key : Text) (now later : ℕ) where
  abbrev kept : Text
  kept = external_key encode d.name key

  abbrev envelope : ExternalEnvelope T
  envelope = perform d key now (d.answer key now)

  envelope-fresh : later < now + d.ttl_seconds * 1000 → is_fresh envelope later ≡ true
  unfolding is_fresh
  envelope-fresh young =
      let dated = perform-dated d key now (d.answer key now) in rw (dated.0, dated.1) (ground arith)

  refetch-store :
      (refetch encode d cache key now).requests ≡ 1
      → refetch encode d cache key now ≡ store cache kept envelope
  unfolding refetch
  refetch-store one = elim (Bool-cases (d.can_answer key)) [
    | inl can ↦ rw can refl
    | inr cannot ↦ absurd (ground arith)
  ]

  answered-store :
      (u : Option (ExternalEnvelope T))
      → (answered encode d cache key now u).requests ≡ 1
      → answered encode d cache key now u ≡ store cache kept envelope
  answered-store none one = refetch-store one
  answered-store (some e) one = absurd (omega arith)

  get-kept : get (put cache kept envelope) kept ≡ some envelope
  get-kept = ground (arith, get-put cache kept kept envelope, text_eq_iff kept kept)

  -- The answer from the cache is the envelope that was put there.
  fetch-from_cache :
      later < now + d.ttl_seconds * 1000
      → fetch encode d (put cache kept envelope) key false later
        ≡ from_cache (put cache kept envelope) envelope
  unfolding fetch
  fetch-from_cache young = rw (get-kept, envelope-fresh young) refl

-- A signal that was asked for on the network, also where the refresh was forced, is not asked for
-- again within its time to live: a later fetch makes no request, leaves the cache as it is, and
-- gives the same value of the same date, also where that is none.
pub fetch-again :
    {T : Type 0} (encode : Text → Text) (d : ProviderDefinition T)
    (cache : Map Text (ExternalEnvelope T)) (key : Text) (force_refresh : Bool) (now later : ℕ)
    → (fetch encode d cache key force_refresh now).requests ≡ 1
    → later < now + d.ttl_seconds * 1000
    → let first = fetch encode d cache key force_refresh now in
      let second = fetch encode d first.cache key false later in
      (second.requests ≡ 0)
      × (second.cache ≡ first.cache)
      × (second.result.value ≡ first.result.value)
      × (second.result.fetched_at ≡ first.result.fetched_at)
unfolding fetch
fetch-again encode d cache key force_refresh now later one young =
    let same = answered-store encode d cache key now later _ one in
    rw (same, fetch-from_cache encode d cache key now later young) (refl, refl, refl, refl)

-- A request that fails, by a timeout or else, is told as a partial signal only by the fetch that made
-- it: within the time to live a later fetch gives no value, and says that it is not partial.
pub fetch-forgets :
    {T : Type 0} (encode : Text → Text) (d : ProviderDefinition T)
    (cache : Map Text (ExternalEnvelope T)) (key : Text) (force_refresh : Bool) (now later : ℕ)
    → (fetch encode d cache key force_refresh now).requests ≡ 1
    → later < now + d.ttl_seconds * 1000
    → d.answer key now ≡ failed
    → let first = fetch encode d cache key force_refresh now in
      let second = fetch encode d first.cache key false later in
      (first.result.partial ≡ true) × (second.result.value ≡ none) × (second.result.partial ≡ false)
unfolding fetch perform
fetch-forgets encode d cache key force_refresh now later one young dead =
    let same = answered-store encode d cache key now later _ one in
    rw (same, fetch-from_cache encode d cache key now later young, dead) (refl, refl, refl)
