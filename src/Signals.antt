-- ===== src/Signals.antt =====
-- packages/signals/src/provider.ts: one external signal behind its cache. An instant is a number of
-- milliseconds; what the network answers to a request and what a provider's schema and body parser
-- make of it are `answer`.
pub mod Again
mod Examples
use keco.Prelude.{
  ℕ, ◌+◌, ◌*◌, Bool, true, false, not, ◌&&◌, Option, none, some, ltb, leb, if◌then◌else◌,
}
use keco.Prelude.Text.{Text}
use keco.Prelude.Maps.{Map, get, put, text_key}
use keco.Cache.Keys.{external_key}

pub record ExternalEnvelope {ℓ} (T : Type ℓ) : Type ℓ where
  pub fetched_at : ℕ
  pub ttl_seconds : ℕ
  pub status : ℕ
  pub body : Option T

pub record ProviderResult {ℓ} (T : Type ℓ) : Type ℓ where
  pub value : Option T
  pub fetched_at : Option ℕ
  pub partial : Bool

-- A response, whose body is `none` where the schema refuses it, or a request or a body that throws.
pub data Answer {ℓ} (T : Type ℓ) : Type ℓ where
  responded : ℕ → Option T → Answer T
  failed : Answer T

pub record ProviderDefinition {ℓ} (T : Type ℓ) : Type ℓ where
  pub name : Text
  pub ttl_seconds : ℕ
  -- whether `request` builds a request for the key
  pub can_answer : Text → Bool
  pub answer : Text → ℕ → Answer T

-- `now - fetched_at < ttl_seconds * 1000`, where `now` may be the earlier one
unfoldable pub is_fresh : {T : Type 0} → ExternalEnvelope T → ℕ → Bool
is_fresh e now = ltb now (e.fetched_at + e.ttl_seconds * 1000)

abbrev pub is_none : {T : Type 0} → Option T → Bool
is_none none = true
is_none (some x) = false

-- `response.ok`
abbrev pub is_ok : ℕ → Bool
is_ok status = leb 200 status && ltb status 300

unfoldable pub perform :
    {T : Type 0} → ProviderDefinition T → Text → ℕ → Answer T → ExternalEnvelope T
perform d key now failed = record {
  fetched_at = now;
  ttl_seconds = d.ttl_seconds;
  status = 0;
  body = none;
}
perform d key now (responded status body) = record {
  fetched_at = now;
  ttl_seconds = d.ttl_seconds;
  status = status;
  body = if is_ok status then body else none;
}

-- The cache's envelopes of one type, the number of requests, and the result.
pub record Fetched {ℓ} (T : Type ℓ) : Type ℓ where
  pub cache : Map Text (ExternalEnvelope T)
  pub requests : ℕ
  pub result : ProviderResult T

abbrev pub from_cache :
    {T : Type 0} → Map Text (ExternalEnvelope T) → ExternalEnvelope T → Fetched T
from_cache cache e = record {
  cache = cache;
  requests = 0;
  result = record { value = e.body; fetched_at = some e.fetched_at; partial = leb 400 e.status };
}

abbrev pub store :
    {T : Type 0} → Map Text (ExternalEnvelope T) → Text → ExternalEnvelope T → Fetched T
store cache k e = record {
  cache = put cache k e;
  requests = 1;
  result = record { value = e.body; fetched_at = some e.fetched_at; partial = is_none e.body };
}

unfoldable pub refetch :
    {T : Type 0}
    → (Text → Text)
    → ProviderDefinition T
    → Map Text (ExternalEnvelope T)
    → Text
    → ℕ
    → Fetched T
unfolding perform
refetch encode d cache key now =
    if d.can_answer key
    then store cache (external_key encode d.name key) (perform d key now (d.answer key now))
    else record {
      cache = cache;
      requests = 0;
      result = record { value = none; fetched_at = none; partial = true };
    }

-- The envelope that may be answered with: none where a refresh is forced.
abbrev pub usable :
    {T : Type 0} → Bool → ℕ → Option (ExternalEnvelope T) → Option (ExternalEnvelope T)
usable force_refresh now none = none
usable force_refresh now (some e) = if not force_refresh && is_fresh e now then some e else none

abbrev pub answered :
    {T : Type 0}
    → (Text → Text)
    → ProviderDefinition T
    → Map Text (ExternalEnvelope T)
    → Text
    → ℕ
    → Option (ExternalEnvelope T)
    → Fetched T
answered encode d cache key now none = refetch encode d cache key now
answered encode d cache key now (some e) = from_cache cache e

unfoldable pub fetch :
    {T : Type 0}
    → (Text → Text)
    → ProviderDefinition T
    → Map Text (ExternalEnvelope T)
    → Text
    → Bool
    → ℕ
    → Fetched T
fetch encode d cache key force_refresh now =
    answered encode d cache key now
      (usable force_refresh now (get cache (external_key encode d.name key)))
