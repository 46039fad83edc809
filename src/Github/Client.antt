-- ===== src/Github/Client.antt =====
-- `RatePacer` and `SearchClient.page` of packages/github/src/search.ts, with `backoffMs` of
-- packages/github/src/quota.ts. Calls do not overlap here. Instants are milliseconds; a header is
-- the number that `Number` reads in it, 0 where it is absent.
pub mod Pacing
pub mod Retries
use keco.Prelude.{
  ℕ, zero, suc, ◌+◌, ◌-◌, ◌*◌, ◌^◌, min, max, Bool, true, false, ◌||◌, ◌&&◌, not, Option, none,
  some, List, [], ◌∷◌, ltb, leb, ◌==◌, if◌then◌else◌, length,
}
use keco.Prelude.Text.{Text}
use keco.Github.Item.{SearchItem, SearchPage}

abbrev pub throttle_floor_ms : ℕ
throttle_floor_ms = 60000

abbrev pub throttle_ceiling_ms : ℕ
throttle_ceiling_ms = 300000

-- What a request throws: `error.status`, where it has one, and two of its headers.
pub record HttpError : Type 0 where
  pub status : Option ℕ
  pub retry_after : ℕ
  pub ratelimit_reset : ℕ

-- The page's envelope; an item that fails its validation is `none`.
pub record RawPage : Type 0 where
  pub total_count : ℕ
  pub incomplete_results : Bool
  pub items : List (Option SearchItem)

pub data Reply : Type 0 where
  answered : RawPage → Reply
  malformed : Reply
  threw : HttpError → Reply

-- What the n-th request answers and how long it takes; how much longer than 1 ms a sleep takes, by when it starts
-- and how long it is to be; and the jitter of `backoffMs`, by the attempt.
pub record Net : Type 0 where
  pub request : ℕ → Text → ℕ → ℕ → Reply
  pub took : ℕ → ℕ
  pub slept : ℕ → ℕ → ℕ
  pub jitter : ℕ → ℕ

-- The clock, the pacer's `nextAllowedAt`, and the instants of the requests made, latest first.
pub record Client : Type 0 where
  pub now : ℕ
  pub next_allowed_at : ℕ
  pub requests : List ℕ

abbrev pub search_min_interval_ms : ℕ
search_min_interval_ms = 2000

abbrev pub default_max_retries : ℕ
default_max_retries = 5

-- A client that has not asked for anything yet.
abbrev pub new_client : ℕ → Client
new_client now = record { now = now; next_allowed_at = 0; requests = [] }

pub data PageError : Type 0 where
  per_page_over_cap page_over_cap schema_changed : PageError
  http : HttpError → PageError

pub data Outcome : Type 0 where
  returned : SearchPage → Outcome
  thrown : PageError → Outcome

abbrev pub is_throttled : Option ℕ → Bool
is_throttled none = false
is_throttled (some status) = status == 403 || status == 429

-- `status === undefined || TRANSIENT_STATUSES.has(status)`
abbrev pub is_transient : Option ℕ → Bool
is_transient none = true
is_transient (some status) =
    status == 408 || (status == 500 || (status == 502 || (status == 503 || status == 504)))

unfoldable pub throttle_wait_ms : HttpError → ℕ → ℕ
throttle_wait_ms error now =
    if ltb 0 error.retry_after
    then min throttle_ceiling_ms (error.retry_after * 1000)
    else if ltb now (error.ratelimit_reset * 1000)
    then min throttle_ceiling_ms (error.ratelimit_reset * 1000 - now)
    else throttle_floor_ms

-- `backoffMs(attempt, null)`
unfoldable pub backoff_ms : (ℕ → ℕ) → ℕ → ℕ
backoff_ms jitter attempt = min 60000 (2 ^ attempt * 1000) + jitter attempt

unfoldable pub parsed : List (Option SearchItem) → List SearchItem
parsed [] = []
parsed (none ∷ items) = parsed items
parsed (some item ∷ items) = item ∷ parsed items

unfoldable pub failed_to_parse : List (Option SearchItem) → ℕ
failed_to_parse [] = 0
failed_to_parse (none ∷ items) = failed_to_parse items + 1
failed_to_parse (some item ∷ items) = failed_to_parse items

unfoldable pub parse_page : RawPage → Outcome
unfolding parsed failed_to_parse
parse_page raw =
    let dropped = failed_to_parse raw.items in
    if ltb 0 dropped && dropped == length raw.items
    then thrown schema_changed
    else returned (record {
      total_count = raw.total_count;
      incomplete_results = raw.incomplete_results;
      items = parsed raw.items;
      dropped = dropped;
    })

module _ (net : Net) (min_interval_ms : ℕ) where
  -- A timer takes a millisecond at least.
  abbrev pub sleep : Client → ℕ → Client
  sleep c ms = record c { now = c.now + (1 + net.slept c.now ms) }

  -- The `for (;;)` of `waitTurn`; the wait itself is fuel enough.
  unfoldable pub wait_loop : ℕ → Client → Client
  wait_loop zero c = c
  wait_loop (suc fuel) c =
      let rest = wait_loop fuel (sleep c (c.next_allowed_at - c.now)) in
      if leb c.next_allowed_at c.now then c else rest

  unfoldable pub wait_turn : Client → Client
  unfolding wait_loop
  wait_turn c =
      let woken = wait_loop (c.next_allowed_at - c.now) c in
      record woken { next_allowed_at = woken.now + min_interval_ms }

  unfoldable pub penalise : Client → ℕ → Client
  penalise c ms = record c { next_allowed_at = max c.next_allowed_at (c.now + ms) }

  -- The request and the time that it takes.
  abbrev pub sent : Client → Client
  sent c = record c { requests = c.now ∷ c.requests; now = c.now + net.took (length c.requests) }

  -- The client after a failed attempt, and whether another is made: it has waited for it, or the
  -- pacer will. Otherwise the error is thrown on.
  unfoldable pub after_error : Client → HttpError → ℕ → Bool → Client × Bool
  unfolding penalise throttle_wait_ms backoff_ms
  after_error c error attempt last =
      let throttled = is_throttled error.status in
      let slowed = if throttled then penalise c (throttle_wait_ms error c.now) else c in
      if last || (not throttled && not (is_transient error.status))
      then (slowed, false)
      else (if throttled then slowed else sleep slowed (backoff_ms net.jitter attempt), true)

  abbrev pub request : Client → Text → ℕ → ℕ → Reply
  request c query page per_page = net.request (length c.requests) query page per_page

  -- The `for (let attempt = 0; ; …)`, by the retries that are left.
  unfoldable pub attempts : ℕ → ℕ → Client → Text → ℕ → ℕ → Client × Outcome
  unfolding wait_turn parse_page after_error
  attempts zero attempt c query page per_page =
      let ready = wait_turn c in
      elim (request ready query page per_page) [
        | answered raw ↦ (sent ready, parse_page raw)
        | malformed ↦ (sent ready, thrown schema_changed)
        | threw error ↦ ((after_error (sent ready) error attempt true).0, thrown (http error))
      ]
  attempts (suc left) attempt c query page per_page =
      let ready = wait_turn c in
      elim (request ready query page per_page) [
        | answered raw ↦ (sent ready, parse_page raw)
        | malformed ↦ (sent ready, thrown schema_changed)
        | threw error ↦
            let (next, again) = after_error (sent ready) error attempt false in
            elim again [
              | true ↦ attempts left (attempt + 1) next query page per_page
              | false ↦ (next, thrown (http error))
            ]
      ]

  unfoldable pub search_page : ℕ → Client → Text → ℕ → ℕ → Client × Outcome
  unfolding attempts
  search_page max_retries c query page per_page =
      let asked = attempts max_retries 0 c query page per_page in
      if ltb 100 per_page
      then (c, thrown per_page_over_cap)
      else if ltb 1000 (page * per_page)
      then (c, thrown page_over_cap)
      else asked
