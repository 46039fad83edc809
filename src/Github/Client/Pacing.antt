-- ===== src/Github/Client/Pacing.antt =====
-- The spacing that `RatePacer` of packages/github/src/search.ts keeps.
use keco.Prelude.{
  ℕ, zero, suc, ◌+◌, ◌-◌, ◌≤◌, ◌≡◌, ◌⊎◌, inl, inr, refl, Bool, true, false, List, [], ◌∷◌, ◌||◌,
  not, arith, Bool-cases,
}
use keco.Prelude.Text.{Text}
use keco.Github.Client.{
  is_throttled, is_transient, Net, Client, HttpError, Reply, answered, malformed, threw, RawPage,
  sleep, wait_loop, wait_turn, penalise, sent, after_error, attempts, request, search_page,
}

-- Requests, latest first, that lie an interval apart, and the last one an interval before an instant.
abbrev pub Spaced : ℕ → ℕ → List ℕ → Type 0
Spaced interval until [] = Unit
Spaced interval until (at ∷ earlier) = (at + interval ≤ until) × Spaced interval at earlier

-- Every two requests in a row lie an interval apart, and the next one will.
abbrev pub IsPaced : ℕ → Client → Type 0
IsPaced interval c = Spaced interval c.next_allowed_at c.requests

Spaced-later :
    (interval until later : ℕ) (requests : List ℕ)
    → until ≤ later
    → Spaced interval until requests
    → Spaced interval later requests
Spaced-later interval until later [] h s = tt
Spaced-later interval until later (at ∷ earlier) h s = (omega (arith, s.0), s.1)

pub Reply-cases :
    (reply : Reply)
    → ((raw : RawPage) × (reply ≡ answered raw))
      ⊎ ((reply ≡ malformed) ⊎ ((e : HttpError) × (reply ≡ threw e)))
Reply-cases (answered raw) = inl (raw, refl)
Reply-cases malformed = inr (inl refl)
Reply-cases (threw e) = inr (inr (e, refl))

module _ (net : Net) (interval : ℕ) where
  wait_loop-kept :
      (fuel : ℕ) (c : Client)
      → ((wait_loop net interval fuel c).requests ≡ c.requests)
        × ((wait_loop net interval fuel c).next_allowed_at ≡ c.next_allowed_at)
  unfolding wait_loop
  wait_loop-kept zero c = (refl, refl)
  wait_loop-kept (suc fuel) c =
      ground (arith, wait_loop-kept fuel (sleep net interval c (c.next_allowed_at - c.now)))

  -- Each sleep may end early, but a wait ends no earlier than the pacer allows.
  wait_loop-reaches :
      (fuel : ℕ) (c : Client)
      → c.next_allowed_at ≤ c.now + fuel
      → c.next_allowed_at ≤ (wait_loop net interval fuel c).now
  unfolding wait_loop
  wait_loop-reaches zero c h = omega (arith, h)
  wait_loop-reaches (suc fuel) c h =
      let rest =
        wait_loop-reaches fuel (sleep net interval c (c.next_allowed_at - c.now))
          (omega (arith, h)) in
      ground (arith, rest)

  request-IsPaced :
      (c : Client)
      → IsPaced interval c
      → IsPaced interval (sent net interval (wait_turn net interval c))
  unfolding wait_turn
  request-IsPaced c s =
      let kept = wait_loop-kept (c.next_allowed_at - c.now) c in
      let reached = wait_loop-reaches (c.next_allowed_at - c.now) c (omega arith) in
      (omega arith, rw (kept.0) (Spaced-later interval c.next_allowed_at _ c.requests reached s))

  -- A failed attempt makes no request, and never lets the next one come sooner.
  pub after_error-kept :
      (c : Client) (e : HttpError) (attempt : ℕ) (last : Bool)
      → ((after_error net interval c e attempt last).0.requests ≡ c.requests)
        × (c.next_allowed_at ≤ (after_error net interval c e attempt last).0.next_allowed_at)
  unfolding after_error penalise
  after_error-kept c e attempt last = elim (Bool-cases (is_throttled e.status)) [
    | inl throttled ↦ elim (Bool-cases last) [
      | inl h ↦ simp (throttled, h, after_error) (refl, omega arith)
      | inr h ↦ simp (throttled, h, after_error) (refl, omega arith)
    ]
    | inr calm ↦ elim (Bool-cases (last || not (is_transient e.status))) [
      | inl h ↦ simp (calm, h, after_error) (refl, omega arith)
      | inr h ↦ simp (calm, h, after_error) (refl, omega arith)
    ]
  ]

  after_error-IsPaced :
      (c : Client) (e : HttpError) (attempt : ℕ) (last : Bool)
      → IsPaced interval c
      → IsPaced interval (after_error net interval c e attempt last).0
  after_error-IsPaced c e attempt last s =
      let (same, later) = after_error-kept c e attempt last in
      rw same (Spaced-later interval c.next_allowed_at _ c.requests later s)

  pub wait_turn-kept : (c : Client) → (wait_turn net interval c).requests ≡ c.requests
  unfolding wait_turn
  wait_turn-kept c = (wait_loop-kept (c.next_allowed_at - c.now) c).0

  attempts-IsPaced :
      (left attempt : ℕ) (c : Client) (query : Text) (page per_page : ℕ)
      → IsPaced interval c
      → IsPaced interval (attempts net interval left attempt c query page per_page).0
  unfolding attempts
  attempts-IsPaced zero attempt c query page per_page s =
      let ready = wait_turn net interval c in
      let paced = request-IsPaced c s in
      elim (Reply-cases (request net interval ready query page per_page)) [
        | inl (raw, e) ↦ rw (e, attempts) paced
        | inr (inl e) ↦ rw (e, attempts) paced
        | inr (inr (error, e)) ↦
            rw (e, attempts)
              (after_error-IsPaced (sent net interval ready) error attempt true paced)
      ]
  attempts-IsPaced (suc left) attempt c query page per_page s =
      let ready = wait_turn net interval c in
      let paced = request-IsPaced c s in
      elim (Reply-cases (request net interval ready query page per_page)) [
        | inl (raw, e) ↦ rw (e, attempts) paced
        | inr (inl e) ↦ rw (e, attempts) paced
        | inr (inr (error, e)) ↦
            let failed = after_error net interval (sent net interval ready) error attempt false in
            let kept = after_error-IsPaced (sent net interval ready) error attempt false paced in
            elim (Bool-cases failed.1) [
              | inl again ↦
                  rw (e, attempts, again)
                    (attempts-IsPaced left (attempt + 1) failed.0 query page per_page kept)
              | inr over ↦ rw (e, attempts, over) kept
            ]
      ]

  -- Whatever GitHub answers, however early a sleep ends and however often a page is retried, any two requests that a client makes in a row start at
  -- least the pacer's interval apart, and so do those of the next page.
  pub search_page-IsPaced :
      (max_retries : ℕ) (c : Client) (query : Text) (page per_page : ℕ)
      → IsPaced interval c
      → IsPaced interval (search_page net interval max_retries c query page per_page).0
  unfolding search_page
  search_page-IsPaced max_retries c query page per_page s =
      ground (arith, attempts-IsPaced max_retries 0 c query page per_page s)
