-- ===== src/Github/Client/Retries.antt =====
-- How often `SearchClient.page` of packages/github/src/search.ts asks, how long it waits when GitHub
-- throttles it, and what `parsePage` keeps.
use keco.Prelude.{
  ℕ, zero, suc, ◌+◌, ◌*◌, ◌≤◌, ◌<◌, ◌≡◌, ◌⊎◌, inl, inr, refl, true, false, Option, none, some, List,
  [], ◌∷◌, arith, leb, ltb, Bool-cases, length, ◌&&◌, indicator, ◌==◌,
}
use keco.Prelude.Text.{Text}
use keco.Github.Item.{SearchItem}
use keco.Github.Client.{
  Net, Client, HttpError, RawPage, Outcome, returned, thrown, schema_changed, throttle_wait_ms,
  parsed, failed_to_parse, parse_page, wait_turn, penalise, sent, after_error, attempts, request,
  search_page,
}
use keco.Github.Client.Pacing.{Reply-cases, after_error-kept, wait_turn-kept}

-- A wait for a throttled request is of a millisecond to five minutes, and the next request is
-- allowed no sooner than after it: whatever `retry-after` and `x-ratelimit-reset` say.
pub penalise-throttle :
    (net : Net) (interval : ℕ) (c : Client) (e : HttpError)
    → (0 < throttle_wait_ms e c.now)
      × (throttle_wait_ms e c.now ≤ 300000)
      × (c.now + throttle_wait_ms e c.now
          ≤ (penalise net interval c (throttle_wait_ms e c.now)).next_allowed_at)
unfolding throttle_wait_ms penalise
penalise-throttle net interval c e = ground arith

split_items :
    (items : List (Option SearchItem))
    → length (parsed items) + failed_to_parse items ≡ length items
unfolding parsed failed_to_parse
split_items [] = omega arith
split_items (none ∷ items) = omega (arith, split_items items)
split_items (some item ∷ items) = omega (arith, split_items items)

-- A parsed page accounts for every item, as one that it holds or as one that it counts as dropped.
abbrev pub Accounts : RawPage → Outcome → Type 0
Accounts raw (returned page) =
    (length page.items + page.dropped ≡ length raw.items)
    × ((raw.items ≡ []) ⊎ (0 < length page.items))
Accounts raw (thrown error) =
    (error ≡ schema_changed) × (0 < length raw.items) × (parsed raw.items ≡ [])

-- Every page that parses accounts for all its items, held or dropped, and holds one at least unless
-- GitHub sent none; a page that sent some and of which none parses is an error, not an empty page.
pub parse_page-Accounts : (raw : RawPage) → Accounts raw (parse_page raw)
unfolding parse_page
parse_page-Accounts raw = accounted (split_items raw.items)
  where
    empty : (items : List SearchItem) → length items ≡ 0 → items ≡ []
    empty [] h = refl
    empty (item ∷ items) h = absurd (omega (arith, h))

    held :
        (raws : List (Option SearchItem)) (items : List SearchItem)
        → (length raws ≡ 0) ⊎ (0 < length items)
        → (raws ≡ []) ⊎ (0 < length items)
    held [] items h = inl refl
    held (x ∷ xs) items h = inr (omega (arith, h))

    accounted :
        length (parsed raw.items) + failed_to_parse raw.items ≡ length raw.items
        → Accounts raw (parse_page raw)
    accounted e =
        elim (Bool-cases
          (ltb 0 (failed_to_parse raw.items) && failed_to_parse raw.items == length raw.items)) [
            | inl all ↦
                rw (all, parse_page) (refl, ground arith, empty (parsed raw.items) (ground arith))
            | inr some_held ↦
                rw (some_held, parse_page) (e, held raw.items (parsed raw.items) (ground arith))
          ]

module _ (net : Net) (interval : ℕ) where
  request-length :
      (c : Client)
      → length (sent net interval (wait_turn net interval c)).requests ≡ length c.requests + 1
  request-length c = rw (wait_turn-kept net interval c) (omega arith)

  attempts-bounds :
      (left attempt : ℕ) (c : Client) (query : Text) (page per_page : ℕ)
      → (length c.requests
          < length (attempts net interval left attempt c query page per_page).0.requests)
        × (length (attempts net interval left attempt c query page per_page).0.requests
            ≤ length c.requests + 1 + left)
  unfolding attempts
  attempts-bounds zero attempt c query page per_page =
      let ready = wait_turn net interval c in
      elim (Reply-cases (request net interval ready query page per_page)) [
        | inl (raw, e) ↦ rw (e, attempts) (omega (arith, request-length c))
        | inr (inl e) ↦ rw (e, attempts) (omega (arith, request-length c))
        | inr (inr (error, e)) ↦
            rw
              (
                e,
                attempts,
                (after_error-kept net interval (sent net interval ready) error attempt true).0,
              )
              (omega (arith, request-length c))
      ]
  attempts-bounds (suc left) attempt c query page per_page =
      let ready = wait_turn net interval c in
      elim (Reply-cases (request net interval ready query page per_page)) [
        | inl (raw, e) ↦ rw (e, attempts) (omega (arith, request-length c))
        | inr (inl e) ↦ rw (e, attempts) (omega (arith, request-length c))
        | inr (inr (error, e)) ↦
            let failed = after_error net interval (sent net interval ready) error attempt false in
            let kept =
              after_error-kept net interval (sent net interval ready) error attempt false in
            let counted : length failed.0.requests ≡ length c.requests + 1 =
              rw kept.0 (request-length c) in
            elim (Bool-cases failed.1) [
              | inl again ↦
                  let rest = attempts-bounds left (attempt + 1) failed.0 query page per_page in
                  rw (e, attempts, again)
                    (omega (arith, counted, rest.0), omega (arith, counted, rest.1))
              | inr over ↦ rw (e, attempts, over) (omega (arith, counted), omega (arith, counted))
            ]
      ]

  -- A page inside the caps costs a request at least, and at most one more than the retries; a page outside them costs none.
  pub search_page-requests :
      (max_retries : ℕ) (c : Client) (query : Text) (page per_page : ℕ)
      → let spent =
          length (search_page net interval max_retries c query page per_page).0.requests in
        let within = indicator (leb per_page 100 && leb (page * per_page) 1000) in
        (length c.requests + within ≤ spent)
        × (spent ≤ length c.requests + within * (1 + max_retries))
  unfolding search_page
  search_page-requests max_retries c query page per_page =
      let (one, most) = attempts-bounds max_retries 0 c query page per_page in
      elim (Bool-cases (ltb 100 per_page)) [
        | inl wide ↦
            let cap : leb per_page 100 ≡ false = ground arith in
            rw (wide, cap, search_page) (omega arith)
        | inr fits ↦
            let cap : leb per_page 100 ≡ true = ground arith in
            elim (Bool-cases (ltb 1000 (page * per_page))) [
              | inl far ↦
                  let past : leb (page * per_page) 1000 ≡ false = ground arith in
                  rw (fits, far, cap, past, search_page) (omega arith)
              | inr near ↦
                  let inside : leb (page * per_page) 1000 ≡ true = ground arith in
                  rw (fits, near, cap, inside, search_page)
                    (omega (arith, one), omega (arith, most))
            ]
      ]
