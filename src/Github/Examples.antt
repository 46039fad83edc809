-- ===== src/Github/Examples.antt =====
-- The search client against concrete answers.
use keco.Prelude.{arith, false, none, some, [], ◌∷◌}
use keco.Prelude.Text.{codes}
use keco.Github.Client.{Net, Client, HttpError, RawPage, threw, search_page}
use keco.Github.Client.Pacing.{IsPaced, search_page-IsPaced}

abbrev throttled : HttpError
throttled = record { status = some 429; retry_after = 3600; ratelimit_reset = 0 }

-- A server that throttles every request.
abbrev busy : Net
busy = record {
  request = λ n q page per_page. threw throttled;
  took = λ n. 150;
  slept = λ now ms. ms;
  jitter = λ attempt. 17;
}

abbrev idle : Client
idle = record { now = 10000; next_allowed_at = 11000; requests = 9000 ∷ [] }

search_page-IsPaced_example : IsPaced 2000 (search_page busy 2000 5 idle (codes "stars:1") 1 100).0
search_page-IsPaced_example =
    search_page-IsPaced busy 2000 5 idle (codes "stars:1") 1 100 (omega arith, tt)

abbrev broken_page : RawPage
broken_page = record { total_count = 2; incomplete_results = false; items = none ∷ none ∷ [] }
