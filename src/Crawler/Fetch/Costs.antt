-- ===== src/Crawler/Fetch/Costs.antt =====
-- What `fetchRepo` of apps/workers/src/crawler/sources/github/fetch.ts costs.
use keco.Crawler.Fetch.Spending.{write_artifacts-costs}
use keco.Prelude.{
  ℕ, ◌+◌, ◌≤◌, ◌≡◌, refl, inl, inr, false, Option, none, some, [], arith, Option-cases,
}
use keco.Prelude.Text.{Text}
use keco.Prelude.Maps.{get, text_key}
use keco.Cache.Keys.{fetch, repo_key}
use keco.Crawler.Skip.{decide_skip}
use keco.Crawler.Queue.{FetchResult, skipped, fetched, thrown}
use keco.Crawler.Fetch.Artifacts.{RepoJson, Etags, FetchMeta, owner_of, name_of, max_manifests}
use keco.Crawler.Fetch.{write_fetched, ask_rest, after_repo, fetch_repo}
use keco.Crawler.Fetch.State.{
  Conditional, modified, not_modified, absent, Cache, Deps, Session, put_body, append, count_call,
  cost, branch_of, usable_etags, default_to, meta_of,
}

-- What a result says that the fetch cost.
abbrev pub requests_of : Option FetchResult → ℕ
requests_of none = 0
requests_of (some (skipped reason requests points)) = requests
requests_of (some (fetched hash changed icon requests points)) = requests
requests_of (some (thrown message)) = 0

abbrev pub points_of : Option FetchResult → ℕ
points_of none = 0
points_of (some (skipped reason requests points)) = points
points_of (some (fetched hash changed icon requests points)) = points
points_of (some (thrown message)) = 0

-- What a fetch costs, by GitHub's answer to its first request.
abbrev pub HasCost : Option (Conditional RepoJson) → Option FetchResult → Type 0
HasCost none o = o ≡ none
HasCost (some absent) o = (requests_of o ≡ 1) × (points_of o ≡ 1)
HasCost (some not_modified) o = (requests_of o ≡ 1) × (points_of o ≡ 0)
HasCost (some (modified json etag)) none = Unit
HasCost (some (modified json etag)) (some r) =
    (1 ≤ points_of (some r))
    × (points_of (some r) ≤ 4)
    × (points_of (some r) ≤ requests_of (some r))
    × (requests_of (some r) ≤ 4 + max_manifests)

module _ (deps : Deps) (name : Text) (now : ℕ) where
  -- The costs of what follows a session.
  abbrev Follows : Session → Option FetchResult → Type 0
  Follows s none = Unit
  Follows s (some r) =
      (s.requests ≤ requests_of (some r))
      × (requests_of (some r) ≤ s.requests + 3 + max_manifests)
      × (s.points ≤ points_of (some r))
      × (points_of (some r) ≤ s.points + 3)
      × (points_of (some r) + s.requests ≤ requests_of (some r) + s.points)

  cost-le {ℓ} : {A : Type ℓ} (c : Conditional A) → cost c ≤ 1
  cost-le (modified a etag) = omega arith
  cost-le not_modified = omega arith
  cost-le absent = omega arith

  ask_rest-Follows :
      (s : Session) (previous : Option FetchMeta) (source : Text) (json : RepoJson)
      (etag : Option Text) (etags : Etags)
      → Follows s (ask_rest deps name now s previous source json etag etags).1
  unfolding ask_rest write_fetched append put_body count_call
  ask_rest-Follows s previous source json etag etags =
      elim (Option-cases (deps.ask_readme (owner_of name) (name_of name) etags.readme)) [
        | inl failed ↦ simp (ask_rest, failed) tt
        | inr (r, read) ↦
            elim (Option-cases
              (deps.ask_tree (owner_of name) (name_of name) (branch_of json) etags.tree)) [
                | inl failed ↦ simp (ask_rest, read, failed) tt
                | inr (t, tree) ↦
                    elim (Option-cases
                      (deps.ask_releases (owner_of name) (name_of name) etags.releases)) [
                        | inl failed ↦ simp (ask_rest, read, tree, failed) tt
                        | inr (v, releases) ↦
                            let asked = count_call (count_call (count_call s r) t) v in
                            let written = write_artifacts-costs deps name now asked json r t v in
                            let a = cost-le r in
                            let b = cost-le t in
                            let c = cost-le v in
                            simp (ask_rest, read, tree, releases)
                              (
                                omega (arith, written, a, b, c),
                                omega (arith, written, a, b, c),
                                omega (arith, written, a, b, c),
                                omega (arith, written, a, b, c),
                                omega (arith, written, a, b, c),
                              )
                      ]
              ]
      ]

  modified-HasCost :
      (s : Session) (json : RepoJson) (etag : Option Text) (o : Option FetchResult)
      → s.requests ≡ 1
      → s.points ≡ 1
      → Follows s o
      → HasCost (some (modified json etag)) o
  modified-HasCost s json etag none one point h = tt
  modified-HasCost s json etag (some r) one point h =
      (omega (arith, h), omega (arith, h), omega (arith, h), omega (arith, h))

  after_repo-HasCost :
      (cache : Cache) (previous : Option FetchMeta) (source : Text) (etags : Etags)
      (answer : Conditional RepoJson)
      → let s : Session = record { cache = cache; effects = []; requests = 0; points = 0 } in
        HasCost
          (some answer)
          (after_repo deps name now (count_call s answer) previous source etags answer).1
  unfolding after_repo count_call
  after_repo-HasCost cache previous source etags absent = (refl, refl)
  after_repo-HasCost cache previous source etags not_modified = (refl, refl)
  after_repo-HasCost cache previous source etags (modified json etag) =
      let s : Session = record { cache = cache; effects = []; requests = 1; points = 1 } in
      elim (Option-cases (
        decide_skip deps.parse_date
          (record {
            fork = default_to false json.fork;
            archived = default_to false json.archived;
            stars = default_to 0 json.stargazers_count;
            pushed_at = json.pushed_at;
          })
          now)) [
            | inl kept ↦
                simp (after_repo, kept)
                  (modified-HasCost s json etag _ refl refl
                    (ask_rest-Follows s previous source json etag etags))
            | inr (reason, dropped) ↦
                simp (after_repo, dropped) (omega arith, omega arith, omega arith, omega arith)
          ]

  -- A repository that GitHub answers 304 for costs one request and no point, one that is gone a request
  -- and a point; any other costs one to four points, no more points than requests, and no more requests
  -- than four and the manifests.
  pub fetch_repo-HasCost :
      (cache : Cache) (source : Text)
      → let etags = usable_etags deps.parse_date (meta_of (get cache (repo_key name fetch))) now in
        HasCost
          (deps.ask_repo (owner_of name) (name_of name) etags.repo)
          (fetch_repo deps name now cache source).1
  unfolding fetch_repo
  fetch_repo-HasCost cache source =
      let previous = meta_of (get cache (repo_key name fetch)) in
      let etags = usable_etags deps.parse_date previous now in
      elim (Option-cases (deps.ask_repo (owner_of name) (name_of name) etags.repo)) [
        | inl failed ↦ simp (fetch_repo, failed) refl
        | inr (answer, there) ↦
            simp (fetch_repo, there) (after_repo-HasCost cache previous source etags answer)
      ]
