-- ===== src/Crawler/Fetch.antt =====
-- `fetchRepo` of apps/workers/src/crawler/sources/github/fetch.ts. GitHub's answers, base64, the reading of
-- dates, SHA-256 and `updateIcon` of icon.ts are parameters.
pub mod Artifacts
pub mod State
pub mod Writing
pub mod Ordering
pub mod Cutting
pub mod Spending
pub mod Costs
pub mod Readme
mod Examples
use keco.Prelude.{
  ℕ, ◌+◌, ◌-◌, ◌*◌, ◌/◌, Bool, true, false, not, ◌||◌, Option, none, some, List, [], ◌∷◌, ◌++◌, ltb,
  if◌then◌else◌, length,
}
use keco.Prelude.Text.{Text, codes, text_eq}
use keco.Prelude.Maps.{Map, get, put, text_key}
use keco.DataStore.Values.{Value}
use keco.Core.Events.{NewEvent, repo_fetched, repo_skipped}
use keco.Cache.Keys.{
  RepoFile, repo, readme, readme_meta, tree, releases, fetch, manifest, icon, icon_source,
  icon_meta, repo_key,
}
use keco.Discovery.Collections.{sort_topics}
use keco.Discovery.Clock.{to_iso_string}
use keco.Crawler.Skip.{SkipReason, is_fork, archived_stale, decide_skip}
use keco.Crawler.Queue.{FetchResult, skipped, fetched}
use keco.Crawler.Fetch.Artifacts.{
  RepoJson, TreeJson, ReadmeResponse, ReadmeMeta, Etags, FetchMeta, owner_of, name_of, basename,
  to_readme_artifacts, select_manifests, tree_paths,
}
use keco.Crawler.Fetch.State.{
  Body, Cache, Conditional, ContentCore, Deps, Effect, IconFile, IconInputs, Session, absent,
  append, append_event, branch_of, byte_length, content_core, cost, count_call, default_to,
  description, etag_after, expired, fetch_json, icon_bytes, icon_file, icon_json, markdown,
  max_manifest_bytes, meta_of, modified, no_etags, not_modified, plain, put_body, put_file,
  readme_json, readme_of, reason_text, refresh_after_days, releases_json, repo_json, sized,
  source_bytes, tree_json, tree_of, usable_etags, utf8_width,
}
use keco.Crawler.Fetch.Writing.{
  write_readme, write_tree, write_releases, write_manifests, write_icon, write_artifacts,
}

module _ (deps : Deps) (name : Text) (now : ℕ) where
  abbrev result_of : Session → Text → Bool → Bool → FetchResult
  result_of s hash changed icon_updated = fetched hash changed icon_updated s.requests s.points

  unfoldable pub is_changed : Option FetchMeta → Text → Bool
  is_changed none hash = true
  is_changed (some m) hash = not (text_eq m.content_hash hash)

  unfoldable pub next_meta :
      Option FetchMeta
      → Text
      → Option Text
      → Etags
      → Conditional ReadmeResponse
      → Conditional TreeJson
      → Conditional Value
      → Text
      → List Text
      → FetchMeta
  next_meta previous source etag etags readme_result tree_result releases_result hash manifests =
      record {
        etags = record {
          repo = etag;
          readme = etag_after readme_result etags.readme;
          tree = etag_after tree_result etags.tree;
          releases = etag_after releases_result etags.releases;
        };
        fetched_at = to_iso_string now;
        content_hash = hash;
        source = elim previous [ none ↦ source | some m ↦ m.source ];
        manifests = manifests;
      }

  -- From the artifacts on.
  unfoldable pub write_fetched :
      Session
      → Option FetchMeta
      → Text
      → RepoJson
      → Option Text
      → Etags
      → Conditional ReadmeResponse
      → Conditional TreeJson
      → Conditional Value
      → Session × Option FetchResult
  unfolding write_artifacts is_changed append put_body next_meta
  write_fetched s previous source json etag etags readme_result tree_result releases_result =
      let (written, hash, manifests, found) =
        write_artifacts deps name now s json readme_result tree_result releases_result in
      let changed = is_changed previous hash in
      let told = append written (repo_fetched name hash changed) in
      let meta =
        next_meta previous source etag etags readme_result tree_result releases_result hash
          manifests in
      let kept = put_body told (repo_key name fetch) (fetch_json meta) in
      (kept, some (result_of kept hash changed found))

  -- The three requests that follow a repository that changed and is not skipped.
  unfoldable pub ask_rest :
      Session
      → Option FetchMeta
      → Text
      → RepoJson
      → Option Text
      → Etags
      → Session × Option FetchResult
  unfolding write_fetched
  ask_rest s previous source json etag etags =
      let branch = branch_of json in
      elim (deps.ask_readme (owner_of name) (name_of name) etags.readme) [
        | none ↦ (s, none)
        | some readme_result ↦
            elim (deps.ask_tree (owner_of name) (name_of name) branch etags.tree) [
              | none ↦ (s, none)
              | some tree_result ↦
                  elim (deps.ask_releases (owner_of name) (name_of name) etags.releases) [
                    | none ↦ (s, none)
                    | some releases_result ↦
                        write_fetched
                          (count_call (count_call (count_call s readme_result) tree_result)
                            releases_result)
                          previous source json etag etags readme_result tree_result releases_result
                  ]
            ]
      ]

  abbrev skip : Session → Text → Session × Option FetchResult
  skip s reason = (append s (repo_skipped name reason), some (skipped reason s.requests s.points))

  -- What follows the repository's own document.
  unfoldable pub after_repo :
      Session
      → Option FetchMeta
      → Text
      → Etags
      → Conditional RepoJson
      → Session × Option FetchResult
  unfolding ask_rest append
  after_repo s previous source etags absent = skip s (codes "not-found")
  after_repo s previous source etags not_modified =
      let hash : Text = elim previous [ none ↦ [] | some m ↦ m.content_hash ] in
      (append s (repo_fetched name hash false), some (result_of s hash false false))
  after_repo s previous source etags (modified json etag) =
      let rest = ask_rest s previous source json etag etags in
      elim (decide_skip deps.parse_date
        (record {
          fork = default_to false json.fork;
          archived = default_to false json.archived;
          stars = default_to 0 json.stargazers_count;
          pushed_at = json.pushed_at;
        })
        now) [ none ↦ rest | some reason ↦ skip s (reason_text reason) ]

  unfoldable pub fetch_repo : Cache → Text → Session × Option FetchResult
  unfolding after_repo usable_etags count_call
  fetch_repo cache source =
      let previous = meta_of (get cache (repo_key name fetch)) in
      let etags = usable_etags deps.parse_date previous now in
      let s : Session = record { cache = cache; effects = []; requests = 0; points = 0 } in
      elim (deps.ask_repo (owner_of name) (name_of name) etags.repo) [
        | none ↦ (s, none)
        | some answer ↦ after_repo (count_call s answer) previous source etags answer
      ]
