-- ===== src/Crawler/Fetch/Examples.antt =====
-- A fetch of one repository whose README is gone.
use keco.Prelude.{◌≡◌, ◌⊎◌, ◌++◌, refl, true, false, Bool, Option, none, some, List, [], ◌∷◌, take}
use keco.Prelude.Text.{Text, codes, text_eq}
use keco.Prelude.Maps.{get, put, text_key}
use keco.DataStore.Values.{arr, nil}
use keco.Cache.Keys.{fetch, readme, repo_key}
use keco.Crawler.Skip.{decide_skip}
use keco.Crawler.Queue.{fetched}
use keco.Crawler.Fetch.Artifacts.{
  RepoJson, TreeJson, FetchMeta, owner_of, name_of, blob_paths, select_manifests, nested_chart,
  present_files, tree_paths,
}
use keco.Crawler.Fetch.{fetch_repo, after_repo, ask_rest, write_fetched, is_changed, next_meta}
use keco.Crawler.Fetch.State.{
  modified, absent, Cache, Deps, Effect, Session, markdown, ContentCore, content_core, default_to,
  usable_etags, meta_of, count_call, append, put_body, byte_length,
}
use keco.Crawler.Fetch.Writing.{
  write_artifacts, write_readme, write_tree, write_releases, write_manifests, write_icon,
}
use keco.Crawler.Fetch.Ordering.{replay}
use keco.Crawler.Fetch.Cutting.{ending, fetch_repo-cut}
use keco.Crawler.Fetch.Costs.{HasCost, fetch_repo-HasCost}
use keco.Crawler.Fetch.Readme.{cached, read_or_old, IsReadme, write_artifacts-readme}

abbrev tool : Text
tool = codes "a/b"

abbrev tool_json : RepoJson
tool_json = record {
  avatar_url = none;
  description = some (codes "d");
  homepage = none;
  topics = none;
  archived = none;
  fork = none;
  stargazers_count = some 5;
  pushed_at = none;
  default_branch = none;
  license = none;
}

abbrev one_file : TreeJson
one_file = record {
  entries = some (record { path = some (codes "go.mod"); kind = some (codes "blob") } ∷ []);
}

abbrev world : Deps
world = record {
  ask_repo = λ owner name etag. some (modified tool_json (some (codes "e")));
  ask_readme = λ owner name etag. some absent;
  ask_tree = λ owner name branch etag. some (modified one_file none);
  ask_releases = λ owner name etag. some (modified (arr nil) none);
  raw = λ url. some (codes "module b");
  decode = λ t. t;
  parse_date = λ t. none;
  hash = λ core. core.readme;
  update_icon = λ cache inputs. ([], false);
}

abbrev old : Cache
old = (repo_key tool readme, markdown (codes "old")) ∷ []

-- Four requests and one for the manifest; four points.
fetched_tool : (fetch_repo world tool 9 old (codes "cli")).1 ≡ some (fetched [] true false 5 4)
unfolding fetch_repo usable_etags repo_key owner_of name_of after_repo count_call ask_rest
    write_fetched write_artifacts write_readme write_tree write_releases write_manifests write_icon
    put_body append is_changed next_meta content_core blob_paths select_manifests nested_chart
    present_files tree_paths get put text_eq decide_skip byte_length
fetched_tool = refl

fetch_repo-cut_example :
    ((fetch_repo world tool 9 old (codes "cli")).0.cache
      ≡ replay old (fetch_repo world tool 9 old (codes "cli")).0.effects)
    × ((get
            (replay old (take 2 (fetch_repo world tool 9 old (codes "cli")).0.effects))
            (repo_key tool fetch)
          ≡ get old (repo_key tool fetch))
        ⊎ ((meta : FetchMeta) × (changed : Bool) × (before : List Effect) × (take 2
                (fetch_repo world tool 9 old (codes "cli")).0.effects
              ≡ before ++ ending tool meta changed)))
fetch_repo-cut_example = fetch_repo-cut tool world 9 old (codes "cli") 2

fetch_repo-HasCost_example :
    HasCost
      (world.ask_repo
        (owner_of tool)
        (name_of tool)
        (usable_etags world.parse_date (meta_of (get old (repo_key tool fetch))) 9).repo)
      (fetch_repo world tool 9 old (codes "cli")).1
fetch_repo-HasCost_example = fetch_repo-HasCost world tool 9 old (codes "cli")

abbrev before_writing : Session
before_writing = record { cache = old; effects = []; requests = 4; points = 4 }

write_artifacts-readme_example :
    let written =
      write_artifacts world tool 9 before_writing tool_json absent
        (modified one_file none)
        absent in
    (read : Option Text) × (core : ContentCore) × (written.1 ≡ world.hash core)
    × (core.readme ≡ default_to [] read)
    × IsReadme world tool 9 absent (cached world tool 9 before_writing) read
    × (cached world tool 9 written.0
        ≡ read_or_old world tool 9 read (cached world tool 9 before_writing))
write_artifacts-readme_example =
    write_artifacts-readme world tool 9 before_writing tool_json absent (modified one_file none)
      absent
