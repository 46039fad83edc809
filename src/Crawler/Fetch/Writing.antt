-- ===== src/Crawler/Fetch/Writing.antt =====
-- The artifacts that `fetchRepo` of apps/workers/src/crawler/sources/github/fetch.ts writes.
use keco.Prelude.{ℕ, ◌+◌, Bool, Option, none, some, List, [], ◌∷◌, ◌++◌, ltb, if◌then◌else◌}
use keco.Prelude.Text.{Text, codes}
use keco.Prelude.Maps.{get, text_key}
use keco.DataStore.Values.{Value}
use keco.Cache.Keys.{repo, readme, readme_meta, tree, releases, manifest, repo_key}
use keco.Crawler.Fetch.Artifacts.{
  RepoJson, TreeJson, ReadmeResponse, basename, to_readme_artifacts, select_manifests, tree_paths,
}
use keco.Crawler.Fetch.State.{
  Body, Conditional, Deps, IconFile, Session, absent, branch_of, byte_length, content_core,
  default_to, icon_file, markdown, max_manifest_bytes, modified, not_modified, plain, put_body,
  readme_json, readme_of, releases_json, repo_json, tree_json, tree_of,
}

module _ (deps : Deps) (name : Text) (now : ℕ) where
  unfoldable pub write_readme : Session → Conditional ReadmeResponse → Text → Session × Option Text
  write_readme s absent branch = (s, none)
  write_readme s not_modified branch = (s, readme_of (get s.cache (repo_key name readme)))
  write_readme s (modified response etag) branch =
      elim (to_readme_artifacts deps.decode response name branch etag) [
        | none ↦ (s, none)
        | some (text, meta) ↦ (
          put_body (put_body s (repo_key name readme) (markdown text)) (repo_key name readme_meta)
              (readme_json meta),
          some text,
        )
      ]

  unfoldable pub write_tree : Session → Conditional TreeJson → Session × Option TreeJson
  write_tree s absent = (s, none)
  write_tree s not_modified = (s, tree_of (get s.cache (repo_key name tree)))
  write_tree s (modified body etag) = (put_body s (repo_key name tree) (tree_json body), some body)

  unfoldable pub write_releases : Session → Conditional Value → Session
  write_releases s (modified body etag) = put_body s (repo_key name releases) (releases_json body)
  write_releases s _ = s

  -- The loop over the selected paths; a request is counted for each.
  unfoldable pub write_manifests : Session → Text → List Text → Session × List Text
  write_manifests s branch [] = (s, [])
  write_manifests s branch (path ∷ paths) =
      let asked = record s { requests = s.requests + 1 } in
      let url =
        codes "https://raw.githubusercontent.com/"
        ++ (name ++ (b'/' ∷ (branch ++ (b'/' ∷ path)))) in
      let passed = write_manifests asked branch paths in
      elim (deps.raw url) [
        | none ↦ passed
        | some body ↦
            let kept =
              write_manifests
                (put_body asked (repo_key name (manifest (basename path))) (plain body)) branch
                paths in
            if ltb max_manifest_bytes (byte_length body) then passed else (kept.0, path ∷ kept.1)
      ]

  unfoldable pub write_icon : Session → List (IconFile × Body) → Session
  write_icon s [] = s
  write_icon s ((file, body) ∷ files) =
      write_icon (put_body s (repo_key name (icon_file file)) body) files

  -- The artifacts, up to the icon: the session, the README and the paths that were hashed, the
  -- manifests written, and whether there is an icon.
  unfoldable pub write_artifacts :
      Session
      → RepoJson
      → Conditional ReadmeResponse
      → Conditional TreeJson
      → Conditional Value
      → Session × Text × List Text × Bool
  unfolding write_readme write_tree write_releases write_manifests write_icon content_core put_body
  write_artifacts s json readme_result tree_result releases_result =
      let branch = branch_of json in
      let s1 = put_body s (repo_key name repo) (repo_json json) in
      let (s2, text) = write_readme s1 readme_result branch in
      let (s3, listing) = write_tree s2 tree_result in
      let s4 = write_releases s3 releases_result in
      let paths = tree_paths listing in
      let (s5, manifests) = write_manifests s4 branch (select_manifests paths) in
      let hash = deps.hash (content_core json text paths) in
      let (files, found) = deps.update_icon s5.cache (record {
        repo = name;
        default_branch = branch;
        avatar_url = json.avatar_url;
        tree_paths = paths;
        readme = default_to [] text;
      }) in
      (write_icon s5 files, hash, manifests, found)
