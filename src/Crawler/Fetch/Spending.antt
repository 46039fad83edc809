-- ===== src/Crawler/Fetch/Spending.antt =====
-- What the artifacts of `fetchRepo`, apps/workers/src/crawler/sources/github/fetch.ts, cost to write.
use keco.Prelude.{
  ℕ, ◌+◌, ◌≤◌, ◌≡◌, refl, inl, inr, List, [], ◌∷◌, ◌++◌, arith, length, length-take-le,
  Option-cases, Bool-cases, ltb,
}
use keco.Prelude.Text.{Text, codes}
use keco.Prelude.Maps.{text_key}
use keco.DataStore.Values.{Value}
use keco.Cache.Keys.{repo, manifest, repo_key}
use keco.Crawler.Fetch.Artifacts.{
  RepoJson, TreeJson, ReadmeResponse, basename, select_manifests, tree_paths, to_readme_artifacts,
  max_manifests,
}
use keco.Crawler.Fetch.State.{
  Conditional, modified, not_modified, absent, Body, IconFile, icon_file, Deps, Session, put_body,
  branch_of, default_to, byte_length, max_manifest_bytes, plain, repo_json,
}
use keco.Crawler.Fetch.Writing.{
  write_readme, write_tree, write_releases, write_manifests, write_icon, write_artifacts,
}

module _ (deps : Deps) (name : Text) (now : ℕ) where
  write_readme-costs :
      (s : Session) (r : Conditional ReadmeResponse) (branch : Text)
      → let t = (write_readme deps name now s r branch).0 in
        (t.requests ≡ s.requests) × (t.points ≡ s.points)
  unfolding write_readme put_body
  write_readme-costs s absent branch = (refl, refl)
  write_readme-costs s not_modified branch = (refl, refl)
  write_readme-costs s (modified response etag) branch =
      elim (Option-cases (to_readme_artifacts deps.decode response name branch etag)) [
        | inl nothing ↦ simp (write_readme, nothing) (refl, refl)
        | inr (written, there) ↦ simp (write_readme, there) (refl, refl)
      ]

  write_tree-costs :
      (s : Session) (r : Conditional TreeJson)
      → let t = (write_tree deps name now s r).0 in
        (t.requests ≡ s.requests) × (t.points ≡ s.points)
  unfolding write_tree put_body
  write_tree-costs s absent = (refl, refl)
  write_tree-costs s not_modified = (refl, refl)
  write_tree-costs s (modified response etag) = (refl, refl)

  write_releases-costs :
      (s : Session) (r : Conditional Value)
      → let t = write_releases deps name now s r in
        (t.requests ≡ s.requests) × (t.points ≡ s.points)
  unfolding write_releases put_body
  write_releases-costs s absent = (refl, refl)
  write_releases-costs s not_modified = (refl, refl)
  write_releases-costs s (modified response etag) = (refl, refl)

  write_manifests-costs :
      (s : Session) (branch : Text) (paths : List Text)
      → let t = (write_manifests deps name now s branch paths).0 in
        (t.requests ≡ s.requests + length paths) × (t.points ≡ s.points)
  unfolding write_manifests put_body
  write_manifests-costs s branch [] = (omega arith, refl)
  write_manifests-costs s branch (path ∷ paths) =
      let asked = record s { requests = s.requests + 1 } in
      let passed = write_manifests-costs asked branch paths in
      let url =
        codes "https://raw.githubusercontent.com/"
        ++ (name ++ (b'/' ∷ (branch ++ (b'/' ∷ path)))) in
      elim (Option-cases (deps.raw url)) [
        | inl missing ↦ simp (write_manifests, missing) (omega (arith, passed), passed.1)
        | inr (body, there) ↦ elim (Bool-cases (ltb max_manifest_bytes (byte_length body))) [
          | inl large ↦ simp (write_manifests, there, large) (omega (arith, passed), passed.1)
          | inr small ↦
              let kept =
                write_manifests-costs
                  (put_body asked (repo_key name (manifest (basename path))) (plain body)) branch
                  paths in
              simp (write_manifests, there, small) (omega (arith, kept), kept.1)
        ]
      ]

  write_icon-costs :
      (s : Session) (files : List (IconFile × Body))
      → let t = write_icon deps name now s files in
        (t.requests ≡ s.requests) × (t.points ≡ s.points)
  unfolding write_icon put_body
  write_icon-costs s [] = (refl, refl)
  write_icon-costs s ((file, body) ∷ files) =
      write_icon-costs (put_body s (repo_key name (icon_file file)) body) files

  length-select_manifests : (paths : List Text) → length (select_manifests paths) ≤ max_manifests
  unfolding select_manifests
  length-select_manifests paths = length-take-le max_manifests _

  -- The artifacts cost a request for each manifest that is selected, and no point.
  pub write_artifacts-costs :
      (s : Session) (json : RepoJson) (r : Conditional ReadmeResponse) (t : Conditional TreeJson)
      (v : Conditional Value)
      → let written = (write_artifacts deps name now s json r t v).0 in
        (s.requests ≤ written.requests)
        × (written.requests ≤ s.requests + max_manifests)
        × (written.points ≡ s.points)
  unfolding write_artifacts put_body
  write_artifacts-costs s json r t v =
      let s1 = put_body s (repo_key name repo) (repo_json json) in
      let (s2, text) = write_readme deps name now s1 r (branch_of json) in
      let (s3, listing) = write_tree deps name now s2 t in
      let s4 = write_releases deps name now s3 v in
      let selected = select_manifests (tree_paths listing) in
      let (s5, manifests) = write_manifests deps name now s4 (branch_of json) selected in
      let (files, found) = deps.update_icon s5.cache (record {
        repo = name;
        default_branch = branch_of json;
        avatar_url = json.avatar_url;
        tree_paths = tree_paths listing;
        readme = default_to [] text;
      }) in
      let c2 = write_readme-costs s1 r (branch_of json) in
      let c3 = write_tree-costs s2 t in
      let c4 = write_releases-costs s3 v in
      let c5 = write_manifests-costs s4 (branch_of json) selected in
      let c6 = write_icon-costs s5 files in
      let few = length-select_manifests (tree_paths listing) in
      (
        omega (arith, c2, c3, c4, c5, c6),
        omega (arith, c2, c3, c4, c5, c6, few),
        omega (arith, c2, c3, c4, c5, c6),
      )
