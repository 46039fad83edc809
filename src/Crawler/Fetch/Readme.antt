-- ===== src/Crawler/Fetch/Readme.antt =====
-- The README in the cache after `fetchRepo` of apps/workers/src/crawler/sources/github/fetch.ts, and the one
-- that its content hash covers.
use keco.Prelude.{
  ℕ, ◌+◌, ◌≡◌, refl, ◌∙◌, inl, inr, false, Option, none, some, List, [], ◌∷◌, ◌++◌, Option-cases,
  Bool-cases, ltb, ap,
}
use mathlib.Core.Path.{subst}
use mathlib.Core.Option.{some-injective}
use keco.Prelude.Text.{Text, codes, text_eq, text_eq_iff}
use keco.Prelude.Maps.{get, get-put, text_key}
use keco.DataStore.Values.{Value}
use keco.Cache.Keys.{
  RepoFile, repo, readme, readme_meta, tree, releases, manifest, repo_key, file_name,
  repo_key-file_name,
}
use keco.Crawler.Fetch.Artifacts.{
  RepoJson, TreeJson, ReadmeResponse, basename, select_manifests, tree_paths, to_readme_artifacts,
  ReadmeMeta,
}
use keco.Crawler.Fetch.State.{
  Conditional, modified, not_modified, absent, Body, markdown, plain, repo_json, IconFile,
  source_bytes, description, sized, icon_file, Deps, Session, put_body, branch_of, default_to,
  content_core, ContentCore, byte_length, max_manifest_bytes, readme_of,
}
use keco.Crawler.Fetch.Writing.{
  write_readme, write_tree, write_releases, write_manifests, write_icon, write_artifacts,
}

module _ (deps : Deps) (name : Text) (now : ℕ) where
  abbrev pub cached : Session → Option Body
  cached s = get s.cache (repo_key name readme)

  put_body-keeps :
      (s : Session) (file : RepoFile) (body : Body)
      → text_eq (file_name file) (file_name readme) ≡ false
      → cached (put_body s (repo_key name file) body) ≡ cached s
  unfolding put_body
  put_body-keeps s file body other =
      get-put s.cache (repo_key name file) (repo_key name readme) body
      ∙ elim (Bool-cases (text_eq (repo_key name file) (repo_key name readme))) [
        | inl same ↦
            let e = repo_key-file_name name file readme ((text_eq_iff _ _).0 same) in
            cc (other, (text_eq_iff (file_name file) (file_name readme)).1 e)
        | inr differ ↦ rw differ refl
      ]

  write_tree-keeps :
      (s : Session) (r : Conditional TreeJson) → cached (write_tree deps name now s r).0 ≡ cached s
  unfolding write_tree text_eq
  write_tree-keeps s absent = refl
  write_tree-keeps s not_modified = refl
  write_tree-keeps s (modified body etag) = put_body-keeps s tree _ refl

  write_releases-keeps :
      (s : Session) (r : Conditional Value) → cached (write_releases deps name now s r) ≡ cached s
  unfolding write_releases text_eq
  write_releases-keeps s absent = refl
  write_releases-keeps s not_modified = refl
  write_releases-keeps s (modified body etag) = put_body-keeps s releases _ refl

  write_manifests-keeps :
      (s : Session) (branch : Text) (paths : List Text)
      → cached (write_manifests deps name now s branch paths).0 ≡ cached s
  unfolding write_manifests text_eq
  write_manifests-keeps s branch [] = refl
  write_manifests-keeps s branch (path ∷ paths) =
      let asked = record s { requests = s.requests + 1 } in
      let passed = write_manifests-keeps asked branch paths in
      let url =
        codes "https://raw.githubusercontent.com/"
        ++ (name ++ (b'/' ∷ (branch ++ (b'/' ∷ path)))) in
      elim (Option-cases (deps.raw url)) [
        | inl missing ↦ simp (write_manifests, missing) passed
        | inr (body, there) ↦ elim (Bool-cases (ltb max_manifest_bytes (byte_length body))) [
          | inl large ↦ simp (write_manifests, there, large) passed
          | inr small ↦
              let file = manifest (basename path) in
              simp (write_manifests, there, small)
                (write_manifests-keeps (put_body asked (repo_key name file) (plain body)) branch
                    paths
                  ∙ put_body-keeps asked file (plain body) refl)
        ]
      ]

  icon_not_readme :
      (file : IconFile) → text_eq (file_name (icon_file file)) (file_name readme) ≡ false
  unfolding text_eq
  icon_not_readme source_bytes = refl
  icon_not_readme description = refl
  icon_not_readme (sized n) = refl

  write_icon-keeps :
      (s : Session) (files : List (IconFile × Body))
      → cached (write_icon deps name now s files) ≡ cached s
  unfolding write_icon
  write_icon-keeps s [] = refl
  write_icon-keeps s ((file, body) ∷ files) =
      write_icon-keeps (put_body s (repo_key name (icon_file file)) body) files
      ∙ put_body-keeps s (icon_file file) body (icon_not_readme file)

  -- The README that is cached, where one was read, and else the one of before.
  abbrev pub read_or_old : Option Text → Option Body → Option Body
  read_or_old none old = old
  read_or_old (some text) old = some (markdown text)

  readme_of-same : (old : Option Body) → old ≡ read_or_old (readme_of old) old
  readme_of-same none = refl
  readme_of-same (some (markdown t)) = refl
  readme_of-same (some _) = refl

  put-cached :
      (s : Session) (body : Body) → cached (put_body s (repo_key name readme) body) ≡ some body
  unfolding put_body
  put-cached s body =
      get-put s.cache (repo_key name readme) (repo_key name readme) body
      ∙ rw ((text_eq_iff (repo_key name readme) (repo_key name readme)).1 refl) refl

  write_readme-cached :
      (s : Session) (r : Conditional ReadmeResponse) (branch : Text)
      → let written = write_readme deps name now s r branch in
        cached written.0 ≡ read_or_old written.1 (cached s)
  unfolding write_readme text_eq
  write_readme-cached s absent branch = refl
  write_readme-cached s not_modified branch = readme_of-same (cached s)
  write_readme-cached s (modified response etag) branch =
      elim (Option-cases (to_readme_artifacts deps.decode response name branch etag)) [
        | inl nothing ↦ simp (write_readme, nothing) refl
        | inr (written, there) ↦
            simp (write_readme, there)
              (put_body-keeps _ readme_meta _ refl ∙ put-cached s (markdown written.0))
      ]

  -- The README that a response holds: its content decoded, where it has a path and is in base64.
  abbrev pub HoldsReadme : ReadmeResponse → Text → Type 0
  HoldsReadme response read =
      (first : ℕ) × (path : Text) × (content : Text) × (response.path ≡ some (first ∷ path))
      × (response.content ≡ some content)
      × (response.encoding ≡ some (codes "base64"))
      × (read ≡ deps.decode content)

  abbrev pub IsCachedText : Option Body → Option Text → Type 0
  IsCachedText (some (markdown t)) read = read ≡ some t
  IsCachedText _ read = read ≡ none

  -- What GitHub's answer says of the README: it is gone, the cached one stands, or there is a new one,
  -- which may be unreadable.
  abbrev pub IsReadme : Conditional ReadmeResponse → Option Body → Option Text → Type 0
  IsReadme absent old read = read ≡ none
  IsReadme not_modified old read = IsCachedText old read
  IsReadme (modified response etag) old (some text) = HoldsReadme response text
  IsReadme (modified response etag) old none = (text : Text) → ¬ HoldsReadme response text

  readme_of-IsCachedText : (old : Option Body) → IsCachedText old (readme_of old)
  readme_of-IsCachedText none = refl
  readme_of-IsCachedText (some (markdown t)) = refl
  readme_of-IsCachedText (some _) = refl

  IsArtifact : ReadmeResponse → Option (Text × ReadmeMeta) → Type 0
  IsArtifact response none = (text : Text) → ¬ HoldsReadme response text
  IsArtifact response (some (text, meta)) = HoldsReadme response text

  artifacts-IsArtifact :
      (path content encoding : Option Text) (branch : Text) (etag : Option Text)
      → let response : ReadmeResponse = record {
        path = path;
        content = content;
        encoding = encoding;
      } in
        IsArtifact response (to_readme_artifacts deps.decode response name branch etag)
  unfolding IsArtifact to_readme_artifacts text_eq
  artifacts-IsArtifact none content encoding branch etag = λ text h. cc
  artifacts-IsArtifact (some path) none encoding branch etag = λ text h. cc
  artifacts-IsArtifact (some path) (some content) none branch etag = λ text h. cc
  artifacts-IsArtifact (some []) (some content) (some encoding) branch etag = λ text h. cc
  artifacts-IsArtifact (some (c ∷ cs)) (some content) (some encoding) branch etag =
      elim (Bool-cases (text_eq encoding (codes "base64"))) [
        | inl same ↦ rw same (
          c,
          cs,
          content,
          refl,
          refl,
          ap some ((text_eq_iff encoding (codes "base64")).0 same),
          refl,
        )
        | inr other ↦ rw other (λ text h.
            cc (other, (text_eq_iff encoding (codes "base64")).1 (some-injective _ _ h.5)))
      ]

  write_readme-IsReadme :
      (s : Session) (r : Conditional ReadmeResponse) (branch : Text)
      → IsReadme r (cached s) (write_readme deps name now s r branch).1
  unfolding write_readme IsArtifact
  write_readme-IsReadme s absent branch = refl
  write_readme-IsReadme s not_modified branch = readme_of-IsCachedText (cached s)
  write_readme-IsReadme s (modified response etag) branch =
      let artifact =
        artifacts-IsArtifact response.path response.content response.encoding branch etag in
      elim (Option-cases (to_readme_artifacts deps.decode response name branch etag)) [
        | inl nothing ↦ simp (write_readme, nothing) (subst (IsArtifact response) nothing artifact)
        | inr (written, there) ↦
            simp (write_readme, there) (subst (IsArtifact response) there artifact)
      ]

  -- After the artifacts, the content hash covers the README that GitHub's answer holds: the new one, where
  -- the response has a path and is in base64; the cached one for a 304; and none where the README is gone
  -- or the response cannot be read. The cached README is the one that is covered, but where none is, the
  -- README of an earlier fetch stays in the cache.
  pub write_artifacts-readme :
      (s : Session) (json : RepoJson) (r : Conditional ReadmeResponse) (t : Conditional TreeJson)
      (v : Conditional Value)
      → let written = write_artifacts deps name now s json r t v in
        (read : Option Text) × (core : ContentCore) × (written.1 ≡ deps.hash core)
        × (core.readme ≡ default_to [] read)
        × IsReadme r (cached s) read
        × (cached written.0 ≡ read_or_old read (cached s))
  unfolding write_artifacts text_eq content_core
  write_artifacts-readme s json r t v =
      let s1 = put_body s (repo_key name repo) (repo_json json) in
      let (s2, text) = write_readme deps name now s1 r (branch_of json) in
      let (s3, listing) = write_tree deps name now s2 t in
      let s4 = write_releases deps name now s3 v in
      let selected = select_manifests (tree_paths listing) in
      let (s5, manifests) = write_manifests deps name now s4 (branch_of json) selected in
      let (files, found) = deps.update_icon s5.cache (record {
        repo = name;
        default_branch = branch_of json;
        avatar_url = json.avatar_url;
        tree_paths = tree_paths listing;
        readme = default_to [] text;
      }) in
      let before = put_body-keeps s repo (repo_json json) refl in
      (
        text,
        content_core json text (tree_paths listing),
        refl,
        refl,
        subst (λ (old : Option Body). IsReadme r old text) before
            (write_readme-IsReadme s1 r (branch_of json)),
        write_icon-keeps s5 files
            ∙ write_manifests-keeps s4 (branch_of json) selected
            ∙ write_releases-keeps s3 v
            ∙ write_tree-keeps s2 t
            ∙ write_readme-cached s1 r (branch_of json)
            ∙ rw before refl,
      )
