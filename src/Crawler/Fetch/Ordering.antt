-- ===== src/Crawler/Fetch/Ordering.antt =====
-- The write order of `fetchRepo`, apps/workers/src/crawler/sources/github/fetch.ts: artifacts, then the event,
-- then `_fetch.json`.
use keco.Prelude.{
  ℕ, ◌+◌, ◌≡◌, ◌≢◌, refl, ap, sym, ◌∙◌, inl, inr, false, List, [], ◌∷◌, ◌++◌, All, All-append,
  Bool-cases, Option-cases, ltb,
}
use keco.Prelude.Text.{Text, codes, text_eq, text_eq_iff}
use keco.Prelude.Maps.{get, put, get-put, text_key}
use keco.DataStore.Values.{Value}
use keco.Core.Events.{NewEvent}
use keco.Cache.Keys.{
  RepoFile, repo, readme, readme_meta, tree, releases, fetch, manifest, repo_key,
  repo_key_not_fetch, file_name,
}
use keco.Crawler.Fetch.Artifacts.{
  RepoJson, TreeJson, ReadmeResponse, basename, select_manifests, tree_paths, to_readme_artifacts,
}
use keco.Crawler.Fetch.State.{
  Conditional, modified, not_modified, absent, Body, IconFile, source_bytes, description, sized,
  icon_file, Cache, Deps, Effect, put_file, append_event, Session, put_body, append, byte_length,
  plain, repo_json, branch_of, default_to, max_manifest_bytes,
}
use keco.Crawler.Fetch.Writing.{
  write_readme, write_tree, write_releases, write_manifests, write_icon, write_artifacts,
}

-- The cache after effects, in order.
abbrev pub replay : Cache → List Effect → Cache
replay cache [] = cache
replay cache (put_file key body ∷ es) = replay (put cache key body) es
replay cache (append_event event ∷ es) = replay cache es

replay-append :
    (cache : Cache) (es fs : List Effect) → replay cache (es ++ fs) ≡ replay (replay cache es) fs
replay-append cache [] fs = refl
replay-append cache (put_file key body ∷ es) fs = replay-append (put cache key body) es fs
replay-append cache (append_event event ∷ es) fs = replay-append cache es fs

-- What is put in the cache is what the effects say.
pub put_body-replay :
    (cache : Cache) (s : Session) (key : Text) (body : Body)
    → s.cache ≡ replay cache s.effects
    → (put_body s key body).cache ≡ replay cache (put_body s key body).effects
unfolding put_body
put_body-replay cache s key body h =
    ap (λ c. put c key body) h ∙ sym (replay-append cache s.effects (put_file key body ∷ []))

pub append-replay :
    (cache : Cache) (s : Session) (event : NewEvent)
    → s.cache ≡ replay cache s.effects
    → (append s event).cache ≡ replay cache (append s event).effects
unfolding append
append-replay cache s event h = h ∙ sym (replay-append cache s.effects (append_event event ∷ []))

text_eq-false : (a b : Text) → a ≢ b → text_eq a b ≡ false
text_eq-false a b differ = elim (Bool-cases (text_eq a b)) [
  | inl same ↦ absurd (differ ((text_eq_iff a b).0 same))
  | inr other ↦ other
]

module _ (name : Text) where
  abbrev pub IsArtifact : Effect → Type 0
  IsArtifact (put_file key body) = key ≢ repo_key name fetch
  IsArtifact (append_event event) = Unit

  pub replay_keeps_fetch :
      (cache : Cache) (es : List Effect)
      → All IsArtifact es
      → get (replay cache es) (repo_key name fetch) ≡ get cache (repo_key name fetch)
  replay_keeps_fetch cache [] h = refl
  replay_keeps_fetch cache (put_file key body ∷ es) h =
      replay_keeps_fetch (put cache key body) es h.1
      ∙ get-put cache key (repo_key name fetch) body
      ∙ rw (text_eq-false key (repo_key name fetch) h.0) refl
  replay_keeps_fetch cache (append_event event ∷ es) h = replay_keeps_fetch cache es h.1

  pub record IsWriting (cache : Cache) (s : Session) : Type 0 where
    pub replayed : s.cache ≡ replay cache s.effects
    pub artifacts : All IsArtifact s.effects

  put_body-IsWriting :
      (cache : Cache) (s : Session) (file : RepoFile) (body : Body)
      → text_eq (file_name file) (file_name fetch) ≡ false
      → IsWriting cache s
      → IsWriting cache (put_body s (repo_key name file) body)
  unfolding put_body
  put_body-IsWriting cache s file body other h = record {
    replayed = put_body-replay cache s (repo_key name file) body h.replayed;
    artifacts =
        All-append IsArtifact s.effects _ h.artifacts (repo_key_not_fetch name file other, tt);
  }

  module _ (deps : Deps) (now : ℕ) (cache : Cache) where
    write_readme-IsWriting :
        (s : Session) (answer : Conditional ReadmeResponse) (branch : Text)
        → IsWriting cache s
        → IsWriting cache (write_readme deps name now s answer branch).0
    unfolding write_readme text_eq
    write_readme-IsWriting s absent branch h = h
    write_readme-IsWriting s not_modified branch h = h
    write_readme-IsWriting s (modified response etag) branch h =
        elim (Option-cases (to_readme_artifacts deps.decode response name branch etag)) [
          | inl nothing ↦ simp (write_readme, nothing) h
          | inr ((text, meta), there) ↦
              simp (write_readme, there)
                (put_body-IsWriting cache _ readme_meta _ refl
                  (put_body-IsWriting cache s readme _ refl h))
        ]

    write_tree-IsWriting :
        (s : Session) (answer : Conditional TreeJson)
        → IsWriting cache s
        → IsWriting cache (write_tree deps name now s answer).0
    unfolding write_tree text_eq
    write_tree-IsWriting s absent h = h
    write_tree-IsWriting s not_modified h = h
    write_tree-IsWriting s (modified body etag) h = put_body-IsWriting cache s tree _ refl h

    write_releases-IsWriting :
        (s : Session) (answer : Conditional Value)
        → IsWriting cache s
        → IsWriting cache (write_releases deps name now s answer)
    unfolding write_releases text_eq
    write_releases-IsWriting s absent h = h
    write_releases-IsWriting s not_modified h = h
    write_releases-IsWriting s (modified body etag) h = put_body-IsWriting cache s releases _ refl h

    write_manifests-IsWriting :
        (s : Session) (branch : Text) (paths : List Text)
        → IsWriting cache s
        → IsWriting cache (write_manifests deps name now s branch paths).0
    unfolding write_manifests text_eq
    write_manifests-IsWriting s branch [] h = h
    write_manifests-IsWriting s branch (path ∷ paths) h =
        let asked = record s { requests = s.requests + 1 } in
        let begun : IsWriting cache asked = record {
          replayed = h.replayed;
          artifacts = h.artifacts;
        } in
        let passed = write_manifests-IsWriting asked branch paths begun in
        let url =
          codes "https://raw.githubusercontent.com/"
          ++ (name ++ (b'/' ∷ (branch ++ (b'/' ∷ path)))) in
        elim (Option-cases (deps.raw url)) [
          | inl missing ↦ simp (write_manifests, missing) passed
          | inr (body, there) ↦ elim (Bool-cases (ltb max_manifest_bytes (byte_length body))) [
            | inl large ↦ simp (write_manifests, there, large) passed
            | inr small ↦
                simp (write_manifests, there, small)
                  (write_manifests-IsWriting
                    (put_body asked (repo_key name (manifest (basename path))) (plain body)) branch
                    paths
                    (put_body-IsWriting cache asked (manifest (basename path)) (plain body) refl
                      begun))
          ]
        ]

    icon_not_fetch :
        (file : IconFile) → text_eq (file_name (icon_file file)) (file_name fetch) ≡ false
    unfolding text_eq
    icon_not_fetch source_bytes = refl
    icon_not_fetch description = refl
    icon_not_fetch (sized n) = refl

    write_icon-IsWriting :
        (s : Session) (files : List (IconFile × Body))
        → IsWriting cache s
        → IsWriting cache (write_icon deps name now s files)
    unfolding write_icon
    write_icon-IsWriting s [] h = h
    write_icon-IsWriting s ((file, body) ∷ files) h =
        write_icon-IsWriting (put_body s (repo_key name (icon_file file)) body) files
          (put_body-IsWriting cache s (icon_file file) body (icon_not_fetch file) h)

    pub write_artifacts-IsWriting :
        (s : Session) (json : RepoJson) (r : Conditional ReadmeResponse) (t : Conditional TreeJson)
        (v : Conditional Value)
        → IsWriting cache s
        → IsWriting cache (write_artifacts deps name now s json r t v).0
    unfolding write_artifacts text_eq
    write_artifacts-IsWriting s json r t v h =
        let s1 = put_body s (repo_key name repo) (repo_json json) in
        let (s2, text) = write_readme deps name now s1 r (branch_of json) in
        let (s3, listing) = write_tree deps name now s2 t in
        let s4 = write_releases deps name now s3 v in
        let selected = select_manifests (tree_paths listing) in
        let (s5, manifests) = write_manifests deps name now s4 (branch_of json) selected in
        let (files, found) = deps.update_icon s5.cache (record {
          repo = name;
          default_branch = branch_of json;
          avatar_url = json.avatar_url;
          tree_paths = tree_paths listing;
          readme = default_to [] text;
        }) in
        let h1 = put_body-IsWriting cache s repo (repo_json json) refl h in
        let h2 = write_readme-IsWriting s1 r (branch_of json) h1 in
        let h4 = write_releases-IsWriting s3 v (write_tree-IsWriting s2 t h2) in
        write_icon-IsWriting s5 files (write_manifests-IsWriting s4 (branch_of json) selected h4)
