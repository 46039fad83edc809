-- ===== src/Crawler/Fetch/Cutting.antt =====
-- `fetchRepo` of apps/workers/src/crawler/sources/github/fetch.ts, cut off between two of its writes: by a
-- crash, by a write that fails, or by a request that throws.
use keco.Prelude.{
  ℕ, zero, suc, ◌≡◌, refl, ap, ◌⊎◌, inl, inr, Bool, false, Option, List, [], ◌∷◌, ◌++◌, take, All,
  All-append, append_assoc, Option-cases,
}
use keco.Prelude.Text.{Text}
use keco.Prelude.Maps.{get, text_key}
use keco.DataStore.Values.{Value}
use keco.Core.Events.{NewEvent, repo_fetched}
use keco.Cache.Keys.{fetch, repo_key}
use keco.Crawler.Skip.{decide_skip}
use keco.Crawler.Fetch.Artifacts.{
  RepoJson, TreeJson, ReadmeResponse, Etags, FetchMeta, owner_of, name_of,
}
use keco.Crawler.Fetch.{write_fetched, ask_rest, after_repo, fetch_repo, next_meta, is_changed}
use keco.Crawler.Fetch.State.{
  Conditional, modified, not_modified, absent, fetch_json, Cache, Deps, Effect, put_file,
  append_event, Session, put_body, append, count_call, meta_of, branch_of, usable_etags, default_to,
}
use keco.Crawler.Fetch.Writing.{write_artifacts}
use keco.Crawler.Fetch.Ordering.{
  replay, put_body-replay, append-replay, IsArtifact, IsWriting, write_artifacts-IsWriting,
  replay_keeps_fetch,
}

module _ (name : Text) where
  -- The last two effects of a fetch that comes to its end.
  abbrev pub ending : FetchMeta → Bool → List Effect
  ending meta changed =
      append_event (repo_fetched name meta.content_hash changed)
      ∷ put_file (repo_key name fetch) (fetch_json meta)
      ∷ []

  record IsEnded (cache : Cache) (s : Session) : Type 0 where
    meta : FetchMeta
    changed : Bool
    before : List Effect
    artifacts : All (IsArtifact name) before
    effects : s.effects ≡ before ++ ending meta changed
    replayed : s.cache ≡ replay cache s.effects

  abbrev IsOrdered : Cache → Session → Type 0
  IsOrdered cache s = IsWriting name cache s ⊎ IsEnded cache s

  append-IsWriting :
      (cache : Cache) (s : Session) (event : NewEvent)
      → IsWriting name cache s
      → IsWriting name cache (append s event)
  unfolding append
  append-IsWriting cache s event h = record {
    replayed = append-replay cache s event h.replayed;
    artifacts = All-append (IsArtifact name) s.effects _ h.artifacts (tt, tt);
  }

  counted-IsWriting {ℓ} :
      {A : Type ℓ} (cache : Cache) (s : Session) (answer : Conditional A)
      → IsWriting name cache s
      → IsWriting name cache (count_call s answer)
  unfolding count_call
  counted-IsWriting cache s answer h = record { replayed = h.replayed; artifacts = h.artifacts }

  module _ (deps : Deps) (now : ℕ) (cache : Cache) where
    write_fetched-IsEnded :
        (s : Session) (previous : Option FetchMeta) (source : Text) (json : RepoJson)
        (etag : Option Text) (etags : Etags) (r : Conditional ReadmeResponse)
        (t : Conditional TreeJson) (v : Conditional Value)
        → IsWriting name cache s
        → IsEnded cache (write_fetched deps name now s previous source json etag etags r t v).0
    unfolding write_fetched append put_body next_meta
    write_fetched-IsEnded s previous source json etag etags r t v h =
        let (written, hash, manifests, found) = write_artifacts deps name now s json r t v in
        let artifacts = write_artifacts-IsWriting name deps now cache s json r t v h in
        let changed = is_changed deps name now previous hash in
        let meta = next_meta deps name now previous source etag etags r t v hash manifests in
        record {
          meta = meta;
          changed = changed;
          before = written.effects;
          artifacts = artifacts.artifacts;
          effects =
              append_assoc written.effects (append_event (repo_fetched name hash changed) ∷ []) _;
          replayed =
              put_body-replay cache (append written (repo_fetched name hash changed))
                (repo_key name fetch) (fetch_json meta)
                (append-replay cache written (repo_fetched name hash changed) artifacts.replayed);
        }

    ask_rest-IsOrdered :
        (s : Session) (previous : Option FetchMeta) (source : Text) (json : RepoJson)
        (etag : Option Text) (etags : Etags)
        → IsWriting name cache s
        → IsOrdered cache (ask_rest deps name now s previous source json etag etags).0
    unfolding ask_rest
    ask_rest-IsOrdered s previous source json etag etags h =
        elim (Option-cases (deps.ask_readme (owner_of name) (name_of name) etags.readme)) [
          | inl thrown ↦ simp (ask_rest, thrown) (inl h)
          | inr (r, readme) ↦
              elim (Option-cases
                (deps.ask_tree (owner_of name) (name_of name) (branch_of json) etags.tree)) [
                  | inl thrown ↦ simp (ask_rest, readme, thrown) (inl h)
                  | inr (t, tree) ↦
                      elim (Option-cases
                        (deps.ask_releases (owner_of name) (name_of name) etags.releases)) [
                          | inl thrown ↦ simp (ask_rest, readme, tree, thrown) (inl h)
                          | inr (v, releases) ↦
                              simp (ask_rest, readme, tree, releases)
                                (inr (
                                  write_fetched-IsEnded _ previous source json etag etags r t v (
                                    counted-IsWriting cache _ v (
                                      counted-IsWriting cache _ t
                                        (counted-IsWriting cache s r h)))))
                        ]
                ]
        ]

    after_repo-IsOrdered :
        (s : Session) (previous : Option FetchMeta) (source : Text) (etags : Etags)
        (answer : Conditional RepoJson)
        → IsWriting name cache s
        → IsOrdered cache (after_repo deps name now s previous source etags answer).0
    unfolding after_repo
    after_repo-IsOrdered s previous source etags absent h = inl (append-IsWriting cache s _ h)
    after_repo-IsOrdered s previous source etags not_modified h = inl (append-IsWriting cache s _ h)
    after_repo-IsOrdered s previous source etags (modified json etag) h =
        elim (Option-cases (
          decide_skip deps.parse_date
            (record {
              fork = default_to false json.fork;
              archived = default_to false json.archived;
              stars = default_to 0 json.stargazers_count;
              pushed_at = json.pushed_at;
            })
            now)) [
              | inl kept ↦
                  simp (after_repo, kept) (ask_rest-IsOrdered s previous source json etag etags h)
              | inr (reason, dropped) ↦
                  simp (after_repo, dropped) (inl (append-IsWriting cache s _ h))
            ]

    fetch_repo-IsOrdered :
        (source : Text) → IsOrdered cache (fetch_repo deps name now cache source).0
    unfolding fetch_repo
    fetch_repo-IsOrdered source =
        let previous = meta_of (get cache (repo_key name fetch)) in
        let etags = usable_etags deps.parse_date previous now in
        let s : Session = record { cache = cache; effects = []; requests = 0; points = 0 } in
        let begun : IsWriting name cache s = record { replayed = refl; artifacts = tt } in
        elim (Option-cases (deps.ask_repo (owner_of name) (name_of name) etags.repo)) [
          | inl thrown ↦ simp (fetch_repo, thrown) (inl begun)
          | inr (answer, there) ↦
              simp (fetch_repo, there)
                (after_repo-IsOrdered (count_call s answer) previous source etags answer
                  (counted-IsWriting cache s answer begun))
        ]

  -- What is left of a list of effects that is cut off.
  take_ended :
      (n : ℕ) (before : List Effect) (a b : Effect)
      → ((m : ℕ) × (take n (before ++ a ∷ b ∷ []) ≡ take m (before ++ a ∷ [])))
        ⊎ (take n (before ++ a ∷ b ∷ []) ≡ before ++ a ∷ b ∷ [])
  take_ended zero before a b = inl (0, refl)
  take_ended (suc zero) [] a b = inl (1, refl)
  take_ended (suc (suc zero)) [] a b = inr refl
  take_ended (suc (suc (suc n))) [] a b = inr refl
  take_ended (suc n) (e ∷ before) a b = elim (take_ended n before a b) [
    | inl (m, early) ↦ inl (suc m, ap (λ es. e ∷ es) early)
    | inr whole ↦ inr (ap (λ es. e ∷ es) whole)
  ]

  take-All :
      (n : ℕ) (es : List Effect) → All (IsArtifact name) es → All (IsArtifact name) (take n es)
  take-All zero es h = tt
  take-All (suc n) [] h = tt
  take-All (suc n) (e ∷ es) h = (h.0, take-All n es h.1)

  -- Wherever a fetch is cut off, `_fetch.json` is as it was, or the event of its content hash is in the
  -- journal before it; so no content is remembered as fetched that the analyzer is not told of. A fetch
  -- that is not cut off leaves the cache that its writes make.
  pub fetch_repo-cut :
      (deps : Deps) (now : ℕ) (cache : Cache) (source : Text) (n : ℕ)
      → let s = (fetch_repo deps name now cache source).0 in
        let done = take n s.effects in
        (s.cache ≡ replay cache s.effects)
        × ((get (replay cache done) (repo_key name fetch) ≡ get cache (repo_key name fetch))
            ⊎ ((meta : FetchMeta) × (changed : Bool) × (before : List Effect) × (done
                  ≡ before ++ ending meta changed)))
  fetch_repo-cut deps now cache source n = elim (fetch_repo-IsOrdered deps now cache source) [
    | inl h ↦ (h.replayed, inl (replay_keeps_fetch name cache _ (take-All n _ h.artifacts)))
    | inr h ↦ (
      h.replayed,
      rw h.effects
          (elim (take_ended n h.before
            (append_event (repo_fetched name h.meta.content_hash h.changed))
            (put_file (repo_key name fetch) (fetch_json h.meta))) [
              | inl (m, early) ↦ inl (
                  rw early (
                    replay_keeps_fetch name cache _ (
                      take-All m _ (All-append (IsArtifact name) h.before _ h.artifacts (tt, tt)))))
              | inr whole ↦ inr (h.meta, h.changed, h.before, whole)
            ]),
    )
  ]
