-- ===== src/Discovery/Store/Opening/Resuming.antt =====
-- What `open` reads of what `flush` wrote, in apps/workers/src/discovery/store/store.ts.
use keco.Prelude.{
  ℕ, zero, suc, ◌≡◌, refl, ap, ◌∙◌, inl, inr, Bool, true, false, Option, none, some, String, List,
  [], ◌∷◌, length, Option-cases, take, drop,
}
use keco.Prelude.Text.{Text}
use keco.Prelude.Maps.{Map, get, put, get-put, string_key, text_key}
use keco.DataStore.Values.{Document, field, text}
use keco.DataStore.Port.{CollectionSpec, StoreError, ok, check_document_id, assert_document_id}
use keco.DataStore.Memory.{
  ensure, ensure_one, set_all, store_put, store_get, store_list, primary_key_of, collection_of,
  keyed,
}
use keco.DataStore.Memory
use keco.Discovery.Collections.{
  state, repos, runs, running, to_run_document, Content, DiscoveryState, to_state_document,
  discovery_collections,
}
use keco.Discovery.Store.{
  Store, write_run, run_input, KnownRepo, open_with, opened_store, flush, write_state,
  write_batches, size,
}
use keco.Discovery.Store.Opening.{
  OpenOptions, open_slug, load_known, state_of, validated, load_state, memory_backend,
}
use keco.DataStore.Memory.Ensuring.{
  Result-cases, ensure-keeps, store_put-specs, store_get-put_one, ensure-there,
}
use keco.Discovery.Store.Schemas.Roundtrip.{parse_state-to_state_document}

validated-to_state_document :
    (s : DiscoveryState) (query_slug run_id : Text) (now : ℕ)
    → validated (some (to_state_document s query_slug run_id now)) ≡ some s
unfolding validated state_of
validated-to_state_document s query_slug run_id now =
    rw (validated, parse_state-to_state_document s query_slug run_id now) refl

ensure-repos :
    (m : Memory.Store)
    → (c : Memory.Collection) × (collection_of (ensure m discovery_collections) repos ≡ ok c)
ensure-repos m = ensure-there _ _ m

load_known-ensure :
    (m : Memory.Store) (query_slug : Text)
    → (known : Map ℕ KnownRepo) × (load_known (ensure m discovery_collections) query_slug
        ≡ ok known)
unfolding load_known store_list
load_known-ensure m query_slug =
    let (c, there) = ensure-repos m in
    elim (Result-cases (load_known (ensure m discovery_collections) query_slug)) [
      | inl loaded ↦ loaded
      | inr (x, broken) ↦ absurd (cc (rw (load_known, store_list, there) at broken))
    ]

load_state-ensure :
    (m : Memory.Store) (query_slug : Text) (o : Option DiscoveryState)
    → load_state m query_slug ≡ ok o
    → load_state (ensure m discovery_collections) query_slug ≡ ok o
unfolding load_state store_get collection_of
load_state-ensure m query_slug o e = elim (Option-cases (get m.collections state)) [
  | inl missing ↦ absurd (cc (rw (load_state, store_get, collection_of, missing) at e))
  | inr (c, there) ↦
      rw (ensure-keeps discovery_collections m state c there)
        (rw (load_state, store_get, collection_of, there) at e)
]

ensure-second :
    (a b : CollectionSpec) (specs : List CollectionSpec) (m : Memory.Store)
    → (c : Memory.Collection) × (collection_of (ensure m (a ∷ b ∷ specs)) b.name ≡ ok c)
unfolding ensure
ensure-second a b specs m = ensure-there b specs (ensure_one m a)

ensure-runs :
    (m : Memory.Store)
    → (c : Memory.Collection) × (collection_of (ensure m discovery_collections) runs ≡ ok c)
ensure-runs m = ensure-second _ _ _ m

ensure-runs_key :
    (m : Memory.Store) → primary_key_of (ensure m discovery_collections) runs ≡ ok "run_id"
unfolding ensure ensure_one primary_key_of
ensure-runs_key m = rw (get-put, get-put) refl

put_one-ok :
    (m : Memory.Store) (d : Document) (id : Text)
    → field d "run_id" ≡ some (text id)
    → check_document_id id ≡ ok id
    → (t : Memory.Store) × (store_put (ensure m discovery_collections) runs (d ∷ []) ≡ ok t)
unfolding store_put keyed assert_document_id
put_one-ok m d id at fine =
    let (c, there) = ensure-runs m in
    let begun = ensure m discovery_collections in
    (
      record begun { collections = put begun.collections runs (set_all c ((id, d) ∷ [])) },
      rw (ensure-runs_key m, at, fine, there) refl,
    )

module _ (hash : Content → Text) (message : StoreError → Text) where
  write-specs :
      (m : Memory.Store) (name : String) (docs : List Document) (durable : Bool)
      → ((memory_backend hash message).write m name docs durable).0.specs ≡ m.specs
  unfolding memory_backend
  write-specs m name docs durable = elim (Result-cases (store_put m name docs)) [
    | inl (t, fine) ↦ rw (memory_backend, fine) (store_put-specs m t name docs fine)
    | inr (e, broken) ↦ rw (memory_backend, broken) refl
  ]

  write_batches-specs :
      (fuel : ℕ) (m : Memory.Store) (docs : List Document)
      → (write_batches (memory_backend hash message) fuel m docs).0.specs ≡ m.specs
  unfolding write_batches
  write_batches-specs zero m docs = refl
  write_batches-specs (suc fuel) m [] = refl
  write_batches-specs (suc fuel) m (d ∷ docs) =
      let call = (memory_backend hash message).write m repos (take 1000 (d ∷ docs)) false in
      let kept = write-specs m repos (take 1000 (d ∷ docs)) false in
      elim (Option-cases call.1) [
        | inl fine ↦
            rw (write_batches, fine) (write_batches-specs fuel call.0 (drop 1000 (d ∷ docs)) ∙ kept)
        | inr (e, broken) ↦ rw (write_batches, broken) kept
      ]

  -- A write that returns no error is a put that throws none.
  write-ok :
      (m : Memory.Store) (name : String) (docs : List Document) (durable : Bool)
      → let result = (memory_backend hash message).write m name docs durable in
        result.1 ≡ none → store_put m name docs ≡ ok result.0
  unfolding memory_backend
  write-ok m name docs durable = elim (Result-cases (store_put m name docs)) [
    | inl (t, fine) ↦ rw (memory_backend, fine) (λ e. refl)
    | inr (x, broken) ↦ rw (memory_backend, broken) (λ e. cc)
  ]

  load_state-write_state :
      (s : Store Memory.Store) (now : ℕ)
      → primary_key_of s.backend state ≡ ok "query_slug"
      → let result = write_state (memory_backend hash message) s now in
        result.1 ≡ none → load_state result.0.backend s.query_slug ≡ ok (some result.0.state)
  unfolding write_state load_state
  load_state-write_state s now known =
      let document = to_state_document s.state s.query_slug s.run_id now in
      let call = (memory_backend hash message).write s.backend state (document ∷ []) true in
      elim (Option-cases call.1) [
        | inl fine ↦
            simp (write_state, fine)
              (λ e.
                rw
                  (store_get-put_one s.backend call.0 state "query_slug" document s.query_slug known
                    (unfold to_state_document get in refl)
                    (write-ok s.backend state (document ∷ []) true fine))
                  (ap ok (validated-to_state_document s.state s.query_slug s.run_id now)))
        | inr (x, broken) ↦ simp (write_state, broken) (λ e. cc)
      ]

  -- What a flush that returns no error wrote to the in-memory store is the state that `loadState` reads
  -- back under the query's slug, so that a run that opens it resumes there.
  pub load_state-flush :
      (s : Store Memory.Store) (now : ℕ)
      → primary_key_of s.backend state ≡ ok "query_slug"
      → let result = flush (memory_backend hash message) s now in
        result.1 ≡ none → load_state result.0.backend s.query_slug ≡ ok (some result.0.state)
  unfolding flush primary_key_of
  load_state-flush s now known =
      let written =
        write_batches (memory_backend hash message) (length s.pending_repos) s.backend
          s.pending_repos in
      let specs = write_batches-specs (length s.pending_repos) s.backend s.pending_repos in
      elim (Option-cases written.1) [
        | inl fine ↦
            simp (flush, fine)
              (load_state-write_state
                (record s {
                  backend = written.0;
                  state = record s.state { repos_seen = size s };
                  pending_repos = [];
                })
                now (rw specs known))
        | inr (x, broken) ↦ simp (flush, broken) (λ e. cc)
      ]

  -- The run's own row is written where its id is one that the store accepts.
  write_run-none :
      (s : Store Memory.Store) (t : Memory.Store)
      → store_put s.backend runs
          (to_run_document (run_input (memory_backend hash message) s running none false) ∷ [])
        ≡ ok t
      → (write_run (memory_backend hash message) s running none false).1 ≡ none
  unfolding write_run memory_backend
  write_run-none s t e = rw (e, write_run) refl

  -- A run that opens the store of a flush, and does not ask for a fresh sweep, is opened without an
  -- error, where the store accepts its id as that of a document, with the state of that flush.
  pub open_slug-flush :
      (lower : Text → Text) (s : Store Memory.Store) (now : ℕ) (query : Text)
      (options : OpenOptions)
      → primary_key_of s.backend state ≡ ok "query_slug"
      → options.fresh ≡ false
      → check_document_id options.run_id ≡ ok options.run_id
      → let result = flush (memory_backend hash message) s now in
        result.1 ≡ none
        → (opened : Store Memory.Store) × (open_slug lower hash message result.0.backend query
              s.query_slug options
            ≡ ok (opened, none))
          × (opened.state ≡ result.0.state)
  unfolding open_slug open_with opened_store write_run flush
  open_slug-flush lower s now query options known resumed accepted e =
      let result = flush (memory_backend hash message) s now in
      let loaded =
        load_state-ensure result.0.backend s.query_slug _ (load_state-flush s now known e) in
      let (corpus, listed) = load_known-ensure result.0.backend s.query_slug in
      let begun = ensure result.0.backend discovery_collections in
      let opened =
        open_with (memory_backend hash message) begun query s.query_slug options.run_id options.now
          options.fresh options.limit (some result.0.state) corpus in
      let begun_store =
        opened_store (memory_backend hash message) begun query s.query_slug options.run_id
          options.now options.fresh options.limit (some result.0.state) corpus in
      let row =
        to_run_document (run_input (memory_backend hash message) begun_store running none false) in
      let put_there =
        put_one-ok result.0.backend row options.run_id (unfold to_run_document get in refl)
          accepted in
      let quiet : opened.1 ≡ none = write_run-none begun_store put_there.0 put_there.1 in
      (
        opened.0,
        rw (open_slug, resumed, loaded, listed) refl
            ∙ ap (λ (x : Option Text). ok (opened.0, x)) quiet,
        refl,
      )
