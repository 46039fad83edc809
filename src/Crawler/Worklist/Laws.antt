-- ===== src/Crawler/Worklist/Laws.antt =====
-- What the crawler is promised of `buildWorklist`, apps/workers/src/crawler/worklist.ts.
use mathlib.Core.Path.{subst}
use keco.Prelude.{
  ℕ, ◌*◌, ◌≤◌, ◌≡◌, inl, inr, refl, sym, ap, ◌∙◌, max, true, false, ◌||◌, none, some, List, [], ◌∷◌,
  ◌++◌, arith, length, take, length-take-le, Bool-cases, Option-cases, zero, suc,
}
use keco.Prelude.Text.{Text, codes, text_eq, text_eq_iff}
use keco.DataStore.Values.{Document}
use keco.DataStore.Port.{ok, ListQuery, descending}
use keco.DataStore.Memory.{Store, store_list, ensure}
use keco.DataStore.Memory.Laws.{first_ok, ok-injective}
use keco.Discovery.Collections.{repos, discovery_collections}
use keco.Github.Shard.{owns_shard}
use keco.Crawler.Worklist.{
  WorkItem, WorklistOptions, Names, contains_text, full_name, Taken, add, take_repo, take_rows,
  discovered, build_worklist,
}

text_eq-swap : (a b : Text) → text_eq a b ≡ text_eq b a
text_eq-swap a b = ground (arith, text_eq_iff a b, text_eq_iff b a)

contains_text-append :
    (k : Text) (ks ls : List Text)
    → contains_text k (ks ++ ls) ≡ (contains_text k ks || contains_text k ls)
contains_text-append k [] ls = refl
contains_text-append k (x ∷ ks) ls = ground (arith, contains_text-append k ks ls)

module _ (names : Names) (options : WorklistOptions) where
  abbrev pub keys : List WorkItem → List Text
  keys [] = []
  keys (item ∷ items) = names.lower item.repo ∷ keys items

  -- No two items name one repository, in any case of its letters, and every item is well named and
  -- of the shard.
  abbrev pub IsOwned : WorkItem → Type 0
  IsOwned item =
      (names.is_repo_ref item.repo ≡ true)
      × (owns_shard item.repo options.shard_count options.shard_index ≡ true)

  abbrev pub IsList : List WorkItem → Type 0
  IsList [] = Unit
  IsList (item ∷ items) =
      IsOwned item × (contains_text (names.lower item.repo) (keys items) ≡ false) × IsList items

  keys-append : (is js : List WorkItem) → keys (is ++ js) ≡ keys is ++ keys js
  keys-append [] js = refl
  keys-append (item ∷ is) js = ap (λ ks. names.lower item.repo ∷ ks) (keys-append is js)

  contains_text-take :
      (k : Text) (n : ℕ) (items : List WorkItem)
      → contains_text k (keys items) ≡ false
      → contains_text k (keys (take n items)) ≡ false
  contains_text-take k zero items h = refl
  contains_text-take k (suc n) [] h = refl
  contains_text-take k (suc n) (item ∷ items) h = ground (arith, contains_text-take k n items)

  IsList-take : (n : ℕ) (items : List WorkItem) → IsList items → IsList (take n items)
  IsList-take zero items h = tt
  IsList-take (suc n) [] h = tt
  IsList-take (suc n) (item ∷ items) h =
      (h.0, contains_text-take (names.lower item.repo) n items h.1, IsList-take n items h.2)

  IsList-append :
      (items : List WorkItem) (item : WorkItem)
      → IsOwned item
      → contains_text (names.lower item.repo) (keys items) ≡ false
      → IsList items
      → IsList (items ++ item ∷ [])
  IsList-append [] item o new h = (o, refl, tt)
  IsList-append (i ∷ items) item o new h =
      let key = names.lower item.repo in
      (
        h.0,
        rw
            (
              keys-append items (item ∷ []),
              contains_text-append (names.lower i.repo) (keys items) (key ∷ []),
              h.1,
            )
            (ground (arith, text_eq-swap key (names.lower i.repo))),
        IsList-append items item o (ground (arith, new)) h.2,
      )

  pub record IsTaken (t : Taken) : Type 0 where
    pub list : IsList t.items
    pub synced : (key : Text) → contains_text key t.seen ≡ contains_text key (keys t.items)

  add-IsTaken :
      (t : Taken) (repo : Text)
      → IsOwned (record { repo = repo; source = codes "discovery" })
      → contains_text (names.lower repo) t.seen ≡ false
      → IsTaken t
      → IsTaken (add names options t repo (codes "discovery"))
  add-IsTaken t repo o new h = record {
    list = IsList-append t.items _ o (sym (h.synced (names.lower repo)) ∙ new) h.list;
    synced = λ key.
        rw
          (
            keys-append t.items (record { repo = repo; source = codes "discovery" } ∷ []),
            contains_text-append key (keys t.items) (names.lower repo ∷ []),
            h.synced key,
          )
          (ground arith);
  }

  take_repo-IsTaken :
      (t : Taken) (repo : Text)
      → IsTaken t
      → IsTaken (take_repo names options t repo (codes "discovery")).0
  unfolding take_repo
  take_repo-IsTaken t repo h = elim (Bool-cases (contains_text (names.lower repo) t.seen)) [
    | inl known ↦ simp (take_repo, known) h
    | inr new ↦ elim (Bool-cases (names.is_repo_ref repo)) [
      | inr bad ↦ simp (take_repo, new, bad) h
      | inl good ↦ elim (Bool-cases (owns_shard repo options.shard_count options.shard_index)) [
        | inr other ↦ simp (take_repo, new, good, other) h
        | inl mine ↦ simp (take_repo, new, good, mine) (add-IsTaken t repo (good, mine) new h)
      ]
    ]
  ]

  take_rows-IsTaken :
      (rows : List Document) (t : Taken) → IsTaken t → IsTaken (take_rows names options t rows)
  unfolding take_rows
  take_rows-IsTaken [] t h = h
  take_rows-IsTaken (row ∷ rows) t h = elim (Option-cases (full_name row)) [
    | inl unnamed ↦ rw (unnamed, take_rows) (take_rows-IsTaken rows t h)
    | inr (name, named) ↦
        let taken = take_repo names options t name (codes "discovery") in
        let kept = take_repo-IsTaken t name h in
        elim (Bool-cases taken.1) [
          | inl more ↦ rw (named, take_rows, more) (take_rows-IsTaken rows taken.0 kept)
          | inr full ↦ rw (named, take_rows, full) kept
        ]
  ]

  abbrev top_rows : ListQuery
  top_rows = record {
    filter = none;
    fields = some ("full_name" ∷ []);
    sort = some (("stars", descending) ∷ []);
    limit = some (options.limit * max 1 options.shard_count);
  }

  discovered-IsList :
      (store : Store) (items : List WorkItem)
      → discovered names options store ≡ ok items
      → (length items ≤ options.limit) × IsList items
  unfolding discovered
  discovered-IsList store items e =
      let (rows, listed, last) = first_ok (store_list store repos top_rows) _ e in
      let taken =
        take_rows-IsTaken rows (record { items = []; seen = [] })
          (record { list = tt; synced = λ key. refl }) in
      subst (λ found. (length found ≤ options.limit) × IsList found) (ok-injective last)
        (length-take-le options.limit _, IsList-take options.limit _ taken.list)

  -- A work list that is read from the discovered repositories holds no more than the limit, no
  -- repository twice, in whatever case its name is written, and only well-formed names of its shard.
  pub build_worklist-IsList :
      (store : Store) (items : List WorkItem)
      → options.repo ≡ none
      → build_worklist names options store ≡ ok items
      → (length items ≤ options.limit) × IsList items
  unfolding build_worklist
  build_worklist-IsList store items batch e =
      discovered-IsList (ensure store discovery_collections) items
        (simp (build_worklist, batch) at e)
