-- ===== src/Crawler/Worklist.antt =====
-- `buildWorklist` of apps/workers/src/crawler/worklist.ts over the in-memory store. `toLowerCase` and
-- the schema of a repository's name are parameters.
pub mod Laws
use keco.Prelude.{
  ℕ, ◌*◌, max, String, Bool, true, false, not, Option, none, some, List, [], ◌∷◌, ◌++◌, map, any,
  ltb, ◌==◌, if◌then◌else◌, length, take,
}
use keco.Prelude.Text.{Text, codes, text_eq}
use keco.DataStore.Values.{Value, text, Document, field}
use keco.DataStore.Port.{Result, ok, err, ◌>>=◌, descending}
use keco.DataStore.Memory.{Store, ensure, store_list}
use keco.Github.Shard.{owns_shard}
use keco.Discovery.Collections.{repos, discovery_collections}

pub record WorkItem : Type 0 where
  pub repo : Text
  pub source : Text

pub record WorklistOptions : Type 0 where
  pub repo : Option Text
  pub limit : ℕ
  pub shard_count : ℕ
  pub shard_index : ℕ

pub record Names : Type 0 where
  pub lower : Text → Text
  pub is_repo_ref : Text → Bool

abbrev pub is_org_ref : Text → Bool
is_org_ref repo = not (any (λ c. c == b'/') repo)

-- `document.full_name`, where it is a string.
full_name : Document → Option Text
full_name d = elim (field d "full_name") [ some (text name) ↦ some name | _ ↦ none ]

abbrev pub contains_text : Text → List Text → Bool
contains_text key = any (λ other. text_eq key other)

-- `items` and `seen`.
pub record Taken : Type 0 where
  pub items : List WorkItem
  pub seen : List Text

module _ (names : Names) (options : WorklistOptions) where
  abbrev pub add : Taken → Text → Text → Taken
  add t repo source = record {
    items = t.items ++ record { repo = repo; source = source } ∷ [];
    seen = names.lower repo ∷ t.seen;
  }

  -- `take`, and whether it asks for more.
  unfoldable pub take_repo : Taken → Text → Text → Taken × Bool
  take_repo t repo source =
      let more = ltb (length t.items) options.limit in
      let added = add t repo source in
      if contains_text (names.lower repo) t.seen
      then (t, more)
      else if not (names.is_repo_ref repo)
      then (t, true)
      else if not (owns_shard repo options.shard_count options.shard_index)
      then (t, true)
      else (added, ltb (length added.items) options.limit)

  -- The loop over the rows.
  unfoldable pub take_rows : Taken → List Document → Taken
  unfolding take_repo full_name
  take_rows t [] = t
  take_rows t (row ∷ rows) =
      let same = take_rows t rows in
      elim (full_name row) [
        | none ↦ same
        | some name ↦
            let (next, more) = take_repo t name (codes "discovery") in
            let rest = take_rows next rows in if more then rest else next
      ]

  from_rows : Text → List Document → List WorkItem
  from_rows source [] = []
  from_rows source (row ∷ rows) =
      let rest = from_rows source rows in
      elim (full_name row) [
        | none ↦ rest
        | some name ↦ record { repo = name; source = source } ∷ rest
      ]

  unfoldable pub repos_under_org : Text → Store → Result (List WorkItem)
  unfolding from_rows full_name
  repos_under_org org store = do
    rows ← store_list store repos (record {
      filter = some (("owner", text org) ∷ []);
      fields = some ("full_name" ∷ []);
      sort = some (("stars", descending) ∷ []);
      limit = none;
    })
    ok (from_rows (codes "cli") rows)

  unfoldable pub discovered : Store → Result (List WorkItem)
  unfolding take_rows
  discovered store = do
    rows ← store_list store repos (record {
      filter = none;
      fields = some ("full_name" ∷ []);
      sort = some (("stars", descending) ∷ []);
      limit = some (options.limit * max 1 options.shard_count);
    })
    ok (take options.limit (take_rows (record { items = []; seen = [] }) rows).items)

  unfoldable pub build_worklist : Store → Result (List WorkItem)
  unfolding repos_under_org discovered
  build_worklist store = elim options.repo [
    | none ↦ discovered (ensure store discovery_collections)
    | some repo ↦
        if is_org_ref repo
        then repos_under_org repo (ensure store discovery_collections)
        else ok (record { repo = repo; source = codes "cli" } ∷ [])
  ]
