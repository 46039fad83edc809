-- ===== src/Crawler/Fetch/State.antt =====
-- What `fetchRepo` of apps/workers/src/crawler/sources/github/fetch.ts is given and what it does: GitHub's
-- answers, the cache, the journal and the costs. A file of the cache holds what was put there: JSON and
-- UTF-8 give back what they were given. What is put and appended is also kept in order.
use keco.Prelude.{
  ℕ, ◌+◌, ◌-◌, ◌*◌, Bool, true, false, ◌||◌, Option, none, some, List, [], ◌∷◌, ◌++◌, ltb,
  if◌then◌else◌,
}
use keco.Prelude.Text.{Text, codes}
use keco.Prelude.Maps.{Map, put, text_key}
use keco.DataStore.Values.{Value}
use keco.Core.Events.{NewEvent}
use keco.Cache.Keys.{RepoFile, icon, icon_source, icon_meta}
use keco.Discovery.Collections.{sort_topics}
use keco.Crawler.Skip.{SkipReason, is_fork, archived_stale}
use keco.Crawler.Fetch.Artifacts.{RepoJson, TreeJson, ReadmeResponse, ReadmeMeta, Etags, FetchMeta}

pub data Conditional {ℓ} (A : Type ℓ) : Type ℓ where
  modified : A → Option Text → Conditional A
  not_modified absent : Conditional A

pub data Body : Type 0 where
  markdown : Text → Body
  plain : Text → Body
  repo_json : RepoJson → Body
  readme_json : ReadmeMeta → Body
  tree_json : TreeJson → Body
  releases_json : Value → Body
  fetch_json : FetchMeta → Body
  icon_bytes : List ℕ → Body
  icon_json : Value → Body

pub data IconFile : Type 0 where
  source_bytes description : IconFile
  sized : ℕ → IconFile

abbrev pub icon_file : IconFile → RepoFile
icon_file source_bytes = icon_source
icon_file description = icon_meta
icon_file (sized size) = icon size

-- What `contentHash` hashes.
pub record ContentCore : Type 0 where
  pub description : Option Text
  pub topics : List Text
  pub homepage : Option Text
  pub archived : Bool
  pub license : Option Text
  pub default_branch : Option Text
  pub readme : Text
  pub tree : List Text

pub record IconInputs : Type 0 where
  pub repo : Text
  pub default_branch : Text
  pub avatar_url : Option Text
  pub tree_paths : List Text
  pub readme : Text

abbrev pub Cache : Type 0
Cache = Map Text Body

-- `none` is a throw of `conditional`; `raw` answers none where the file cannot be had.
pub record Deps : Type 0 where
  pub ask_repo : Text → Text → Option Text → Option (Conditional RepoJson)
  pub ask_readme : Text → Text → Option Text → Option (Conditional ReadmeResponse)
  pub ask_tree : Text → Text → Text → Option Text → Option (Conditional TreeJson)
  pub ask_releases : Text → Text → Option Text → Option (Conditional Value)
  pub raw : Text → Option Text
  pub decode : Text → Text
  pub parse_date : Text → Option ℕ
  pub hash : ContentCore → Text
  pub update_icon : Cache → IconInputs → List (IconFile × Body) × Bool

pub data Effect : Type 0 where
  put_file : Text → Body → Effect
  append_event : NewEvent → Effect

pub record Session : Type 0 where
  pub cache : Cache
  pub effects : List Effect
  pub requests : ℕ
  pub points : ℕ

unfoldable pub put_body : Session → Text → Body → Session
put_body s key body = record s {
  cache = put s.cache key body;
  effects = s.effects ++ put_file key body ∷ [];
}

unfoldable pub append : Session → NewEvent → Session
append s event = record s { effects = s.effects ++ append_event event ∷ [] }

abbrev pub refresh_after_days : ℕ
refresh_after_days = 30

abbrev pub max_manifest_bytes : ℕ
max_manifest_bytes = 262144

abbrev pub cost {ℓ} : {A : Type ℓ} → Conditional A → ℕ
cost not_modified = 0
cost _ = 1

-- `call`, once the answer is there.
unfoldable pub count_call {ℓ} : {A : Type ℓ} → Session → Conditional A → Session
count_call s answer = record s { requests = s.requests + 1; points = s.points + cost answer }

abbrev pub meta_of : Option Body → Option FetchMeta
meta_of (some (fetch_json m)) = some m
meta_of _ = none

abbrev pub readme_of : Option Body → Option Text
readme_of (some (markdown t)) = some t
readme_of _ = none

abbrev pub tree_of : Option Body → Option TreeJson
tree_of (some (tree_json t)) = some t
tree_of _ = none

unfoldable pub expired : (Text → Option ℕ) → Text → ℕ → Bool
expired parse fetched_at now = elim (parse fetched_at) [
  | none ↦ true
  | some at ↦ ltb now at || ltb (refresh_after_days * 86400000) (now - at)
]

abbrev pub no_etags : Etags
no_etags = record { repo = none; readme = none; tree = none; releases = none }

unfoldable pub usable_etags : (Text → Option ℕ) → Option FetchMeta → ℕ → Etags
unfolding expired
usable_etags parse none now = no_etags
usable_etags parse (some m) now = if expired parse m.fetched_at now then no_etags else m.etags

abbrev pub default_to {ℓ} : {A : Type ℓ} → A → Option A → A
default_to fallback none = fallback
default_to fallback (some a) = a

abbrev pub etag_after {ℓ} : {A : Type ℓ} → Conditional A → Option Text → Option Text
etag_after (modified _ etag) old = etag
etag_after _ old = old

-- How many bytes a character takes in UTF-8.
abbrev pub utf8_width : ℕ → ℕ
utf8_width c = if ltb c 128 then 1 else if ltb c 2048 then 2 else if ltb c 65536 then 3 else 4

unfoldable pub byte_length : Text → ℕ
byte_length [] = 0
byte_length (c ∷ cs) = utf8_width c + byte_length cs

abbrev pub branch_of : RepoJson → Text
branch_of json = default_to (codes "main") json.default_branch

unfoldable pub content_core : RepoJson → Option Text → List Text → ContentCore
content_core json read paths = record {
  description = json.description;
  topics = sort_topics (default_to [] json.topics);
  homepage = json.homepage;
  archived = default_to false json.archived;
  license = json.license;
  default_branch = json.default_branch;
  readme = default_to [] read;
  tree = sort_topics paths;
}

abbrev pub reason_text : SkipReason → Text
reason_text is_fork = codes "fork"
reason_text archived_stale = codes "archived-stale"
