-- ===== src/Discovery/Collections.antt =====
-- apps/workers/src/discovery/store/collections.ts: discovery's documents, and the ids they go by.
-- Instants are milliseconds since 1970.
pub mod Slug
use keco.Prelude.{
  ℕ, zero, suc, ◌+◌, ◌-◌, String, Bool, true, false, not, ◌&&◌, ◌||◌, Option, none, some, List, [],
  ◌∷◌, ◌++◌, map, leb, ltb, ◌==◌, if◌then◌else◌, length, take,
}
use keco.Prelude.Text.{Text, codes, show}
use keco.Prelude.Int.{ℤ, pos, negsuc, sub_ℕ}
use keco.DataStore.Values.{
  Value, null, bool, num, neg, text, arr, obj, Items, nil, cons, Fields, end, entry, Document,
  text_lt,
}
use keco.DataStore.Port.{CollectionSpec}
use keco.Github.Item.{SearchItem, Owner, License}
use keco.Discovery.Clock.{to_iso_string}
use keco.Discovery.Windows.{Created, years, year, quarter, month, day, Window}

abbrev pub repos : String
repos = "discovery_repos"

abbrev pub runs : String
runs = "discovery_runs"

abbrev pub state : String
state = "discovery_state"

abbrev pub discovery_collections : List CollectionSpec
discovery_collections =
    record {
      name = repos;
      primary_key = "id";
      searchable = "name" ∷ "full_name" ∷ "description" ∷ "topics" ∷ [];
      filterable = "query_slug" ∷ "archived" ∷ "fork" ∷ "language" ∷ "owner" ∷ [];
      sortable = "stars" ∷ "pushed_at" ∷ [];
    }
    ∷ record {
      name = runs;
      primary_key = "run_id";
      searchable = [];
      filterable = "query_slug" ∷ "outcome" ∷ [];
      sortable = "started_at" ∷ "duration_ms" ∷ "repos_new" ∷ "pages_fetched" ∷ [];
    }
    ∷ record {
      name = state;
      primary_key = "query_slug";
      searchable = [];
      filterable = "query_slug" ∷ [];
      sortable = "updated_at" ∷ [];
    }
    ∷ []

unfoldable pub repo_document_id : Text → ℕ → Text
repo_document_id query_slug repo_id = query_slug ++ b'_' ∷ show repo_id

-- The hashed part of a `DetailDoc`.
pub record Content : Type 0 where
  pub repo_id : ℕ
  pub full_name : Text
  pub name : Text
  pub owner : Text
  pub description : Option Text
  pub homepage : Option Text
  pub stars : ℕ
  pub forks : ℕ
  pub open_issues : ℕ
  pub language : Option Text
  pub license : Option Text
  pub topics : List Text
  pub archived : Bool
  pub fork : Bool
  pub default_branch : Text
  pub created_at : Text
  pub updated_at : Text
  pub pushed_at : Option Text

pub record DetailDoc : Type 0 where
  pub content : Content
  pub open content use *
  pub discovered_via : Text
  pub discovered_at : Text
  pub payload_hash : Text

-- `[...topics].sort()`: by code units, stably.
insert_topic : Text → List Text → List Text
insert_topic t [] = t ∷ []
insert_topic t (u ∷ us) =
    let rest = insert_topic t us in if text_lt u t then u ∷ rest else t ∷ u ∷ us

unfoldable pub sort_topics : List Text → List Text
unfolding insert_topic
sort_topics [] = []
sort_topics (t ∷ ts) = insert_topic t (sort_topics ts)

-- `full_name.split('/')[0] ?? ''`
before_slash : Text → Text
before_slash [] = []
before_slash (c ∷ cs) = let rest = before_slash cs in if c == b'/' then [] else c ∷ rest

owner_of : SearchItem → Text
owner_of item = elim item.owner [ none ↦ before_slash item.full_name | some owner ↦ owner.login ]

license_of : SearchItem → Option Text
license_of item = elim item.license [ none ↦ none | some license ↦ license.spdx_id ]

unfoldable pub content_of : SearchItem → Content
unfolding owner_of license_of before_slash sort_topics
content_of item = record {
  repo_id = item.id;
  full_name = item.full_name;
  name = item.name;
  owner = owner_of item;
  description = item.description;
  homepage = item.homepage;
  stars = item.stargazers_count;
  forks = item.forks_count;
  open_issues = item.open_issues_count;
  language = item.language;
  license = license_of item;
  topics = sort_topics item.topics;
  archived = item.archived;
  fork = item.fork;
  default_branch = item.default_branch;
  created_at = item.created_at;
  updated_at = item.updated_at;
  pushed_at = item.pushed_at;
}

-- `hash` stands for the SHA-256 of the content's JSON, in hexadecimal, cut to 32 digits.
unfoldable pub to_detail : (Content → Text) → SearchItem → Text → Text → DetailDoc
unfolding content_of
to_detail hash item via discovered_at = record {
  content = content_of item;
  discovered_via = via;
  discovered_at = discovered_at;
  payload_hash = hash (content_of item);
}

pub record RepoDocumentContext : Type 0 where
  pub query : Text
  pub query_slug : Text
  pub run_id : Text
  pub first_seen_run_id : Text

abbrev nullable : Option Text → Value
nullable none = null
nullable (some t) = text t

abbrev pub text_items : List Text → Items
text_items [] = nil
text_items (t ∷ ts) = cons (text t) (text_items ts)

unfoldable pub to_repo_document : DetailDoc → RepoDocumentContext → Document
unfolding repo_document_id
to_repo_document d context =
    ("repo_id", num d.repo_id)
    ∷ ("full_name", text d.full_name)
    ∷ ("name", text d.name)
    ∷ ("owner", text d.owner)
    ∷ ("description", nullable d.description)
    ∷ ("homepage", nullable d.homepage)
    ∷ ("stars", num d.stars)
    ∷ ("forks", num d.forks)
    ∷ ("open_issues", num d.open_issues)
    ∷ ("language", nullable d.language)
    ∷ ("license", nullable d.license)
    ∷ ("topics", arr (text_items d.topics))
    ∷ ("archived", bool d.archived)
    ∷ ("fork", bool d.fork)
    ∷ ("default_branch", text d.default_branch)
    ∷ ("created_at", text d.created_at)
    ∷ ("updated_at", text d.updated_at)
    ∷ ("pushed_at", nullable d.pushed_at)
    ∷ ("discovered_via", text d.discovered_via)
    ∷ ("discovered_at", text d.discovered_at)
    ∷ ("payload_hash", text d.payload_hash)
    ∷ ("id", text (repo_document_id context.query_slug d.repo_id))
    ∷ ("query", text context.query)
    ∷ ("query_slug", text context.query_slug)
    ∷ ("first_seen_run_id", text context.first_seen_run_id)
    ∷ ("last_seen_run_id", text context.run_id)
    ∷ []

pub record FailedWindow : Type 0 where
  pub window : Text
  pub error : Text

pub record DiscoveryState : Type 0 where
  pub query : Text
  pub started_at : Text
  pub pending_windows : List Window
  pub completed_windows : List Text
  pub failed_windows : List FailedWindow
  pub repos_seen : ℕ
  pub pages_fetched : ℕ
  pub dropped : ℕ

abbrev pub created_value : Created → Value
created_value (years from to) =
    obj (entry "kind" (text (codes "years")) (entry "from" (num from) (entry "to" (num to) end)))
created_value (year y) = obj (entry "kind" (text (codes "year")) (entry "year" (num y) end))
created_value (quarter y q) =
    obj (entry "kind" (text (codes "quarter")) (entry "year" (num y) (entry "quarter" (num q) end)))
created_value (month y m) =
    obj (entry "kind" (text (codes "month")) (entry "year" (num y) (entry "month" (num m) end)))
created_value (day date) = obj (entry "kind" (text (codes "day")) (entry "date" (text date) end))

abbrev pub nullable_created : Option Created → Value
nullable_created none = null
nullable_created (some c) = created_value c

abbrev pub window_value : Window → Value
window_value w = obj (
    entry "base" (text w.base)
      (entry "stars" (text w.stars) (entry "created" (nullable_created w.created) end)))

abbrev pub window_items : List Window → Items
window_items [] = nil
window_items (w ∷ ws) = cons (window_value w) (window_items ws)

abbrev pub failed_items : List FailedWindow → Items
failed_items [] = nil
failed_items (f ∷ fs) =
    cons (obj (entry "window" (text f.window) (entry "error" (text f.error) end))) (failed_items fs)

unfoldable pub to_state_document : DiscoveryState → Text → Text → ℕ → Document
to_state_document s query_slug run_id now =
    ("query_slug", text query_slug)
    ∷ ("query", text s.query)
    ∷ ("started_at", text s.started_at)
    ∷ ("updated_at", text (to_iso_string now))
    ∷ ("current_run_id", text run_id)
    ∷ ("pending_windows", arr (window_items s.pending_windows))
    ∷ ("completed_windows", arr (text_items s.completed_windows))
    ∷ ("failed_windows", arr (failed_items s.failed_windows))
    ∷ ("repos_seen", num s.repos_seen)
    ∷ ("pages_fetched", num s.pages_fetched)
    ∷ ("dropped", num s.dropped)
    ∷ []

pub data RunOutcome : Type 0 where
  running complete failed interrupted : RunOutcome

abbrev outcome_text : RunOutcome → Text
outcome_text running = codes "running"
outcome_text complete = codes "complete"
outcome_text failed = codes "failed"
outcome_text interrupted = codes "interrupted"

abbrev pub max_recorded_failed_windows : ℕ
max_recorded_failed_windows = 50

pub record RunCounts : Type 0 where
  pub new : ℕ
  pub changed : ℕ
  pub unchanged : ℕ

pub record RunDocumentInput : Type 0 where
  pub run_id : Text
  pub query : Text
  pub query_slug : Text
  pub started_at : ℕ
  pub fresh : Bool
  pub limit : Option ℕ
  pub outcome : RunOutcome
  pub ended_at : Option ℕ
  pub counts : RunCounts
  pub pages_fetched : ℤ
  pub dropped : ℤ
  pub windows_completed : ℤ
  pub windows_failed : ℤ
  pub sweep_repos_total : ℕ
  pub sweep_windows_pending : ℕ
  pub stopped_at_limit : Bool
  pub failed_windows : List FailedWindow

abbrev number : ℤ → Value
number (pos n) = num n
number (negsuc n) = neg n

unfoldable pub to_run_document : RunDocumentInput → Document
to_run_document r =
    ("run_id", text r.run_id)
    ∷ ("query", text r.query)
    ∷ ("query_slug", text r.query_slug)
    ∷ ("started_at", text (to_iso_string r.started_at))
    ∷ ("ended_at", elim r.ended_at [ none ↦ null | some t ↦ text (to_iso_string t) ])
    ∷ ("duration_ms", elim r.ended_at [ none ↦ null | some t ↦ number (sub_ℕ t r.started_at) ])
    ∷ ("outcome", text (outcome_text r.outcome))
    ∷ ("fresh", bool r.fresh)
    ∷ ("limit", elim r.limit [ none ↦ null | some n ↦ num n ])
    ∷ ("pages_fetched", number r.pages_fetched)
    ∷ ("dropped", number r.dropped)
    ∷ ("repos_new", num r.counts.new)
    ∷ ("repos_changed", num r.counts.changed)
    ∷ ("repos_unchanged", num r.counts.unchanged)
    ∷ ("windows_completed", number r.windows_completed)
    ∷ ("windows_failed", number r.windows_failed)
    ∷ ("sweep_repos_total", num r.sweep_repos_total)
    ∷ ("sweep_windows_pending", num r.sweep_windows_pending)
    ∷ ("stopped_at_limit", bool r.stopped_at_limit)
    ∷ ("failed_windows", arr (failed_items (take max_recorded_failed_windows r.failed_windows)))
    ∷ []
