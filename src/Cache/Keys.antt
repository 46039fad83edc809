-- ===== src/Cache/Keys.antt =====
-- packages/cache/src/keys.ts: every key of the write model.
use keco.Prelude.{ℕ, ◌≡◌, ◌≢◌, false, [], ◌∷◌, ◌++◌, take}
use keco.Prelude.Text.{Text, codes, show, append_cancel_left, text_eq, text_eq_iff}
use keco.Discovery.Clock.{to_iso_string}

-- The keys of `repoKeys` under `repos/{repo}/`, by their file.
pub data RepoFile : Type 0 where
  repo readme readme_meta tree releases fetch icon_source icon_meta : RepoFile
  manifest : Text → RepoFile
  icon : ℕ → RepoFile

abbrev pub file_name : RepoFile → Text
file_name repo = codes "repo.json"
file_name readme = codes "readme.md"
file_name readme_meta = codes "readme.json"
file_name tree = codes "tree.json"
file_name releases = codes "releases.json"
file_name (manifest file) = codes "manifests/" ++ file
file_name fetch = codes "_fetch.json"
file_name icon_source = codes "icon.src"
file_name (icon size) = codes "icon-" ++ (show size ++ codes ".png")
file_name icon_meta = codes "icon.json"

unfoldable pub repo_key : Text → RepoFile → Text
repo_key name file = codes "repos/" ++ (name ++ (b'/' ∷ file_name file))

-- `externalKey`, where `encode` stands for `encodeURIComponent`.
unfoldable pub external_key : (Text → Text) → Text → Text → Text
external_key encode provider key =
    codes "external/" ++ (provider ++ (b'/' ∷ (encode key ++ codes ".json")))

unfoldable pub analysis_key : Text → Text
analysis_key name = codes "analysis/" ++ (name ++ codes ".json")

unfoldable pub journal_day_prefix : Text → Text
journal_day_prefix day = codes "journal/" ++ (day ++ codes "/")

unfoldable pub journal_key : Text → Text → Text
journal_key day id = codes "journal/" ++ (day ++ (b'/' ∷ (id ++ codes ".json")))

unfoldable pub checkpoint_key : Text → Text
checkpoint_key consumer = codes "checkpoints/" ++ (consumer ++ codes ".json")

-- `date.toISOString().slice(0, 10)`
unfoldable pub day_of : ℕ → Text
day_of date = take 10 (to_iso_string date)

-- Two files of one repository have one key only where they have one name.
pub repo_key-file_name :
    (name : Text) (a b : RepoFile) → repo_key name a ≡ repo_key name b → file_name a ≡ file_name b
unfolding repo_key
repo_key-file_name name a b e =
    append_cancel_left (b'/' ∷ []) (append_cancel_left name (append_cancel_left (codes "repos/") e))

pub repo_key_differs :
    (name : Text) (a b : RepoFile) → file_name a ≢ file_name b → repo_key name a ≢ repo_key name b
repo_key_differs name a b differ = λ e. differ (repo_key-file_name name a b e)

-- No other file of a repository has the key of `_fetch.json`.
pub repo_key_not_fetch :
    (name : Text) (file : RepoFile)
    → text_eq (file_name file) (file_name fetch) ≡ false
    → repo_key name file ≢ repo_key name fetch
repo_key_not_fetch name file other =
    repo_key_differs name file fetch (λ e. cc (other, (text_eq_iff _ _).1 e))
