-- ===== src/Core/Events.antt =====
-- packages/core/src/events.ts: what the journal holds. A confidence is in hundredths.
use keco.Prelude.{
  ℕ, ◌≡◌, refl, Bool, true, false, ◌&&◌, ◌||◌, Option, [], ◌∷◌, leb, ◌==◌, if◌then◌else◌,
}
use keco.Prelude.Text.{Text, codes}
use keco.DataStore.Port.{is_id_char}

pub data Phase : Type 0 where
  crawl analyze project : Phase

pub data NewEvent : Type 0 where
  repo_discovered : Text → Text → NewEvent
  repo_fetched : Text → Text → Bool → NewEvent
  repo_analyzed : Text → Text → ℕ → Bool → NewEvent
  repo_skipped : Text → Text → NewEvent
  repo_failed : Text → Phase → Text → NewEvent

pub record Event : Type 0 where
  pub id : Text
  pub ts : Text
  pub body : NewEvent

pub record Checkpoint : Type 0 where
  pub consumer : Text
  pub last_event_id : Option Text
  pub updated_at : Text

-- The class `[A-Za-z0-9._-]`.
abbrev is_ref_char : ℕ → Bool
is_ref_char c = is_id_char c || c == b'.'

-- What is left of `[A-Za-z0-9._-]+` from a text on; the flag says that a character stood before.
is_name : Bool → Text → Bool
is_name some_before [] = some_before
is_name some_before (c ∷ cs) = is_ref_char c && is_name true cs

-- `RepoRef`: a name, a slash and a name.
is_ref_from : Bool → Text → Bool
unfolding is_name
is_ref_from some_before [] = false
is_ref_from some_before (c ∷ cs) =
    let rest = is_ref_from true cs in
    if c == b'/' then some_before && is_name false cs else is_ref_char c && rest

unfoldable pub is_repo_ref : Text → Bool
unfolding is_ref_from
is_repo_ref repo = is_ref_from false repo

abbrev pub repo_of : NewEvent → Text
repo_of (repo_discovered repo source) = repo
repo_of (repo_fetched repo hash changed) = repo
repo_of (repo_analyzed repo hash confidence partial) = repo
repo_of (repo_skipped repo reason) = repo
repo_of (repo_failed repo phase error) = repo

-- What `Event.parse` asks beyond the types, where a confidence is at most 1.
unfoldable pub is_event : NewEvent → Bool
unfolding is_repo_ref
is_event (repo_analyzed repo hash confidence partial) = is_repo_ref repo && leb confidence 100
is_event (repo_discovered repo source) = is_repo_ref repo
is_event (repo_fetched repo hash changed) = is_repo_ref repo
is_event (repo_skipped repo reason) = is_repo_ref repo
is_event (repo_failed repo phase error) = is_repo_ref repo

refs :
    (is_repo_ref (codes "argoproj/argo-cd") ≡ true)
    × (is_repo_ref (codes "argoproj") ≡ false)
    × (is_repo_ref (codes "a/b/c") ≡ false)
    × (is_repo_ref (codes "/b") ≡ false)
unfolding is_repo_ref
refs = (refl, refl, refl, refl)
