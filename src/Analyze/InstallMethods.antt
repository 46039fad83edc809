-- ===== src/Analyze/InstallMethods.antt =====
-- packages/analyze/src/signals.ts: the install method that an Artifact Hub package gives. `lower`
-- stands for toLowerCase, `protocol` for that of `new URL`, `none` where it throws, and `encode` for
-- encodeURIComponent.
pub mod Shell
pub mod Best
pub mod Chosen
mod Examples
use keco.Prelude.{
  ℕ, ◌+◌, Bool, true, false, not, ◌&&◌, ◌||◌, Option, none, some, List, [], ◌∷◌, ltb, leb, ◌==◌,
  if◌then◌else◌, ◌++◌,
}
use keco.Prelude.Text.{Text, codes, text_eq}

pub data RepositoryKind : Type 0 where
  helm krew other : RepositoryKind

pub record ArtifactHubPackage : Type 0 where
  pub name : Text
  pub normalized_name : Option Text
  pub repository_name : Option Text
  pub kind : RepositoryKind
  pub url : Option Text
  pub official : Option Bool
  pub stars : Option ℕ

abbrev pub is_letter_or_digit : ℕ → Bool
is_letter_or_digit c =
    (leb b'a' c && leb c b'z') || (leb b'A' c && leb c b'Z') || (leb b'0' c && leb c b'9')

abbrev pub is_slug_char : ℕ → Bool
is_slug_char c = is_letter_or_digit c || c == b'.' || c == b'_' || c == b'-'

unfoldable pub all_slug_chars : Text → Bool
all_slug_chars [] = true
all_slug_chars (c ∷ cs) = is_slug_char c && all_slug_chars cs

-- `/^[a-z0-9][a-z0-9._-]*$/i`
unfoldable pub is_safe_slug : Text → Bool
unfolding all_slug_chars
is_safe_slug [] = false
is_safe_slug (c ∷ cs) = is_letter_or_digit c && all_slug_chars cs

abbrev pub is_slug : Option Text → Bool
is_slug none = false
is_slug (some t) = is_safe_slug t

abbrev is_https : Option Text → Bool
is_https none = false
is_https (some p) = text_eq p (codes "https:")

abbrev pub is_safe_https_url : (Text → Option Text) → Option Text → Bool
is_safe_https_url protocol none = false
is_safe_https_url protocol (some u) = is_https (protocol u)

-- A helm repository has a safe URL, and a krew one needs none.
abbrev pub has_safe_kind : (Text → Option Text) → RepositoryKind → Option Text → Bool
has_safe_kind protocol helm url = is_safe_https_url protocol url
has_safe_kind protocol krew url = true
has_safe_kind protocol other url = false

-- The quote, a backslash, and `'\''`
abbrev pub quote : ℕ
quote = 39

abbrev pub backslash : ℕ
backslash = 92

unfoldable pub escape : Text → Text
escape [] = []
escape (c ∷ cs) =
    let rest = escape cs in
    if c == quote then quote ∷ backslash ∷ quote ∷ quote ∷ rest else c ∷ rest

unfoldable pub shell_quote : Text → Text
unfolding escape
shell_quote value = quote ∷ (escape value ++ (quote ∷ []))

unfoldable pub is_candidate :
    (Text → Text) → (Text → Option Text) → Text → ArtifactHubPackage → Bool
unfolding is_safe_slug
is_candidate lower protocol repo_name p =
    text_eq (lower p.name) (lower repo_name)
    && is_slug p.normalized_name
    && is_slug p.repository_name
    && has_safe_kind protocol p.kind p.url

abbrev pub is_official : Option Bool → Bool
is_official none = false
is_official (some b) = b

abbrev pub stars_of : Option ℕ → ℕ
stars_of none = 0
stars_of (some n) = n

abbrev pub ranks_before : Bool → ℕ → Bool → ℕ → Bool
ranks_before true n false m = true
ranks_before false n true m = false
ranks_before true n true m = ltb m n
ranks_before false n false m = ltb m n

-- Whether the comparison of `sort` puts a package before another.
unfoldable pub is_before : ArtifactHubPackage → ArtifactHubPackage → Bool
is_before p q =
    ranks_before (is_official p.official) (stars_of p.stars) (is_official q.official)
      (stars_of q.stars)

-- The first of the sorted candidates, of those seen and those that follow.
unfoldable pub best_from :
    (ArtifactHubPackage → Bool)
    → Option ArtifactHubPackage
    → List ArtifactHubPackage
    → Option ArtifactHubPackage
unfolding is_before
best_from is_fine best [] = best
best_from is_fine none (p ∷ ps) = best_from is_fine (if is_fine p then some p else none) ps
best_from is_fine (some b) (p ∷ ps) =
    best_from is_fine (if is_fine p && is_before p b then some p else some b) ps

unfoldable pub best_artifact_hub_match :
    (Text → Text)
    → (Text → Option Text)
    → List ArtifactHubPackage
    → Text
    → Option ArtifactHubPackage
unfolding best_from is_candidate
best_artifact_hub_match lower protocol packages repo_name =
    best_from (is_candidate lower protocol repo_name) none packages

abbrev pub or_empty : Option Text → Text
or_empty none = []
or_empty (some t) = t

abbrev pub space_then : Text → Text
space_then t = b' ' ∷ t

unfoldable pub helm_command : Text → Text → Text → Text → Text
unfolding shell_quote
helm_command repository url repo_name chart =
    codes "helm repo add "
    ++ (repository
        ++ (b' '
            ∷ (shell_quote url
                ++ (10
                    ∷ (codes "helm install "
                        ++ (repo_name ++ (b' ' ∷ (repository ++ (b'/' ∷ chart)))))))))

unfoldable pub command_of : RepositoryKind → ArtifactHubPackage → Text → Text
unfolding helm_command
command_of helm p repo_name =
    helm_command (or_empty p.repository_name) (or_empty p.url) repo_name
      (or_empty p.normalized_name)
command_of krew p repo_name = codes "kubectl krew install " ++ or_empty p.normalized_name
command_of other p repo_name = codes "kubectl krew install " ++ or_empty p.normalized_name
