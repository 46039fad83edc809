-- ===== src/Analyze/Patterns.antt =====
-- The tests on texts that the regular expressions of packages/analyze/src/rules spell.
use keco.Prelude.{
  ℕ, ◌+◌, Bool, true, false, not, ◌&&◌, ◌||◌, Option, none, some, List, [], ◌∷◌, leb, ◌==◌, map,
  if◌then◌else◌, any,
}
use keco.Prelude.Text.{Text, codes, text_eq}
use keco.Core.Read.Urls.{is_space}

-- What follows a prefix.
unfoldable pub after_prefix : Text → Text → Option Text
after_prefix [] t = some t
after_prefix (p ∷ ps) [] = none
after_prefix (p ∷ ps) (c ∷ cs) = let rest = after_prefix ps cs in if p == c then rest else none

abbrev is_some : Option Text → Bool
is_some none = false
is_some (some t) = true

-- `startsWith`, and a pattern that begins with `^`
unfoldable pub begins : Text → Text → Bool
unfolding after_prefix
begins p t = is_some (after_prefix p t)

-- Whether a test passes at some place of a text.
unfoldable pub somewhere : (Text → Bool) → Text → Bool
somewhere p [] = p []
somewhere p (c ∷ cs) = let rest = somewhere p cs in p (c ∷ cs) || rest

-- `includes`, and a pattern without anchors
unfoldable pub contains : Text → Text → Bool
unfolding somewhere begins
contains needle t = somewhere (begins needle) t

-- `endsWith`, and a pattern that ends with `$`
unfoldable pub ends : Text → Text → Bool
unfolding somewhere
ends suffix t = somewhere (text_eq suffix) t

abbrev pub is_line_end : ℕ → Bool
is_line_end c = c == 10 || c == 13 || c == 8232 || c == 8233

-- `^` with the flag `m`
unfoldable pub after_each : (ℕ → Bool) → (Text → Bool) → Text → Bool
after_each at p [] = false
after_each at p (c ∷ cs) = let rest = after_each at p cs in (at c && p cs) || rest

unfoldable pub at_some_line : (Text → Bool) → Text → Bool
unfolding after_each
at_some_line p t = p t || after_each is_line_end p t

unfoldable pub drop_spaces : Text → Text
drop_spaces [] = []
drop_spaces (c ∷ cs) = let rest = drop_spaces cs in if is_space c then rest else c ∷ cs

abbrev pub ascii_lower : ℕ → ℕ
ascii_lower c = if leb b'A' c && leb c b'Z' then c + 32 else c

-- A pattern of lower-case letters with the flag `i`
unfoldable pub contains_any_case : Text → Text → Bool
unfolding contains
contains_any_case needle t = contains needle (map ascii_lower t)

unfoldable pub is_one_of : List Text → Text → Bool
is_one_of ts t = any (λ u. text_eq u t) ts

-- `[^/]+\/Chart\.yaml$`
unfoldable pub is_folder_with_chart : Bool → Text → Bool
is_folder_with_chart started [] = false
is_folder_with_chart started (c ∷ cs) =
    let rest = is_folder_with_chart true cs in
    if c == b'/' then started && text_eq cs (codes "Chart.yaml") else rest

abbrev charts_after : Option Text → Bool
charts_after none = false
charts_after (some rest) = is_folder_with_chart false rest

unfoldable pub is_chart_in_folder : Text → Bool
unfolding is_folder_with_chart after_prefix
is_chart_in_folder t = charts_after (after_prefix (codes "charts/") t)

abbrev is_slash : ℕ → Bool
is_slash c = c == b'/'

unfoldable pub is_chart_yaml : Text → Bool
unfolding is_chart_in_folder after_each
is_chart_yaml path =
    text_eq path (codes "Chart.yaml")
    || is_chart_in_folder path
    || after_each is_slash is_chart_in_folder path

abbrev no_line_end : Text → Bool
no_line_end t = not (any is_line_end t)

abbrev yaml_after : Option Text → Bool
yaml_after none = false
yaml_after (some rest) = ends (codes ".yaml") rest && no_line_end rest

-- `/webhook.*\.yaml$/`
unfoldable pub is_webhook_yaml : Text → Bool
unfolding somewhere after_prefix ends
is_webhook_yaml path = somewhere (λ t. yaml_after (after_prefix (codes "webhook") t)) path

abbrev equals_after : Option Text → Bool
equals_after none = false
equals_after (some rest) = begins (codes "=") (drop_spaces rest)

-- `/^kube\s*=/m`
unfoldable pub has_kube_dependency : Text → Bool
unfolding at_some_line drop_spaces begins after_prefix
has_kube_dependency manifest =
    at_some_line (λ t. equals_after (after_prefix (codes "kube") t)) manifest
