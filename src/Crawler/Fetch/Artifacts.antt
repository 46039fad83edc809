-- ===== src/Crawler/Fetch/Artifacts.antt =====
-- What a fetch reads of GitHub's answers and writes to the cache: the types of
-- apps/workers/src/crawler/sources/github/fetch.ts, with readme.ts and manifests.ts beside it.
use keco.Prelude.{
  ℕ, ◌+◌, ◌-◌, Bool, not, ◌&&◌, ◌||◌, Option, none, some, List, [], ◌∷◌, ◌++◌, any, leb, ltb, ◌==◌,
  if◌then◌else◌, length, take, drop, count_if,
}
use keco.Prelude.Text.{Text, codes, text_eq}
use keco.DataStore.Values.{text_lt}

pub record RepoJson : Type 0 where
  pub avatar_url : Option Text
  pub description : Option Text
  pub homepage : Option Text
  pub topics : Option (List Text)
  pub archived : Option Bool
  pub fork : Option Bool
  pub stargazers_count : Option ℕ
  pub pushed_at : Option Text
  pub default_branch : Option Text
  pub license : Option Text

pub record TreeEntry : Type 0 where
  pub path : Option Text
  pub kind : Option Text

pub record TreeJson : Type 0 where
  pub entries : Option (List TreeEntry)

pub record ReadmeResponse : Type 0 where
  pub path : Option Text
  pub content : Option Text
  pub encoding : Option Text

pub record ReadmeMeta : Type 0 where
  pub path : Text
  pub branch : Text
  pub etag : Option Text
  pub image_base_url : Text

pub record Etags : Type 0 where
  pub repo : Option Text
  pub readme : Option Text
  pub tree : Option Text
  pub releases : Option Text

pub record FetchMeta : Type 0 where
  pub etags : Etags
  pub fetched_at : Text
  pub content_hash : Text
  pub source : Text
  pub manifests : List Text

-- `split('/')`, by its first part and the rest after the slash.
before_slash : Text → Text
before_slash [] = []
before_slash (c ∷ cs) = let rest = before_slash cs in if c == b'/' then [] else c ∷ rest

after_slash : Text → Text
after_slash [] = []
after_slash (c ∷ cs) = let rest = after_slash cs in if c == b'/' then cs else rest

unfoldable pub owner_of : Text → Text
unfolding before_slash
owner_of repo = before_slash repo

unfoldable pub name_of : Text → Text
unfolding before_slash after_slash
name_of repo = before_slash (after_slash repo)

abbrev has_slash : Text → Bool
has_slash = any (λ c. c == b'/')

-- Up to the last slash and with it, and from there on.
unfoldable pub directory_of : Text → Text
directory_of [] = []
directory_of (c ∷ cs) = let rest = directory_of cs in if has_slash (c ∷ cs) then c ∷ rest else []

unfoldable pub basename : Text → Text
basename [] = []
basename (c ∷ cs) = let rest = basename cs in if has_slash (c ∷ cs) then rest else c ∷ cs

unfoldable pub image_base_url : Text → Text → Text → Text
unfolding directory_of
image_base_url repo branch readme_path =
    codes "https://raw.githubusercontent.com/"
    ++ (repo ++ (b'/' ∷ (branch ++ (b'/' ∷ directory_of readme_path))))

-- `decode` stands for the decoding of base64 once white space is taken out.
unfoldable pub to_readme_artifacts :
    (Text → Text) → ReadmeResponse → Text → Text → Option Text → Option (Text × ReadmeMeta)
unfolding image_base_url
to_readme_artifacts decode response repo branch etag = elim response.path [
  | none ↦ none
  | some path ↦ elim response.content [
    | none ↦ none
    | some content ↦ elim response.encoding [
      | none ↦ none
      | some encoding ↦
          if text_eq path [] || not (text_eq encoding (codes "base64"))
          then none
          else some (
            decode content,
            record {
              path = path;
              branch = branch;
              etag = etag;
              image_base_url = image_base_url repo branch path;
            },
          )
    ]
  ]
]

abbrev pub manifest_files : List Text
manifest_files =
    codes "go.mod"
    ∷ codes "Chart.yaml"
    ∷ codes "package.json"
    ∷ codes "Cargo.toml"
    ∷ codes "pyproject.toml"
    ∷ []

abbrev pub max_manifests : ℕ
max_manifests = 6

abbrev chart_file : Text
chart_file = codes "Chart.yaml"

abbrev pub member : Text → List Text → Bool
member path = any (λ other. text_eq path other)

-- `path.endsWith('/Chart.yaml')`
abbrev ends_with_chart : Text → Bool
ends_with_chart path =
    leb 11 (length path) && text_eq (drop (length path - 11) path) (b'/' ∷ chart_file)

abbrev depth : Text → ℕ
depth path = count_if (λ c. c == b'/') path + 1

-- The comparison of `nestedChart`: shallower first, then by code units.
abbrev goes_before : Text → Text → Bool
goes_before a b = ltb (depth a) (depth b) || (depth a == depth b && text_lt a b)

-- The first of the candidates once they are sorted.
first_chart : Option Text → List Text → Option Text
first_chart best [] = best
first_chart none (p ∷ ps) =
    if ends_with_chart p then first_chart (some p) ps else first_chart none ps
first_chart (some b) (p ∷ ps) =
    if ends_with_chart p && goes_before p b
    then first_chart (some p) ps
    else first_chart (some b) ps

unfoldable pub nested_chart : List Text → Option Text
unfolding first_chart
nested_chart paths = first_chart none paths

unfoldable pub present_files : List Text → List Text → List Text
present_files [] paths = []
present_files (file ∷ files) paths =
    let rest = present_files files paths in if member file paths then file ∷ rest else rest

unfoldable pub select_manifests : List Text → List Text
unfolding nested_chart present_files
select_manifests paths =
    let selected = present_files manifest_files paths in
    take max_manifests (
      if member chart_file paths
      then selected
      else elim (nested_chart paths) [ none ↦ selected | some path ↦ selected ++ path ∷ [] ])

-- The paths of the blobs of a tree.
unfoldable pub blob_paths : List TreeEntry → List Text
blob_paths [] = []
blob_paths (e ∷ es) =
    let rest = blob_paths es in
    elim e.path [
      | none ↦ rest
      | some path ↦ elim e.kind [
        | none ↦ rest
        | some kind ↦
            if text_eq kind (codes "blob") && not (text_eq path []) then path ∷ rest else rest
      ]
    ]

unfoldable pub tree_paths : Option TreeJson → List Text
unfolding blob_paths
tree_paths none = []
tree_paths (some tree) = elim tree.entries [ none ↦ [] | some es ↦ blob_paths es ]
