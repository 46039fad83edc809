-- ===== src/Web/Suggest.antt =====
-- suggestQueries of apps/web/src/lib/spelling.ts: what the portal proposes for a query without
-- hits. `lower` stands for toLowerCase; a text is its UTF-16 code units.
pub mod Nearest
pub mod Laws
use keco.Prelude.{
  ℕ, suc, ◌+◌, Bool, true, false, ◌&&◌, ◌||◌, not, Option, none, some, List, [], ◌∷◌, ◌++◌, take,
  if◌then◌else◌, ltb, leb, ◌==◌, length,
}
use keco.Prelude.Text.{Text, codes, text_eq}
use keco.Core.Taxonomy.{TaxonomyFamily, TaxonomyValue, values_for, facetable_families}
use keco.Core.Read.{is_empty, includes}
use keco.Core.Read.Urls.{is_space, trim, ◌>>=◌}
use keco.Web.Spelling.{edit_distance}

abbrev is_separator : ℕ → Bool
is_separator c = is_space c || c == b'-' || c == b'_' || c == b'/'

abbrev join_first : ℕ → List Text → List Text
join_first c [] = (c ∷ []) ∷ []
join_first c (t ∷ ts) = (c ∷ t) ∷ ts

-- A split at each character that passes the test. The program splits at each run of them, and
-- drops the empty pieces, or the short ones.
unfoldable pub pieces : (ℕ → Bool) → Text → List Text
pieces at [] = [] ∷ []
pieces at (c ∷ cs) = let rest = pieces at cs in if at c then [] ∷ rest else join_first c rest

-- The pieces that are long enough, without repeats, in the order of a `Set`.
unfoldable pub add_words : List Text → List Text → List Text
add_words set [] = set
add_words set (w ∷ ws) =
    add_words (if leb 4 (length w) && not (includes set w) then set ++ w ∷ [] else set) ws

unfoldable pub value_words : (Text → Text) → List Text → List TaxonomyValue → List Text
unfolding add_words pieces
value_words lower set [] = set
value_words lower set (v ∷ vs) =
    value_words lower (add_words set (pieces is_separator (lower (v.id ++ (codes " " ++ v.label)))))
      vs

unfoldable pub family_words :
    (Text → Text) → List TaxonomyFamily → List Text → List Text → Option (List Text)
unfolding value_words
family_words lower taxonomy set [] = some set
family_words lower taxonomy set (id ∷ ids) = do
  values ← values_for taxonomy id
  family_words lower taxonomy (value_words lower set values) ids

-- `none` is the throw for an unknown family. The program keeps the list after the first call.
unfoldable pub vocabulary : (Text → Text) → List TaxonomyFamily → Option (List Text)
unfolding family_words
vocabulary lower taxonomy = family_words lower taxonomy [] (facetable_families taxonomy)

unfoldable pub tolerance_for : Text → ℕ
tolerance_for word = if leb 8 (length word) then 2 else if leb 5 (length word) then 1 else 0

unfoldable pub nonempty_pieces : List Text → List Text
nonempty_pieces [] = []
nonempty_pieces (w ∷ ws) = let rest = nonempty_pieces ws in if is_empty w then rest else w ∷ rest

unfoldable pub terms : (Text → Text) → Text → List Text
unfolding nonempty_pieces pieces
terms lower query = nonempty_pieces (pieces is_space (lower (trim query)))

-- `words.join(' ')`
unfoldable pub joined : List Text → Text
joined [] = []
joined (w ∷ []) = w
joined (w ∷ v ∷ ws) = w ++ b' ' ∷ joined (v ∷ ws)

pub record Candidates : Type 0 where
  pub candidates : List Text
  pub seen : List Text

unfoldable pub add : Candidates → Text → Candidates
add s candidate =
    if is_empty candidate || includes s.seen candidate
    then s
    else record { candidates = s.candidates ++ candidate ∷ []; seen = candidate ∷ s.seen }

abbrev pub Best : Type 0
Best = Option (Text × ℕ)

abbrev is_nearer : ℕ → Best → Bool
is_nearer distance none = true
is_nearer distance (some (w, best)) = ltb distance best

unfoldable pub closer : ℕ → ℕ → Text → Best → Best
closer tolerance distance candidate best =
    if leb distance tolerance && is_nearer distance best then some (candidate, distance) else best

-- The loop over the vocabulary, which a word of it ends with `null`.
unfoldable pub nearest : Text → ℕ → List Text → Best → Best
unfolding closer
nearest word tolerance [] best = best
nearest word tolerance (c ∷ cs) best =
    let rest =
      nearest word tolerance cs (closer tolerance (edit_distance word c tolerance) c best) in
    if text_eq c word then none else rest

-- `words.map((entry, at) => (at === index ? best.word : entry))`
unfoldable pub replaced : ℕ → ℕ → Text → List Text → List Text
replaced at index by [] = []
replaced at index by (w ∷ ws) = (if at == index then by else w) ∷ replaced (suc at) index by ws

unfoldable pub add_best : List Text → ℕ → Best → Candidates → Candidates
unfolding add joined replaced
add_best words index none s = s
add_best words index (some (w, distance)) s = add s (joined (replaced 0 index w words))

unfoldable pub correct : List Text → List Text → ℕ → Text → Candidates → Candidates
unfolding add_best nearest tolerance_for
correct vocab words index word s =
    if tolerance_for word == 0
    then s
    else add_best words index (nearest word (tolerance_for word) vocab none) s

unfoldable pub correct_all : List Text → List Text → ℕ → List Text → Candidates → Candidates
unfolding correct
correct_all vocab words index [] s = s
correct_all vocab words index (w ∷ ws) s =
    correct_all vocab words (suc index) ws (correct vocab words index w s)

unfoldable pub add_all : List Text → Candidates → Candidates
unfolding add
add_all [] s = s
add_all (w ∷ ws) s = add_all ws (add s w)

unfoldable pub candidates_of : List Text → List Text → Candidates
unfolding correct_all add_all joined
candidates_of vocab words =
    let s =
      correct_all vocab words 0 words (record { candidates = []; seen = joined words ∷ [] }) in
    if ltb 1 (length words) then add_all words s else s

-- `vocab` is what `vocabulary` returns.
unfoldable pub suggest_queries : (Text → Text) → List Text → Text → ℕ → List Text
unfolding terms candidates_of
suggest_queries lower vocab query limit =
    let words = terms lower query in
    if is_empty words then [] else take limit (candidates_of vocab words).candidates
