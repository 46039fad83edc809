-- ===== src/Web/Examples.antt =====
-- Runs of apps/web/src/lib/spelling.ts, and its theorems at them.
use keco.Prelude.{◌≡◌, ◌≤◌, suc, refl, false, List, [], ◌∷◌, All, length, min}
use keco.Prelude.Text.{Text, codes, text_eq}
use keco.Core.Read.{includes, is_empty}
use keco.Core.Read.Urls.{trim, trim_start, trim_end}
use keco.Web.Spelling.{edit_distance, rows, next_row, first_row, fill, row_best, entry}
use keco.Web.Spelling.Levenshtein.{levenshtein}
use keco.Web.Spelling.Distance.{edit_distance-levenshtein}
use keco.Web.Suggest.{
  terms, joined, suggest_queries, candidates_of, correct_all, correct, add_all, add, add_best,
  nearest, closer, tolerance_for, replaced, pieces, nonempty_pieces,
}
use keco.Web.Suggest.Laws.{AreUnique, IsSuggestion, suggest_queries-AreSuggestions}

abbrev as_is : Text → Text
as_is t = t

abbrev vocab : List Text
vocab = codes "police" ∷ codes "networking" ∷ codes "policy" ∷ []

two_edits : edit_distance (codes "netwoking") (codes "networking") 2 ≡ 1
unfolding edit_distance rows next_row first_row fill row_best entry text_eq
two_edits = refl

past_the_bound : edit_distance (codes "helm") (codes "kind") 1 ≡ 2
unfolding edit_distance rows next_row first_row fill row_best entry text_eq
past_the_bound = refl

corrected_then_single :
    suggest_queries as_is vocab (codes "netwoking policy") 4
    ≡ codes "networking policy" ∷ codes "netwoking" ∷ codes "policy" ∷ []
unfolding suggest_queries terms candidates_of correct_all correct add_all add add_best nearest
    closer tolerance_for replaced pieces nonempty_pieces joined trim trim_start trim_end includes
    edit_distance rows next_row first_row fill row_best entry text_eq
corrected_then_single = refl

edit_distance-levenshtein_example :
    min (edit_distance (codes "netwoking") (codes "networking") 2) (suc 2)
    ≡ min (levenshtein (codes "netwoking") (codes "networking")) (suc 2)
edit_distance-levenshtein_example =
    edit_distance-levenshtein (codes "netwoking") (codes "networking") 2

suggest_queries-AreSuggestions_example :
    let words = terms as_is (codes "netwoking policy") in
    let proposals = suggest_queries as_is vocab (codes "netwoking policy") 4 in
    (length proposals ≤ 4)
    × AreUnique proposals
    × All (λ c. is_empty c ≡ false) proposals
    × (includes proposals (joined words) ≡ false)
    × All (IsSuggestion vocab words) proposals
suggest_queries-AreSuggestions_example =
    suggest_queries-AreSuggestions as_is vocab (codes "netwoking policy") 4
