-- ===== src/Web/Suggest/Laws.antt =====
-- What suggestQueries of apps/web/src/lib/spelling.ts proposes.
use keco.Prelude.{
  ℕ, zero, suc, ◌+◌, ◌≤◌, ◌<◌, ◌≡◌, refl, sym, ap, ◌∙◌, inl, inr, true, false, ◌||◌, Bool-cases,
  none, some, List, [], ◌∷◌, ◌++◌, append_assoc, arith, ◌==◌, ltb, ltb→lt, All, All-append, take,
  length, length-take-le, length-append,
}
use mathlib.Core.Path.{subst}
use keco.Prelude.Text.{Text, text_eq, text_eq_iff}
use keco.Core.Read.{includes, is_empty}
use keco.Core.Read.Toggle.{includes-snoc}
use keco.Web.Spelling.Levenshtein.{levenshtein}
use keco.Web.Suggest.{
  Best, Candidates, terms, joined, add, tolerance_for, replaced, add_best, correct, correct_all,
  add_all, candidates_of, suggest_queries,
}
use keco.Web.Suggest.Nearest.{IsNear, nearest-IsNear, nearest-known, includes-all}

-- A proposal for some words: the words with one corrected, or one of several words.
pub data IsSuggestion (vocab words : List Text) : Text → Type 0 where
  corrected :
      (before after : List Text) (w c : Text)
      → words ≡ before ++ w ∷ after
      → includes vocab w ≡ false
      → includes vocab c ≡ true
      → levenshtein w c ≤ tolerance_for w
      → (t : Text) → t ≡ joined (before ++ c ∷ after)
      → IsSuggestion vocab words t
  single : (w : Text) → includes words w ≡ true → 1 < length words → IsSuggestion vocab words w

abbrev pub AreUnique : List Text → Type 0
AreUnique [] = Unit
AreUnique (w ∷ ws) = (includes ws w ≡ false) × AreUnique ws

AreUnique-snoc :
    (ws : List Text) (c : Text) → AreUnique ws → includes ws c ≡ false → AreUnique (ws ++ c ∷ [])
unfolding includes
AreUnique-snoc [] c h k = (refl, tt)
AreUnique-snoc (w ∷ ws) c h k = (
  ground (arith, includes-snoc ws c w, text_eq_iff c w, text_eq_iff w c),
  AreUnique-snoc ws c h.1 (ground arith),
)

includes-take-false :
    (n : ℕ) (ws : List Text) (w : Text) → includes ws w ≡ false → includes (take n ws) w ≡ false
unfolding includes
includes-take-false zero ws w h = refl
includes-take-false (suc n) [] w h = refl
includes-take-false (suc n) (v ∷ ws) w h = ground (arith, includes-take-false n ws w)

AreUnique-take : (n : ℕ) (ws : List Text) → AreUnique ws → AreUnique (take n ws)
AreUnique-take zero ws h = tt
AreUnique-take (suc n) [] h = tt
AreUnique-take (suc n) (w ∷ ws) h = (includes-take-false n ws w h.0, AreUnique-take n ws h.1)

All-take : (P : Text → Type 0) (n : ℕ) (ws : List Text) → All P ws → All P (take n ws)
All-take P zero ws h = tt
All-take P (suc n) [] h = tt
All-take P (suc n) (w ∷ ws) h = (h.0, All-take P n ws h.1)

replaced-after :
    (at index : ℕ) (c : Text) (ws : List Text) → index < at → replaced at index c ws ≡ ws
unfolding replaced
replaced-after at index c [] h = refl
replaced-after at index c (w ∷ ws) h =
    ground (arith, replaced-after (suc at) index c ws (omega arith))

replaced-at :
    (before after : List Text) (w c : Text) (at index : ℕ)
    → index ≡ at + length before
    → replaced at index c (before ++ w ∷ after) ≡ before ++ c ∷ after
unfolding replaced
replaced-at [] after w c at index h =
    ground (arith, replaced-after (suc at) index c after (omega arith))
replaced-at (b ∷ before) after w c at index h =
    ground (arith, replaced-at before after w c (suc at) index (omega arith))

module _ (vocab words : List Text) where
  pub record IsFine (s : Candidates) : Type 0 where
    pub proposals : All (IsSuggestion vocab words) s.candidates
    pub nonempty : All (λ c. is_empty c ≡ false) s.candidates
    pub unique : AreUnique s.candidates
    pub original : includes s.candidates (joined words) ≡ false
    pub known :
        (w : Text) → includes s.seen w ≡ (text_eq (joined words) w || includes s.candidates w)

  add-IsFine :
      (s : Candidates) (c : Text) → IsSuggestion vocab words c → IsFine s → IsFine (add s c)
  unfolding add includes
  add-IsFine s c h k = elim (Bool-cases (is_empty c || includes s.seen c)) [
    | inl skipped ↦ rw skipped k
    | inr added ↦
        let absent : includes s.candidates c ≡ false = ground (arith, k.known c) in
        rw added (record {
          proposals =
              All-append (IsSuggestion vocab words) s.candidates (c ∷ []) k.proposals (h, tt);
          nonempty =
              All-append (λ t. is_empty t ≡ false) s.candidates (c ∷ []) k.nonempty
                (ground arith, tt);
          unique = AreUnique-snoc s.candidates c k.unique absent;
          original = ground (
            arith,
            includes-snoc s.candidates c (joined words),
            k.known c,
            k.original,
            text_eq_iff c (joined words),
            text_eq_iff (joined words) c,
          );
          known = λ w. ground (arith, k.known w, includes-snoc s.candidates c w);
        })
  ]

  add_all-IsFine :
      (ws : List Text) (s : Candidates)
      → All (λ w. includes words w ≡ true) ws
      → 1 < length words
      → IsFine s
      → IsFine (add_all ws s)
  unfolding add_all
  add_all-IsFine [] s h l k = k
  add_all-IsFine (w ∷ ws) s h l k =
      add_all-IsFine ws (add s w) h.1 l (add-IsFine s w (single w h.0 l) k)

  -- A word is corrected in its place, and only if the vocabulary does not hold it.
  add_best-IsFine :
      (before after : List Text) (w : Text) (best : Best) (s : Candidates)
      → words ≡ before ++ w ∷ after
      → includes vocab w ≡ false
      → IsNear vocab w (tolerance_for w) best
      → IsFine s
      → IsFine (add_best words (length before) best s)
  unfolding add_best
  add_best-IsFine before after w none s e h near k = k
  add_best-IsFine before after w (some (c, d)) s e h near k =
      add-IsFine s (joined (replaced 0 (length before) c words))
        (corrected before after w c e h near.0 near.1 _ (
          ap (λ (ws : List Text). joined (replaced 0 (length before) c ws)) e
          ∙ ap joined (replaced-at before after w c 0 (length before) (omega arith))))
        k

  correct-IsFine :
      (before after : List Text) (w : Text) (s : Candidates)
      → words ≡ before ++ w ∷ after
      → IsFine s
      → IsFine (correct vocab words (length before) w s)
  unfolding correct
  correct-IsFine before after w s e k = elim (Bool-cases (tolerance_for w == 0)) [
    | inl short ↦ rw short k
    | inr long ↦ rw long (elim (Bool-cases (includes vocab w)) [
      | inl known ↦
          subst (λ b. IsFine (add_best words (length before) b s))
            (sym (nearest-known w (tolerance_for w) vocab none known)) (unfold add_best in k)
      | inr unknown ↦
          add_best-IsFine before after w _ s e unknown (nearest-IsNear vocab w (tolerance_for w)) k
    ])
  ]

  correct_all-IsFine :
      (before ws : List Text) (s : Candidates) (index : ℕ)
      → words ≡ before ++ ws
      → index ≡ length before
      → IsFine s
      → IsFine (correct_all vocab words index ws s)
  unfolding correct_all
  correct_all-IsFine before [] s index e i k = k
  correct_all-IsFine before (w ∷ ws) s index e i k =
      correct_all-IsFine (before ++ w ∷ []) ws (correct vocab words index w s) (suc index)
        (e ∙ sym (append_assoc before (w ∷ []) ws)) (omega (arith, length-append before (w ∷ [])))
        (subst (λ (n : ℕ). IsFine (correct vocab words n w s)) (sym i)
          (correct-IsFine before ws w s e k))

  start-IsFine : IsFine (record { candidates = []; seen = joined words ∷ [] })
  unfolding includes
  start-IsFine = record {
    proposals = tt;
    nonempty = tt;
    unique = tt;
    original = refl;
    known = λ w. refl;
  }

  candidates_of-IsFine : IsFine (candidates_of vocab words)
  unfolding candidates_of
  candidates_of-IsFine =
      let spelled = correct_all-IsFine [] words _ 0 refl refl start-IsFine in
      elim (Bool-cases (ltb 1 (length words))) [
        | inl several ↦
            rw several (
              add_all-IsFine words _ (includes-all words) (ltb→lt 1 (length words) several) spelled)
        | inr single_word ↦ rw single_word spelled
      ]

-- What is proposed for a query is at most `limit` texts, no two of them the same, none of them
-- empty, and none of them the words of the query; and each is those words with one of them, that
-- the vocabulary does not hold, corrected to a word of the vocabulary whose Levenshtein distance
-- from it is within its tolerance, or is one of two words or more.
pub suggest_queries-AreSuggestions :
    (lower : Text → Text) (vocab : List Text) (query : Text) (limit : ℕ)
    → let words = terms lower query in
      let proposals = suggest_queries lower vocab query limit in
      (length proposals ≤ limit)
      × AreUnique proposals
      × All (λ c. is_empty c ≡ false) proposals
      × (includes proposals (joined words) ≡ false)
      × All (IsSuggestion vocab words) proposals
unfolding suggest_queries
suggest_queries-AreSuggestions lower vocab query limit =
    let words = terms lower query in
    elim (Bool-cases (is_empty words)) [
      | inl none_left ↦ rw none_left (omega arith, tt, tt, unfold includes in refl, tt)
      | inr some_left ↦
          let s = candidates_of vocab words in
          let k = candidates_of-IsFine vocab words in
          rw some_left (
            length-take-le limit s.candidates,
            AreUnique-take limit s.candidates k.unique,
            All-take (λ c. is_empty c ≡ false) limit s.candidates k.nonempty,
            includes-take-false limit s.candidates (joined words) k.original,
            All-take (IsSuggestion vocab words) limit s.candidates k.proposals,
          )
    ]
