-- ===== src/Analyze/Pipeline/Fitting.antt =====
-- What analyzeRepo of packages/analyze/src/analyze.ts says of a repository fits AnalysisSchema,
-- however it is classified.
use keco.Prelude.{
  ℕ, ◌≤◌, ◌≡◌, refl, inl, inr, Bool, true, false, ◌&&◌, Bool-cases, Option, none, some, List, [],
  ◌∷◌, arith, leb, le→leb, length, length-take-le,
}
use mathlib.Core.Path.{subst}
use keco.Prelude.Text.{Text, codes}
use keco.Core.Taxonomy.{TaxonomyFamily}
use keco.Analyze.Rules.{
  RuleInput, RuleVerdict, max_or_three, classify_kind, kind_rules, k8s_relevance,
}
use keco.Analyze.Llm.{LlmVerdict, is_known, is_list_of, at_least, at_most, is_verdict}
use keco.Analyze.Pipeline.{
  Classified, Llm, best_of, kind_or_fallback, fallback_kind, fallback_domain, domains_or_fallback,
  by_rules, by_llm, unsettled, classified, is_ambiguous, description_summary, confidence_of,
}
use keco.Analyze.Pipeline.Settled.{IsAccepted, classify_with_llm-IsAccepted}
use keco.Analyze.Pipeline.Vocabulary.{AreKnown, all_known-of_AreKnown}
use keco.Analyze.Pipeline.Declared.{
  HasVocabulary, IsSoundVerdict, known_of_included, best-IsSoundVerdict, kind_rules-AreSound,
}

-- What the schema asks of a classification.
abbrev pub IsFitting : List TaxonomyFamily → Classified → Type 0
IsFitting taxonomy c =
    (length c.summary ≤ 400)
    × (is_known taxonomy (codes "kind") c.kind ≡ true)
    × (is_list_of taxonomy (codes "domains") c.domains ≡ true)
    × (c.confidence ≤ 100)

pub and_true : {a b : Bool} → a ≡ true → b ≡ true → (a && b) ≡ true
and_true h k = cc (h, k)

pub first_rule-IsSoundVerdict : (input : RuleInput) → IsSoundVerdict (best_of (classify_kind input))
unfolding classify_kind
first_rule-IsSoundVerdict input = best-IsSoundVerdict input kind_rules kind_rules-AreSound

pub relevance-le : (input : RuleInput) → leb (k8s_relevance input) 100 ≡ true
unfolding k8s_relevance
relevance-le input = le→leb _ _ (omega arith)

module _ (taxonomy : List TaxonomyFamily) (h : HasVocabulary taxonomy) where
  filled-IsList :
      (d : Text) (ds : List Text)
      → AreKnown taxonomy (codes "domains") (d ∷ ds)
      → length (d ∷ ds) ≤ max_or_three h.domains
      → is_list_of taxonomy (codes "domains") (d ∷ ds) ≡ true
  unfolding is_list_of
  filled-IsList d ds known low =
      rw (all_known-of_AreKnown taxonomy (codes "domains") (d ∷ ds) known, h.domains_there)
        (ranged h.domains.min_values h.domains.max_values h.one_at_least low)
    where
      ranged :
          (low high : Option ℕ)
          → at_least low 1 ≡ true
          → length (d ∷ ds) ≤ elim high [ none ↦ 3 | some n ↦ n ]
          → (at_least low (length (d ∷ ds)) && at_most high (length (d ∷ ds))) ≡ true
      ranged none none a b = refl
      ranged none (some n) a b = ground arith
      ranged (some m) none a b = ground arith
      ranged (some m) (some n) a b = ground arith

  fallback-IsList : is_list_of taxonomy (codes "domains") (fallback_domain ∷ []) ≡ true
  unfolding is_list_of
  fallback-IsList =
      rw
        (
          all_known-of_AreKnown taxonomy (codes "domains") (fallback_domain ∷ []) (h.domain, tt),
          h.domains_there,
        )
        (ground (arith, h.one_at_least, h.one_at_most))

  or_fallback-IsList :
      (ds : List Text)
      → AreKnown taxonomy (codes "domains") ds
      → length ds ≤ max_or_three h.domains
      → is_list_of taxonomy (codes "domains") (domains_or_fallback ds) ≡ true
  or_fallback-IsList [] known low = fallback-IsList
  or_fallback-IsList (d ∷ ds) known low = filled-IsList d ds known low

  fallback_kind-known : is_known taxonomy (codes "kind") fallback_kind ≡ true
  fallback_kind-known = h.kinds.1.1.1.1.1.1.1.1.1.0

  by_rules-IsFitting :
      (input : RuleInput) (best : Option RuleVerdict) (ds : List Text) (review : Bool)
      → IsSoundVerdict best
      → is_list_of taxonomy (codes "domains") ds ≡ true
      → IsFitting taxonomy (by_rules input best ds review)
  by_rules-IsFitting input best ds review s l =
      (short input.description, (kind_known best s).0, l, (kind_known best s).1)
    where
      short : (d : Option Text) → length (description_summary d) ≤ 400
      short none = omega arith
      short (some d) = length-take-le 400 d

      kind_known :
          (b : Option RuleVerdict)
          → IsSoundVerdict b
          → (is_known taxonomy (codes "kind") (kind_or_fallback b) ≡ true) × (confidence_of b ≤ 100)
      kind_known none q = (fallback_kind-known, omega arith)
      kind_known (some v) q = (known_of_included taxonomy (codes "kind") _ v.kind h.kinds q.0, q.1)

  by_llm-IsFitting :
      (model : Text) (ds : List Text) (v : Option LlmVerdict)
      → IsAccepted taxonomy v
      → is_list_of taxonomy (codes "domains") (domains_or_fallback ds) ≡ true
      → IsFitting taxonomy (by_llm model ds v)
  unfolding is_verdict
  by_llm-IsFitting model ds none a l = (omega arith, fallback_kind-known, l, omega arith)
  by_llm-IsFitting model ds (some v) a l = (ground arith, ground arith, ground arith, ground arith)

  unsettled-IsFitting :
      (input : RuleInput) (best : Option RuleVerdict) (ds : List Text) (deps : Option Llm)
      → IsSoundVerdict best
      → is_list_of taxonomy (codes "domains") (domains_or_fallback ds) ≡ true
      → IsFitting taxonomy (unsettled taxonomy input best ds deps)
  unsettled-IsFitting input best ds none s l =
      by_rules-IsFitting input best (domains_or_fallback ds) true s l
  unsettled-IsFitting input best ds (some deps) s l =
      by_llm-IsFitting deps.model ds _ (classify_with_llm-IsAccepted taxonomy deps.client) l

  settled-filled :
      (best : Option RuleVerdict) (ds : List Text)
      → is_ambiguous best ds ≡ false
      → domains_or_fallback ds ≡ ds
  unfolding is_ambiguous
  settled-filled best [] e = absurd (ground arith)
  settled-filled best (d ∷ ds) e = refl

  pub classified-IsFitting :
      (input : RuleInput) (best : Option RuleVerdict) (ds : List Text) (deps : Option Llm)
      → IsSoundVerdict best
      → AreKnown taxonomy (codes "domains") ds
      → length ds ≤ max_or_three h.domains
      → IsFitting taxonomy (classified taxonomy input best ds deps)
  unfolding classified
  classified-IsFitting input best ds deps s known low =
      let l = or_fallback-IsList ds known low in
      elim (Bool-cases (is_ambiguous best ds)) [
        | inl open_question ↦ rw open_question (unsettled-IsFitting input best ds deps s l)
        | inr decided ↦ rw decided (
            by_rules-IsFitting input best ds false s (
              subst (λ (t : List Text). is_list_of taxonomy (codes "domains") t ≡ true)
                (settled-filled best ds decided) l))
      ]
