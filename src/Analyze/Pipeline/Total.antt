-- ===== src/Analyze/Pipeline/Total.antt =====
-- analyzeRepo of packages/analyze/src/analyze.ts throws on no repository.
use keco.Prelude.{ℕ, ◌≤◌, ◌≡◌, refl, Bool, true, Option, some, List, le→leb, length}
use keco.Prelude.Text.{Text, codes}
use keco.Core.Taxonomy.{TaxonomyFamily}
use keco.Analyze.Rules.{RuleInput, max_or_three, classify_kind}
use keco.Analyze.Rules.Runtime.{
  classify_runtime, classify_runtime-IsRanked, IsRanked, declared_runtimes,
}
use keco.Analyze.Rules.Derived.{
  DerivedInput, DerivedVerdict, classify_openness, classify_maturity, classify_governance,
  classify_derived,
}
use keco.Analyze.Llm.{is_known}
use keco.Analyze.Pipeline.{
  Gathered, AnalyzeInput, Llm, Analysis, best_of, kind_of, analysis_of, is_analysis, derived_input,
  analyze_repo, runtime_of,
}
use keco.Analyze.Pipeline.Vocabulary.{AreKnown, classify_domains-AreKnown}
use keco.Analyze.Pipeline.Declared.{
  HasVocabulary, IsAmong, known_of_included, openness-IsAmong, maturity-IsAmong, governance-IsAmong,
  license-known,
}
use keco.Analyze.Pipeline.Fitting.{
  and_true, first_rule-IsSoundVerdict, relevance-le, classified-IsFitting,
}

module _ (taxonomy : List TaxonomyFamily) (h : HasVocabulary taxonomy) where
  AreDerived : DerivedVerdict → Type 0
  AreDerived d =
      (is_known taxonomy (codes "license_class") d.license_class ≡ true)
      × (is_known taxonomy (codes "openness") d.openness ≡ true)
      × (is_known taxonomy (codes "maturity") d.maturity ≡ true)
      × (is_known taxonomy (codes "governance") d.governance ≡ true)

  classify_derived-AreDerived :
      (lower : Text → Text) (facts : DerivedInput) (now : ℕ)
      → (d : DerivedVerdict) × (classify_derived lower taxonomy facts now ≡ some d) × AreDerived d
  unfolding classify_derived AreDerived IsAmong
  classify_derived-AreDerived lower facts now =
      let license = license-known lower taxonomy facts.license_spdx h in
      (
        record {
          license_class = license.0;
          openness = classify_openness facts license.0;
          maturity = classify_maturity facts now;
          governance = classify_governance lower facts;
        },
        rw (license.1) refl,
        (
          license.2,
          known_of_included taxonomy (codes "openness") _ _ h.openness
              (openness-IsAmong facts license.0),
          known_of_included taxonomy (codes "maturity") _ _ h.maturity (maturity-IsAmong facts now),
          known_of_included taxonomy (codes "governance") _ _ h.governance
              (governance-IsAmong lower facts),
        ),
      )

  runtime-known :
      (input : RuleInput) (kind : Option Text)
      → is_known taxonomy (codes "runtime") (runtime_of (classify_runtime input kind)) ≡ true
  unfolding IsRanked
  runtime-known input kind =
      known_of_included taxonomy (codes "runtime") declared_runtimes _ h.runtimes
        (classify_runtime-IsRanked input kind).0

  analysis_of-passes :
      {S : Type 0} (input : AnalyzeInput) (gathered : Gathered S) (deps : Option Llm) (now : ℕ)
      (ds : List Text) (d : DerivedVerdict)
      → AreKnown taxonomy (codes "domains") ds
      → length ds ≤ max_or_three h.domains
      → AreDerived d
      → is_analysis taxonomy (analysis_of taxonomy input gathered deps now ds d) ≡ true
  unfolding is_analysis analysis_of AreDerived
  analysis_of-passes input gathered deps now ds d known low derived =
      let best = best_of (classify_kind input.rules) in
      let sound = first_rule-IsSoundVerdict input.rules in
      let fitting = classified-IsFitting taxonomy h input.rules best ds deps sound known low in
      let runtime = runtime-known input.rules (kind_of best) in
      and_true
        (and_true
          (and_true
            (and_true
              (and_true
                (and_true
                  (and_true (and_true (and_true (le→leb _ _ fitting.0) (fitting.1)) (fitting.2))
                    (runtime))
                  (derived.0))
                (derived.1))
              (derived.2))
            (derived.3))
          (relevance-le input.rules))
        (le→leb _ _ fitting.3)

-- With a vocabulary that has the values that the rules declare, and a family of domains that a list
-- of one domain fits, analyzeRepo throws on no repository, whatever its files, the landscape, the
-- dates and the model's answers are, where the signals and the install methods pass their schema:
-- it returns an analysis, which passes the schema of analyses.
pub analyze_repo-total :
    {S : Type 0} (lower : Text → Text) (taxonomy : List TaxonomyFamily)
    (accepts : Gathered S → Bool) (input : AnalyzeInput) (gathered : Gathered S) (deps : Option Llm)
    (now : ℕ)
    → HasVocabulary taxonomy
    → accepts gathered ≡ true
    → (a : Analysis S) × (analyze_repo lower taxonomy accepts input gathered deps now ≡ some a)
      × (is_analysis taxonomy a ≡ true)
unfolding analyze_repo
analyze_repo-total lower taxonomy accepts input gathered deps now h passed =
    let topics = classify_domains-AreKnown lower taxonomy input.rules h.domains h.domains_there in
    let derived = classify_derived-AreDerived taxonomy h lower (derived_input input gathered) now in
    let passes =
      analysis_of-passes taxonomy h input gathered deps now topics.0 derived.0 topics.2 topics.3
        derived.2 in
    (
      analysis_of taxonomy input gathered deps now topics.0 derived.0,
      rw (topics.1, derived.1, passes, passed) refl,
      passes,
    )
