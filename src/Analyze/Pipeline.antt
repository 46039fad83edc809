-- ===== src/Analyze/Pipeline.antt =====
-- packages/analyze/src/analyze.ts: analyzeRepo, the three passes over one repository. What
-- gatherSignals returns is an input, `Signals` the signals in it; `accepts` stands for what zod
-- says of them and of the install methods. Confidences and the relevance are hundredths.
pub mod Settled
pub mod Vocabulary
pub mod Declared
pub mod Fitting
pub mod Total
use keco.Prelude.{
  ℕ, Bool, true, false, not, ◌&&◌, ◌||◌, Option, none, some, List, [], ◌∷◌, leb, length, take,
  if◌then◌else◌,
}
use keco.Prelude.Text.{Text, codes}
use keco.Core.Taxonomy.{TaxonomyFamily}
use keco.Core.Read.{is_empty}
use keco.Core.Read.Urls.{◌>>=◌}
use keco.Analyze.Rules.{RuleInput, RuleVerdict, classify_kind, classify_domains, k8s_relevance}
use keco.Analyze.Rules.Runtime.{RuntimeVerdict, classify_runtime}
use keco.Analyze.Rules.Derived.{
  DerivedInput, DerivedVerdict, LandscapeEntry, OwnerType, classify_derived,
}
use keco.Analyze.Llm.{
  LlmVerdict, Reply, Correction, needs_llm, is_known, is_list_of, classify_with_llm,
}

pub record Gathered (Signals : Type 0) : Type 0 where
  pub signals : Signals
  pub landscape : Option LandscapeEntry
  pub signals_used : List Text
  pub partial_signals : List Text

-- `derived` without the landscape, the readme and the tree.
pub record RepoFacts : Type 0 where
  pub owner : Text
  pub owner_type : OwnerType
  pub license_spdx : Option Text
  pub archived : Bool
  pub created_at : Option ℕ
  pub pushed_at : Option ℕ
  pub latest_release_at : Option ℕ

pub record AnalyzeInput : Type 0 where
  pub rules : RuleInput
  pub content_hash : Text
  pub readme : Text
  pub facts : RepoFacts

pub data Method : Type 0 where
  rules llm : Method

-- What the second half decides.
pub record Classified : Type 0 where
  pub summary : Text
  pub kind : Text
  pub domains : List Text
  pub confidence : ℕ
  pub needs_review : Bool
  pub method : Method
  pub model : Option Text

pub record Llm : Type 0 where
  pub model : Text
  pub client : Correction → Reply

abbrev pub fallback_kind : Text
fallback_kind = codes "service"

abbrev pub fallback_domain : Text
fallback_domain = codes "dev-experience"

abbrev pub best_of : List RuleVerdict → Option RuleVerdict
best_of [] = none
best_of (v ∷ vs) = some v

abbrev pub confidence_of : Option RuleVerdict → ℕ
confidence_of none = 0
confidence_of (some v) = v.confidence

abbrev pub kind_of : Option RuleVerdict → Option Text
kind_of none = none
kind_of (some v) = some v.kind

abbrev pub kind_or_fallback : Option RuleVerdict → Text
kind_or_fallback none = fallback_kind
kind_or_fallback (some v) = v.kind

-- `input.description ? input.description.slice(0, 400) : ''`
abbrev pub description_summary : Option Text → Text
description_summary none = []
description_summary (some d) = take 400 d

abbrev pub domains_or_fallback : List Text → List Text
domains_or_fallback [] = fallback_domain ∷ []
domains_or_fallback (d ∷ ds) = d ∷ ds

unfoldable pub is_ambiguous : Option RuleVerdict → List Text → Bool
unfolding needs_llm
is_ambiguous best domains = needs_llm (confidence_of best) || is_empty domains

abbrev pub by_rules : RuleInput → Option RuleVerdict → List Text → Bool → Classified
by_rules input best domains review = record {
  summary = description_summary input.description;
  kind = kind_or_fallback best;
  domains = domains;
  confidence = confidence_of best;
  needs_review = review;
  method = rules;
  model = none;
}

-- What the model says, or the answer for an output that was invalid twice.
abbrev pub by_llm : Text → List Text → Option LlmVerdict → Classified
by_llm model domains (some v) = record {
  summary = v.summary;
  kind = v.kind;
  domains = v.domains;
  confidence = v.confidence;
  needs_review = v.needs_review;
  method = llm;
  model = some model;
}
by_llm model domains none = record {
  summary = [];
  kind = fallback_kind;
  domains = domains_or_fallback domains;
  confidence = 30;
  needs_review = true;
  method = llm;
  model = some model;
}

abbrev pub unsettled :
    List TaxonomyFamily → RuleInput → Option RuleVerdict → List Text → Option Llm → Classified
unsettled taxonomy input best domains none = by_rules input best (domains_or_fallback domains) true
unsettled taxonomy input best domains (some l) =
    by_llm l.model domains (classify_with_llm taxonomy l.client)

unfoldable pub classified :
    List TaxonomyFamily → RuleInput → Option RuleVerdict → List Text → Option Llm → Classified
unfolding is_ambiguous
classified taxonomy input best domains llm_deps =
    if is_ambiguous best domains
    then unsettled taxonomy input best domains llm_deps
    else by_rules input best domains false

pub record Analysis (Signals : Type 0) : Type 0 where
  pub repo : Text
  pub content_hash : Text
  pub classification : Classified
  pub runtime : Text
  pub derived : DerivedVerdict
  pub relevance : ℕ
  pub gathered : Gathered Signals
  pub analyzed_at : ℕ

-- What AnalysisSchema asks, but of the signals and the install methods.
unfoldable pub is_analysis : {S : Type 0} → List TaxonomyFamily → Analysis S → Bool
is_analysis taxonomy a =
    leb (length a.classification.summary) 400
    && is_known taxonomy (codes "kind") a.classification.kind
    && is_list_of taxonomy (codes "domains") a.classification.domains
    && is_known taxonomy (codes "runtime") a.runtime
    && is_known taxonomy (codes "license_class") a.derived.license_class
    && is_known taxonomy (codes "openness") a.derived.openness
    && is_known taxonomy (codes "maturity") a.derived.maturity
    && is_known taxonomy (codes "governance") a.derived.governance
    && leb a.relevance 100
    && leb a.classification.confidence 100

abbrev pub derived_input : {S : Type 0} → AnalyzeInput → Gathered S → DerivedInput
derived_input input g = record {
  owner = input.facts.owner;
  owner_type = input.facts.owner_type;
  license_spdx = input.facts.license_spdx;
  readme = input.readme;
  tree = input.rules.tree;
  archived = input.facts.archived;
  created_at = input.facts.created_at;
  pushed_at = input.facts.pushed_at;
  latest_release_at = input.facts.latest_release_at;
  landscape = g.landscape;
}

abbrev pub runtime_of : RuntimeVerdict → Text
runtime_of v = v.runtime

unfoldable pub analysis_of :
    {S : Type 0}
    → List TaxonomyFamily
    → AnalyzeInput
    → Gathered S
    → Option Llm
    → ℕ
    → List Text
    → DerivedVerdict
    → Analysis S
unfolding classified
analysis_of taxonomy input gathered llm_deps now domains derived = record {
  repo = input.rules.repo;
  content_hash = input.content_hash;
  classification =
      classified taxonomy input.rules (best_of (classify_kind input.rules)) domains llm_deps;
  runtime =
      runtime_of (classify_runtime input.rules (kind_of (best_of (classify_kind input.rules))));
  derived = derived;
  relevance = k8s_relevance input.rules;
  gathered = gathered;
  analyzed_at = now;
}

-- `none` is a throw, of a lookup in the vocabulary or of the schema.
unfoldable pub analyze_repo :
    {S : Type 0}
    → (Text → Text)
    → List TaxonomyFamily
    → (Gathered S → Bool)
    → AnalyzeInput
    → Gathered S
    → Option Llm
    → ℕ
    → Option (Analysis S)
unfolding analysis_of is_analysis
analyze_repo lower taxonomy accepts input gathered llm_deps now = do
  domains ← classify_domains lower taxonomy input.rules
  derived ← classify_derived lower taxonomy (derived_input input gathered) now
  let analysis = analysis_of taxonomy input gathered llm_deps now domains derived
  if is_analysis taxonomy analysis && accepts gathered then some analysis else none
