-- ===== src/Analyze/Examples.antt =====
-- A run of analyzeRepo on a vocabulary of the declared values.
use keco.Prelude.{◌≡◌, ◌⊎◌, refl, ℕ, Bool, true, false, none, some, List, [], ◌∷◌, map}
use keco.Prelude.Text.{Text, codes, text_eq}
use keco.Prelude.Maps.{get, put, text_key}
use keco.Core.Taxonomy.{
  TaxonomyFamily, TaxonomyValue, multiple, analyzer, family, by_id_from, is_value, has_value,
}
use keco.Analyze.Rules.{RuleInput}
use keco.Analyze.Rules.Runtime.{
  classify_runtime, IsRanked, classify_runtime-IsRanked, declared_runtimes,
}
use keco.Analyze.Rules.Derived.{user, unknown}
use keco.Analyze.Llm.{is_known, request_failed, Correction}
use keco.Analyze.Pipeline.{
  Gathered, AnalyzeInput, Llm, Analysis, analyze_repo, is_analysis, classified, fallback_domain,
}
use keco.Analyze.Pipeline.Settled.{IsByRules, IsUnasked, IsAsked, IsOpen, classified-settled}
use keco.Analyze.Pipeline.Declared.{
  HasVocabulary, declared_kinds, declared_openness, declared_maturity, declared_governance,
}
use keco.Analyze.Pipeline.Total.{analyze_repo-total}

abbrev value : Text → TaxonomyValue
value id = record { id = id; label = id; description = id; aliases = id ∷ []; hidden = false }

abbrev family_of : Text → List Text → TaxonomyFamily
family_of id ids = record {
  id = id;
  label = id;
  param = id;
  description = id;
  cardinality = multiple;
  min_values = some 1;
  max_values = some 3;
  source = analyzer;
  facet = true;
  values = map value ids;
}

abbrev licenses : TaxonomyFamily
licenses = family_of (codes "license_class") (unknown ∷ codes "permissive" ∷ [])

abbrev domains : TaxonomyFamily
domains = family_of (codes "domains") (fallback_domain ∷ codes "networking" ∷ [])

abbrev runtimes : List Text
runtimes =
    codes "cluster-itself"
    ∷ codes "workstation"
    ∷ codes "in-cluster"
    ∷ codes "ci-pipeline"
    ∷ codes "in-your-code"
    ∷ codes "unknown"
    ∷ []

abbrev taxonomy : List TaxonomyFamily
taxonomy =
    family_of (codes "kind") declared_kinds
    ∷ domains
    ∷ family_of (codes "runtime") runtimes
    ∷ licenses
    ∷ family_of (codes "openness") declared_openness
    ∷ family_of (codes "maturity") declared_maturity
    ∷ family_of (codes "governance") declared_governance
    ∷ []

taxonomy-HasVocabulary : HasVocabulary taxonomy
unfolding is_known is_value family by_id_from has_value text_eq get put declared_runtimes
taxonomy-HasVocabulary = record {
  kinds = (refl, (refl, (refl, (refl, (refl, (refl, (refl, (refl, (refl, (refl, tt))))))))));
  runtimes = (refl, (refl, (refl, (refl, (refl, (refl, tt))))));
  openness = (refl, (refl, (refl, (refl, tt))));
  maturity = (refl, (refl, (refl, (refl, (refl, (refl, (refl, (refl, tt))))))));
  governance = (refl, (refl, (refl, (refl, (refl, tt)))));
  license = refl;
  licenses = licenses;
  licenses_there = refl;
  domains = domains;
  domains_there = refl;
  one_at_least = refl;
  one_at_most = refl;
  domain = refl;
}

abbrev plugin : RuleInput
plugin = record {
  repo = codes "acme/kubectl-mesh";
  name = codes "kubectl-mesh";
  description = some (codes "A mesh plugin");
  topics = codes "networking" ∷ [];
  tree = codes ".krew.yaml" ∷ [];
  manifests = [];
  language = none;
}

abbrev input : AnalyzeInput
input = record {
  rules = plugin;
  content_hash = codes "0f";
  readme = codes "A mesh plugin";
  facts = record {
    owner = codes "acme";
    owner_type = user;
    license_spdx = none;
    archived = false;
    created_at = none;
    pushed_at = none;
    latest_release_at = none;
  };
}

abbrev gathered : Gathered ℕ
gathered = record { signals = 0; landscape = none; signals_used = []; partial_signals = [] }

abbrev accept_all : Gathered ℕ → Bool
accept_all g = true

abbrev silent : Llm
silent = record { model = codes "m"; client = λ (c : Correction). request_failed }

classify_runtime-IsRanked_example : IsRanked (classify_runtime plugin (some (codes "cli")))
classify_runtime-IsRanked_example = classify_runtime-IsRanked plugin (some (codes "cli"))

classified-settled_example :
    let c = classified taxonomy plugin none [] (some silent) in
    IsByRules taxonomy none [] (some silent) c
    ⊎ (IsOpen none [] × IsUnasked taxonomy none [] (some silent) c)
    ⊎ (IsOpen none []
        × ((l : Llm) × (some silent ≡ some l) × IsAsked taxonomy none [] (some silent) l c))
classified-settled_example = classified-settled taxonomy plugin none [] (some silent)

analyze_repo-total_example :
    (a : Analysis ℕ) × (analyze_repo
        (λ (t : Text). t)
        taxonomy
        accept_all
        input
        gathered
        (some silent)
        0
      ≡ some a)
    × (is_analysis taxonomy a ≡ true)
analyze_repo-total_example =
    analyze_repo-total (λ (t : Text). t) taxonomy accept_all input gathered (some silent) 0
      taxonomy-HasVocabulary refl
