-- ===== src/Analyze/Rules.antt =====
-- packages/analyze/src/rules/kind.ts: the rules of pass 1. Confidences and the relevance are counted
-- in hundredths; `lower` stands for toLowerCase.
pub mod Runtime
pub mod Derived
use keco.Prelude.{
  ℕ, ◌+◌, Bool, true, false, not, ◌&&◌, ◌||◌, Option, none, some, List, [], ◌∷◌, min, leb, take,
  ◌++◌, if◌then◌else◌, any,
}
use keco.Prelude.Text.{Text, codes, text_eq}
use keco.Prelude.Maps.{Map, get, text_key}
use keco.Core.Taxonomy.{TaxonomyFamily, family, aliases_for}
use keco.Core.Read.{includes}
use keco.Core.Read.Urls.{◌>>=◌}
use keco.Analyze.Patterns.{
  begins, contains, ends, contains_any_case, is_chart_yaml, is_webhook_yaml, has_kube_dependency,
  is_one_of,
}

pub record RuleInput : Type 0 where
  pub repo : Text
  pub name : Text
  pub description : Option Text
  pub topics : List Text
  pub tree : List Text
  pub manifests : Map Text Text
  pub language : Option Text

pub record RuleVerdict : Type 0 where
  pub kind : Text
  pub confidence : ℕ
  pub rule : Text

-- `i.manifests[file] ?? ''`
abbrev or_nothing : Option Text → Text
or_nothing none = []
or_nothing (some t) = t

unfoldable pub manifest : RuleInput → Text → Text
manifest input file = or_nothing (get input.manifests file)

abbrev pub is_krew : Text → Bool
is_krew p = text_eq p (codes ".krew.yaml") || ends (codes "/.krew.yaml") p

unfoldable pub learning_topics : List Text
learning_topics =
    codes "awesome"
    ∷ codes "tutorial"
    ∷ codes "course"
    ∷ codes "learning"
    ∷ codes "roadmap"
    ∷ codes "cheatsheet"
    ∷ []

pub record KindRule : Type 0 where
  pub rule : Text
  pub kind : Text
  pub confidence : ℕ
  pub fires : RuleInput → Bool

abbrev rule_of : Text → Text → ℕ → (RuleInput → Bool) → KindRule
rule_of rule kind confidence fires = record {
  rule = rule;
  kind = kind;
  confidence = confidence;
  fires = fires;
}

unfoldable pub kind_rules : List KindRule
unfolding manifest learning_topics is_one_of
kind_rules =
    rule_of (codes "tree:.krew.yaml") (codes "kubectl-plugin") 95 (λ i. any is_krew i.tree)
    ∷ rule_of (codes "name:kubectl-*") (codes "kubectl-plugin") 80 (λ i.
      begins (codes "kubectl-") i.name
      || begins (codes "kubectl_") i.name
      || includes i.topics (codes "kubectl-plugin"))
    ∷ rule_of (codes "tree:config/crd+PROJECT (kubebuilder)") (codes "operator") 95
        (λ i. any (begins (codes "config/crd/")) i.tree && includes i.tree (codes "PROJECT"))
    ∷ rule_of (codes "topic:kubernetes-operator") (codes "operator") 85 (λ i.
      includes i.topics (codes "kubernetes-operator") || includes i.topics (codes "operator"))
    ∷ rule_of (codes "tree:Chart.yaml") (codes "helm-chart") 90 (λ i. any is_chart_yaml i.tree)
    ∷ rule_of (codes "manifest:controller-runtime") (codes "controller") 80
        (λ i. contains (codes "sigs.k8s.io/controller-runtime") (manifest i (codes "go.mod")))
    ∷ rule_of (codes "name:*-controller") (codes "controller") 70
        (λ i. ends (codes "-controller") i.name)
    ∷ rule_of (codes "name:*-operator") (codes "operator") 70 (λ i. ends (codes "-operator") i.name)
    ∷ rule_of (codes "tree:webhook manifests") (codes "admission-webhook") 75 (λ i.
      includes i.topics (codes "admission-webhook")
      || any (λ p. is_webhook_yaml p && contains (codes "admission") p) i.tree)
    ∷ rule_of (codes "manifest:terraform-provider") (codes "terraform-provider") 90
        (λ i. begins (codes "terraform-provider-") i.name)
    ∷ rule_of (codes "manifest:client-go without cmd") (codes "library-sdk") 65 (λ i.
      contains (codes "k8s.io/client-go") (manifest i (codes "go.mod"))
      && not (any (begins (codes "cmd/")) i.tree))
    ∷ rule_of (codes "manifest:@kubernetes/client-node") (codes "library-sdk") 70
        (λ i. contains (codes "@kubernetes/client-node") (manifest i (codes "package.json")))
    ∷ rule_of (codes "manifest:kube (Cargo.toml)") (codes "library-sdk") 65
        (λ i. has_kube_dependency (manifest i (codes "Cargo.toml")))
    ∷ rule_of (codes "tree:cmd/ + cobra") (codes "cli") 75 (λ i.
      any (begins (codes "cmd/")) i.tree
      && contains (codes "spf13/cobra") (manifest i (codes "go.mod")))
    ∷ rule_of (codes "topic:learning") (codes "learning-resource") 80
        (λ i. any (λ t. includes i.topics t) learning_topics || begins (codes "awesome-") i.name)
    ∷ []

unfoldable pub fired : RuleInput → List KindRule → List RuleVerdict
fired input [] = []
fired input (r ∷ rs) =
    let rest = fired input rs in
    if r.fires input
    then record { kind = r.kind; confidence = r.confidence; rule = r.rule } ∷ rest
    else rest

unfoldable pub classify_kind : RuleInput → List RuleVerdict
unfolding fired kind_rules
classify_kind input = fired input kind_rules

-- `if (domain) found.add(domain)`
unfoldable pub add_domain : List Text → Option Text → List Text
add_domain found none = found
add_domain found (some []) = found
add_domain found (some (c ∷ cs)) = if includes found (c ∷ cs) then found else found ++ (c ∷ cs) ∷ []

-- The loop over the topics, into a `Set`.
unfoldable pub add_domains : (Text → Text) → Map Text Text → List Text → List Text → List Text
unfolding add_domain
add_domains lower aliases found [] = found
add_domains lower aliases found (t ∷ ts) =
    add_domains lower aliases (add_domain found (get aliases (lower t))) ts

abbrev pub max_or_three : TaxonomyFamily → ℕ
max_or_three f = elim f.max_values [ none ↦ 3 | some n ↦ n ]

-- `none` is the throw for a vocabulary without domains.
unfoldable pub classify_domains :
    (Text → Text) → List TaxonomyFamily → RuleInput → Option (List Text)
unfolding add_domains
classify_domains lower taxonomy input = do
  aliases ← aliases_for lower taxonomy (codes "domains")
  domains ← family taxonomy (codes "domains")
  some (take (max_or_three domains) (add_domains lower aliases [] input.topics))

abbrev is_k8s_topic : Text → Bool
is_k8s_topic t =
    begins (codes "kubernetes") t
    || begins (codes "k8s") t
    || begins (codes "kubectl") t
    || begins (codes "helm") t
    || begins (codes "openshift") t

abbrev worth : ℕ → Bool → ℕ
worth n b = if b then n else 0

unfoldable pub k8s_relevance : RuleInput → ℕ
unfolding manifest
k8s_relevance input = min 100 (
    worth 40 (any is_k8s_topic input.topics)
    + worth 20
        (contains_any_case (codes "kube") input.name || contains_any_case (codes "k8s") input.name)
    + worth 15 (
        contains_any_case (codes "kubernetes") (or_nothing input.description)
        || contains_any_case (codes "k8s") (or_nothing input.description))
    + worth 35 (
        contains (codes "k8s.io/") (manifest input (codes "go.mod"))
        || contains (codes "sigs.k8s.io/") (manifest input (codes "go.mod"))
        || any (λ p. is_chart_yaml p || begins (codes "config/crd/") p) input.tree))
