-- ===== src/Analyze/Rules/Runtime.antt =====
-- packages/analyze/src/rules/runtime.ts: where the thing executes. Confidences are hundredths.
use keco.Prelude.{
  ℕ, ◌≤◌, ◌<◌, ◌≡◌, ◌⊎◌, inl, inr, refl, Bool, true, false, not, ◌&&◌, ◌||◌, Option, none, some,
  List, [], ◌∷◌, ◌++◌, arith, if◌then◌else◌, any,
}
use keco.Prelude.Text.{Text, codes, text_eq}
use keco.Core.Read.{includes}
use keco.Analyze.Patterns.{begins, contains, is_chart_yaml, has_kube_dependency}
use keco.Analyze.Rules.{RuleInput, manifest, is_krew}

pub record RuntimeVerdict : Type 0 where
  pub runtime : Text
  pub confidence : ℕ
  pub rule : Text

unfoldable pub declared_runtimes : List Text
declared_runtimes =
    codes "cluster-itself"
    ∷ codes "workstation"
    ∷ codes "in-cluster"
    ∷ codes "ci-pipeline"
    ∷ codes "in-your-code"
    ∷ codes "unknown"
    ∷ []

abbrev pub is_action_manifest : Text → Bool
is_action_manifest p = text_eq p (codes "action.yml") || text_eq p (codes "action.yaml")

unfoldable pub is_library : RuleInput → Bool
is_library input =
    contains (codes "k8s.io/client-go") (manifest input (codes "go.mod"))
    || contains (codes "sigs.k8s.io/controller-runtime") (manifest input (codes "go.mod"))
    || contains (codes "@kubernetes/client-node") (manifest input (codes "package.json"))
    || has_kube_dependency (manifest input (codes "Cargo.toml"))

unfoldable pub workstation_kinds : List Text
workstation_kinds = codes "cli" ∷ codes "kubectl-plugin" ∷ codes "ide-extension" ∷ []

unfoldable pub in_cluster_kinds : List Text
in_cluster_kinds =
    codes "operator" ∷ codes "controller" ∷ codes "admission-webhook" ∷ codes "helm-chart" ∷ []

-- `kind !== null && kinds.has(kind)`
abbrev pub is_kind_of : List Text → Option Text → Bool
is_kind_of kinds none = false
is_kind_of kinds (some k) = includes kinds k

abbrev pub kind_rule : Option Text → Text
kind_rule none = codes "kind:"
kind_rule (some k) = codes "kind:" ++ k

abbrev verdict : Text → ℕ → Text → RuntimeVerdict
verdict runtime confidence rule = record { runtime = runtime; confidence = confidence; rule = rule }

unfoldable pub classify_runtime : RuleInput → Option Text → RuntimeVerdict
unfolding is_library workstation_kinds in_cluster_kinds
classify_runtime input kind =
    if is_kind_of (codes "distribution" ∷ []) kind
    then verdict (codes "cluster-itself") 90 (codes "kind:distribution")
    else if any is_krew input.tree
    then verdict (codes "workstation") 90 (codes "tree:.krew.yaml")
    else if is_kind_of workstation_kinds kind
    then verdict (codes "workstation") 65 (kind_rule kind)
    else if any (λ p. is_chart_yaml p || begins (codes "config/crd/") p) input.tree
    then verdict (codes "in-cluster") 85 (codes "tree:chart-or-crd")
    else if any is_action_manifest input.tree
    then verdict (codes "ci-pipeline") 80 (codes "tree:action.yml")
    else if is_library input && not (any (begins (codes "cmd/")) input.tree)
    then verdict (codes "in-your-code") 70 (codes "manifest:library without cmd")
    else if is_kind_of in_cluster_kinds kind
    then verdict (codes "in-cluster") 60 (kind_rule kind)
    else verdict (codes "unknown") 0 (codes "none")

either : {A : Type 0} (P : A → Type 0) (b : Bool) (x y : A) → P x → P y → P (if b then x else y)
either P true x y p q = p
either P false x y p q = q

-- A verdict of a declared runtime; a verdict by the kind alone is weaker than one by the files,
-- unless it is that the repository is a distribution.
unfoldable pub IsRanked : RuntimeVerdict → Type 0
unfolding declared_runtimes includes begins
IsRanked v =
    (includes declared_runtimes v.runtime ≡ true)
    × (((v.rule ≡ codes "kind:distribution")
          × (v.runtime ≡ codes "cluster-itself")
          × (v.confidence ≡ 90))
        ⊎ ((begins (codes "kind:") v.rule ≡ true) × (60 ≤ v.confidence) × (v.confidence < 70))
        ⊎ ((begins (codes "kind:") v.rule ≡ false) × (70 ≤ v.confidence) × (v.confidence ≤ 90))
        ⊎ ((v.runtime ≡ codes "unknown") × (v.confidence ≡ 0) × (v.rule ≡ codes "none")))

begins-kind_rule : (kind : Option Text) → begins (codes "kind:") (kind_rule kind) ≡ true
unfolding begins
begins-kind_rule none = refl
begins-kind_rule (some k) = refl

by_files-IsRanked :
    (runtime rule : Text) (n : ℕ)
    → includes declared_runtimes runtime ≡ true
    → begins (codes "kind:") rule ≡ false
    → 70 ≤ n
    → n ≤ 90
    → IsRanked (verdict runtime n rule)
unfolding IsRanked
by_files-IsRanked runtime rule n d b low high = (d, inr (inr (inl (b, low, high))))

by_kind-IsRanked :
    (runtime : Text) (kind : Option Text) (n : ℕ)
    → includes declared_runtimes runtime ≡ true
    → 60 ≤ n
    → n < 70
    → IsRanked (verdict runtime n (kind_rule kind))
unfolding IsRanked
by_kind-IsRanked runtime kind n d low high = (d, inr (inl (begins-kind_rule kind, low, high)))

distribution-IsRanked : IsRanked (verdict (codes "cluster-itself") 90 (codes "kind:distribution"))
unfolding IsRanked text_eq
distribution-IsRanked = (refl, inl (refl, refl, refl))

unknown-IsRanked : IsRanked (verdict (codes "unknown") 0 (codes "none"))
unfolding IsRanked text_eq
unknown-IsRanked = (refl, inr (inr (inr (refl, refl, refl))))

-- The runtime is always a declared one, and its verdict is one of four: `cluster-itself` by the rule
-- of a distribution, with a confidence of 0.9; one by the kind alone, with 0.6 to less than 0.7; one by
-- the files, with 0.7 to 0.9; or `unknown` by no rule, with 0, which no other verdict has.
pub classify_runtime-IsRanked :
    (input : RuleInput) (kind : Option Text) → IsRanked (classify_runtime input kind)
unfolding classify_runtime declared_runtimes includes text_eq begins
classify_runtime-IsRanked input kind = either IsRanked _ _ _ distribution-IsRanked (
    either IsRanked _ _ _
      (by_files-IsRanked (codes "workstation") (codes "tree:.krew.yaml") 90 refl refl (omega arith)
        (omega arith))
      (either IsRanked _ _ _
        (by_kind-IsRanked (codes "workstation") kind 65 refl (omega arith) (omega arith))
        (either IsRanked _ _ _
          (by_files-IsRanked (codes "in-cluster") (codes "tree:chart-or-crd") 85 refl refl
            (omega arith) (omega arith))
          (either IsRanked _ _ _
            (by_files-IsRanked (codes "ci-pipeline") (codes "tree:action.yml") 80 refl refl
              (omega arith) (omega arith))
            (either IsRanked _ _ _
              (by_files-IsRanked (codes "in-your-code") (codes "manifest:library without cmd") 70
                refl refl (omega arith) (omega arith))
              (either IsRanked _ _ _
                (by_kind-IsRanked (codes "in-cluster") kind 60 refl (omega arith) (omega arith))
                unknown-IsRanked))))))
