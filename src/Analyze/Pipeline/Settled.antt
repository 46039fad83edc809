-- ===== src/Analyze/Pipeline/Settled.antt =====
-- How analyzeRepo of packages/analyze/src/analyze.ts settles a classification.
use keco.Prelude.{
  ◌≤◌, ◌<◌, ◌≡◌, ◌≢◌, ◌⊎◌, refl, inl, inr, true, false, Bool-cases, Option, none, some, List, [],
  ◌∷◌, arith,
}
use keco.Prelude.Text.{Text, codes}
use keco.Core.Taxonomy.{TaxonomyFamily}
use keco.Analyze.Rules.{RuleInput, RuleVerdict}
use keco.Analyze.Llm.{
  LlmVerdict, Reply, Correction, Round, settled, corrected, round, accepted, attempts_of, tool_use,
  request_failed, no_tool_use, classify_with_llm, is_verdict, needs_llm, first_attempt,
  failed_request, no_tool_call, invalid,
}
use keco.Analyze.Pipeline.{
  Classified, Llm, rules, llm, is_ambiguous, classified, confidence_of, kind_of, kind_or_fallback,
  domains_or_fallback, by_llm, by_rules, unsettled,
}

-- A verdict that is used passes its schema.
abbrev pub IsAccepted : List TaxonomyFamily → Option LlmVerdict → Type 0
IsAccepted taxonomy none = Unit
IsAccepted taxonomy (some v) = is_verdict taxonomy v ≡ true

-- A reply that holds no verdict that passes, and the correction that it calls for.
abbrev pub IsRefused : List TaxonomyFamily → Reply → Correction → Type 0
IsRefused taxonomy request_failed next = next ≡ failed_request
IsRefused taxonomy no_tool_use next = next ≡ no_tool_call
IsRefused taxonomy (tool_use none) next = next ≡ invalid
IsRefused taxonomy (tool_use (some v)) next = (is_verdict taxonomy v ≡ false) × (next ≡ invalid)

abbrev pub IsVerdictOf : List TaxonomyFamily → Reply → LlmVerdict → Type 0
IsVerdictOf taxonomy reply v = (reply ≡ tool_use (some v)) × (is_verdict taxonomy v ≡ true)

-- What a client comes to that is asked at most twice: the verdict of its first reply, or that of the
-- second, to which the correction of the first is sent, or none.
abbrev pub IsAnswer : List TaxonomyFamily → (Correction → Reply) → Option LlmVerdict → Type 0
IsAnswer taxonomy client (some v) =
    IsVerdictOf taxonomy (client first_attempt) v
    ⊎ ((next : Correction) × IsRefused taxonomy (client first_attempt) next
        × IsVerdictOf taxonomy (client next) v)
IsAnswer taxonomy client none =
    (next : Correction) × (last : Correction) × IsRefused taxonomy (client first_attempt) next
    × IsRefused taxonomy (client next) last

-- A round settles on the verdict of its reply, or refuses it.
abbrev IsRound : List TaxonomyFamily → Reply → Round → Type 0
IsRound taxonomy reply (settled v) = IsVerdictOf taxonomy reply v
IsRound taxonomy reply (corrected next) = IsRefused taxonomy reply next

round-IsRound :
    (taxonomy : List TaxonomyFamily) (reply : Reply) → IsRound taxonomy reply (round taxonomy reply)
unfolding round accepted
round-IsRound taxonomy request_failed = refl
round-IsRound taxonomy no_tool_use = refl
round-IsRound taxonomy (tool_use none) = refl
round-IsRound taxonomy (tool_use (some v)) = elim (Bool-cases (is_verdict taxonomy v)) [
  | inl passed ↦ rw passed (refl, passed)
  | inr failed ↦ rw failed (failed, refl)
]

abbrev after_round : (Correction → Option LlmVerdict) → Round → Option LlmVerdict
after_round next (settled v) = some v
after_round next (corrected c) = next c

second-IsAnswer :
    (taxonomy : List TaxonomyFamily) (client : Correction → Reply) (next : Correction) (r : Round)
    → IsRefused taxonomy (client first_attempt) next
    → IsRound taxonomy (client next) r
    → IsAnswer taxonomy client (after_round (λ c. none) r)
second-IsAnswer taxonomy client next (settled v) refused h = inr (next, refused, h)
second-IsAnswer taxonomy client next (corrected last) refused h = (next, last, refused, h)

first-IsAnswer :
    (taxonomy : List TaxonomyFamily) (client : Correction → Reply) (r : Round)
    → IsRound taxonomy (client first_attempt) r
    → IsAnswer taxonomy client
        (after_round (λ c. after_round (λ d. none) (round taxonomy (client c))) r)
first-IsAnswer taxonomy client (settled v) h = inl h
first-IsAnswer taxonomy client (corrected next) h =
    second-IsAnswer taxonomy client next (round taxonomy (client next)) h
      (round-IsRound taxonomy (client next))

pub classify_with_llm-IsAnswer :
    (taxonomy : List TaxonomyFamily) (client : Correction → Reply)
    → IsAnswer taxonomy client (classify_with_llm taxonomy client)
unfolding classify_with_llm attempts_of
classify_with_llm-IsAnswer taxonomy client =
    first-IsAnswer taxonomy client (round taxonomy (client first_attempt))
      (round-IsRound taxonomy (client first_attempt))

answer-IsAccepted :
    (taxonomy : List TaxonomyFamily) (client : Correction → Reply) (v : Option LlmVerdict)
    → IsAnswer taxonomy client v
    → IsAccepted taxonomy v
answer-IsAccepted taxonomy client none h = tt
answer-IsAccepted taxonomy client (some v) (inl h) = h.1
answer-IsAccepted taxonomy client (some v) (inr (next, refused, h)) = h.1

pub classify_with_llm-IsAccepted :
    (taxonomy : List TaxonomyFamily) (client : Correction → Reply)
    → IsAccepted taxonomy (classify_with_llm taxonomy client)
classify_with_llm-IsAccepted taxonomy client =
    answer-IsAccepted taxonomy client _ (classify_with_llm-IsAnswer taxonomy client)

-- The domains of the topics, or the fallback where there are none.
abbrev pub IsFilled : List Text → List Text → Type 0
IsFilled [] filled = filled ≡ codes "dev-experience" ∷ []
IsFilled (d ∷ ds) filled = filled ≡ d ∷ ds

domains_or_fallback-IsFilled : (ds : List Text) → IsFilled ds (domains_or_fallback ds)
domains_or_fallback-IsFilled [] = refl
domains_or_fallback-IsFilled (d ∷ ds) = refl

-- What is made of the model's answer.
abbrev pub IsTaken : List Text → Option LlmVerdict → Classified → Type 0
IsTaken domains (some v) c =
    (c.summary ≡ v.summary)
    × (c.kind ≡ v.kind)
    × (c.domains ≡ v.domains)
    × (c.confidence ≡ v.confidence)
    × (c.needs_review ≡ v.needs_review)
IsTaken domains none c =
    (c.summary ≡ [])
    × (c.kind ≡ codes "service")
    × IsFilled domains c.domains
    × (c.confidence ≡ 30)
    × (c.needs_review ≡ true)

module _ (taxonomy : List TaxonomyFamily) (best : Option RuleVerdict) (domains : List Text)
    (deps : Option Llm) where
  -- The rules alone: a confidence of 0.7 at least and a domain, and the kind of the first rule.
  pub record IsByRules (c : Classified) : Type 0 where
    pub kind : some c.kind ≡ kind_of best
    pub domains_same : c.domains ≡ domains
    pub some_domain : domains ≢ []
    pub confidence : c.confidence ≡ confidence_of best
    pub enough : 70 ≤ c.confidence
    pub method : c.method ≡ rules
    pub review : c.needs_review ≡ false

  -- No model is asked: what the rules say, with their confidence, for review.
  pub record IsUnasked (c : Classified) : Type 0 where
    pub no_model : deps ≡ none
    pub kind : c.kind ≡ kind_or_fallback best
    pub domains_filled : IsFilled domains c.domains
    pub confidence : c.confidence ≡ confidence_of best
    pub method : c.method ≡ rules
    pub review : c.needs_review ≡ true

  -- The model is asked, twice at most: its verdict is taken whole, or where there is none the fallback
  -- kind is given with a confidence of 0.3, for review.
  pub record IsAsked (l : Llm) (c : Classified) : Type 0 where
    pub method : c.method ≡ llm
    pub model : c.model ≡ some l.model
    pub given : Option LlmVerdict
    pub answer : IsAnswer taxonomy l.client given
    pub taken : IsTaken domains given c

by_llm-IsAsked :
    (taxonomy : List TaxonomyFamily) (best : Option RuleVerdict) (domains : List Text)
    (deps : Option Llm) (l : Llm) (v : Option LlmVerdict)
    → IsAnswer taxonomy l.client v
    → IsAsked taxonomy best domains deps l (by_llm l.model domains v)
by_llm-IsAsked taxonomy best domains deps l none h = record {
  method = refl;
  model = refl;
  given = none;
  answer = h;
  taken = (refl, refl, domains_or_fallback-IsFilled domains, refl, refl);
}
by_llm-IsAsked taxonomy best domains deps l (some v) h = record {
  method = refl;
  model = refl;
  given = some v;
  answer = h;
  taken = (refl, refl, refl, refl, refl);
}

by_rules-IsByRules :
    (taxonomy : List TaxonomyFamily) (input : RuleInput) (best : Option RuleVerdict)
    (domains : List Text) (deps : Option Llm)
    → is_ambiguous best domains ≡ false
    → IsByRules taxonomy best domains deps (by_rules input best domains false)
unfolding is_ambiguous needs_llm
by_rules-IsByRules taxonomy input none domains deps h = cc
by_rules-IsByRules taxonomy input (some v) [] deps h = absurd (ground arith)
by_rules-IsByRules taxonomy input (some v) (d ∷ ds) deps h = record {
  kind = refl;
  domains_same = refl;
  some_domain = λ e. cc;
  confidence = refl;
  enough = ground arith;
  method = refl;
  review = refl;
}

unsettled-IsUnsettled :
    (taxonomy : List TaxonomyFamily) (input : RuleInput) (best : Option RuleVerdict)
    (domains : List Text) (deps : Option Llm)
    → let c = unsettled taxonomy input best domains deps in
      IsUnasked taxonomy best domains deps c
      ⊎ ((l : Llm) × (deps ≡ some l) × IsAsked taxonomy best domains deps l c)
unsettled-IsUnsettled taxonomy input best domains none = inl (record {
  no_model = refl;
  kind = refl;
  domains_filled = domains_or_fallback-IsFilled domains;
  confidence = refl;
  method = refl;
  review = refl;
})
unsettled-IsUnsettled taxonomy input best domains (some l) = inr (
  l,
  refl,
  by_llm-IsAsked taxonomy best domains (some l) l _ (classify_with_llm-IsAnswer taxonomy l.client),
)

-- What the rules leave open: a confidence below 0.7, or no domain.
abbrev pub IsOpen : Option RuleVerdict → List Text → Type 0
IsOpen best domains = (confidence_of best < 70) ⊎ (domains ≡ [])

ambiguous-IsOpen :
    (best : Option RuleVerdict) (domains : List Text)
    → is_ambiguous best domains ≡ true
    → IsOpen best domains
unfolding is_ambiguous needs_llm
ambiguous-IsOpen best [] h = inr refl
ambiguous-IsOpen best (d ∷ ds) h = inl (ground arith)

-- A repository is classified in one of three ways. Where the first rule that fires has a
-- confidence of 0.7 at least and the topics give a domain, by the rules alone: the kind of that
-- rule, and no review. Where not, and no model is configured, by the rules with the confidence
-- that they have, for review. Else by the model, which is asked once, and where that reply holds no
-- verdict that passes its schema once more, with the correction that it calls for: the verdict is taken
-- whole, and after two replies without one it is the fallback kind with a confidence of 0.3, for review.
pub classified-settled :
    (taxonomy : List TaxonomyFamily) (input : RuleInput) (best : Option RuleVerdict)
    (domains : List Text) (deps : Option Llm)
    → let c = classified taxonomy input best domains deps in
      IsByRules taxonomy best domains deps c
      ⊎ (IsOpen best domains × IsUnasked taxonomy best domains deps c)
      ⊎ (IsOpen best domains
          × ((l : Llm) × (deps ≡ some l) × IsAsked taxonomy best domains deps l c))
unfolding classified
classified-settled taxonomy input best domains deps =
    elim (Bool-cases (is_ambiguous best domains)) [
      | inl open_question ↦
          let left = ambiguous-IsOpen best domains open_question in
          rw open_question (elim (unsettled-IsUnsettled taxonomy input best domains deps) [
            | inl unasked ↦ inr (inl (left, unasked))
            | inr asked ↦ inr (inr (left, asked))
          ])
      | inr settled_by_rules ↦
          rw settled_by_rules
            (inl (by_rules-IsByRules taxonomy input best domains deps settled_by_rules))
    ]
