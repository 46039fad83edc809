-- ===== src/Analyze/Llm.antt =====
-- packages/analyze/src/llm.ts: pass 3. `client` stands for messages.create: what it answers to the
-- prompt with a correction. Confidences are hundredths; the text of the prompt is left out.
use keco.Prelude.{
  ℕ, zero, suc, Bool, true, false, ◌&&◌, Option, none, some, List, [], ◌∷◌, leb, ltb, length,
  if◌then◌else◌,
}
use keco.Prelude.Text.{Text, codes}
use keco.Core.Taxonomy.{TaxonomyFamily, family, is_value}

abbrev pub confidence_threshold : ℕ
confidence_threshold = 70

abbrev pub summary_max_chars : ℕ
summary_max_chars = 400

unfoldable pub needs_llm : ℕ → Bool
needs_llm confidence = ltb confidence confidence_threshold

pub record LlmVerdict : Type 0 where
  pub summary : Text
  pub kind : Text
  pub domains : List Text
  pub confidence : ℕ
  pub needs_review : Bool

abbrev pub passes : Option Bool → Bool
passes none = false
passes (some b) = b

-- `valueSchema`: whether a value is one of the family's.
unfoldable pub is_known : List TaxonomyFamily → Text → Text → Bool
is_known taxonomy family_id v = passes (is_value taxonomy family_id v)

unfoldable pub all_known : List TaxonomyFamily → Text → List Text → Bool
unfolding is_known
all_known taxonomy family_id [] = true
all_known taxonomy family_id (v ∷ vs) =
    is_known taxonomy family_id v && all_known taxonomy family_id vs

abbrev pub at_least : Option ℕ → ℕ → Bool
at_least none n = true
at_least (some low) n = leb low n

abbrev pub at_most : Option ℕ → ℕ → Bool
at_most none n = true
at_most (some high) n = leb n high

abbrev pub fits : Option TaxonomyFamily → ℕ → Bool
fits none n = false
fits (some f) n = at_least f.min_values n && at_most f.max_values n

-- `listSchema`: the values, and their number.
unfoldable pub is_list_of : List TaxonomyFamily → Text → List Text → Bool
unfolding all_known
is_list_of taxonomy family_id vs =
    all_known taxonomy family_id vs && fits (family taxonomy family_id) (length vs)

-- The bounds of the schema of the same name.
unfoldable pub is_verdict : List TaxonomyFamily → LlmVerdict → Bool
unfolding is_known is_list_of
is_verdict taxonomy v =
    leb (length v.summary) summary_max_chars
    && is_known taxonomy (codes "kind") v.kind
    && is_list_of taxonomy (codes "domains") v.domains
    && leb v.confidence 100

-- What an attempt comes to; `tool_use none` is an input of other types.
pub data Reply : Type 0 where
  request_failed no_tool_use : Reply
  tool_use : Option LlmVerdict → Reply

pub data Correction : Type 0 where
  first_attempt failed_request no_tool_call invalid : Correction

unfoldable pub accepted : List TaxonomyFamily → Option LlmVerdict → Option LlmVerdict
unfolding is_verdict
accepted taxonomy none = none
accepted taxonomy (some v) = if is_verdict taxonomy v then some v else none

-- A round's verdict, or the correction of the next round.
pub data Round : Type 0 where
  settled : LlmVerdict → Round
  corrected : Correction → Round

abbrev settled_or : Option LlmVerdict → Round
settled_or none = corrected invalid
settled_or (some v) = settled v

unfoldable pub round : List TaxonomyFamily → Reply → Round
unfolding accepted
round taxonomy request_failed = corrected failed_request
round taxonomy no_tool_use = corrected no_tool_call
round taxonomy (tool_use input) = settled_or (accepted taxonomy input)

-- The loop, with `n` attempts left.
unfoldable pub attempts_of :
    List TaxonomyFamily → ℕ → (Correction → Reply) → Correction → Option LlmVerdict
unfolding round
attempts_of taxonomy zero client correction = none
attempts_of taxonomy (suc n) client correction = elim (round taxonomy (client correction)) [
  | settled v ↦ some v
  | corrected next ↦ attempts_of taxonomy n client next
]

unfoldable pub classify_with_llm : List TaxonomyFamily → (Correction → Reply) → Option LlmVerdict
unfolding attempts_of
classify_with_llm taxonomy client = attempts_of taxonomy 2 client first_attempt
