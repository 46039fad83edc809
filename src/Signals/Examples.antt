-- ===== src/Signals/Examples.antt =====
-- Runs of provider.ts.
use keco.Prelude.{ℕ, ◌≡◌, refl, true, false, none, some, [], arith, ltb, if◌then◌else◌}
use keco.Prelude.Text.{codes}
use keco.Prelude.Maps.{get}
use keco.Signals.{ProviderDefinition, responded, failed, refetch, fetch}
use keco.Signals.Again.{fetch-again, fetch-forgets}

-- A provider that answers with a number, and never in its first second.
abbrev scores : ProviderDefinition ℕ
scores = record {
  name = codes "scorecard";
  ttl_seconds = 60;
  can_answer = λ key. true;
  answer = λ key now. if ltb now 1000 then failed else responded 200 (some 7);
}

fetch-again_example :
    let first = fetch (λ t. t) scores [] (codes "k9s") true 5000 in
    let second = fetch (λ t. t) scores first.cache (codes "k9s") false 64999 in
    (second.requests ≡ 0)
    × (second.cache ≡ first.cache)
    × (second.result.value ≡ first.result.value)
    × (second.result.fetched_at ≡ first.result.fetched_at)
unfolding fetch refetch get
fetch-again_example =
    fetch-again (λ t. t) scores [] (codes "k9s") true 5000 64999 refl (omega arith)

fetch-forgets_example :
    let first = fetch (λ t. t) scores [] (codes "k9s") false 0 in
    let second = fetch (λ t. t) scores first.cache (codes "k9s") false 30000 in
    (first.result.partial ≡ true) × (second.result.value ≡ none) × (second.result.partial ≡ false)
unfolding fetch refetch get
fetch-forgets_example =
    fetch-forgets (λ t. t) scores [] (codes "k9s") false 0 30000 refl (omega arith) refl
